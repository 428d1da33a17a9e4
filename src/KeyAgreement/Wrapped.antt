-- ===== src/KeyAgreement/Wrapped.antt =====
-- What a wrapped session key opens to, and what becomes of a message to a group.
use messages.KeyAgreement.Agreed.{drop_front, take_front, decode_sized-encode}
use messages.KeyAgreement.Exchange.{wrap_key, unwrap_session_key, generate_recipient_wrapped_key}
use messages.KeyAgreement.{
  x25519_shared_secret, x25519_keypair, aes_gcm_encrypt, aes_gcm_decrypt, Suite,
}
use messages.KeyAgreement.Agreed.{shared_lem, KeyPair, Faithful, Commutes}
use messages.Ratchet.{
  success_eq, success, failure, derivation_failed, Ratchet, Outcome-cases, Bytes,
}
use messages.Base.{
  ◌≡◌, ◌∙◌, true, sym, some, refl, length-append, length, leb, inr, inl, arith, ap, Text,
  Option-cases, ◌++◌,
}

module _ (s : Suite) where
  abbrev sealed_under : Bytes → Bytes → Bytes → Bytes → Bytes → Text × Text
  sealed_under key content public_key nonce info =
      (s.encode (public_key ++ s.ciphers.seal key nonce content), s.encode nonce)

  -- What a wrapping that succeeds has computed.
  pub record WrapMade (info content recipient er epub nonce : Bytes) (w : Text × Text)
      : Type 0 where
    pub shared : Bytes
    pub key : Bytes
    pub agreed : x25519_shared_secret s er recipient ≡ success shared
    pub derived : s.ciphers.hkdf_expand shared info ≡ some key
    pub sealed : w ≡ (s.encode (epub ++ s.ciphers.seal key nonce content), s.encode nonce)

  wrap_key-WrapMade :
      Faithful s
      → (info content recipient er epub nonce : Bytes) (w : Text × Text) → length recipient ≡ 32
      → s.x25519 er s.basepoint ≡ some epub
      → wrap_key s info content (s.encode recipient) (some er) (some nonce) ≡ success w
      → WrapMade info content recipient er epub nonce w
  unfolding wrap_key x25519_keypair aes_gcm_encrypt
  wrap_key-WrapMade f info content recipient er epub nonce w hl he h =
      elim (Outcome-cases (x25519_shared_secret s er recipient)) [
        | inl (e, failing) ↦
            let clash : failure e ≡ success w =
              sym (rw (wrap_key, decode_sized-encode s f 32 recipient hl, he, failing) refl) ∙ h in
            absurd cc
        | inr (shared, agreed) ↦ elim (Option-cases (s.ciphers.hkdf_expand shared info)) [
          | inl missing ↦
              let clash : failure derivation_failed ≡ success w =
                sym
                  (rw (wrap_key, decode_sized-encode s f 32 recipient hl, he, agreed, missing) refl)
                ∙ h in
              absurd cc
          | inr (key, derived) ↦ record {
            shared = shared;
            key = key;
            agreed = agreed;
            derived = derived;
            sealed = success_eq _ _ (
                sym h
                ∙ rw (wrap_key, decode_sized-encode s f 32 recipient hl, he, agreed, derived) refl);
          }
        ]
      ]

  -- The recipient's side of the agreement up to the sealed key.
  unwrapped :
      Faithful s
      → Commutes s
      → (info content rp rpub er epub nonce : Bytes) (w : Text × Text) (dr : Ratchet) (key' : Bytes)
      → (wrapping : WrapMade info content rpub er epub nonce w) → KeyPair s rp rpub
      → KeyPair s er epub
      → length rp ≡ 32
      → length epub ≡ 32
      → length nonce ≡ 12
      → s.ciphers.hkdf_expand wrapping.shared dr.root_key ≡ some key'
      → unwrap_session_key s (s.encode rp) w.0 w.1 (some dr)
        ≡ aes_gcm_decrypt s key' (s.ciphers.seal wrapping.key nonce content) nonce
  unfolding unwrap_session_key
  unwrapped f comm info content rp rpub er epub nonce w dr key' wrapping kr ke lr le ln hk =
      let agreed' : x25519_shared_secret s rp epub ≡ success wrapping.shared =
        shared_lem s comm rp rpub er epub kr ke ∙ wrapping.agreed in
      let long : leb 32 (length (epub ++ s.ciphers.seal wrapping.key nonce content)) ≡ true =
        ground (arith, length-append epub (s.ciphers.seal wrapping.key nonce content)) in
      rw
        (
          wrapping.sealed,
          decode_sized-encode s f 32 rp lr,
          f.decodes (epub ++ s.ciphers.seal wrapping.key nonce content),
          long,
          decode_sized-encode s f 12 nonce ln,
          take_front s 32 epub (s.ciphers.seal wrapping.key nonce content) le,
          drop_front s 32 epub (s.ciphers.seal wrapping.key nonce content) le,
          agreed',
          hk,
        )
        refl

  -- Where what was sealed opens again and the agreement gives both sides one secret, a recipient
  -- whose state has the sender's root key unwraps the sender's root key, if the keys and the nonce
  -- have the lengths that the code checks.
  pub unwrap_session_key-generate_recipient_wrapped_key :
      Faithful s
      → Commutes s
      → (rp rpub er epub nonce : Bytes) (w : Text × Text) (dr dr' : Ratchet) → KeyPair s rp rpub
      → KeyPair s er epub
      → length rp ≡ 32
      → length rpub ≡ 32
      → length epub ≡ 32
      → length nonce ≡ 12
      → dr'.root_key ≡ dr.root_key
      → generate_recipient_wrapped_key s (s.encode rpub) (some dr) (some er) (some nonce)
        ≡ success w
      → unwrap_session_key s (s.encode rp) w.0 w.1 (some dr') ≡ success dr.root_key
  unfolding generate_recipient_wrapped_key aes_gcm_decrypt
  unwrap_session_key-generate_recipient_wrapped_key f comm rp rpub er epub nonce w dr dr' kr ke lr
        lp le ln same_root h =
      let wrapping =
        wrap_key-WrapMade f dr.root_key dr.root_key rpub er epub nonce w lp ke.from_base h in
      unwrapped f comm dr.root_key dr.root_key rp rpub er epub nonce w dr' wrapping.key wrapping kr
        ke lr le ln (ap (s.ciphers.hkdf_expand wrapping.shared) same_root ∙ wrapping.derived)
      ∙ rw (aes_gcm_decrypt, f.opens wrapping.key nonce dr.root_key) refl

  -- HKDF gives a key for every secret and every information.
  abbrev pub Derives : Type 0
  Derives = (secret info : Bytes) → (key : Bytes) × (s.ciphers.hkdf_expand secret info ≡ some key)

  -- The cipher opens under the key for one root key what was sealed under the key for another.
  pub record OpensOther (er rpub root other nonce : Bytes) : Type 0 where
    pub shared : Bytes
    pub key : Bytes
    pub other_key : Bytes
    pub opened : Bytes
    pub agreed : x25519_shared_secret s er rpub ≡ success shared
    pub derived : s.ciphers.hkdf_expand shared root ≡ some key
    pub other_derived : s.ciphers.hkdf_expand shared other ≡ some other_key
    pub opens : s.ciphers.unseal other_key nonce (s.ciphers.seal key nonce root) ≡ some opened
