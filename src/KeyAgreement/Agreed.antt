-- ===== src/KeyAgreement/Agreed.antt =====
-- Two parties agree: on the secret of X3DH, on a wrapped key, and on the text of a message.
use messages.KeyAgreement.{◌>>=◌}
use messages.KeyAgreement.Exchange.{x3dh_secret, perform_x3dh_responder, perform_x3dh}
use messages.KeyAgreement.{
  x25519_shared_secret, message_encrypt, message_decrypt, is_zero, demand, decode_sized, check_that,
  aes_gcm_encrypt, aes_gcm_decrypt, Suite,
}
use messages.Ratchet.{success_eq, success, key_agreement_failed, RatchetError, Outcome, Bytes}
use messages.Base.{
  ◌≡◌, ◌∷◌, ℕ, zero, true, take, suc, subst, some, refl, length, false, drop, arith, ap, [], Text,
  Bool, ◌++◌,
}

pub check_passed {ℓ} :
    {A : Type ℓ} (b : Bool) (e : RatchetError) (x : Outcome A)
    → b ≡ true
    → (check_that b e >>= λ _. x) ≡ x
check_passed b e x h = rw h refl

-- Curve25519: what one private key makes of the public key of another is what the other makes of
-- the public key of the first.
abbrev pub Commutes : Suite → Type 0
Commutes s =
    (a b pa pb : Bytes)
    → s.x25519 a s.basepoint ≡ some pa
    → s.x25519 b s.basepoint ≡ some pb
    → s.x25519 a pb ≡ s.x25519 b pa

module _ (s : Suite) where
  -- A key pair whose public key is not zero.
  pub record KeyPair (private_key public_key : Bytes) : Type 0 where
    pub from_base : s.x25519 private_key s.basepoint ≡ some public_key
    pub not_zero : is_zero public_key ≡ false

  pub shared_lem :
      Commutes s
      → (a pa b pb : Bytes) → KeyPair a pa
      → KeyPair b pb
      → x25519_shared_secret s a pb ≡ x25519_shared_secret s b pa
  unfolding x25519_shared_secret
  shared_lem comm a pa b pb ka kb =
      rw (ka.not_zero, kb.not_zero)
        (ap (demand key_agreement_failed) (comm a b pa pb ka.from_base kb.from_base))

  -- Where the agreement gives both sides one secret, the sender and the recipient of X3DH with a
  -- one-time prekey come to the same secret, or both fail, if every public key is that of its private
  -- key and none of the sender's private keys nor the private prekey is zero.
  pub perform_x3dh-perform_x3dh_responder :
      Commutes s
      → (ia pia ea pea ib pib sb psb ob pob : Bytes) → KeyPair ia pia
      → KeyPair ea pea
      → KeyPair ib pib
      → KeyPair sb psb
      → KeyPair ob pob
      → is_zero ia ≡ false
      → is_zero ea ≡ false
      → is_zero ob ≡ false
      → perform_x3dh s (record {
        sender_identity_private = ia;
        sender_identity_public = pia;
        sender_ephemeral_private = ea;
        sender_ephemeral_public = pea;
        recipient_identity_public = pib;
        recipient_signed_prekey = psb;
        recipient_one_time_prekey = pob;
      })
        ≡ perform_x3dh_responder s pea ib sb ob pia
  unfolding perform_x3dh perform_x3dh_responder x3dh_secret
  perform_x3dh-perform_x3dh_responder comm ia pia ea pea ib pib sb psb ob pob kia kea kib ksb kob
        nia nea nob =
      rw
        (
          nia,
          nea,
          nob,
          kib.not_zero,
          ksb.not_zero,
          kob.not_zero,
          kia.not_zero,
          kea.not_zero,
          comm ia ib pia pib kia.from_base kib.from_base,
          comm ea sb pea psb kea.from_base ksb.from_base,
          comm ea ib pea pib kea.from_base kib.from_base,
          comm ea ob pea pob kea.from_base kob.from_base,
        )
        refl

  pub take_front : (n : ℕ) (xs ys : Bytes) → length xs ≡ n → take n (xs ++ ys) ≡ xs
  take_front zero [] ys h = refl
  take_front zero (x ∷ xs) ys h = absurd (omega arith)
  take_front (suc n) [] ys h = absurd (omega arith)
  take_front (suc n) (x ∷ xs) ys h = ap (λ t. x ∷ t) (take_front n xs ys (omega arith))

  pub drop_front : (n : ℕ) (xs ys : Bytes) → length xs ≡ n → drop n (xs ++ ys) ≡ ys
  drop_front zero [] ys h = refl
  drop_front zero (x ∷ xs) ys h = absurd (omega arith)
  drop_front (suc n) [] ys h = absurd (omega arith)
  drop_front (suc n) (x ∷ xs) ys h = drop_front n xs ys (omega arith)

  -- What the encoding in base64 and AES-GCM promise.
  pub record Faithful : Type 0 where
    pub decodes : (b : Bytes) → s.decode (s.encode b) ≡ some b
    pub opens :
        (key nonce text : Bytes)
        → s.ciphers.unseal key nonce (s.ciphers.seal key nonce text) ≡ some text

  pub decode_sized-encode :
      Faithful → (n : ℕ) (b : Bytes) → length b ≡ n → decode_sized s n (s.encode b) ≡ success b
  unfolding decode_sized
  decode_sized-encode f n b h = rw (f.decodes b) (ground arith)

  -- A message opens again under the key under which it was sealed, whatever the nonce of twelve
  -- bytes that was drawn.
  pub message_decrypt-message_encrypt :
      Faithful
      → (key text nonce : Bytes) (sealed : Text × Text) → length nonce ≡ 12
      → message_encrypt s key text (some nonce) ≡ success sealed
      → message_decrypt s key sealed.0 sealed.1 ≡ success text
  unfolding message_encrypt message_decrypt aes_gcm_encrypt aes_gcm_decrypt
  message_decrypt-message_encrypt f key text nonce sealed h e =
      subst (λ (x : Text × Text). message_decrypt s key x.0 x.1 ≡ success text)
        (success_eq (s.encode (s.ciphers.seal key nonce text), s.encode nonce) sealed e)
        (rw
          (
            f.decodes (s.ciphers.seal key nonce text),
            decode_sized-encode f 12 nonce h,
            f.opens key nonce text,
          )
          refl)
