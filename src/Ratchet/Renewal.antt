-- ===== src/Ratchet/Renewal.antt =====
-- The start of a ratchet, its renewal by a new root key, and its way through a session.
use messages.Base.{
  some_eq, subst, not, length, ◌==◌, ◌+◌, ◌∙◌, true, if◌then◌else◌, if◌then◌else◌, false,
  if◌then◌else◌, Bool, ◌≡◌, sym, some, refl, none, arith, Option,
}
use messages.Ratchet.Agreement.{InStep}
use messages.Ratchet.{
  Session, success, ratchet_dh, next_root, initialize_as_receiver, initialize, fresh_ratchet,
  failure, both, RatchetError, Outcome, Crypto, Bytes, session_of_ratchet, sender_chain,
  root_key_size, renew, receiver_chain, ratchet_of_session, ratchet_dh, next_root, fresh_ratchet,
  initialize_as_receiver, initialize, failure, both, RatchetError, Outcome, Crypto, Bytes, success,
  session_of_ratchet, receiver_chain, ratchet_of_session, ratchet_dh, initialize_as_receiver,
  initialize, both, Ratchet, Crypto, Bytes,
}

success_eq : (x y : Ratchet) → success x ≡ success y → x ≡ y
success_eq x y q = cc

both_success :
    (o p : Option Bytes) (make : Bytes → Bytes → Ratchet) (a : Ratchet)
    → both o p make ≡ success a
    → (u : Bytes) × (v : Bytes) × (o ≡ some u) × (p ≡ some v) × (a ≡ make u v)
both_success none p make a h = cc
both_success (some u) none make a h = cc
both_success (some u) (some v) make a h = (u, v, refl, refl, sym (success_eq (make u v) a h))

not_failed :
    (b : Bool) (e : RatchetError) (x : Outcome Ratchet) (a : Ratchet)
    → (if b then failure e else x) ≡ success a
    → x ≡ success a
not_failed true e x a h = cc
not_failed false e x a h = h

module _ (c : Crypto) where
  -- The two parties of one root key start in step in both directions.
  pub initialize-InStep :
      (root : Bytes) (a b : Ratchet)
      → initialize c root ≡ success a
      → initialize_as_receiver c root ≡ success b
      → InStep a b × InStep b a
  unfolding initialize initialize_as_receiver
  initialize-InStep root a b h k =
      let (u, v, hu, hv, ea) =
        both_success (c.hkdf_expand root sender_chain) (c.hkdf_expand root receiver_chain)
          (fresh_ratchet root 0) a (not_failed (not (length root == 32)) root_key_size _ a h) in
      let (u', v', hu', hv', eb) =
        both_success (c.hkdf_expand root sender_chain) (c.hkdf_expand root receiver_chain)
          (λ x y. fresh_ratchet root 0 y x) b
          (not_failed (not (length root == 32)) root_key_size _ b k) in
      let same_u = some_eq u u' (sym hu ∙ hu') in
      let same_v = some_eq v v' (sym hv ∙ hv') in rw (ea, eb) ((same_u, refl), (sym same_v, refl))

  renewed_chains :
      (o : Option Bytes) (a b a' b' : Ratchet)
      → renew c a o ≡ success a'
      → renew c b o ≡ success b'
      → (a'.root_key ≡ b'.root_key)
        × (a'.send_chain_key ≡ b'.send_chain_key)
        × (a'.recv_chain_key ≡ b'.recv_chain_key)
  renewed_chains none a b a' b' h k = cc
  renewed_chains (some root) a b a' b' h k =
      let (u, v, hu, hv, ea) =
        both_success (c.hkdf_expand root sender_chain) (c.hkdf_expand root receiver_chain)
          (fresh_ratchet root (a.dh_ratchet_counter + 1)) a' h in
      let (u', v', hu', hv', eb) =
        both_success (c.hkdf_expand root sender_chain) (c.hkdf_expand root receiver_chain)
          (fresh_ratchet root (b.dh_ratchet_counter + 1)) b' k in
      rw (ea, eb) (refl, some_eq u u' (sym hu ∙ hu'), some_eq v v' (sym hv ∙ hv'))

  -- Two parties that share a root key and renew it with one public key share a root key again, but
  -- send on one chain and receive on one chain, whichever of them began.
  pub ratchet_dh_chains :
      (public_key : Bytes) (a b a' b' : Ratchet)
      → a.root_key ≡ b.root_key
      → ratchet_dh c public_key a ≡ success a'
      → ratchet_dh c public_key b ≡ success b'
      → (a'.root_key ≡ b'.root_key)
        × (a'.send_chain_key ≡ b'.send_chain_key)
        × (a'.recv_chain_key ≡ b'.recv_chain_key)
  unfolding ratchet_dh
  ratchet_dh_chains public_key a b a' b' same h k =
      renewed_chains (next_root c b.root_key public_key) a b a' b'
        (subst (λ root. renew c a (next_root c root public_key) ≡ success a') same h) k

  -- A ratchet that is kept in a session comes back with its root key and its sending chain, but
  -- receives under the index that it sent under, on the first chain of its root key.
  pub ratchet_of_session-session_of_ratchet :
      (session : Session) (a a' : Ratchet)
      → ratchet_of_session c (session_of_ratchet session a) ≡ success a'
      → (a'.root_key ≡ a.root_key)
        × (a'.send_chain_key ≡ a.send_chain_key)
        × (a'.send_message_index ≡ a.send_message_index)
        × (a'.recv_message_index ≡ a.send_message_index)
        × (c.hkdf_expand a.root_key receiver_chain ≡ some a'.recv_chain_key)
  unfolding ratchet_of_session session_of_ratchet
  ratchet_of_session-session_of_ratchet session a a' h = ground arith
