-- ===== src/Ratchet.antt =====
-- The double ratchet of the gateway
-- (ohmf/services/gateway/internal/e2ee/double_ratchet.go), with ChainKeyDerive, HKDFExtractExpand,
-- AESGCMEncrypt and AESGCMDecrypt of crypto.go. A key is 32 bytes and a nonce is 12; an index is a
-- number that no chain brings to 2 ^ 63.
use messages.Base.{inl, inr, ◌⊎◌, refl}
use messages.Base.{◌≡◌}
use messages.Text.{codes}
use messages.Base.{
  ◌∷◌, ℤ, ℕ, zero, if◌then◌else◌, suc, some, pos, not, none, negsuc, ltb, length, if◌then◌else◌,
  if◌then◌else◌, [], Option, List, ◌==◌, ◌-◌, ◌++◌, ◌+◌,
}
pub mod Agreement
pub mod Skipped
pub mod Order
pub mod Renewal
pub mod Examples

abbrev pub Bytes : Type 0
Bytes = List ℕ

-- HMAC-SHA256, the expansion of HKDF to 32 bytes, and AES-256-GCM without associated data.
pub record Crypto : Type 0 where
  pub hmac : Bytes → Bytes → Bytes
  pub hkdf_expand : Bytes → Bytes → Option Bytes
  pub seal : Bytes → Bytes → Bytes → Bytes
  pub unseal : Bytes → Bytes → Bytes → Option Bytes

-- DoubleRatchetState
pub record Ratchet : Type 0 where
  pub root_key : Bytes
  pub send_chain_key : Bytes
  pub recv_chain_key : Bytes
  pub send_message_index : ℕ
  pub recv_message_index : ℕ
  pub dh_ratchet_counter : ℕ

pub data RatchetError : Type 0 where
  root_key_size chain_key_size derivation_failed : RatchetError
  behind too_far_ahead encryption_failed decryption_failed : RatchetError
  -- Those of crypto.go and group_encryption.go.
  nil_state bad_encoding wrong_size empty_key key_agreement_failed no_randomness : RatchetError
  not_saved no_members recipient_mismatch recipient_missing : RatchetError

pub data Outcome {ℓ} (A : Type ℓ) : Type ℓ where
  success : A → Outcome A
  failure : RatchetError → Outcome A

-- The part of a Session that the ratchet is kept in, and its session key, which is NULL where it is
-- nil.
pub record Session : Type 0 where
  pub session_key_bytes : Option Bytes
  pub root_key_bytes : Bytes
  pub chain_key_bytes : Bytes
  pub message_key_index : ℕ

abbrev pub sender_chain : Bytes
sender_chain = codes "sender-chain"

abbrev pub receiver_chain : Bytes
receiver_chain = codes "receiver-chain"

pub Outcome-cases {ℓ} :
    {A : Type ℓ} (x : Outcome A)
    → ((e : RatchetError) × (x ≡ failure e)) ⊎ ((a : A) × (x ≡ success a))
Outcome-cases (failure e) = inl (e, refl)
Outcome-cases (success a) = inr (a, refl)

pub success_eq {ℓ} : {A : Type ℓ} (a b : A) → success a ≡ success b → a ≡ b
success_eq a b h = cc

abbrev pub both {ℓ} : {A : Type ℓ} → Option Bytes → Option Bytes → (Bytes → Bytes → A) → Outcome A
both (some a) (some b) make = success (make a b)
both _ _ make = failure derivation_failed

-- What a ratchet has at the start of its chains.
abbrev pub fresh_ratchet : Bytes → ℕ → Bytes → Bytes → Ratchet
fresh_ratchet root counter send recv = record {
  root_key = root;
  send_chain_key = send;
  recv_chain_key = recv;
  send_message_index = 0;
  recv_message_index = 0;
  dh_ratchet_counter = counter;
}

module _ (c : Crypto) where
  -- The key of the message, and the next key of the chain.
  abbrev pub chain_key_derive : Bytes → Bytes × Bytes
  chain_key_derive key = (c.hmac key (1 ∷ []), c.hmac key (2 ∷ []))

  unfoldable pub initialize : Bytes → Outcome Ratchet
  initialize root =
      if not (length root == 32)
      then failure root_key_size
      else both (c.hkdf_expand root sender_chain) (c.hkdf_expand root receiver_chain)
          (fresh_ratchet root 0)

  -- The chains are swapped.
  unfoldable pub initialize_as_receiver : Bytes → Outcome Ratchet
  initialize_as_receiver root =
      if not (length root == 32)
      then failure root_key_size
      else both (c.hkdf_expand root sender_chain) (c.hkdf_expand root receiver_chain)
          (λ send recv. fresh_ratchet root 0 recv send)

  -- RatchetSendMessageKey, which never fails
  unfoldable pub send_message_key : Ratchet → Bytes × Ratchet
  send_message_key dr = (
    (chain_key_derive dr.send_chain_key).0,
    record dr {
      send_chain_key = (chain_key_derive dr.send_chain_key).1;
      send_message_index = dr.send_message_index + 1;
    },
  )

  -- The loop over the messages that were skipped.
  unfoldable pub skip_keys : ℕ → Bytes → Bytes
  skip_keys zero key = key
  skip_keys (suc n) key = skip_keys n (chain_key_derive key).1

  unfoldable pub recv_message_key : ℤ → Ratchet → Outcome (Bytes × Ratchet)
  unfolding skip_keys
  recv_message_key (negsuc n) dr = failure behind
  recv_message_key (pos index) dr =
      let key = skip_keys (index - dr.recv_message_index) dr.recv_chain_key in
      if ltb index dr.recv_message_index
      then failure behind
      else if ltb (dr.recv_message_index + 10000) index
      then failure too_far_ahead
      else success (
        (chain_key_derive key).0,
        record dr { recv_chain_key = (chain_key_derive key).1; recv_message_index = index + 1 },
      )

  -- The root key and the public key are written one behind the other into 64 bytes.
  unfoldable pub next_root : Bytes → Bytes → Option Bytes
  next_root root public_key = c.hkdf_expand (c.hmac [] (root ++ public_key)) (codes "root-ratchet")

  abbrev pub renew : Ratchet → Option Bytes → Outcome Ratchet
  renew dr none = failure derivation_failed
  renew dr (some root) =
      both (c.hkdf_expand root sender_chain) (c.hkdf_expand root receiver_chain)
        (fresh_ratchet root (dr.dh_ratchet_counter + 1))

  unfoldable pub ratchet_dh : Bytes → Ratchet → Outcome Ratchet
  unfolding next_root
  ratchet_dh public_key dr = renew dr (next_root dr.root_key public_key)

  -- `nonce` is what the random source answers. The chain has moved on where that fails.
  unfoldable pub encrypt_message :
      Option Bytes → Bytes → Ratchet → Ratchet × Outcome (Bytes × Bytes)
  unfolding send_message_key
  encrypt_message none plaintext dr = ((send_message_key dr).1, failure encryption_failed)
  encrypt_message (some nonce) plaintext dr =
      ((send_message_key dr).1, success (c.seal (send_message_key dr).0 nonce plaintext, nonce))

  abbrev pub opened : Option Bytes → Outcome Bytes
  opened none = failure decryption_failed
  opened (some plaintext) = success plaintext

  abbrev pub decrypt_with :
      Bytes → Bytes → Ratchet → Outcome (Bytes × Ratchet) → Ratchet × Outcome Bytes
  decrypt_with ciphertext nonce dr (failure e) = (dr, failure e)
  decrypt_with ciphertext nonce dr (success (key, dr')) =
      (dr', opened (c.unseal key nonce ciphertext))

  -- The chain has moved on where the ciphertext does not open.
  unfoldable pub decrypt_message : Bytes → Bytes → ℤ → Ratchet → Ratchet × Outcome Bytes
  unfolding recv_message_key
  decrypt_message ciphertext nonce index dr =
      decrypt_with ciphertext nonce dr (recv_message_key index dr)

  abbrev pub restored : Session → Option Bytes → Outcome Ratchet
  restored session none = failure derivation_failed
  restored session (some recv) = success (record {
    root_key = session.root_key_bytes;
    send_chain_key = session.chain_key_bytes;
    recv_chain_key = recv;
    send_message_index = session.message_key_index;
    recv_message_index = session.message_key_index;
    dh_ratchet_counter = 0;
  })

  -- CreateDoubleRatchetStateFromSession
  unfoldable pub ratchet_of_session : Session → Outcome Ratchet
  ratchet_of_session session =
      if not (length session.root_key_bytes == 32)
      then failure root_key_size
      else if not (length session.chain_key_bytes == 32)
      then failure chain_key_size
      else restored session (c.hkdf_expand session.root_key_bytes receiver_chain)

-- UpdateSessionFromDoubleRatchet
unfoldable pub session_of_ratchet : Session → Ratchet → Session
session_of_ratchet session dr = record session {
  root_key_bytes = dr.root_key;
  chain_key_bytes = dr.send_chain_key;
  message_key_index = dr.send_message_index;
}
