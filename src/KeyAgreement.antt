-- ===== src/KeyAgreement.antt =====
-- The key agreement and the message encryption of the gateway
-- (ohmf/services/gateway/internal/e2ee/crypto.go): the primitives over X25519, HKDF and AES-GCM,
-- and in the children X3DH, the wrapping of session keys, and the stored sessions. What a random
-- source answers is an input, `none` where it fails.
pub mod Exchange
pub mod Sessions
pub mod Group
pub mod Agreed
pub mod Wrapped
pub mod Kept
pub mod Examples
use messages.Ratchet.{
  wrong_size, success, no_randomness, nil_state, key_agreement_failed, failure, encrypt_message,
  empty_key, derivation_failed, decryption_failed, decrypt_message, bad_encoding, RatchetError,
  Ratchet, Outcome, Crypto, Bytes,
}
use messages.Base.{
  ◌∷◌, ℤ, ℕ, zero, true, text_eq, suc, some, not, none, length, is_empty, false, [], Text, Option,
  Bool, ◌==◌,
}

-- The ciphers, with curve25519.X25519 (private key first), its base point, base64, SHA-256 in
-- hexadecimal, and ed25519.Verify (key, message, signature).
pub record Suite : Type 0 where
  pub ciphers : Crypto
  pub x25519 : Bytes → Bytes → Option Bytes
  pub basepoint : Bytes
  pub encode : Bytes → Text
  pub decode : Text → Option Bytes
  pub sha256_hex : Bytes → Text
  pub ed25519_verifies : Bytes → Bytes → Bytes → Bool

infixl 10 ◌>>=◌
abbrev pub ◌>>=◌ {ℓ κ} : {A : Type ℓ} {C : Type κ} → Outcome A → (A → Outcome C) → Outcome C
failure e >>= rest = failure e
success a >>= rest = rest a

-- What is there, or that error.
abbrev pub demand {ℓ} : {A : Type ℓ} → RatchetError → Option A → Outcome A
demand e none = failure e
demand e (some a) = success a

-- `if !test { return err }`
abbrev pub check_that : Bool → RatchetError → Outcome (Unit {0})
check_that true e = success tt
check_that false e = failure e

abbrev zeros : ℕ → Bytes
zeros zero = []
zeros (suc n) = 0 ∷ zeros n

abbrev pub zero_key : Bytes
zero_key = zeros 32

-- `key == [32]byte{}`
abbrev pub is_zero : Bytes → Bool
is_zero key = text_eq key zero_key

module _ (s : Suite) where
  -- The public and the private key.
  unfoldable pub x25519_keypair : Option Bytes → Outcome (Bytes × Bytes)
  x25519_keypair random = do
    private_key ← demand no_randomness random
    public_key ← demand key_agreement_failed (s.x25519 private_key s.basepoint)
    success (public_key, private_key)

  unfoldable pub x25519_shared_secret : Bytes → Bytes → Outcome Bytes
  x25519_shared_secret our_private_key their_public_key = do
    _ ← check_that (not (is_zero their_public_key)) empty_key
    demand key_agreement_failed (s.x25519 our_private_key their_public_key)

  -- GenerateECDHKeys
  unfoldable pub generate_ecdh_keys : Option Bytes → Outcome (Text × Text)
  unfolding x25519_keypair
  generate_ecdh_keys random = do
    keys ← x25519_keypair random
    success (s.encode keys.0, s.encode keys.1)

  unfoldable pub hmac_verify : Bytes → Bytes → Bytes → Bool
  hmac_verify key text signature = text_eq (s.ciphers.hmac key text) signature

  unfoldable pub signature_hex : Bytes → Bytes → Text
  signature_hex key text = s.encode (s.ciphers.hmac key text)

  -- HKDFExtractExpand to 32 bytes
  unfoldable pub hkdf_extract_expand : Bytes → Bytes → Bytes → Outcome Bytes
  hkdf_extract_expand salt ikm info =
      demand derivation_failed (s.ciphers.hkdf_expand (s.ciphers.hmac salt ikm) info)

  unfoldable pub aes_gcm_encrypt : Bytes → Bytes → Option Bytes → Outcome (Bytes × Bytes)
  aes_gcm_encrypt key plaintext random = do
    nonce ← demand no_randomness random
    success (s.ciphers.seal key nonce plaintext, nonce)

  unfoldable pub aes_gcm_decrypt : Bytes → Bytes → Bytes → Outcome Bytes
  aes_gcm_decrypt key ciphertext nonce =
      demand decryption_failed (s.ciphers.unseal key nonce ciphertext)

  -- Base64 into an array of that size.
  unfoldable pub decode_sized : ℕ → Text → Outcome Bytes
  decode_sized size text = do
    bytes ← demand bad_encoding (s.decode text)
    _ ← check_that (length bytes == size) wrong_size
    success bytes

  unfoldable pub message_encrypt : Bytes → Bytes → Option Bytes → Outcome (Text × Text)
  unfolding aes_gcm_encrypt
  message_encrypt message_key plaintext random = do
    sealed ← aes_gcm_encrypt message_key plaintext random
    success (s.encode sealed.0, s.encode sealed.1)

  unfoldable pub message_decrypt : Bytes → Text → Text → Outcome Bytes
  unfolding aes_gcm_decrypt decode_sized
  message_decrypt message_key ciphertext_text nonce_text = do
    ciphertext ← demand bad_encoding (s.decode ciphertext_text)
    nonce ← decode_sized 12 nonce_text
    aes_gcm_decrypt message_key ciphertext nonce

  unfoldable pub encrypt_message_content_legacy :
      Bytes → Bytes → Option Bytes → Outcome (Text × Text)
  unfolding aes_gcm_encrypt
  encrypt_message_content_legacy message session_key random = do
    _ ← check_that (length session_key == 32) wrong_size
    sealed ← aes_gcm_encrypt session_key message random
    success (s.encode sealed.0, s.encode sealed.1)

  unfoldable pub decrypt_message_content_legacy : Text → Text → Bytes → Outcome Bytes
  unfolding aes_gcm_decrypt decode_sized
  decrypt_message_content_legacy ciphertext_text nonce_text session_key = do
    _ ← check_that (length session_key == 32) wrong_size
    ciphertext ← demand bad_encoding (s.decode ciphertext_text)
    nonce ← decode_sized 12 nonce_text
    aes_gcm_decrypt session_key ciphertext nonce

  unfoldable pub compute_fingerprint : Text → Outcome Text
  compute_fingerprint signing_public_key = do
    _ ← check_that (not (is_empty signing_public_key)) empty_key
    data_bytes ← demand bad_encoding (s.decode signing_public_key)
    _ ← check_that (not (is_empty data_bytes)) empty_key
    success (s.sha256_hex data_bytes)

  unfoldable pub verify_signature : Text → Bytes → Text → Outcome Bool
  unfolding decode_sized
  verify_signature signing_public_key message signature = do
    public_key ← decode_sized 32 signing_public_key
    signature_bytes ← demand bad_encoding (s.decode signature)
    success (s.ed25519_verifies public_key message signature_bytes)

-- The text of a nonce and of a ciphertext.
abbrev pub encoded : Suite → Outcome (Bytes × Bytes) → Outcome (Text × Text)
encoded s (failure e) = failure e
encoded s (success (ciphertext, nonce)) = success (s.encode ciphertext, s.encode nonce)

module _ (s : Suite) where
  -- EncryptMessageContent; the ratchet is a pointer that may be nil, and moves on.
  unfoldable pub encrypt_message_content :
      Bytes → Option Ratchet → Option Bytes → Option Ratchet × Outcome (Text × Text)
  unfolding encrypt_message
  encrypt_message_content message none random = (none, failure nil_state)
  encrypt_message_content message (some dr) random =
      let sealed = encrypt_message s.ciphers random message dr in
      (some sealed.0, encoded s sealed.1)

  abbrev decrypt_decoded : Ratchet → ℤ → Outcome (Bytes × Bytes) → Option Ratchet × Outcome Bytes
  decrypt_decoded dr index (failure e) = (some dr, failure e)
  decrypt_decoded dr index (success (ciphertext, nonce)) =
      let opening = decrypt_message s.ciphers ciphertext nonce index dr in
      (some opening.0, opening.1)

  -- The ciphertext and the nonce in base64.
  unfoldable pub decode_parts : Text → Text → Outcome (Bytes × Bytes)
  unfolding decode_sized
  decode_parts ciphertext_text nonce_text = do
    ciphertext ← demand bad_encoding (s.decode ciphertext_text)
    nonce ← decode_sized s 12 nonce_text
    success (ciphertext, nonce)

  unfoldable pub decrypt_message_content :
      Text → Text → Option Ratchet → ℤ → Option Ratchet × Outcome Bytes
  unfolding decrypt_message decode_parts
  decrypt_message_content ciphertext nonce none index = (none, failure nil_state)
  decrypt_message_content ciphertext nonce (some dr) index =
      decrypt_decoded dr index (decode_parts ciphertext nonce)
