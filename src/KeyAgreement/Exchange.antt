-- ===== src/KeyAgreement/Exchange.antt =====
-- X3DH (PerformX3DH, PerformX3DHInitiator, PerformX3DHResponder), and the wrapping of a session key
-- for a recipient (GenerateRecipientWrappedKey with its legacy form, and
-- UnwrapSessionKeyWithDoubleRatchet).
use messages.KeyAgreement.{◌>>=◌}
use messages.Text.{codes}
use messages.KeyAgreement.{
  x25519_shared_secret, x25519_keypair, is_zero, hkdf_extract_expand, demand, decode_sized,
  check_that, aes_gcm_encrypt, aes_gcm_decrypt, Suite,
}
use messages.Ratchet.{
  wrong_size, success, nil_state, failure, empty_key, derivation_failed, bad_encoding, Ratchet,
  Outcome, Bytes,
}
use messages.Base.{
  if◌then◌else◌, take, some, not, none, length, leb, if◌then◌else◌, if◌then◌else◌, drop, Text,
  Option, ◌==◌, ◌++◌,
}

-- X3DHKeys
pub record X3dhKeys : Type 0 where
  pub sender_identity_private : Bytes
  pub sender_identity_public : Bytes
  pub sender_ephemeral_private : Bytes
  pub sender_ephemeral_public : Bytes
  pub recipient_identity_public : Bytes
  pub recipient_signed_prekey : Bytes
  pub recipient_one_time_prekey : Bytes

-- The fourth secret is left out where there is none.
abbrev with_secret : Bytes → Outcome Bytes → Bytes
with_secret combined (failure e) = combined
with_secret combined (success secret) = combined ++ secret

module _ (s : Suite) where
  -- The key from the first three secrets and, where `fourth_key` is not empty, the fourth.
  unfoldable pub x3dh_secret : Bytes → Bytes → Bytes → Bytes → Outcome Bytes → Outcome Bytes
  unfolding hkdf_extract_expand
  x3dh_secret dh1 dh2 dh3 fourth_key dh4 =
      let combined = dh1 ++ (dh2 ++ dh3) in
      hkdf_extract_expand s (codes "X3DH")
        (if not (is_zero fourth_key) then with_secret combined dh4 else combined)
        (codes "Signal X3DH context")

  unfoldable pub perform_x3dh : X3dhKeys → Outcome Bytes
  unfolding x25519_shared_secret x3dh_secret
  perform_x3dh keys = do
    _ ← check_that (not (is_zero keys.sender_identity_private)) empty_key
    _ ← check_that (not (is_zero keys.sender_ephemeral_private)) empty_key
    _ ← check_that (not (is_zero keys.recipient_identity_public)) empty_key
    _ ← check_that (not (is_zero keys.recipient_signed_prekey)) empty_key
    dh1 ← x25519_shared_secret s keys.sender_identity_private keys.recipient_identity_public
    dh2 ← x25519_shared_secret s keys.sender_ephemeral_private keys.recipient_signed_prekey
    dh3 ← x25519_shared_secret s keys.sender_ephemeral_private keys.recipient_identity_public
    x3dh_secret dh1 dh2 dh3 keys.recipient_one_time_prekey
        (x25519_shared_secret s keys.sender_ephemeral_private keys.recipient_one_time_prekey)

  -- The secret, and the ephemeral public and private key.
  unfoldable pub perform_x3dh_initiator :
      Option Bytes → Bytes → Bytes → Bytes → Bytes → Bytes → Outcome (Bytes × Bytes × Bytes)
  unfolding x25519_keypair perform_x3dh
  perform_x3dh_initiator random identity_private identity_public recipient_identity signed_prekey
        one_time_prekey =
      do
        ephemeral ← x25519_keypair s random
        secret ← perform_x3dh (record {
          sender_identity_private = identity_private;
          sender_identity_public = identity_public;
          sender_ephemeral_private = ephemeral.1;
          sender_ephemeral_public = ephemeral.0;
          recipient_identity_public = recipient_identity;
          recipient_signed_prekey = signed_prekey;
          recipient_one_time_prekey = one_time_prekey;
        })
        success (secret, ephemeral.0, ephemeral.1)

  -- The public keys of the recipient are not read.
  unfoldable pub perform_x3dh_responder : Bytes → Bytes → Bytes → Bytes → Bytes → Outcome Bytes
  unfolding x25519_shared_secret x3dh_secret
  perform_x3dh_responder sender_ephemeral identity_private signed_prekey_private
        one_time_prekey_private sender_identity =
      do
        dh1 ← x25519_shared_secret s identity_private sender_identity
        dh2 ← x25519_shared_secret s signed_prekey_private sender_ephemeral
        dh3 ← x25519_shared_secret s identity_private sender_ephemeral
        x3dh_secret dh1 dh2 dh3 one_time_prekey_private
            (x25519_shared_secret s one_time_prekey_private sender_ephemeral)

  -- The body that both forms of wrapping share: an ephemeral key, the agreement, the derivation
  -- under `info`, and the ephemeral public key in front of the sealed key.
  unfoldable pub wrap_key :
      Bytes → Bytes → Text → Option Bytes → Option Bytes → Outcome (Text × Text)
  unfolding decode_sized x25519_keypair x25519_shared_secret aes_gcm_encrypt
  wrap_key info content recipient_text key_random nonce_random = do
    recipient ← decode_sized s 32 recipient_text
    ephemeral ← x25519_keypair s key_random
    shared ← x25519_shared_secret s ephemeral.1 recipient
    wrapping_key ← demand derivation_failed (s.ciphers.hkdf_expand shared info)
    sealed ← aes_gcm_encrypt s wrapping_key content nonce_random
    success (s.encode (ephemeral.0 ++ sealed.0), s.encode sealed.1)

  unfoldable pub generate_recipient_wrapped_key :
      Text → Option Ratchet → Option Bytes → Option Bytes → Outcome (Text × Text)
  unfolding wrap_key
  generate_recipient_wrapped_key recipient none key_random nonce_random = failure nil_state
  generate_recipient_wrapped_key recipient (some dr) key_random nonce_random =
      wrap_key dr.root_key dr.root_key recipient key_random nonce_random

  unfoldable pub generate_recipient_wrapped_key_legacy :
      Text → Bytes → Option Bytes → Option Bytes → Outcome (Text × Text)
  unfolding wrap_key
  generate_recipient_wrapped_key_legacy recipient session_key key_random nonce_random = do
    _ ← check_that (length session_key == 32) wrong_size
    wrap_key (codes "wrap-key") session_key recipient key_random nonce_random

  unfoldable pub unwrap_session_key : Text → Text → Text → Option Ratchet → Outcome Bytes
  unfolding decode_sized x25519_shared_secret aes_gcm_decrypt
  unwrap_session_key private_text wrapped_text nonce_text none = failure nil_state
  unwrap_session_key private_text wrapped_text nonce_text (some dr) = do
    private_key ← decode_sized s 32 private_text
    wrapped ← demand bad_encoding (s.decode wrapped_text)
    _ ← check_that (leb 32 (length wrapped)) wrong_size
    nonce ← decode_sized s 12 nonce_text
    shared ← x25519_shared_secret s private_key (take 32 wrapped)
    wrapping_key ← demand derivation_failed (s.ciphers.hkdf_expand shared dr.root_key)
    aes_gcm_decrypt s wrapping_key (drop 32 wrapped) nonce
