-- ===== src/KeyAgreement/Group.antt =====
-- MultiRecipientEncryption (ohmf/services/gateway/internal/e2ee/group_encryption.go). The tables are
-- what the queries answer for the group: its leaves, and the identity keys of the devices.
use messages.Text.Numbers.{decimal_integer}
use messages.KeyAgreement.{◌>>=◌}
use messages.KeyAgreement.Exchange.{unwrap_session_key, generate_recipient_wrapped_key}
use messages.Text.{codes}
use messages.KeyAgreement.{
  zero_key, hkdf_extract_expand, demand, decode_sized, check_that, aes_gcm_encrypt, aes_gcm_decrypt,
  Suite,
}
use messages.Ratchet.{
  wrong_size, success, recipient_missing, recipient_mismatch, no_randomness, no_members,
  initialize_as_receiver, initialize, failure, bad_encoding, Ratchet, Outcome, Bytes,
}
use messages.Base.{
  ℤ, ◌∷◌, ℕ, ◌||◌, true, if◌then◌else◌, text_eq, some, none, length, if◌then◌else◌, false,
  if◌then◌else◌, [], Text, Option, List, Bool, ◌==◌, ◌++◌, ◌+◌, ◌&&◌,
}

-- RecipientWrappedKey
pub record RecipientWrappedKey : Type 0 where
  pub user_id : Text
  pub device_id : Text
  pub wrapped_key : Text
  pub wrapped_key_nonce : Text

-- A row of group_member_tree_leaves.
pub record Leaf : Type 0 where
  pub user_id : Text
  pub device_id : Text

-- A row of device_identity_keys.
pub record IdentityKeys : Type 0 where
  pub user_id : Text
  pub device_id : Text
  pub public_text : Text
  pub private_text : Text

unfoldable pub find_identity : Text → Text → List IdentityKeys → Option IdentityKeys
find_identity user device [] = none
find_identity user device (k ∷ keys) =
    if text_eq k.user_id user && text_eq k.device_id device
    then some k
    else find_identity user device keys

-- What the ephemeral key and the nonce of one recipient are drawn from.
abbrev pub Draw : Type 0
Draw = Option Bytes × Option Bytes

abbrev draw_of : List Draw → Draw
draw_of [] = (none, none)
draw_of (d ∷ ds) = d

abbrev later_draws : List Draw → List Draw
later_draws [] = []
later_draws (d ∷ ds) = ds

-- The ciphertext, the nonce that is handed out with it, and the keys.
pub record GroupMessage : Type 0 where
  pub ciphertext : Text
  pub group_session_nonce : Text
  pub recipients : List RecipientWrappedKey

-- A list with one more in front, where the rest of the loop succeeds.
abbrev with_recipient :
    RecipientWrappedKey → Outcome (List RecipientWrappedKey) → Outcome (List RecipientWrappedKey)
with_recipient r (failure e) = failure e
with_recipient r (success rs) = success (r ∷ rs)

abbrev wrapped_for :
    Leaf
    → Outcome (Text × Text)
    → Outcome (List RecipientWrappedKey)
    → Outcome (List RecipientWrappedKey)
wrapped_for leaf (failure e) rest = failure e
wrapped_for leaf (success (wrapped, nonce)) rest =
    with_recipient
      (record {
        user_id = leaf.user_id;
        device_id = leaf.device_id;
        wrapped_key = wrapped;
        wrapped_key_nonce = nonce;
      })
      rest

module _ (s : Suite) where
  -- The loop over the members; one without a key is passed over.
  unfoldable pub wrap_for_all :
      List IdentityKeys → Ratchet → List Leaf → List Draw → Outcome (List RecipientWrappedKey)
  unfolding generate_recipient_wrapped_key find_identity
  wrap_for_all keys dr [] draws = success []
  wrap_for_all keys dr (leaf ∷ leaves) draws =
      elim (find_identity leaf.user_id leaf.device_id keys) [
        | none ↦ wrap_for_all keys dr leaves draws
        | some k ↦
            wrapped_for leaf
              (generate_recipient_wrapped_key s k.public_text (some dr) (draw_of draws).0
                (draw_of draws).1)
              (wrap_for_all keys dr leaves (later_draws draws))
      ]

  abbrev has_leaf : List Leaf → Bool
  has_leaf [] = false
  has_leaf (leaf ∷ leaves) = true

  -- `key_random`, `nonce_random` and `seal_random` are the three draws before the loop. What
  -- AESGCMEncrypt draws is not handed out.
  unfoldable pub encrypt_for_group :
      List Leaf
      → List IdentityKeys
      → Option Bytes
      → Option Bytes
      → Option Bytes
      → List Draw
      → Bytes
      → Outcome GroupMessage
  unfolding aes_gcm_encrypt initialize wrap_for_all
  encrypt_for_group leaves keys key_random nonce_random seal_random draws plaintext = do
    group_key ← demand no_randomness key_random
    nonce ← demand no_randomness nonce_random
    sealed ← aes_gcm_encrypt s group_key plaintext seal_random
    dr ← initialize s.ciphers group_key
    recipients ← wrap_for_all keys dr leaves draws
    _ ← check_that (has_leaf leaves) no_members
    success (record {
      ciphertext = s.encode sealed.0;
      group_session_nonce = s.encode nonce;
      recipients = recipients;
    })

  -- The state under which a key is unwrapped starts from a root key of zeros.
  unfoldable pub decrypt_group_message :
      List IdentityKeys → Text → Text → Text → Text → Text → Text → Outcome Bytes
  unfolding decode_sized initialize_as_receiver aes_gcm_decrypt find_identity
  decrypt_group_message keys user device wrapped_session_key wrapped_key_nonce ciphertext_text
        group_session_nonce =
      do
        _ ← decode_sized s 12 wrapped_key_nonce
        k ← demand recipient_missing (find_identity user device keys)
        dr ← initialize_as_receiver s.ciphers zero_key
        session_key ←
            unwrap_session_key s k.private_text wrapped_session_key wrapped_key_nonce (some dr)
        _ ← check_that (length session_key == 32) wrong_size
        ciphertext ← demand bad_encoding (s.decode ciphertext_text)
        nonce ← decode_sized s 12 group_session_nonce
        aes_gcm_decrypt s session_key ciphertext nonce

  -- RotateGroupKey
  unfoldable pub rotate_group_key : ℤ → Bytes → Outcome Bytes
  unfolding hkdf_extract_expand decimal_integer
  rotate_group_key current_epoch group_secret = do
    _ ← check_that (length group_secret == 32) wrong_size
    hkdf_extract_expand s (codes "group-secret") group_secret
        (codes "group-key-rotation-epoch-" ++ decimal_integer current_epoch)

-- COUNT(DISTINCT device_id)
abbrev device_seen : Text → List Leaf → Bool
device_seen device [] = false
device_seen device (leaf ∷ leaves) = text_eq leaf.device_id device || device_seen device leaves

unfoldable pub count_devices : List Leaf → ℕ
count_devices [] = 0
count_devices (leaf ∷ leaves) =
    (if device_seen leaf.device_id leaves then 0 else 1) + count_devices leaves

-- recipientMap[userID+":"+deviceID]
unfoldable pub is_recipient : Text → List RecipientWrappedKey → Bool
is_recipient key [] = false
is_recipient key (r ∷ rs) =
    text_eq (r.user_id ++ (codes ":" ++ r.device_id)) key || is_recipient key rs

unfoldable pub all_recipients : List Leaf → List RecipientWrappedKey → Bool
unfolding is_recipient
all_recipients [] recipients = true
all_recipients (leaf ∷ leaves) recipients =
    is_recipient (leaf.user_id ++ (codes ":" ++ leaf.device_id)) recipients
    && all_recipients leaves recipients

unfoldable pub validate_recipient_list : List Leaf → List RecipientWrappedKey → Outcome (Unit {0})
unfolding count_devices all_recipients
validate_recipient_list leaves recipients = do
  _ ← check_that (length recipients == count_devices leaves) recipient_mismatch
  check_that (all_recipients leaves recipients) recipient_missing
