-- ===== src/Trust.antt =====
-- The trust in the devices of contacts (ohmf/services/gateway/internal/e2ee/trust_state.go, with
-- StoreTrustState and EstablishTOFUTrust of crypto.go), for the row of one user and one device of a
-- contact: the statements touch no other. The device has its row of device_identity_keys or none.
use messages.Text.{trim_space, to_upper, equal_fold, codes}
use messages.KeyAgreement.{compute_fingerprint, Suite}
use messages.Ratchet.{success, failure, Outcome}
use messages.Base.{
  ◌⊎◌, ℕ, ◌||◌, if◌then◌else◌, text_eq, some, not, none, is_empty, inr, inl, if◌then◌else◌,
  if◌then◌else◌, [], Text, Option, ◌&&◌,
}
pub mod Views
pub mod Examples

-- A row of device_key_trust; NULL is `none`.
pub record TrustRow : Type 0 where
  pub trust_state : Text
  pub fingerprint : Text
  pub trusted_device_public_key : Text
  pub trust_established_at : Option ℕ
  pub verified_at : Option ℕ

-- The keys of the device: an absent fingerprint is the empty text.
pub record DeviceKeys : Type 0 where
  pub signing_public_key : Text
  pub fingerprint : Text

-- TrustStateView, without the identifiers of the device.
pub record TrustStateView : Type 0 where
  pub trust_state : Text
  pub effective_trust_state : Text
  pub recorded_fingerprint : Text
  pub current_fingerprint : Text
  pub trust_established_at : Option ℕ
  pub verified_at : Option ℕ
  pub warning : Text

pub data TrustError : Type 0 where
  device_not_found fingerprint_mismatch other_trust_error : TrustError

abbrev pub verified : Text
verified = codes "VERIFIED"

abbrev pub unverified : Text
unverified = codes "UNVERIFIED"

abbrev pub revoked_trust : Text
revoked_trust = codes "REVOKED"

abbrev pub mismatch : Text
mismatch = codes "MISMATCH"

unfoldable pub normalize_stored_trust_state : Text → Text
unfolding to_upper
normalize_stored_trust_state value =
    let v = to_upper (trim_space value) in
    if text_eq v verified
    then verified
    else if text_eq v (codes "BLOCKED") || text_eq v revoked_trust
    then revoked_trust
    else unverified

-- The effective state and the warning.
unfoldable pub derive_effective_trust_state : Text → Text → Text → Text × Text
unfolding normalize_stored_trust_state equal_fold
derive_effective_trust_state stored_state recorded_fingerprint current_fingerprint =
    let normalized = normalize_stored_trust_state stored_state in
    let recorded = trim_space recorded_fingerprint in
    let current = trim_space current_fingerprint in
    if not (is_empty recorded) && not (is_empty current) && not (equal_fold recorded current)
    then (mismatch, codes "Current fingerprint does not match the previously recorded trust state.")
    else if text_eq normalized revoked_trust
    then (revoked_trust, codes "Verification was revoked for this device.")
    else if text_eq normalized verified
    then (verified, [])
    else (unverified, [])

abbrev with_signing_key : Text → Outcome Text → TrustError ⊎ (Text × Text)
with_signing_key key (failure e) = inl other_trust_error
with_signing_key key (success fingerprint) = inr (fingerprint, key)

abbrev pub view_of_row : Text → TrustRow → TrustStateView
view_of_row current row =
    let derived = derive_effective_trust_state row.trust_state row.fingerprint current in
    record {
      trust_state = normalize_stored_trust_state row.trust_state;
      effective_trust_state = derived.0;
      recorded_fingerprint = row.fingerprint;
      current_fingerprint = current;
      trust_established_at = row.trust_established_at;
      verified_at = row.verified_at;
      warning = derived.1;
    }

abbrev pub view_of_none : Text → TrustStateView
view_of_none current = record {
  trust_state = unverified;
  effective_trust_state = unverified;
  recorded_fingerprint = [];
  current_fingerprint = current;
  trust_established_at = none;
  verified_at = none;
  warning = [];
}

abbrev view_of : Text → Option TrustRow → TrustStateView
view_of current none = view_of_none current
view_of current (some row) = view_of_row current row

abbrev pub established : ℕ → Option TrustRow → Option ℕ
established now none = some now
established now (some row) = elim row.trust_established_at [ none ↦ some now | some t ↦ some t ]

module _ (s : Suite) where
  -- The current fingerprint, and the key.
  unfoldable pub load_current_trust_material : Option DeviceKeys → TrustError ⊎ (Text × Text)
  unfolding compute_fingerprint
  load_current_trust_material none = inl device_not_found
  load_current_trust_material (some d) =
      if is_empty d.fingerprint
      then with_signing_key d.signing_public_key (compute_fingerprint s d.signing_public_key)
      else inr (d.fingerprint, d.signing_public_key)

  unfoldable pub get_trust_state_view :
      Option DeviceKeys → Option TrustRow → TrustError ⊎ TrustStateView
  unfolding load_current_trust_material
  get_trust_state_view device row = elim (load_current_trust_material device) [
    | inl e ↦ inl e
    | inr material ↦ inr (view_of material.0 row)
  ]

  unfoldable pub trust_row_written : ℕ → Text → Text → Text → Option TrustRow → TrustRow
  unfolding normalize_stored_trust_state
  trust_row_written now state fingerprint key row = record {
    trust_state = state;
    fingerprint = fingerprint;
    trusted_device_public_key = key;
    trust_established_at = established now row;
    verified_at = if text_eq (normalize_stored_trust_state state) verified then some now else none;
  }

  unfoldable pub write_trust_state :
      ℕ
      → Option DeviceKeys
      → Text
      → Text
      → Text
      → Option TrustRow
      → Option TrustRow × (TrustError ⊎ TrustStateView)
  unfolding trust_row_written get_trust_state_view
  write_trust_state now device state fingerprint key row =
      let written = some (trust_row_written now state fingerprint key row) in
      (written, get_trust_state_view device written)

  unfoldable pub verify_trust_state :
      ℕ
      → Option DeviceKeys
      → Text
      → Option TrustRow
      → Option TrustRow × (TrustError ⊎ TrustStateView)
  unfolding load_current_trust_material write_trust_state
  verify_trust_state now device expected row = elim (load_current_trust_material device) [
    | inl e ↦ (row, inl e)
    | inr material ↦
        if is_empty (trim_space expected) || not (equal_fold (trim_space expected) material.0)
        then (row, inl fingerprint_mismatch)
        else write_trust_state now device verified material.0 material.1 row
  ]

  unfoldable pub revoke_trust_state :
      ℕ → Option DeviceKeys → Option TrustRow → Option TrustRow × (TrustError ⊎ TrustStateView)
  unfolding load_current_trust_material write_trust_state
  revoke_trust_state now device row = elim (load_current_trust_material device) [
    | inl e ↦ (row, inl e)
    | inr material ↦ write_trust_state now device (codes "BLOCKED") material.0 material.1 row
  ]

-- StoreTrustState, which keeps the time of the first trust, and EstablishTOFUTrust.
unfoldable pub store_trust_state : TrustRow → Option TrustRow → Option TrustRow
store_trust_state trust none = some trust
store_trust_state trust (some row) =
    some (record trust { trust_established_at = row.trust_established_at })

unfoldable pub establish_tofu_trust : ℕ → Text → Text → Option TrustRow → Option TrustRow
unfolding store_trust_state
establish_tofu_trust now fingerprint key row =
    store_trust_state
      (record {
        trust_state = codes "TOFU";
        fingerprint = fingerprint;
        trusted_device_public_key = key;
        trust_established_at = some now;
        verified_at = none;
      })
      row
