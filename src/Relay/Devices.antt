-- ===== src/Relay/Devices.antt =====
-- relayDeviceRecord: hasCapability, isAttested and ensureRelayDeviceAuthorized, and the errors of
-- relay/handler.go. A time is a number of nanoseconds.
use messages.Text.{trim_space, to_upper, equal_fold, codes}
use messages.Base.{
  ◌∷◌, ℕ, ◌||◌, if◌then◌else◌, text_eq, some, not, none, ltb, lookup, leb, is_empty, if◌then◌else◌,
  false, if◌then◌else◌, [], Text, Option, Map, List, Bool, ◌+◌, ◌*◌, ◌&&◌,
}

-- A row of the table devices, an absent text as the empty one.
pub record RelayDevice : Type 0 where
  pub user_id : Text
  pub public_key : Text
  pub capabilities : List Text
  pub sms_role_state : Text
  pub last_seen_at : ℕ
  pub attestation_state : Text
  pub attestation_expires_at : Option ℕ

-- The three errors that have names, and any other.
pub data RelayError : Type 0 where
  relay_unauthorized relay_expired relay_attestation_required database_error : RelayError

abbrev pub executor : Text
executor = codes "RELAY_EXECUTOR"

abbrev pub carrier : Text
carrier = codes "ANDROID_CARRIER"

abbrev pub second : ℕ
second = 1_000_000_000

abbrev pub day : ℕ
day = 24 * 3600 * second

-- The switch in the loop over the capabilities.
unfoldable pub grants : Text → Text → Bool
unfolding equal_fold
grants required cap =
    if text_eq required executor
    then equal_fold cap executor || equal_fold cap carrier
    else if text_eq required carrier
    then equal_fold cap carrier
    else equal_fold cap required

unfoldable pub any_grants : Text → List Text → Bool
unfolding grants
any_grants required [] = false
any_grants required (cap ∷ caps) = grants required cap || any_grants required caps

abbrev pub or_executor : Text → Text
or_executor required = if is_empty required then executor else required

unfoldable pub has_capability : RelayDevice → Text → Bool
unfolding any_grants
has_capability d required = any_grants (or_executor (to_upper (trim_space required))) d.capabilities

-- The time has come, where there is one: `t.Valid && !t.Time.After(now)`.
abbrev pub has_passed : ℕ → Option ℕ → Bool
has_passed now none = false
has_passed now (some t) = leb t now

unfoldable pub is_attested : ℕ → RelayDevice → Bool
unfolding equal_fold
is_attested now d =
    equal_fold (trim_space d.attestation_state) (codes "VERIFIED")
    && not (has_passed now d.attestation_expires_at)

-- The checks of ensureRelayDeviceAuthorized on the device that was loaded; `none` for no error.
unfoldable pub device_error : Bool → ℕ → Text → RelayDevice → Option RelayError
unfolding has_capability is_attested
device_error require_attestation now capability d =
    let required = or_executor capability in
    let strict = text_eq required carrier || require_attestation in
    if not (has_capability d required)
    then some relay_unauthorized
    else if text_eq required carrier
        && not (text_eq (trim_space d.sms_role_state) (codes "DEFAULT_SMS_HANDLER"))
    then some relay_unauthorized
    else if strict && not (is_attested now d)
    then some relay_attestation_required
    else if strict && ltb (d.last_seen_at + day) now
    then some relay_unauthorized
    else none

-- loadDeviceRecord: the device of that user.
unfoldable pub load_device_record : Map RelayDevice → Text → Text → Option RelayDevice
load_device_record devices actor_user_id device_id = elim (lookup device_id devices) [
  | none ↦ none
  | some d ↦ if text_eq d.user_id actor_user_id then some d else none
]

unfoldable pub ensure_relay_device_authorized :
    Bool → ℕ → Map RelayDevice → Text → Text → Text → Option RelayError
unfolding load_device_record device_error
ensure_relay_device_authorized require_attestation now devices actor_user_id device_id capability =
    elim (load_device_record devices actor_user_id device_id) [
      | none ↦ some database_error
      | some d ↦ device_error require_attestation now capability d
    ]
