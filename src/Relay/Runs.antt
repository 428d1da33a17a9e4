-- ===== src/Relay/Runs.antt =====
-- Runs of the relay: sequences of requests, of rounds of the retry worker, and of changes that are
-- made to the devices from elsewhere.
use messages.Relay.Handlers.{Platform, serve_relay, Tables, RelayRequest}
use messages.Relay.Devices.{has_passed, RelayDevice}
use messages.Relay.Jobs.{
  send_failed, retry_row, retry_failed, queued, is_device, can_finish, can_accept, accepted, JobRow,
}
use messages.Relay.Lifecycle.{took, kept, finished, RowChange, IsSameJob}
use messages.Base.{
  ◌≡◌, ◌∷◌, ◌∙◌, ℕ, true, text_eq_iff, text_eq, some, refl, none, ltb, inr, inl, false, arith, ap,
  [], Text, Option, Map, List, Bool-cases, Bool, ◌&&◌,
}

pub data RelayEvent : Type 0 where
  requested : ℕ → Text → RelayRequest → RelayEvent
  retry_round : RelayEvent
  devices_become : Map RelayDevice → RelayEvent

pub can_accept-queued :
    (now : ℕ) (user capability : Text) (row : JobRow)
    → can_accept now user capability row ≡ true
    → (text_eq row.creator_user_id user ≡ true)
      × (text_eq row.status queued ≡ true)
      × (has_passed now row.expires_at ≡ false)
      × (row.required_capability ≡ capability)
can_accept-queued now user capability row h =
    ground (arith, text_eq_iff row.required_capability capability)

pub can_finish-accepted :
    (now : ℕ) (user device_id : Text) (row : JobRow)
    → can_finish now user device_id row ≡ true
    → (text_eq row.creator_user_id user ≡ true)
      × (text_eq row.status accepted ≡ true)
      × (is_device device_id row.executing_device_id ≡ true)
      × (has_passed now row.expires_at ≡ false)
can_finish-accepted now user device_id row h = ground arith

pub is_device-some :
    (device_id : Text) (o : Option Text) → is_device device_id o ≡ true → o ≡ some device_id
is_device-some device_id none h = cc
is_device-some device_id (some d) h = ap some ((text_eq_iff d device_id).0 h)

pub RowChange-IsSameJob :
    (require_attestation : Bool) (now : ℕ) (user : Text) (devices : Map RelayDevice)
    (row row' : JobRow)
    → RowChange require_attestation now user devices row row'
    → IsSameJob row row'
unfolding IsSameJob
RowChange-IsSameJob _ now user devices row row' (kept e) =
    rw e (refl, refl, refl, refl, refl, refl, refl)
RowChange-IsSameJob _ now user devices row row' (took device_id attested capability _ _ e) =
    rw e (refl, refl, refl, refl, refl, refl, refl)
RowChange-IsSameJob _ now user devices row row' (finished device_id result status _ e) =
    rw e (refl, refl, refl, refl, refl, refl, refl)

pub retry_row-IsSameJob : (row : JobRow) → IsSameJob row (retry_row row)
unfolding IsSameJob
retry_row-IsSameJob row =
    elim (Bool-cases (text_eq row.status send_failed && ltb row.retry_count 3)) [
      | inr skipped ↦ rw skipped (refl, refl, refl, refl, refl, refl, refl)
      | inl tried ↦ rw tried (refl, refl, refl, refl, refl, refl, refl)
    ]

pub IsSameJob-trans : (a b c : JobRow) → IsSameJob a b → IsSameJob b c → IsSameJob a c
unfolding IsSameJob
IsSameJob-trans a b c h k =
    (k.0 ∙ h.0, k.1 ∙ h.1, k.2 ∙ h.2, k.3 ∙ h.3, k.4 ∙ h.4, k.5 ∙ h.5, k.6 ∙ h.6)

module _ (p : Platform) (require_attestation : Bool) where
  unfoldable pub apply_event : RelayEvent → Tables → Tables
  unfolding serve_relay
  apply_event (requested now user r) t = (serve_relay p require_attestation now (some user) r t).0
  apply_event retry_round t = record t { jobs = retry_failed t.jobs }
  apply_event (devices_become devices) t = record t { devices = devices }

  unfoldable pub run : List RelayEvent → Tables → Tables
  unfolding apply_event
  run [] t = t
  run (e ∷ es) t = run es (apply_event e t)
