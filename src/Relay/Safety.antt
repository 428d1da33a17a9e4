-- ===== src/Relay/Safety.antt =====
-- What runs of the relay never do: a device that may not take a job does not, a stranger changes
-- nothing, and no job is tried for ever.
use messages.Relay.Lifecycle.{
  waiting, took, serve_relay-RowChange, phase_of-accepted, phase_of, lookup-retry_failed, kept,
  held_eq, held, finished, RowChange,
}
use messages.Relay.Handlers.{Platform, serve_relay, Tables, RelayRequest}
use messages.Relay.Runs.{
  retry_round, requested, devices_become, can_finish-accepted, can_accept-queued, apply_event,
  RelayEvent,
}
use messages.Relay.Devices.{has_passed, RelayDevice}
use messages.Relay.Jobs.{send_failed, retry_row, retry_failed, queued, accept_row, JobRow}
use messages.Relay.Effects.{Authorized}
use messages.Base.{
  ◌≤◌, ◌≢◌, ◌≡◌, ◌∷◌, ◌∙◌, ℕ, if◌then◌else◌, text_eq_iff, text_eq, sym, subst, some_eq, some, refl,
  not, none, ltb, lookup, inr, inl, if◌then◌else◌, false, if◌then◌else◌, arith, ap, [], Text,
  Option, Map, List, Bool-cases, Bool, ◌+◌, ◌&&◌,
}

module _ (p : Platform) (require_attestation : Bool) where
  took_lem :
      (now : ℕ) (user : Text) (devices : Map RelayDevice) (row row' : JobRow) (device_id : Text)
      → RowChange require_attestation now user devices row row'
      → phase_of row ≡ waiting
      → phase_of row' ≡ held (some device_id)
      → (row.creator_user_id ≡ user)
        × (has_passed now row.expires_at ≡ false)
        × Authorized require_attestation now devices user device_id row.required_capability
  unfolding text_eq
  took_lem now user devices row row' device_id (kept e) w h =
      let clash : waiting ≡ held (some device_id) = sym w ∙ ap phase_of (sym e) ∙ h in absurd cc
  took_lem now user devices row row' device_id (took d attested capability passed a e) w h =
      let fits = can_accept-queued now user capability row passed in
      let same_device : d ≡ device_id = some_eq d device_id (
        held_eq (some d) (some device_id) (
          sym (phase_of-accepted (accept_row now d attested row) refl)
          ∙ ap phase_of (sym e)
          ∙ h)) in
      (
        (text_eq_iff row.creator_user_id user).0 fits.0,
        fits.2,
        subst (λ x. Authorized require_attestation now devices user x row.required_capability)
            same_device (subst (Authorized require_attestation now devices user d) (sym fits.3) a),
      )
  took_lem now user devices row row' device_id (finished d result status passed e) w h =
      let fits = can_finish-accepted now user d row passed in
      let clash : waiting ≡ held row.executing_device_id = sym w ∙ phase_of-accepted row fits.1 in
      absurd cc

  -- A job that waits comes to be held by a device only where the request is its creator's, it has
  -- not expired, and the device is the creator's and passes all the checks of
  -- ensureRelayDeviceAuthorized for the capability that the job requires.
  pub serve_relay-taken :
      (now : ℕ) (user : Text) (t : Tables) (r : RelayRequest) (id device_id : Text)
      (row row' : JobRow)
      → lookup id t.jobs ≡ some row
      → lookup id (serve_relay p require_attestation now (some user) r t).0.jobs ≡ some row'
      → phase_of row ≡ waiting
      → phase_of row' ≡ held (some device_id)
      → (row.creator_user_id ≡ user)
        × (has_passed now row.expires_at ≡ false)
        × Authorized require_attestation now t.devices user device_id row.required_capability
  serve_relay-taken now user t r id device_id row row' h h' w k =
      let after = serve_relay-RowChange p require_attestation now user t r id row h in
      let same_row : after.0 ≡ row' = some_eq after.0 row' (sym after.1 ∙ h') in
      took_lem now user t.devices row row' device_id
        (subst (RowChange require_attestation now user t.devices row) same_row after.2) w k

  strangers_lem :
      (now : ℕ) (user : Text) (devices : Map RelayDevice) (row row' : JobRow)
      → RowChange require_attestation now user devices row row'
      → row.creator_user_id ≢ user
      → row' ≡ row
  strangers_lem now user devices row row' (kept e) ne = e
  strangers_lem now user devices row row' (took d attested capability passed a e) ne = absurd (
      ne (
        (text_eq_iff row.creator_user_id user).0
          (can_accept-queued now user capability row passed).0))
  strangers_lem now user devices row row' (finished d result status passed e) ne =
      absurd (
        ne ((text_eq_iff row.creator_user_id user).0 (can_finish-accepted now user d row passed).0))

  -- No request of another user than the creator changes a job.
  pub serve_relay-strangers :
      (now : ℕ) (user : Text) (t : Tables) (r : RelayRequest) (id : Text) (row : JobRow)
      → lookup id t.jobs ≡ some row
      → row.creator_user_id ≢ user
      → lookup id (serve_relay p require_attestation now (some user) r t).0.jobs ≡ some row
  serve_relay-strangers now user t r id row h ne =
      let after = serve_relay-RowChange p require_attestation now user t r id row h in
      after.1 ∙ ap some (strangers_lem now user t.devices row after.0 after.2 ne)

  RowChange-retry_count :
      (now : ℕ) (user : Text) (devices : Map RelayDevice) (row row' : JobRow)
      → RowChange require_attestation now user devices row row'
      → row'.retry_count ≡ row.retry_count
  RowChange-retry_count now user devices row row' (kept e) = ap (λ (x : JobRow). x.retry_count) e
  RowChange-retry_count now user devices row row' (took _ _ _ _ _ e) =
      ap (λ (x : JobRow). x.retry_count) e
  RowChange-retry_count now user devices row row' (finished _ _ _ _ e) =
      ap (λ (x : JobRow). x.retry_count) e

  -- Whether a row that was not queued is queued afterwards.
  abbrev is_requeued : Option JobRow → Option JobRow → Bool
  is_requeued none _ = false
  is_requeued (some row) none = false
  is_requeued (some row) (some row') = not (text_eq row.status queued) && text_eq row'.status queued

  -- How many rounds of the retry worker in a run make the job wait again, seen by its status before
  -- and after the round.
  unfoldable pub requeues : Text → List RelayEvent → Tables → ℕ
  unfolding apply_event
  requeues id [] t = 0
  requeues id (retry_round ∷ es) t =
      (if is_requeued (lookup id t.jobs)
          (lookup id (apply_event p require_attestation retry_round t).jobs)
        then 1
        else 0)
      + requeues id es (apply_event p require_attestation retry_round t)
  requeues id (e ∷ es) t = requeues id es (apply_event p require_attestation e t)

  -- In any run, the retry worker makes a job whose count of retries is at most three wait again at
  -- most as many times as are left to three.
  pub requeues_bound :
      (id : Text) (events : List RelayEvent) (t : Tables) (row : JobRow)
      → lookup id t.jobs ≡ some row
      → row.retry_count ≤ 3
      → row.retry_count + requeues id events t ≤ 3
  unfolding requeues apply_event
  requeues_bound id [] t row h b = omega arith
  requeues_bound id (requested now user r ∷ es) t row h b =
      let after = serve_relay-RowChange p require_attestation now user t r id row h in
      let count = RowChange-retry_count now user t.devices row after.0 after.2 in
      let rest : after.0.retry_count
            + requeues id es (apply_event p require_attestation (requested now user r) t)
          ≤ 3 =
        requeues_bound id es _ after.0 after.1 (omega arith) in
      omega arith
  requeues_bound id (devices_become devices ∷ es) t row h b =
      requeues_bound id es (record t { devices = devices }) row h b
  requeues_bound id (retry_round ∷ es) t row h b =
      let after = lookup-retry_failed id row t.jobs h in
      let step =
        requeues_bound id es (record t { jobs = retry_failed t.jobs }) (retry_row row) after in
      elim (Bool-cases (text_eq row.status send_failed && ltb row.retry_count 3)) [
        | inl tried ↦ rw (h, after, tried) (ground arith)
        | inr skipped ↦ rw (h, after, skipped) (ground arith)
      ]
