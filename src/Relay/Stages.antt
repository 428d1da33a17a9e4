-- ===== src/Relay/Stages.antt =====
-- The stages of a relay job with its count of retries, and runs as journeys along them: which event
-- may move a job, on whose request and when.
use messages.Relay.Handlers.{Platform, Tables, RelayRequest}
use messages.Relay.Devices.{has_passed, RelayDevice}
use messages.Json.{Json}
use messages.Relay.Jobs.{send_failed, retry_row, queued, finish_row, accepted, accept_row, JobRow}
use messages.Relay.Runs.{
  run, retry_row-IsSameJob, retry_round, requested, is_device-some, devices_become,
  can_finish-accepted, can_accept-queued, apply_event, RowChange-IsSameJob, RelayEvent,
  IsSameJob-trans,
}
use messages.Relay.Lifecycle.{
  took, serve_relay-RowChange, lookup-retry_failed, kept, finished, RowChange, IsSameJob,
}
use messages.Relay.Effects.{Authorized}
use messages.Base.{
  ◌≡◌, ◌∷◌, ◌∙◌, ℕ, true, if◌then◌else◌, text_eq_iff, text_eq, sym, subst, some, refl, ltb, lookup,
  inr, inl, if◌then◌else◌, false, if◌then◌else◌, arith, ap, [], Text, Option, Map, List, Bool-cases,
  Bool, ◌<◌, ◌+◌, ◌&&◌,
}

pub data Stage : Type 0 where
  idle : ℕ → Stage
  busy : ℕ → Option Text → Stage
  lost : ℕ → Stage
  closed : Stage

unfoldable pub stage_of : JobRow → Stage
stage_of row =
    if text_eq row.status queued
    then idle row.retry_count
    else if text_eq row.status accepted
    then busy row.retry_count row.executing_device_id
    else if text_eq row.status send_failed
    then lost row.retry_count
    else closed

-- What one event may do to a job of a creator, a required capability and an expiry: only a request
-- of the creator before the expiry takes, ends or gives back, only an authorized device takes, only
-- a device that holds the job ends it, and only the worker makes what was lost wait again, with one
-- retry less. What is closed has no step.
pub data Step (require_attestation : Bool) (devices : Map RelayDevice) (creator capability : Text)
    (expires_at : Option ℕ) : RelayEvent → Stage → Stage → Type 0 where
  rest :
      {e : RelayEvent} {g : Stage}
      → Step require_attestation devices creator capability expires_at e g g
  take_up :
      {now : ℕ} {user : Text} {r : RelayRequest} {n : ℕ} {d : Text}
      → creator ≡ user
      → has_passed now expires_at ≡ false
      → Authorized require_attestation now devices creator d capability
      → Step require_attestation devices creator capability expires_at
          (requested now user r)
          (idle n)
          (busy n (some d))
  give_back :
      {now : ℕ} {user : Text} {r : RelayRequest} {n : ℕ} {d : Text}
      → creator ≡ user
      → has_passed now expires_at ≡ false
      → Step require_attestation devices creator capability expires_at
          (requested now user r)
          (busy n (some d))
          (idle n)
  lose :
      {now : ℕ} {user : Text} {r : RelayRequest} {n : ℕ} {d : Text}
      → creator ≡ user
      → has_passed now expires_at ≡ false
      → Step require_attestation devices creator capability expires_at
          (requested now user r)
          (busy n (some d))
          (lost n)
  close :
      {now : ℕ} {user : Text} {r : RelayRequest} {n : ℕ} {d : Text}
      → creator ≡ user
      → has_passed now expires_at ≡ false
      → Step require_attestation devices creator capability expires_at
          (requested now user r)
          (busy n (some d))
          closed
  again :
      {n : ℕ}
      → n < 3
      → Step require_attestation devices creator capability expires_at retry_round
          (lost n)
          (idle (n + 1))

stage_of-queued :
    (row : JobRow) → text_eq row.status queued ≡ true → stage_of row ≡ idle row.retry_count
unfolding stage_of
stage_of-queued row h = rw h refl

stage_of-accepted :
    (row : JobRow)
    → text_eq row.status accepted ≡ true
    → stage_of row ≡ busy row.retry_count row.executing_device_id
unfolding stage_of text_eq
stage_of-accepted row h = rw ((text_eq_iff row.status accepted).0 h) refl

stage_of-failed :
    (row : JobRow) → text_eq row.status send_failed ≡ true → stage_of row ≡ lost row.retry_count
unfolding stage_of text_eq
stage_of-failed row h = rw ((text_eq_iff row.status send_failed).0 h) refl

and_true : (a b : Bool) → a && b ≡ true → (a ≡ true) × (b ≡ true)
and_true a b h = ground arith

retries_left : (n : ℕ) → ltb n 3 ≡ true → n < 3
retries_left n h = ground arith

-- The step of an event for the job of a row.
abbrev pub StepFor : Bool → Map RelayDevice → RelayEvent → JobRow → JobRow → Type 0
StepFor require_attestation devices e row row' =
    Step require_attestation devices row.creator_user_id row.required_capability row.expires_at e
      (stage_of row) (stage_of row')

module _ (require_attestation : Bool) (now : ℕ) (user : Text) (r : RelayRequest)
    (devices : Map RelayDevice) where
  finish_row-StepFor :
      (device_id status : Text) (result : Json) (row : JobRow)
      → row.creator_user_id ≡ user
      → has_passed now row.expires_at ≡ false
      → text_eq row.status accepted ≡ true
      → row.executing_device_id ≡ some device_id
      → StepFor require_attestation devices
          (requested now user r)
          row
          (finish_row now result status row)
  unfolding stage_of
  finish_row-StepFor device_id status result row own open_now held_now d =
      subst
        (λ g.
          Step require_attestation devices row.creator_user_id row.required_capability
            row.expires_at (requested now user r) g (stage_of (finish_row now result status row)))
        (sym (stage_of-accepted row held_now ∙ ap (busy row.retry_count) d))
        (elim (Bool-cases (text_eq status queued)) [
          | inl back ↦ rw back (give_back own open_now)
          | inr moved ↦ elim (Bool-cases (text_eq status accepted)) [
            | inl still ↦ rw (moved, still, d) rest
            | inr ended ↦ elim (Bool-cases (text_eq status send_failed)) [
              | inl failing ↦ rw (moved, ended, failing) (lose own open_now)
              | inr done ↦ rw (moved, ended, done) (close own open_now)
            ]
          ]
        ])

  accept_row-StepFor :
      (device_id : Text) (attested : Bool) (row : JobRow)
      → row.creator_user_id ≡ user
      → has_passed now row.expires_at ≡ false
      → text_eq row.status queued ≡ true
      → Authorized require_attestation now devices row.creator_user_id device_id
          row.required_capability
      → StepFor require_attestation devices
          (requested now user r)
          row
          (accept_row now device_id attested row)
  unfolding text_eq
  accept_row-StepFor device_id attested row own open_now waits authorized =
      rw (stage_of-queued row waits, stage_of-accepted (accept_row now device_id attested row) refl)
        (take_up own open_now authorized)

  RowChange-StepFor :
      (row row' : JobRow)
      → RowChange require_attestation now user devices row row'
      → StepFor require_attestation devices (requested now user r) row row'
  RowChange-StepFor row row' (kept e) = rw e rest
  RowChange-StepFor row row' (took device_id attested capability passed authorized e) =
      let h = can_accept-queued now user capability row passed in
      let own = (text_eq_iff row.creator_user_id user).0 h.0 in
      rw e (accept_row-StepFor device_id attested row own h.2 h.1 (rw (own, h.3) authorized))
  RowChange-StepFor row row' (finished device_id result status passed e) =
      let h = can_finish-accepted now user device_id row passed in
      rw e (
        finish_row-StepFor device_id status result row
          ((text_eq_iff row.creator_user_id user).0 h.0) h.3 h.1
          (is_device-some device_id row.executing_device_id h.2))

retry_row-StepFor :
    (require_attestation : Bool) (devices : Map RelayDevice) (row : JobRow)
    → StepFor require_attestation devices retry_round row (retry_row row)
unfolding text_eq
retry_row-StepFor require_attestation devices row =
    elim (Bool-cases (text_eq row.status send_failed && ltb row.retry_count 3)) [
      | inr skipped ↦ rw skipped rest
      | inl tried ↦
          let h = and_true _ _ tried in
          rw
            (
              tried,
              stage_of-failed row h.0,
              stage_of-queued (record row { retry_count = row.retry_count + 1; status = queued })
                  refl,
            )
            (again (retries_left row.retry_count h.1))
    ]

module _ (p : Platform) (require_attestation : Bool) where
  -- One step for each event of a run, in its order, with the devices there are at the event.
  pub data Journey (job : JobRow) : List RelayEvent → Tables → Stage → Stage → Type 0 where
    here : {t : Tables} {g : Stage} → Journey job [] t g g
    then_on :
        {e : RelayEvent} {es : List RelayEvent} {t : Tables} {g h k : Stage}
        → Step require_attestation t.devices job.creator_user_id job.required_capability
            job.expires_at e g h
        → Journey job es (apply_event p require_attestation e t) h k
        → Journey job (e ∷ es) t g k

  apply_event-StepFor :
      (e : RelayEvent) (t : Tables) (id : Text) (row : JobRow)
      → lookup id t.jobs ≡ some row
      → (row' : JobRow) × (lookup id (apply_event p require_attestation e t).jobs ≡ some row')
        × IsSameJob row row'
        × StepFor require_attestation t.devices e row row'
  unfolding apply_event IsSameJob
  apply_event-StepFor (requested now user r) t id row h =
      let after = serve_relay-RowChange p require_attestation now user t r id row h in
      (
        after.0,
        after.1,
        RowChange-IsSameJob require_attestation now user t.devices row after.0 after.2,
        RowChange-StepFor require_attestation now user r t.devices row after.0 after.2,
      )
  apply_event-StepFor retry_round t id row h = (
    retry_row row,
    lookup-retry_failed id row t.jobs h,
    retry_row-IsSameJob row,
    retry_row-StepFor require_attestation t.devices row,
  )
  apply_event-StepFor (devices_become devices) t id row h =
      (row, h, (refl, refl, refl, refl, refl, refl, refl), rest)

  Journey-same_job :
      (job job' : JobRow) (es : List RelayEvent) (t : Tables) (g h : Stage)
      → job'.creator_user_id ≡ job.creator_user_id
      → job'.required_capability ≡ job.required_capability
      → job'.expires_at ≡ job.expires_at
      → Journey job' es t g h
      → Journey job es t g h
  Journey-same_job job job' [] t g h own asks until here = here
  Journey-same_job job job' (e ∷ es) t g h own asks until (then_on first later) =
      then_on (rw (sym own, sym asks, sym until) first)
        (Journey-same_job job job' es _ _ h own asks until later)

  -- The table of jobs refines the stages: in any run of requests of any users, of rounds of the
  -- retry worker and of changes to the devices, a job that is there stays, with its creator,
  -- destination, content, required capability and times, and its events take it along a journey, one
  -- step each. An idle job becomes busy only by a request of its creator before its expiry, with a
  -- device that is authorized then; only a request of the creator before the expiry ends the work of
  -- a busy job, by which it is idle again, lost or closed; only a round of the worker makes a lost
  -- job idle, which counts as a retry and happens only below three; and a closed job stays closed.
  pub run-Journey :
      (events : List RelayEvent) (t : Tables) (id : Text) (row : JobRow)
      → lookup id t.jobs ≡ some row
      → (row' : JobRow) × (lookup id (run p require_attestation events t).jobs ≡ some row')
        × IsSameJob row row'
        × Journey row events t (stage_of row) (stage_of row')
  unfolding run IsSameJob
  run-Journey [] t id row h = (row, h, (refl, refl, refl, refl, refl, refl, refl), here)
  run-Journey (e ∷ es) t id row h =
      let first = apply_event-StepFor e t id row h in
      let last = run-Journey es (apply_event p require_attestation e t) id first.0 first.1 in
      (
        last.0,
        last.1,
        IsSameJob-trans row first.0 last.0 first.2 last.2,
        then_on first.3
            (Journey-same_job row first.0 es _ _ _ first.2.0 first.2.4 first.2.5 last.3),
      )
