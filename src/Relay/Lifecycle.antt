-- ===== src/Relay/Lifecycle.antt =====
-- What one request, or one round of the retry worker, does to the row of a job, and the phases of a
-- job.
use messages.Relay.Handlers.{Platform}
use messages.Relay.Handlers.{Platform, serve_relay, Tables, RelayRequest}
use messages.Relay.Devices.{RelayDevice}
use messages.Json.{Json}
use messages.Relay.Jobs.{
  retry_row, retry_failed, queued, finish_row, can_finish, can_accept, accepted, accept_row, JobRow,
}
use messages.Base.{
  some_eq, none, ◌≡◌, ◌∷◌, ◌∙◌, ℕ, true, if◌then◌else◌, text_eq_iff, text_eq, sym, subst, some,
  refl, lookup-insert, lookup, insert, inr, inl, if◌then◌else◌, if◌then◌else◌, arith, ap, [], Text,
  Option, Map, Bool-cases, Bool,
}
use messages.Relay.Effects.{taken, serve_relay-Effect, same, reported, added, Effect, Authorized}

-- A request to the row of one job.
pub data RowChange (require_attestation : Bool) (now : ℕ) (user : Text) (devices : Map RelayDevice)
    (row row' : JobRow) : Type 0 where
  kept : row' ≡ row → RowChange require_attestation now user devices row row'
  took :
      (device_id : Text) (attested : Bool) (capability : Text)
      → can_accept now user capability row ≡ true
      → Authorized require_attestation now devices user device_id capability
      → row' ≡ accept_row now device_id attested row
      → RowChange require_attestation now user devices row row'
  finished :
      (device_id : Text) (result : Json) (status : Text)
      → can_finish now user device_id row ≡ true
      → row' ≡ finish_row now result status row
      → RowChange require_attestation now user devices row row'

-- What an entry becomes where one entry is written.
written {ℓ} :
    (R : JobRow → JobRow → Type ℓ) (id j : Text) (r x row : JobRow) (jobs : Map JobRow)
    → lookup id jobs ≡ some r
    → lookup j jobs ≡ some row
    → R r x
    → R row row
    → (row' : JobRow) × (lookup j (insert id x jobs) ≡ some row') × R row row'
written R id j r x row jobs found h change stay = elim (Bool-cases (text_eq id j)) [
  | inl same_id ↦ (
    x,
    lookup-insert id j x jobs ∙ rw same_id refl,
    subst (λ y. R y x)
        (some_eq r row (
          sym found ∙ subst (λ i. lookup i jobs ≡ some row) (sym ((text_eq_iff id j).0 same_id)) h))
        change,
  )
  | inr distinct ↦ (row, lookup-insert id j x jobs ∙ rw (distinct, h) refl, stay)
]

module _ (p : Platform) (require_attestation : Bool) (now : ℕ) (user : Text) (t : Tables) where
  row_after :
      (id : Text) (row : JobRow) (jobs : Map JobRow)
      → Effect require_attestation now user t jobs
      → lookup id t.jobs ≡ some row
      → (row' : JobRow) × (lookup id jobs ≡ some row')
        × RowChange require_attestation now user t.devices row row'
  row_after id row jobs (same e) h = (row, rw e h, kept refl)
  row_after id row jobs (added j _ _ _ _ missing e) h = elim (Bool-cases (text_eq j id)) [
    | inl same_id ↦
        let gone : none ≡ some row =
          sym missing
          ∙ subst (λ i. lookup i t.jobs ≡ some row) (sym ((text_eq_iff j id).0 same_id)) h in
        absurd cc
    | inr distinct ↦ (row, rw e (lookup-insert j id _ t.jobs ∙ rw (distinct, h) refl), kept refl)
  ]
  row_after id row jobs (taken j r device_id attested capability found passed authorized e) h =
      rw e (
        written (RowChange require_attestation now user t.devices) j id r _ row t.jobs found h
          (took device_id attested capability passed authorized refl) (kept refl))
  row_after id row jobs (reported j r device_id result status found passed e) h = rw e (
      written (RowChange require_attestation now user t.devices) j id r _ row t.jobs found h
        (finished device_id result status passed refl) (kept refl))

  -- Every job that is there stays, and its row is kept, taken or finished.
  pub serve_relay-RowChange :
      (r : RelayRequest) (id : Text) (row : JobRow)
      → lookup id t.jobs ≡ some row
      → (row' : JobRow) × (lookup id (serve_relay p require_attestation now (some user) r t).0.jobs
          ≡ some row')
        × RowChange require_attestation now user t.devices row row'
  serve_relay-RowChange r id row h =
      row_after id row _ (serve_relay-Effect p require_attestation now user t r) h

pub lookup-retry_failed :
    (id : Text) (row : JobRow) (jobs : Map JobRow)
    → lookup id jobs ≡ some row
    → lookup id (retry_failed jobs) ≡ some (retry_row row)
unfolding lookup retry_failed
lookup-retry_failed id row [] h = cc
lookup-retry_failed id row ((j, r) ∷ jobs) h = elim (Bool-cases (text_eq j id)) [
  | inl same_id ↦ rw same_id (ap (λ x. some (retry_row x)) (some_eq r row (ground arith)))
  | inr distinct ↦ rw distinct (lookup-retry_failed id row jobs (ground arith))
]

pub data Phase : Type 0 where
  waiting : Phase
  held : Option Text → Phase
  over : Phase

unfoldable pub phase_of : JobRow → Phase
phase_of row =
    if text_eq row.status queued
    then waiting
    else if text_eq row.status accepted
    then held row.executing_device_id
    else over

-- What no step changes.
unfoldable pub IsSameJob : JobRow → JobRow → Type 0
IsSameJob row row' =
    (row'.creator_user_id ≡ row.creator_user_id)
    × (row'.destination ≡ row.destination)
    × (row'.transport_hint ≡ row.transport_hint)
    × (row'.content ≡ row.content)
    × (row'.required_capability ≡ row.required_capability)
    × (row'.expires_at ≡ row.expires_at)
    × (row'.created_at ≡ row.created_at)

pub phase_of-queued : (row : JobRow) → text_eq row.status queued ≡ true → phase_of row ≡ waiting
unfolding phase_of
phase_of-queued row h = rw h refl

pub phase_of-accepted :
    (row : JobRow)
    → text_eq row.status accepted ≡ true
    → phase_of row ≡ held row.executing_device_id
unfolding phase_of text_eq
phase_of-accepted row h = rw ((text_eq_iff row.status accepted).0 h) refl

pub held_eq : (a b : Option Text) → held a ≡ held b → a ≡ b
held_eq a b h = cc
