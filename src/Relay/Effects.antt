-- ===== src/Relay/Effects.antt =====
-- What a request may do to the table of jobs: it leaves it as it is, or it adds, accepts or
-- finishes one job. Every proof about all handlers goes by the cases of this relation.
use messages.Relay.Policy.{canonical_relay_policy}
use messages.Relay.Devices.{
  relay_unauthorized, relay_expired, relay_attestation_required, load_device_record, is_attested,
  ensure_relay_device_authorized, device_error, RelayError, RelayDevice,
}
use messages.Relay.Handlers.{
  serve_relay, report_result, post_result, post_message, post_accept, list_available, is_null,
  get_relay_job, get_job, get_available, create_message, acceptance_refused, accept_loaded, accept,
  Tables, ResultBody, RelayRequest, RelayReply, Platform, MessageBody,
}
use messages.Json.{Json}
use messages.Relay.Jobs.{
  update_where, new_row, load_job_record_for_actor, finish_row, finish_job_for_actor, create_job,
  can_finish, can_accept, accept_row, accept_job_for_actor, RelayJob, JobRow,
}
use messages.Base.{
  ◌⊎◌, ◌≡◌, ℕ, ◌||◌, true, text_eq, some, refl, not, none, lookup, insert, inr, inl, arith, Text,
  Option-cases, Option, Map, Either-cases, Bool-cases, Bool, ◌&&◌,
}

-- The device that has passed ensureRelayDeviceAuthorized.
pub record Authorized (require_attestation : Bool) (now : ℕ) (devices : Map RelayDevice)
    (user device_id capability : Text) : Type 0 where
  pub device : RelayDevice
  pub found : lookup device_id devices ≡ some device
  pub own : text_eq device.user_id user ≡ true
  pub no_error : device_error require_attestation now capability device ≡ none

pub data Effect (require_attestation : Bool) (now : ℕ) (user : Text) (t : Tables)
    (jobs : Map JobRow) : Type 0 where
  same : jobs ≡ t.jobs → Effect require_attestation now user t jobs
  added :
      (id : Text) (destination : Json) (hint : Text) (content : Json) (capability : Text)
      → lookup id t.jobs ≡ none
      → jobs ≡ insert id (new_row now user destination hint content capability) t.jobs
      → Effect require_attestation now user t jobs
  taken :
      (id : Text) (row : JobRow) (device_id : Text) (attested : Bool) (capability : Text)
      → lookup id t.jobs ≡ some row
      → can_accept now user capability row ≡ true
      → Authorized require_attestation now t.devices user device_id capability
      → jobs ≡ insert id (accept_row now device_id attested row) t.jobs
      → Effect require_attestation now user t jobs
  reported :
      (id : Text) (row : JobRow) (device_id : Text) (result : Json) (status : Text)
      → lookup id t.jobs ≡ some row
      → can_finish now user device_id row ≡ true
      → jobs ≡ insert id (finish_row now result status row) t.jobs
      → Effect require_attestation now user t jobs

update_where-cases :
    (id : Text) (test : JobRow → Bool) (change : JobRow → JobRow) (jobs : Map JobRow)
    → (update_where id test change jobs ≡ none)
      ⊎ ((row : JobRow) × (lookup id jobs ≡ some row)
          × (test row ≡ true)
          × (update_where id test change jobs ≡ some (insert id (change row) jobs)))
unfolding update_where
update_where-cases id test change jobs = elim (Option-cases (lookup id jobs)) [
  | inl missing ↦ inl (rw (update_where, missing) refl)
  | inr (row, found) ↦ elim (Bool-cases (test row)) [
    | inl passed ↦ inr (row, found, passed, rw (update_where, found, passed) refl)
    | inr failing ↦ inl (rw (update_where, found, failing) refl)
  ]
]

load_device_record-found :
    (devices : Map RelayDevice) (user id : Text) (d : RelayDevice)
    → load_device_record devices user id ≡ some d
    → (lookup id devices ≡ some d) × (text_eq d.user_id user ≡ true)
unfolding load_device_record
load_device_record-found devices user id d h = ground arith

module _ (require_attestation : Bool) (now : ℕ) (user : Text) (t : Tables) where
  ensure_relay_device_authorized-Authorized :
      (device_id capability : Text)
      → ensure_relay_device_authorized require_attestation now t.devices user device_id capability
        ≡ none
      → Authorized require_attestation now t.devices user device_id capability
  unfolding ensure_relay_device_authorized
  ensure_relay_device_authorized-Authorized device_id capability h =
      elim (Option-cases (load_device_record t.devices user device_id)) [
        | inl missing ↦ absurd (ground arith)
        | inr (d, loaded) ↦
            let own = load_device_record-found t.devices user device_id d loaded in
            record { device = d; found = own.0; own = own.1; no_error = ground arith }
      ]

  accept_job_for_actor-cases :
      (id device_id : Text) (attested : Bool) (capability : Text)
      → ((e : RelayError) × (accept_job_for_actor require_attestation now t.devices user id
              device_id attested capability t.jobs
            ≡ inl e))
        ⊎ ((row : JobRow) × (lookup id t.jobs ≡ some row)
            × (can_accept now user capability row ≡ true)
            × Authorized require_attestation now t.devices user device_id capability
            × (accept_job_for_actor require_attestation now t.devices user id device_id attested
                  capability t.jobs
                ≡ inr (insert id (accept_row now device_id attested row) t.jobs)))
  unfolding accept_job_for_actor
  accept_job_for_actor-cases id device_id attested capability =
      elim (Option-cases (
        ensure_relay_device_authorized require_attestation now t.devices user device_id
          capability)) [
            | inr (e, refusal) ↦ inl (e, rw (accept_job_for_actor, refusal) refl)
            | inl fine ↦ elim (Bool-cases (require_attestation && not attested)) [
              | inl strict ↦
                  inl (relay_attestation_required, rw (accept_job_for_actor, fine, strict) refl)
              | inr enough ↦
                  elim (update_where-cases id (can_accept now user capability)
                    (accept_row now device_id attested) t.jobs) [
                      | inl no_row ↦
                          inl (relay_expired, rw (accept_job_for_actor, fine, enough, no_row) refl)
                      | inr (row, found, passed, done) ↦ inr (
                        row,
                        found,
                        passed,
                        ensure_relay_device_authorized-Authorized device_id capability fine,
                        rw (accept_job_for_actor, fine, enough, done) refl,
                      )
                    ]
            ]
          ]

  finish_job_for_actor-cases :
      (device_id id : Text) (result : Json) (status capability : Text)
      → ((e : RelayError) × (finish_job_for_actor require_attestation now t.devices user device_id
              id result status capability t.jobs
            ≡ inl e))
        ⊎ ((row : JobRow) × (lookup id t.jobs ≡ some row)
            × (can_finish now user device_id row ≡ true)
            × (finish_job_for_actor require_attestation now t.devices user device_id id result
                  status capability t.jobs
                ≡ inr (insert id (finish_row now result status row) t.jobs)))
  unfolding finish_job_for_actor
  finish_job_for_actor-cases device_id id result status capability =
      elim (Option-cases (
        ensure_relay_device_authorized require_attestation now t.devices user device_id
          capability)) [
            | inr (e, refusal) ↦ inl (e, rw (finish_job_for_actor, refusal) refl)
            | inl fine ↦
                elim (update_where-cases id (can_finish now user device_id)
                  (finish_row now result status) t.jobs) [
                    | inl no_row ↦
                        inl (relay_unauthorized, rw (finish_job_for_actor, fine, no_row) refl)
                    | inr (row, found, passed, done) ↦
                        inr (row, found, passed, rw (finish_job_for_actor, fine, done) refl)
                  ]
          ]

  abbrev pub MakesEffect : Tables × RelayReply → Type 0
  MakesEffect x = Effect require_attestation now user t x.0.jobs

module _ (p : Platform) (require_attestation : Bool) (now : ℕ) (user : Text) (t : Tables) where
  accept_loaded-Effect :
      (id device_id sig ts : Text) (job : RelayJob)
      → MakesEffect require_attestation now user t
          (accept_loaded p require_attestation now t user id device_id sig ts job)
  unfolding accept_loaded
  accept_loaded-Effect id device_id sig ts job =
      elim (Option-cases (load_device_record t.devices user device_id)) [
        | inl missing ↦ rw (accept_loaded, missing) (same refl)
        | inr (device, loaded) ↦
            elim (Option-cases (
              acceptance_refused p require_attestation now t.devices device job device_id sig ts)) [
                | inr (reply, refusal) ↦ rw (accept_loaded, loaded, refusal) (same refl)
                | inl fine ↦
                    elim (accept_job_for_actor-cases require_attestation now user t id device_id
                      (is_attested now device) job.required_capability) [
                        | inl (e, failing) ↦ rw (accept_loaded, loaded, fine, failing) (same refl)
                        | inr (row, found, passed, authorized, done) ↦
                            rw (accept_loaded, loaded, fine, done)
                              (taken id row device_id _ _ found passed authorized refl)
                      ]
              ]
      ]

  accept-Effect :
      (id : Text) (body : Option Text) (sig ts : Text)
      → MakesEffect require_attestation now user t
          (accept p require_attestation now t user id body sig ts)
  unfolding accept
  accept-Effect id none sig ts = same refl
  accept-Effect id (some device_id) sig ts =
      elim (Either-cases (load_job_record_for_actor p.null_text now t.jobs user id)) [
        | inl (e, failing) ↦ rw (accept, failing) (same refl)
        | inr (job, read) ↦ rw (accept, read) (accept_loaded-Effect id device_id sig ts job)
      ]

  report_result-Effect :
      (id : Text) (body : Option ResultBody)
      → MakesEffect require_attestation now user t
          (report_result p require_attestation now t user id body)
  unfolding report_result
  report_result-Effect id none = same refl
  report_result-Effect id (some req) =
      elim (Either-cases (load_job_record_for_actor p.null_text now t.jobs user id)) [
        | inl (e, failing) ↦ rw (report_result, failing) (same refl)
        | inr (job, read) ↦
            elim (finish_job_for_actor-cases require_attestation now user t req.device_id id
              req.result req.status job.required_capability) [
                | inl (e, failing) ↦ rw (report_result, read, failing) (same refl)
                | inr (row, found, passed, done) ↦
                    rw (report_result, read, done)
                      (reported id row req.device_id req.result req.status found passed refl)
              ]
      ]

  get_job-Effect :
      (id : Text)
      → MakesEffect require_attestation now user t (get_job p require_attestation now t user id)
  unfolding get_job
  get_job-Effect id =
      elim (Either-cases (load_job_record_for_actor p.null_text now t.jobs user id)) [
        | inl (e, failing) ↦ rw (get_job, failing) (same refl)
        | inr (job, read) ↦ rw (get_job, read) (same refl)
      ]

  create_message-Effect :
      (id : Text) (body : Option MessageBody)
      → MakesEffect require_attestation now user t
          (create_message p require_attestation now t user id body)
  unfolding create_message create_job
  create_message-Effect id none = same refl
  create_message-Effect id (some req) =
      let policy = canonical_relay_policy req.transport_hint req.content in
      elim (Bool-cases (is_null req.destination || is_null req.content)) [
        | inl incomplete ↦ rw (create_message, incomplete) (same refl)
        | inr whole ↦ elim (Option-cases (lookup id t.jobs)) [
          | inr (row, found) ↦ rw (create_message, whole, create_job, found) (same refl)
          | inl missing ↦
              rw (create_message, whole, create_job, missing)
                (added id req.destination policy.0 req.content policy.1 missing refl)
        ]
      ]

  pub serve_relay-Effect :
      (r : RelayRequest)
      → MakesEffect require_attestation now user t
          (serve_relay p require_attestation now (some user) r t)
  unfolding serve_relay list_available
  serve_relay-Effect (post_message id body) = create_message-Effect id body
  serve_relay-Effect (get_relay_job id) = get_job-Effect id
  serve_relay-Effect (get_available limit) = same refl
  serve_relay-Effect (post_accept id body sig ts) = accept-Effect id body sig ts
  serve_relay-Effect (post_result id body) = report_result-Effect id body
