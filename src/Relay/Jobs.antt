-- ===== src/Relay/Jobs.antt =====
-- The table relay_jobs: the rows, the statements that change them, and the records that are read
-- from them (relay/handler.go and worker/relay_retry.go).
use messages.Text.{trim_space, codes}
use messages.Json.{null, Json}
use messages.Base.{
  true, is_some, ◌⊎◌, ◌∷◌, ℕ, ◌||◌, if◌then◌else◌, text_eq, take, some, not, none, ltb, lookup,
  is_empty, insert, inr, inl, if◌then◌else◌, false, if◌then◌else◌, [], Text, Option, Map, List,
  Bool, ◌+◌, ◌*◌, ◌&&◌,
}
use messages.Relay.Devices.{
  ensure_relay_device_authorized, database_error, RelayError, RelayDevice, second,
  relay_unauthorized, relay_expired, relay_attestation_required, has_passed, executor,
  ensure_relay_device_authorized, database_error, RelayDevice, RelayError,
}

-- A row of the table. The times are nanoseconds, and a count that is NULL is 0.
pub record JobRow : Type 0 where
  pub creator_user_id : Text
  pub destination : Json
  pub transport_hint : Text
  pub content : Json
  pub status : Text
  pub executing_device_id : Option Text
  pub consent_state : Text
  pub required_capability : Text
  pub expires_at : Option ℕ
  pub accepted_at : Option ℕ
  pub attested_at : Option ℕ
  pub result : Option Json
  pub created_at : ℕ
  pub updated_at : Option ℕ
  pub retry_count : ℕ

-- RelayJob, with the times unformatted.
pub record RelayJob : Type 0 where
  pub id : Text
  pub creator_user_id : Text
  pub destination : Json
  pub transport_hint : Text
  pub content : Json
  pub status : Text
  pub executing_device_id : Text
  pub consent_state : Text
  pub required_capability : Text
  pub expires_at : Option ℕ
  pub accepted_at : Option ℕ
  pub attested_at : Option ℕ
  pub result : Json

abbrev pub queued : Text
queued = codes "queued"

abbrev pub accepted : Text
accepted = codes "accepted"

abbrev pub send_failed : Text
send_failed = codes "CARRIER_SEND_FAILED"

abbrev result_or_nil : Option Json → Json
result_or_nil none = null
result_or_nil (some value) = value

abbrev pub job_with : Text → JobRow → Option Text → Option RelayJob
job_with id row none = none
job_with id row (some device) = some (record {
  id = id;
  creator_user_id = row.creator_user_id;
  destination = row.destination;
  transport_hint = row.transport_hint;
  content = row.content;
  status = row.status;
  executing_device_id = device;
  consent_state = row.consent_state;
  required_capability = row.required_capability;
  expires_at = row.expires_at;
  accepted_at = row.accepted_at;
  attested_at = row.attested_at;
  result = result_or_nil row.result;
})

-- The text of a column. `null_text` is what the driver leaves in a string for NULL, `none` where it
-- refuses.
abbrev pub scan_text : Option Text → Option Text → Option Text
scan_text null_text none = null_text
scan_text null_text (some t) = some t

-- The Scan of a row.
unfoldable pub scan_job : Option Text → Text → JobRow → Option RelayJob
scan_job null_text id row = job_with id row (scan_text null_text row.executing_device_id)

unfoldable pub load_job_record : Option Text → Map JobRow → Text → Option RelayJob
unfolding scan_job
load_job_record null_text jobs id = elim (lookup id jobs) [
  | none ↦ none
  | some row ↦ scan_job null_text id row
]

unfoldable pub load_job_record_for_actor :
    Option Text → ℕ → Map JobRow → Text → Text → RelayError ⊎ RelayJob
unfolding load_job_record
load_job_record_for_actor null_text now jobs actor_user_id id =
    elim (load_job_record null_text jobs id) [
      | none ↦ inl database_error
      | some job ↦
          if not (text_eq job.creator_user_id actor_user_id)
          then inl relay_unauthorized
          else if has_passed now job.expires_at && not (text_eq job.status (codes "completed"))
          then inl relay_expired
          else inr job
    ]

abbrev pub ten_minutes : ℕ
ten_minutes = 600 * second

abbrev pub executor_if_blank : Text → Text
executor_if_blank required = if is_empty (trim_space required) then executor else required

abbrev pub new_row : ℕ → Text → Json → Text → Json → Text → JobRow
new_row now creator_id destination transport_hint content required_capability = record {
  creator_user_id = creator_id;
  destination = destination;
  transport_hint = transport_hint;
  content = content;
  status = queued;
  executing_device_id = none;
  consent_state = codes "PENDING_DEVICE";
  required_capability = executor_if_blank required_capability;
  expires_at = some (now + ten_minutes);
  accepted_at = none;
  attested_at = none;
  result = none;
  created_at = now;
  updated_at = none;
  retry_count = 0;
}

-- CreateJob, under the identifier that was drawn, which is the primary key.
unfoldable pub create_job :
    ℕ → Text → Text → Json → Text → Json → Text → Map JobRow → RelayError ⊎ Map JobRow
create_job now id creator_id destination transport_hint content required_capability jobs =
    if is_some (lookup id jobs)
    then inl database_error
    else inr (
        insert id (new_row now creator_id destination transport_hint content required_capability)
          jobs)

-- UPDATE … WHERE id = … AND …, `none` where no row is affected.
unfoldable pub update_where :
    Text → (JobRow → Bool) → (JobRow → JobRow) → Map JobRow → Option (Map JobRow)
update_where id test change jobs = elim (lookup id jobs) [
  | none ↦ none
  | some row ↦ if test row then some (insert id (change row) jobs) else none
]

abbrev pub can_accept : ℕ → Text → Text → JobRow → Bool
can_accept now actor_user_id required_capability row =
    text_eq row.creator_user_id actor_user_id
    && text_eq row.status queued
    && text_eq row.required_capability required_capability
    && not (has_passed now row.expires_at)

abbrev pub accept_row : ℕ → Text → Bool → JobRow → JobRow
accept_row now device_id attested row = record row {
  executing_device_id = some device_id;
  status = accepted;
  consent_state = codes "DEVICE_CONFIRMED";
  accepted_at = some now;
  attested_at = if attested then some now else row.attested_at;
  updated_at = some now;
}

abbrev pub is_device : Text → Option Text → Bool
is_device device_id none = false
is_device device_id (some d) = text_eq d device_id

abbrev pub can_finish : ℕ → Text → Text → JobRow → Bool
can_finish now actor_user_id device_id row =
    text_eq row.creator_user_id actor_user_id
    && is_device device_id row.executing_device_id
    && text_eq row.status accepted
    && not (has_passed now row.expires_at)

abbrev pub finish_row : ℕ → Json → Text → JobRow → JobRow
finish_row now result status row = record row {
  result = some result;
  status = status;
  updated_at = some now;
}

abbrev pub or_error : RelayError → Option (Map JobRow) → RelayError ⊎ Map JobRow
or_error e none = inl e
or_error e (some jobs) = inr jobs

module _ (require_attestation : Bool) (now : ℕ) (devices : Map RelayDevice)
    (actor_user_id : Text) where
  unfoldable pub accept_job_for_actor :
      Text → Text → Bool → Text → Map JobRow → RelayError ⊎ Map JobRow
  unfolding update_where
  accept_job_for_actor id device_id attested capability jobs =
      elim (ensure_relay_device_authorized require_attestation now devices actor_user_id device_id
        capability) [
          | some e ↦ inl e
          | none ↦
              if require_attestation && not attested
              then inl relay_attestation_required
              else or_error relay_expired (
                  update_where id (can_accept now actor_user_id capability)
                    (accept_row now device_id attested) jobs)
        ]

  unfoldable pub finish_job_for_actor :
      Text → Text → Json → Text → Text → Map JobRow → RelayError ⊎ Map JobRow
  unfolding update_where
  finish_job_for_actor device_id id result status capability jobs =
      elim (ensure_relay_device_authorized require_attestation now devices actor_user_id device_id
        capability) [
          | some e ↦ inl e
          | none ↦ or_error relay_unauthorized (
              update_where id (can_finish now actor_user_id device_id)
                (finish_row now result status) jobs)
        ]

abbrev always : JobRow → Bool
always row = true

abbrev or_unchanged : Map JobRow → Option (Map JobRow) → Map JobRow
or_unchanged jobs none = jobs
or_unchanged jobs (some jobs') = jobs'

-- AcceptJob, which no handler calls: nothing is checked.
unfoldable pub accept_job : ℕ → Text → Text → Map JobRow → Map JobRow
unfolding update_where
accept_job now id device_id jobs = or_unchanged jobs (
    update_where id always
      (λ (row : JobRow). record row {
        executing_device_id = some device_id;
        status = accepted;
        updated_at = some now;
      })
      jobs)

-- FinishJob, which no handler calls either.
unfoldable pub finish_job : ℕ → Text → Json → Text → Map JobRow → Map JobRow
unfolding update_where
finish_job now id result status jobs =
    or_unchanged jobs (update_where id always (finish_row now result status) jobs)

-- The statement of the retry worker, on every row of the table.
abbrev pub retry_row : JobRow → JobRow
retry_row row =
    if text_eq row.status send_failed && ltb row.retry_count 3
    then record row { retry_count = row.retry_count + 1; status = queued }
    else row

unfoldable pub retry_failed : Map JobRow → Map JobRow
retry_failed [] = []
retry_failed ((id, row) ∷ jobs) = (id, retry_row row) ∷ retry_failed jobs

-- ORDER BY created_at
abbrev pub insert_by_age : Text × JobRow → Map JobRow → Map JobRow
insert_by_age x [] = x ∷ []
insert_by_age x (y ∷ ys) =
    let rest = insert_by_age x ys in
    if ltb y.1.created_at x.1.created_at then y ∷ rest else x ∷ y ∷ ys

unfoldable pub by_age : Map JobRow → Map JobRow
by_age [] = []
by_age (x ∷ xs) = insert_by_age x (by_age xs)

abbrev pub is_listed : ℕ → Text → JobRow → Bool
is_listed now actor_user_id row =
    text_eq row.status queued
    && not (has_passed now row.expires_at)
    && (is_empty (trim_space actor_user_id) || text_eq row.creator_user_id actor_user_id)

unfoldable pub select_listed : ℕ → Text → Map JobRow → Map JobRow
select_listed now actor_user_id [] = []
select_listed now actor_user_id ((id, row) ∷ jobs) =
    let rest = select_listed now actor_user_id jobs in
    if is_listed now actor_user_id row then (id, row) ∷ rest else rest

abbrev pub job_before : RelayJob → Option (List RelayJob) → Option (List RelayJob)
job_before job none = none
job_before job (some jobs) = some (job ∷ jobs)

-- The loop over the rows, which ends at the first that cannot be scanned.
unfoldable pub scan_jobs : Option Text → Map JobRow → Option (List RelayJob)
unfolding scan_job
scan_jobs null_text [] = some []
scan_jobs null_text ((id, row) ∷ rows) = elim (scan_job null_text id row) [
  | none ↦ none
  | some job ↦ job_before job (scan_jobs null_text rows)
]

unfoldable pub list_queued_jobs : Option Text → ℕ → Text → ℕ → Map JobRow → Option (List RelayJob)
unfolding scan_jobs by_age select_listed
list_queued_jobs null_text now actor_user_id limit jobs =
    scan_jobs null_text (take limit (by_age (select_listed now actor_user_id jobs)))
