-- ===== src/Relay/Examples.antt =====
-- The theorems about the relay at concrete requests: a user with one device and one job.
use messages.Base.{◌⊎◌}
use messages.Base.{◌↔◌}
use messages.Text.Numbers.{atoi}
use messages.Relay.Handlers.{Platform}
use messages.Relay.Safety.{serve_relay-taken, serve_relay-strangers, requeues_bound, requeues}
use messages.Text.{trim_space, codes}
use messages.Relay.Policy.{sms, mms, canonical_relay_policy}
use messages.Relay.Handlers.{
  Platform, serve_relay, post_result, post_accept, list_available, Tables, RelayRequest,
}
use messages.Relay.Runs.{run, retry_round, requested, RelayEvent}
use messages.Relay.Devices.{
  ensure_relay_device_authorized, load_device_record, second, has_passed, executor, RelayDevice,
}
use messages.Json.{string, object, null, nil, field, end, cons, array, Json}
use messages.Relay.Jobs.{
  load_job_record_for_actor, send_failed, scan_job, new_row, finish_row, accept_row, RelayJob,
  JobRow,
}
use messages.Relay.Lifecycle.{phase_of, IsSameJob}
use messages.Relay.Stages.{run-Journey, stage_of, Journey}
use messages.Relay.Listing.{serve_relay-listed, IsOpenJob}
use messages.Relay.Media.{canonical_relay_policy-HoldsMedia, HoldsMedia}
use messages.Relay.Effects.{Authorized}
use messages.Base.{
  text_eq, ◌≤◌, ◌≡◌, ◌∷◌, ℕ, true, some, refl, none, lookup, length, insert, false, arith, [], Text,
  List, All, ◌+◌, ◌*◌,
}

abbrev toy : Platform
toy = record {
  decode_base64 = λ t. some t;
  ed25519_verifies = λ key payload sig. true;
  null_text = some [];
}

-- A driver that refuses NULL.
abbrev strict_toy : Platform
strict_toy = record {
  decode_base64 = λ t. some t;
  ed25519_verifies = λ key payload sig. true;
  null_text = none;
}

abbrev alice : Text
alice = codes "alice"

abbrev phone : Text
phone = codes "phone"

abbrev job_id : Text
job_id = codes "job"

abbrev noon : ℕ
noon = 1_000 * second

abbrev phone_row : RelayDevice
phone_row = record {
  user_id = alice;
  public_key = [];
  capabilities = executor ∷ [];
  sms_role_state = [];
  last_seen_at = noon;
  attestation_state = codes "UNVERIFIED";
  attestation_expires_at = none;
}

abbrev letter : Json
letter = object (field (codes "text") (string (codes "hi")) end)

abbrev picture : Json
picture = object (
    field (codes "parts")
      (array (cons (object (field (codes "media") (string (codes "cat.png")) end)) nil)) end)

abbrev waiting_row : JobRow
waiting_row = new_row noon alice (string (codes "+1")) (codes "RELAY_SMS") letter executor

abbrev taken_row : JobRow
taken_row = accept_row noon phone false waiting_row

abbrev failed_row : JobRow
failed_row = finish_row noon null send_failed taken_row

abbrev start_tables : Tables
start_tables = record { jobs = (job_id, waiting_row) ∷ []; devices = (phone, phone_row) ∷ [] }

abbrev failed_tables : Tables
failed_tables = record { jobs = (job_id, failed_row) ∷ []; devices = [] }

abbrev take_job : RelayRequest
take_job = post_accept job_id (some phone) [] []

abbrev fail_job : RelayRequest
fail_job =
    post_result job_id (some (record { device_id = phone; status = send_failed; result = null }))

abbrev day_events : List RelayEvent
day_events = requested noon alice take_job ∷ requested noon alice fail_job ∷ retry_round ∷ []

run-Journey_example :
    (row' : JobRow) × (lookup job_id (run toy false day_events start_tables).jobs ≡ some row')
    × IsSameJob waiting_row row'
    × Journey toy false waiting_row day_events start_tables (stage_of waiting_row) (stage_of row')
unfolding lookup text_eq
run-Journey_example = run-Journey toy false day_events start_tables job_id waiting_row refl

serve_relay-taken_example :
    (waiting_row.creator_user_id ≡ alice)
    × (has_passed noon waiting_row.expires_at ≡ false)
    × Authorized false noon start_tables.devices alice phone executor
unfolding lookup serve_relay phase_of insert text_eq load_job_record_for_actor load_device_record
    trim_space ensure_relay_device_authorized
serve_relay-taken_example =
    serve_relay-taken toy false noon alice start_tables take_job job_id phone waiting_row taken_row
      refl refl refl refl

serve_relay-strangers_example :
    lookup job_id (serve_relay toy false noon (some (codes "mallory")) take_job start_tables).0.jobs
    ≡ some waiting_row
unfolding lookup text_eq
serve_relay-strangers_example =
    serve_relay-strangers toy false noon (codes "mallory") start_tables take_job job_id waiting_row
      refl (λ h. cc)

requeues_bound_example :
    0 + requeues toy false job_id (retry_round ∷ retry_round ∷ []) failed_tables ≤ 3
unfolding lookup text_eq
requeues_bound_example =
    requeues_bound toy false job_id (retry_round ∷ retry_round ∷ []) failed_tables failed_row refl
      (omega arith)

canonical_relay_policy-HoldsMedia_example :
    ((canonical_relay_policy (codes "sms") picture ≡ mms) ↔ HoldsMedia picture)
    × ((canonical_relay_policy (codes "sms") picture ≡ mms)
        ⊎ (canonical_relay_policy (codes "sms") picture ≡ sms))
canonical_relay_policy-HoldsMedia_example = canonical_relay_policy-HoldsMedia (codes "sms") picture

abbrev all_open : List RelayJob
all_open = elim (scan_job (some []) job_id waiting_row) [ none ↦ [] | some job ↦ job ∷ [] ]

serve_relay-listed_example : All (IsOpenJob noon alice) all_open × (length all_open ≤ 100)
unfolding serve_relay list_available scan_job trim_space atoi text_eq
serve_relay-listed_example =
    serve_relay-listed toy false noon alice (codes "5") start_tables all_open refl refl
