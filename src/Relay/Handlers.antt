-- ===== src/Relay/Handlers.antt =====
-- The handlers of relay/handler.go: a request of a user, at a time, on the two tables.
use Prim.Native.String.{String}
use messages.Text.{join, codes}
use messages.Relay.Policy.{canonical_relay_policy}
use messages.Text.Numbers.{atoi}
use messages.Relay.Devices.{
  second, relay_unauthorized, relay_expired, relay_attestation_required, load_device_record,
  is_attested, database_error, carrier, RelayError, RelayDevice,
}
use messages.Json.{null, Json}
use messages.Relay.Jobs.{
  load_job_record_for_actor, list_queued_jobs, finish_job_for_actor, create_job,
  accept_job_for_actor, RelayJob, JobRow,
}
use messages.Base.{
  ◌==◌, ◌/◌, ◌+◌, ◌++◌, ◌&&◌, length, leb, is_empty, inr, inl, false, [], Option, Map, List, Bool,
  ◌==◌, ◌/◌, ◌++◌, ◌+◌, ◌&&◌, ◌⊎◌, ◌∷◌, ℤ, ℕ, ◌||◌, true, if◌then◌else◌, text_eq, some, pos, not,
  none, negsuc, ltb, lookup, length, leb, is_empty, inr, inl, if◌then◌else◌, false, if◌then◌else◌,
  [], Text, Option, Map, List, Bool, ◌==◌, ◌/◌, ◌++◌, ◌+◌, ◌&&◌,
}

-- What the handlers take from other packages: base64.StdEncoding.DecodeString, ed25519.Verify, and
-- what the database driver leaves in a Go string for NULL (`none` where the scan is refused).
pub record Platform : Type 0 where
  pub decode_base64 : Text → Option Text
  pub ed25519_verifies : Text → Text → Text → Bool
  pub null_text : Option Text

-- The device and job tables.
pub record Tables : Type 0 where
  pub jobs : Map JobRow
  pub devices : Map RelayDevice

pub record MessageBody : Type 0 where
  pub destination : Json
  pub transport_hint : Text
  pub content : Json

pub record ResultBody : Type 0 where
  pub device_id : Text
  pub status : Text
  pub result : Json

-- An endpoint with the inputs that its handler reads; a body that does not decode is `none`, and
-- the first text of a message is the identifier that is drawn.
pub data RelayRequest : Type 0 where
  post_message : Text → Option MessageBody → RelayRequest
  get_relay_job : Text → RelayRequest
  get_available : Text → RelayRequest
  post_accept : Text → Option Text → Text → Text → RelayRequest
  post_result : Text → Option ResultBody → RelayRequest

-- An error has its status and its code.
pub data RelayReply : Type 0 where
  refused : ℕ → String → RelayReply
  job_created : Text → RelayReply
  job_shown : RelayJob → RelayReply
  jobs_listed : List RelayJob → RelayReply
  no_content : RelayReply

abbrev public_key_size : ℕ
public_key_size = 32

abbrev signature_size : ℕ
signature_size = 64

abbrev pub is_null : Json → Bool
is_null null = true
is_null _ = false

-- The status and code of an error of loadJobRecordForActor.
abbrev pub load_refused : RelayError → RelayReply
load_refused relay_unauthorized = refused 403 "forbidden"
load_refused relay_expired = refused 410 "expired"
load_refused _ = refused 404 "not_found"

abbrev pub accept_refused : RelayError → RelayReply
accept_refused relay_unauthorized = refused 403 "forbidden"
accept_refused relay_attestation_required = refused 401 "attestation_required"
accept_refused relay_expired = refused 410 "expired"
accept_refused database_error = refused 400 "accept_failed"

abbrev pub result_refused : RelayError → RelayReply
result_refused relay_unauthorized = refused 403 "forbidden"
result_refused _ = refused 500 "result_failed"

abbrev pub saved :
    Tables → (RelayError → RelayReply) → RelayError ⊎ Map JobRow → Tables × RelayReply
saved t refuse (inl e) = (t, refuse e)
saved t refuse (inr jobs) = (record t { jobs = jobs }, no_content)

abbrev pub created : Text → Tables → RelayError ⊎ Map JobRow → Tables × RelayReply
created id t (inl e) = (t, refused 500 "create_failed")
created id t (inr jobs) = (record t { jobs = jobs }, job_created id)

abbrev pub listed_or_failed : Option (List RelayJob) → RelayReply
listed_or_failed none = refused 500 "list_failed"
listed_or_failed (some jobs) = jobs_listed jobs

abbrev pub list_limit : Option ℤ → ℕ
list_limit (some (pos v)) = if ltb 0 v && leb v 100 then v else 10
list_limit _ = 10

-- `tsec < now-60 || tsec > now+60`, in seconds
abbrev pub is_stale : ℕ → ℤ → Bool
is_stale now (pos t) = ltb (t + 60) now || ltb (now + 60) t
is_stale now (negsuc t) = ltb 60 (now + t + 1)

abbrev pub acceptance_payload : RelayJob → Text → Text → Text
acceptance_payload job device_id ts =
    codes "relay_accept:v2:"
    ++ join (codes ":") (
        job.id ∷ device_id ∷ ts ∷ job.transport_hint ∷ job.required_capability ∷ job.consent_state
        ∷ job.status ∷ [])

abbrev pub old_acceptance_payload : RelayJob → Text → Text
old_acceptance_payload job ts = codes "relay_accept:" ++ (job.id ++ (codes ":" ++ ts))

module _ (p : Platform) (require_attestation : Bool) (now : ℕ) where
  abbrev signature_fits : Text → Option Text → Option Text → Bool
  signature_fits payload (some key) (some sig) =
      length key == public_key_size
      && length sig == signature_size
      && p.ed25519_verifies key payload sig
  signature_fits payload _ _ = false

  -- true for the nil error; the key is that of the row whoever has the device.
  unfoldable pub verify_device_signature : Map RelayDevice → Text → Text → Text → Bool
  verify_device_signature devices device_id payload sig = elim (lookup device_id devices) [
    | none ↦ false
    | some d ↦
        if is_empty d.public_key
        then false
        else signature_fits payload (p.decode_base64 d.public_key) (p.decode_base64 sig)
  ]

  unfoldable pub verify_acceptance_signature :
      Map RelayDevice → RelayJob → Text → Text → Text → Bool
  unfolding verify_device_signature
  verify_acceptance_signature devices job device_id ts sig =
      if verify_device_signature devices device_id (acceptance_payload job device_id ts) sig
      then true
      else if require_attestation
      then false
      else verify_device_signature devices device_id (old_acceptance_payload job ts) sig

  -- The checks of the signature headers in Accept; `none` where the request goes on.
  unfoldable pub acceptance_refused :
      Map RelayDevice → RelayDevice → RelayJob → Text → Text → Text → Option RelayReply
  unfolding verify_acceptance_signature
  acceptance_refused devices device job device_id sig ts =
      if is_empty sig && is_empty ts
      then (if require_attestation
            || not (is_empty device.public_key)
            || text_eq job.required_capability carrier
          then some (refused 401 "attestation_required")
          else none)
      else if is_empty sig || is_empty ts
      then some (refused 401 "unauthorized")
      else elim (atoi ts) [
        | none ↦ some (refused 400 "invalid_request")
        | some tsec ↦
            if is_stale (now / second) tsec
            then some (refused 401 "unauthorized")
            else if not (verify_acceptance_signature devices job device_id ts sig)
            then some (refused 401 "unauthorized")
            else none
      ]

  unfoldable pub accept_loaded :
      Tables → Text → Text → Text → Text → Text → RelayJob → Tables × RelayReply
  unfolding acceptance_refused accept_job_for_actor
  accept_loaded t actor_user_id id device_id sig ts job =
      elim (load_device_record t.devices actor_user_id device_id) [
        | none ↦ (t, refused 403 "forbidden")
        | some device ↦ elim (acceptance_refused t.devices device job device_id sig ts) [
          | some reply ↦ (t, reply)
          | none ↦ saved t accept_refused (
              accept_job_for_actor require_attestation now t.devices actor_user_id id device_id
                (is_attested now device) job.required_capability t.jobs)
        ]
      ]

  unfoldable pub accept : Tables → Text → Text → Option Text → Text → Text → Tables × RelayReply
  unfolding accept_loaded
  accept t actor_user_id id none sig ts = (t, refused 400 "invalid_request")
  accept t actor_user_id id (some device_id) sig ts =
      elim (load_job_record_for_actor p.null_text now t.jobs actor_user_id id) [
        | inl e ↦ (t, load_refused e)
        | inr job ↦ accept_loaded t actor_user_id id device_id sig ts job
      ]

  -- Result
  unfoldable pub report_result : Tables → Text → Text → Option ResultBody → Tables × RelayReply
  unfolding finish_job_for_actor
  report_result t actor_user_id id none = (t, refused 400 "invalid_request")
  report_result t actor_user_id id (some req) =
      elim (load_job_record_for_actor p.null_text now t.jobs actor_user_id id) [
        | inl e ↦ (t, load_refused e)
        | inr job ↦ saved t result_refused (
            finish_job_for_actor require_attestation now t.devices actor_user_id req.device_id id
              req.result req.status job.required_capability t.jobs)
      ]

  unfoldable pub create_message : Tables → Text → Text → Option MessageBody → Tables × RelayReply
  unfolding create_job canonical_relay_policy
  create_message t user_id id none = (t, refused 400 "invalid_request")
  create_message t user_id id (some req) =
      let policy = canonical_relay_policy req.transport_hint req.content in
      if is_null req.destination || is_null req.content
      then (t, refused 400 "invalid_request")
      else created id t
          (create_job now id user_id req.destination policy.0 req.content policy.1 t.jobs)

  unfoldable pub get_job : Tables → Text → Text → Tables × RelayReply
  get_job t actor_user_id id =
      elim (load_job_record_for_actor p.null_text now t.jobs actor_user_id id) [
        | inl e ↦ (t, load_refused e)
        | inr job ↦ (t, job_shown job)
      ]

  unfoldable pub list_available : Tables → Text → Text → Tables × RelayReply
  unfolding list_queued_jobs
  list_available t actor_user_id limit = (
    t,
    listed_or_failed
        (list_queued_jobs p.null_text now actor_user_id (list_limit (atoi limit)) t.jobs),
  )

  -- The handler of the endpoint, for the user of the request's context.
  unfoldable pub serve_relay : Option Text → RelayRequest → Tables → Tables × RelayReply
  unfolding accept report_result create_message get_job list_available
  serve_relay none r t = (t, refused 401 "unauthorized")
  serve_relay (some user) (post_message id body) t = create_message t user id body
  serve_relay (some user) (get_relay_job id) t = get_job t user id
  serve_relay (some user) (get_available limit) t = list_available t user limit
  serve_relay (some user) (post_accept id body sig ts) t = accept t user id body sig ts
  serve_relay (some user) (post_result id body) t = report_result t user id body
