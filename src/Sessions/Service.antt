-- ===== src/Sessions/Service.antt =====
-- The operations of the service on sessions, on the tables of sessions, events and conversation
-- members. What the catalog of releases answers is an input, and so are the time and the identifier
-- that is drawn.
use messages.Apps.Permissions.Sort.{mem}
use messages.Text.{codes}
use messages.Sessions.{
  viewer_granted_permissions, viewer_for_user, state_version_conflict, state_envelope_from_any,
  session_not_found, session_ended, sanitize_granted_permissions, player, permissions_from_manifest,
  normalize_participants, manifest_missing, has_none, has_joined, event_type_required, decoded,
  consent_required, bridge_method_not_allowed, access_denied, SessionState, SessionRecord,
  SessionError, Participant,
}
use messages.Json.{Json, Fields}
use messages.Base.{
  ◌⊎◌, ◌∷◌, ℤ, ℕ, true, if◌then◌else◌, some, pos, not, none, negsuc, lookup, leb, is_some, is_empty,
  insert, inr, inl, if◌then◌else◌, false, if◌then◌else◌, [], Text, Option, Map, List, Bool, ◌==◌,
  ◌++◌, ◌+◌, ◌*◌, ◌&&◌,
}

-- What a bridge event records.
pub data EventBody : Type 0 where
  session_created_body : ℕ → List Text → List Participant → EventBody
  session_joined_body : Participant → List Text → EventBody
  snapshot_written_body : ℕ → ℕ → EventBody
  bridge_body : Json → EventBody

-- A row of miniapp_events.
pub record EventRow : Type 0 where
  pub event_seq : ℕ
  pub app_session_id : Text
  pub actor_user_id : Text
  pub event_type : Text
  pub event_name : Text
  pub body : EventBody

pub record World : Type 0 where
  pub sessions : Map SessionRecord
  pub events : List EventRow
  pub next_seq : ℕ
  -- conversation_members
  pub members : Map (List Text)

pub record CatalogEntry : Type 0 where
  pub id : Text
  pub version : Text
  pub manifest : Fields
  pub is_published : Bool

-- ReleaseStatus
pub record ReleaseStatus : Type 0 where
  pub is_suspended : Bool
  pub is_revoked : Bool

-- What loadCatalogEntryByAppID, GetManifestByID and CheckReleaseStatus answer, and the length of a
-- state in JSON.
pub record Catalog : Type 0 where
  pub entry : Text → Option CatalogEntry
  pub manifest_by_id : Text → Option Fields
  pub release_status : Text → Text → Option ReleaseStatus
  pub state_size : SessionState → ℕ

abbrev pub Answer {ℓ} : Type ℓ → Type ℓ
Answer A = World × (SessionError ⊎ A)

unfoldable pub refuse_if {ℓ} : {A : Type ℓ} → Bool → SessionError → World → Answer A → Answer A
refuse_if true e w answer = (w, inl e)
refuse_if false e w answer = answer

unfoldable pub with_found {ℓ κ} :
    {A : Type ℓ} {B : Type κ} → Option A → SessionError → World → (A → Answer B) → Answer B
with_found none e w rest = (w, inl e)
with_found (some a) e w rest = rest a

-- The rest of a function behind an error that was returned.
unfoldable pub and_then {ℓ κ} :
    {A : Type ℓ} {B : Type κ} → Answer A → (World → A → Answer B) → Answer B
and_then (w, inl e) rest = (w, inl e)
and_then (w, inr a) rest = rest w a

abbrev pub minute : ℕ
minute = 60 * 1_000_000_000

abbrev pub hour : ℕ
hour = 60 * minute

unfoldable pub load_session_record : World → Text → Option SessionRecord
unfolding decoded
load_session_record w id = elim (lookup id w.sessions) [
  | none ↦ none
  | some row ↦ some (decoded row)
]

-- UPDATE miniapp_sessions … WHERE id = …
unfoldable pub update_session : Text → (SessionRecord → SessionRecord) → World → World
update_session id change w = elim (lookup id w.sessions) [
  | none ↦ w
  | some row ↦ record w { sessions = insert id (change row) w.sessions }
]

abbrev members_of : Option (List Text) → List Text
members_of none = []
members_of (some users) = users

unfoldable pub is_member : World → Text → Text → Bool
is_member w user conversation = mem user (members_of (lookup conversation w.members))

abbrev pub is_over : SessionRecord → Bool
is_over row = is_some row.ended_at

module _ (c : Catalog) (now : ℕ) where
  abbrev pub expires_in : ℕ → SessionRecord → SessionRecord
  expires_in time row = record row { expires_at = some (now + time) }

  -- AppendEvent: the row of the event, and an hour more for the session.
  unfoldable pub append_event : Text → Text → Text → Text → EventBody → World → Answer ℕ
  unfolding load_session_record update_session
  append_event id actor event_type event_name body w =
      refuse_if (is_empty event_type) event_type_required w (
        with_found (load_session_record w id) session_not_found w λ row.
          refuse_if (is_over row) session_ended w (
            update_session id (expires_in hour) (record w {
              events =
                  w.events
                  ++ (record {
                    event_seq = w.next_seq;
                    app_session_id = id;
                    actor_user_id = actor;
                    event_type = event_type;
                    event_name = event_name;
                    body = body;
                  }
                      ∷ []);
              next_seq = w.next_seq + 1;
            }),
            inr w.next_seq,
          ))

  abbrev pub next_version : ℤ → ℕ → ℕ
  next_version (pos n) current = if n == 0 then current + 1 else n
  next_version (negsuc n) current = current + 1

  abbrev pub write_snapshot : SessionState → ℕ → SessionRecord → SessionRecord
  write_snapshot state version row = record row {
    state = state;
    state_version = version;
    expires_at = some (now + hour);
  }

  -- SnapshotSession; the log of the event may fail.
  unfoldable pub snapshot_session : Text → Json → ℤ → Text → World → Answer ℕ
  unfolding update_session append_event state_envelope_from_any
  snapshot_session id state version actor w =
      with_found (lookup id w.sessions) session_not_found w λ row.
        let next = next_version version row.state_version in
        let envelope = state_envelope_from_any state in
        refuse_if (is_over row) session_ended w (
          refuse_if (leb next row.state_version) state_version_conflict w (
            (append_event id actor (codes "snapshot_written") []
                (snapshot_written_body next (c.state_size envelope))
                (update_session id (write_snapshot envelope next) w)).0,
            inr next,
          ))

  unfoldable pub end_session : Text → World → Answer (Unit {0})
  unfolding update_session
  end_session id w = with_found (lookup id w.sessions) session_not_found w λ row.
      refuse_if (is_over row) session_ended w
        (update_session id (λ (r : SessionRecord). record r { ended_at = some now }) w, inr tt)

  unfoldable pub end_session_for_user : Text → Text → World → Answer (Unit {0})
  unfolding load_session_record is_member end_session
  end_session_for_user user id w = with_found (load_session_record w id) session_not_found w λ row.
      refuse_if (is_over row) session_ended w
        (refuse_if (not (is_member w user row.conversation_id)) access_denied w (end_session id w))

  -- manifestPermissionsForAppID
  unfoldable pub manifest_permissions_for_app_id : Text → Option (List Text)
  unfolding permissions_from_manifest
  manifest_permissions_for_app_id app_id = elim (c.entry app_id) [
    | none ↦ none
    | some entry ↦ some (permissions_from_manifest entry.manifest)
  ]

  abbrev pub join_row : Text → List Participant → List Text → SessionRecord → SessionRecord
  join_row user participants permissions row = record row {
    participants = participants;
    participant_permissions = insert user permissions row.participant_permissions;
  }

  -- What the user sees of a session.
  pub record SessionView : Type 0 where
    pub record_of : SessionRecord
    pub viewer : Participant
    pub capabilities_granted : List Text
    pub is_consent_required : Bool
    pub is_joinable : Bool

  -- sessionRecordToMapForUser
  unfoldable pub session_view : SessionRecord → Text → List Text → SessionView
  unfolding viewer_for_user viewer_granted_permissions has_joined
  session_view row user permitted = record {
    record_of = row;
    viewer = viewer_for_user row.participants user;
    capabilities_granted = viewer_granted_permissions row user;
    is_consent_required = not (has_none permitted) && not (has_joined row user);
    is_joinable = not (is_over row);
  }

  -- JoinSession. The permissions of all participants are written back as they were decoded.
  unfoldable pub join_session : Text → Text → List Text → World → Answer SessionView
  unfolding load_session_record is_member update_session append_event
      manifest_permissions_for_app_id sanitize_granted_permissions normalize_participants
      session_view
  join_session user id granted w = with_found (load_session_record w id) session_not_found w λ row.
      refuse_if (is_over row) session_ended w (
        refuse_if (not (is_member w user row.conversation_id)) access_denied w (
          with_found (manifest_permissions_for_app_id row.app_id) manifest_missing w λ permitted.
            let permissions = sanitize_granted_permissions granted permitted in
            let participants = normalize_participants row.participants (player user) in
            let joined = join_row user participants permissions row in
            (
              (append_event id user (codes "session_joined") []
                  (session_joined_body (player user) permissions)
                  (update_session id
                    (λ (r : SessionRecord). record r {
                      participants = participants;
                      participant_permissions = joined.participant_permissions;
                    })
                    w)).0,
              inr (session_view joined user permitted),
            )))

  unfoldable pub get_session_for_user : Text → Text → World → Answer SessionView
  unfolding load_session_record is_member manifest_permissions_for_app_id session_view
  get_session_for_user user id w = with_found (load_session_record w id) session_not_found w λ row.
      refuse_if (not (is_member w user row.conversation_id)) access_denied w (
        with_found (manifest_permissions_for_app_id row.app_id) manifest_missing w
          λ permitted. (w, inr (session_view row user permitted)))

  -- AppendEventForUser; validateBridgeMethodWithRateLimit asks for any permission at all.
  unfoldable pub append_event_for_user : Text → Text → Text → Json → World → Answer ℕ
  unfolding load_session_record is_member has_joined viewer_granted_permissions append_event
  append_event_for_user user id event_name body w =
      with_found (load_session_record w id) session_not_found w λ row.
        refuse_if (is_over row) session_ended w (
          refuse_if (not (is_member w user row.conversation_id)) access_denied w (
            refuse_if (not (has_joined row user)) consent_required w (
              refuse_if (has_none (viewer_granted_permissions row user)) bridge_method_not_allowed w
                (append_event id user (codes "storage_updated") event_name (bridge_body body) w))))

  unfoldable pub snapshot_session_for_user : Text → Text → Json → ℤ → World → Answer ℕ
  unfolding load_session_record is_member has_joined snapshot_session
  snapshot_session_for_user user id state version w =
      with_found (load_session_record w id) session_not_found w λ row.
        refuse_if (is_over row) session_ended w (
          refuse_if (not (is_member w user row.conversation_id)) access_denied w (
            refuse_if (not (has_joined row user)) consent_required w
              (snapshot_session id state version user w)))
