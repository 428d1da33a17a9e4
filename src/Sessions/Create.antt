-- ===== src/Sessions/Create.antt =====
-- CreateSession and CreateSessionForUser, with resolveManifest, findActiveSession and
-- refreshSession.
use messages.Text.{codes}
use messages.Sessions.{
  sanitize_granted_permissions, row_exists, release_suspended, release_revoked,
  release_not_available, permissions_from_manifest, normalize_participants, normalize_participant,
  manifest_missing, default_session_state, conversation_id_required, SessionRecord, SessionError,
  Participant,
}
use messages.Json.{string_or_empty, get_field, Json}
use messages.Sessions.Service.{
  with_found, update_session, session_created_body, refuse_if, minute, join_session,
  get_session_for_user, append_event, and_then, World, SessionView, ReleaseStatus, Catalog, Answer,
}
use messages.Base.{
  ◌∷◌, ℕ, true, if◌then◌else◌, text_eq, some, not, none, ltb, lookup, length, is_some, is_empty,
  insert, inr, inl, if◌then◌else◌, false, if◌then◌else◌, [], Text, Option, Map, List, Bool, ◌==◌,
  ◌+◌, ◌*◌, ◌&&◌,
}

-- CreateSessionInput; a TTL that is not positive is 0.
pub record CreateInput : Type 0 where
  pub manifest_id : Text
  pub app_id : Text
  pub conversation_id : Text
  pub viewer : Participant
  pub participants : List Participant
  pub granted_permissions : List Text
  pub state_snapshot : Json
  pub ttl : ℕ
  pub is_resuming : Bool

abbrev pub is_active : Text → Text → SessionRecord → Bool
is_active app_id conversation row =
    text_eq row.app_id app_id
    && text_eq row.conversation_id conversation
    && is_none_time row.ended_at
  where
    is_none_time : Option ℕ → Bool
    is_none_time none = true
    is_none_time (some t) = false

-- The newest of two sessions.
abbrev pub newer : Text × SessionRecord → Option (Text × SessionRecord) → Text × SessionRecord
newer x none = x
newer x (some y) = if ltb x.1.created_at y.1.created_at then y else x

-- ORDER BY created_at DESC LIMIT 1
unfoldable pub find_active_session : Text → Text → Map SessionRecord → Option (Text × SessionRecord)
find_active_session app_id conversation [] = none
find_active_session app_id conversation ((id, row) ∷ rows) =
    let rest = find_active_session app_id conversation rows in
    if is_active app_id conversation row then some (newer (id, row) rest) else rest

-- The manifest, the app, and its permissions.
abbrev pub Resolved : Type 0
Resolved = Text × Text × List Text

module _ (c : Catalog) (now : ℕ) where
  unfoldable pub resolve_manifest : Text → Text → Option Resolved
  unfolding permissions_from_manifest get_field
  resolve_manifest manifest_id app_id =
      if not (is_empty manifest_id)
      then elim (c.manifest_by_id manifest_id) [
        | none ↦ none
        | some manifest ↦ some (
          manifest_id,
          string_or_empty (get_field (codes "app_id") manifest),
          permissions_from_manifest manifest,
        )
      ]
      else if not (is_empty app_id)
      then elim (c.entry app_id) [
        | none ↦ none
        | some entry ↦ some (entry.id, app_id, permissions_from_manifest entry.manifest)
      ]
      else none

  abbrev pub status_error : Option ReleaseStatus → Option SessionError
  status_error none = none
  status_error (some status) =
      if status.is_suspended
      then some release_suspended
      else if status.is_revoked
      then some release_revoked
      else none

  unfoldable pub refuse_for {ℓ} : {A : Type ℓ} → Option SessionError → World → Answer A → Answer A
  refuse_for none w answer = answer
  refuse_for (some e) w answer = (w, inl e)

  abbrev pub time_to_live : ℕ → ℕ
  time_to_live ttl = if ttl == 0 then 30 * minute else ttl

  -- refreshSession
  abbrev pub refresh_row : List Participant → ℕ → SessionRecord → SessionRecord
  refresh_row participants ttl row = record row {
    participants = participants;
    expires_at = some (now + ttl);
  }

  abbrev pub all_if_none : List Text → List Text → List Text
  all_if_none [] permitted = permitted
  all_if_none (p ∷ ps) permitted = p ∷ ps

  abbrev pub first_permissions : Text → List Text → Map (List Text)
  first_permissions user granted = if is_empty user then [] else (user, granted) ∷ []

  unfoldable pub new_session :
      CreateInput → Resolved → Participant → List Participant → List Text → SessionRecord
  unfolding default_session_state
  new_session input resolved viewer participants granted = record {
    manifest_id = resolved.0;
    app_id = resolved.1;
    conversation_id = input.conversation_id;
    participants = participants;
    global_permissions = granted;
    participant_permissions = first_permissions viewer.user_id granted;
    state = default_session_state (some input.state_snapshot);
    state_version = 1;
    created_by = viewer.user_id;
    expires_at = some (now + time_to_live input.ttl);
    created_at = now;
    ended_at = none;
  }

  -- The INSERT under the identifier, and the log of the event, which may fail.
  unfoldable pub insert_session :
      Text
      → CreateInput
      → Resolved
      → Participant
      → List Participant
      → List Text
      → World
      → Answer Text
  unfolding append_event new_session
  insert_session id input resolved viewer participants granted w =
      refuse_if (is_some (lookup id w.sessions)) row_exists w (
        (append_event c now id viewer.user_id (codes "session_created") []
            (session_created_body (length participants) granted participants)
            (record w {
              sessions =
                  insert id (new_session input resolved viewer participants granted) w.sessions;
            })).0,
        inr id,
      )

  -- What CreateSession does behind its checks.
  unfoldable pub create_checked : Text → CreateInput → Resolved → World → Answer Text
  unfolding normalize_participants sanitize_granted_permissions find_active_session update_session
      insert_session
  create_checked id input resolved w =
      let viewer = normalize_participant input.viewer in
      let participants = normalize_participants input.participants viewer in
      let granted =
        all_if_none (sanitize_granted_permissions input.granted_permissions resolved.2)
          resolved.2 in
      elim (if input.is_resuming
        then find_active_session resolved.1 input.conversation_id w.sessions
        else none) [
          | some existing ↦ (
            update_session existing.0 (refresh_row participants (time_to_live input.ttl)) w,
            inr existing.0,
          )
          | none ↦ insert_session id input resolved viewer participants granted w
        ]

  -- The identifier of the session that is made or resumed.
  unfoldable pub create_session : Text → CreateInput → World → Answer Text
  unfolding resolve_manifest create_checked
  create_session id input w =
      refuse_if (is_empty input.conversation_id) conversation_id_required w (
        with_found (resolve_manifest input.manifest_id input.app_id) manifest_missing w λ resolved.
          with_found (c.entry resolved.1) manifest_missing w λ entry.
            refuse_if (not entry.is_published) release_not_available w (
              refuse_for (status_error (c.release_status resolved.1 entry.version)) w
                (create_checked id input resolved w)))

  abbrev named_viewer : Text → Participant → Participant
  named_viewer user viewer =
      if is_empty viewer.user_id then record viewer { user_id = user } else viewer

  abbrev pub named : Text → CreateInput → CreateInput
  named user input = record input { viewer = named_viewer user input.viewer }

  -- CreateSessionForUser
  unfoldable pub create_session_for_user :
      Text → Text → CreateInput → World → Answer (SessionView c now)
  unfolding create_session join_session get_session_for_user
  create_session_for_user id user input w =
      and_then (create_session id (named user input) w) λ w' session_id.
        and_then (join_session c now user session_id input.granted_permissions w')
          λ w'' view. get_session_for_user c now user session_id w''
