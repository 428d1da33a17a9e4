-- ===== src/Sessions.antt =====
-- The sessions of mini-apps in conversations (ohmf/services/gateway/internal/miniapp/service.go and
-- share.go): the record of a session and the pure functions on it. Times are nanoseconds.
use messages.Apps.Permissions.Sort.{sort, mem, compact}
use messages.Text.{codes}
use messages.Json.{string, object, null, nil, get_field, end, cons, array, Json, Items, Fields}
use messages.Base.{
  ◌∷◌, ℕ, ◌||◌, true, if◌then◌else◌, text_eq, some, none, lookup, is_some, is_empty, if◌then◌else◌,
  false, if◌then◌else◌, [], Text, Option, Map, List, Bool, ◌&&◌,
}
pub mod Service
pub mod Create
pub mod Advance
pub mod Kept
pub mod Runs
pub mod Access
pub mod Strangers
pub mod Grants
pub mod Examples

-- SessionParticipant
pub record Participant : Type 0 where
  pub user_id : Text
  pub role : Text
  pub display_name : Text

-- sessionState
pub record SessionState : Type 0 where
  pub snapshot : Fields
  pub session_storage : Fields
  pub shared_conversation_storage : Fields
  pub projected_messages : List Fields

-- sessionRecord and its row of miniapp_sessions, without the identifier, which is the key, and the
-- version of the app, which only the view of the session shows. An absent creator is the empty text.
pub record SessionRecord : Type 0 where
  pub manifest_id : Text
  pub app_id : Text
  pub conversation_id : Text
  pub participants : List Participant
  pub global_permissions : List Text
  pub participant_permissions : Map (List Text)
  pub state : SessionState
  pub state_version : ℕ
  pub created_by : Text
  pub expires_at : Option ℕ
  pub created_at : ℕ
  pub ended_at : Option ℕ

pub data SessionError : Type 0 where
  session_not_found session_ended consent_required bridge_method_not_allowed : SessionError
  state_version_conflict access_denied conversation_id_required manifest_missing : SessionError
  release_not_available release_suspended release_revoked event_type_required : SessionError
  row_exists : SessionError

unfoldable pub sort_compact : List Text → List Text
unfolding sort compact
sort_compact xs = compact (sort xs)

-- The loop over the requested permissions.
unfoldable pub only_allowed : List Text → List Text → List Text
unfolding mem
only_allowed allowed [] = []
only_allowed allowed (p ∷ ps) =
    let rest = only_allowed allowed ps in if mem p allowed then p ∷ rest else rest

abbrev pub has_none {ℓ} : {A : Type ℓ} → List A → Bool
has_none [] = true
has_none (x ∷ xs) = false

unfoldable pub sanitize_granted_permissions : List Text → List Text → List Text
unfolding only_allowed sort_compact
sanitize_granted_permissions asked allowed =
    if has_none allowed
    then []
    else if has_none asked
    then allowed
    else sort_compact (only_allowed allowed asked)

unfoldable pub string_items : Items → List Text
string_items nil = []
string_items (cons (string s) rest) =
    let others = string_items rest in if is_empty s then others else s ∷ others
string_items (cons _ rest) = string_items rest

abbrev items_or_nil : Option Json → Items
items_or_nil (some (array xs)) = xs
items_or_nil _ = nil

unfoldable pub permissions_from_manifest : Fields → List Text
unfolding string_items sort_compact get_field
permissions_from_manifest manifest =
    sort_compact (string_items (items_or_nil (get_field (codes "permissions") manifest)))

unfoldable pub normalize_participant : Participant → Participant
normalize_participant participant =
    if is_empty participant.role then record participant { role = codes "PLAYER" } else participant

-- The loop over the participants, with the users that were seen.
unfoldable pub normalize_loop : List Text → List Participant → List Participant
unfolding normalize_participant mem
normalize_loop seen [] = []
normalize_loop seen (participant ∷ participants) =
    let rest = normalize_loop seen participants in
    let longer = normalize_loop (participant.user_id ∷ seen) participants in
    if is_empty participant.user_id || mem participant.user_id seen
    then rest
    else normalize_participant participant ∷ longer

unfoldable pub normalize_participants : List Participant → Participant → List Participant
unfolding normalize_loop normalize_participant
normalize_participants participants viewer =
    if is_empty viewer.user_id
    then normalize_loop [] participants
    else normalize_participant viewer ∷ normalize_loop (viewer.user_id ∷ []) participants

abbrev pub no_participant : Participant
no_participant = record { user_id = []; role = []; display_name = [] }

abbrev pub player : Text → Participant
player user_id = record { user_id = user_id; role = codes "PLAYER"; display_name = [] }

unfoldable pub viewer_for_user : List Participant → Text → Participant
viewer_for_user [] user_id = player user_id
viewer_for_user (p ∷ ps) user_id =
    if text_eq p.user_id user_id then p else viewer_for_user ps user_id

unfoldable pub normalize_json_object : Option Json → Fields
normalize_json_object (some (object fs)) = fs
normalize_json_object _ = end

-- A list of objects or nulls; `none` where another value stands among them.
unfoldable pub object_items : Items → Option (List Fields)
object_items nil = some []
object_items (cons (object fs) rest) = elim (object_items rest) [
  | none ↦ none
  | some out ↦ some (fs ∷ out)
]
object_items (cons null rest) = elim (object_items rest) [
  | none ↦ none
  | some out ↦ some (end ∷ out)
]
object_items (cons _ rest) = none

abbrev list_or_nil {ℓ} : {A : Type ℓ} → Option (List A) → List A
list_or_nil none = []
list_or_nil (some xs) = xs

unfoldable pub normalize_message_list : Option Json → List Fields
unfolding object_items
normalize_message_list (some (array xs)) = list_or_nil (object_items xs)
normalize_message_list _ = []

unfoldable pub default_session_state : Option Json → SessionState
unfolding normalize_json_object
default_session_state snapshot = record {
  snapshot = normalize_json_object snapshot;
  session_storage = end;
  shared_conversation_storage = end;
  projected_messages = [];
}

unfoldable pub state_envelope_from_any : Json → SessionState
unfolding default_session_state normalize_message_list get_field
state_envelope_from_any (object envelope) =
    if is_some (get_field (codes "snapshot") envelope)
    then record {
      snapshot = normalize_json_object (get_field (codes "snapshot") envelope);
      session_storage = normalize_json_object (get_field (codes "session_storage") envelope);
      shared_conversation_storage =
          normalize_json_object (get_field (codes "shared_conversation_storage") envelope);
      projected_messages = normalize_message_list (get_field (codes "projected_messages") envelope);
    }
    else default_session_state (some (object envelope))
state_envelope_from_any state = default_session_state (some state)

abbrev pub permissions_or_nil : Option (List Text) → List Text
permissions_or_nil none = []
permissions_or_nil (some permissions) = permissions

unfoldable pub viewer_granted_permissions : SessionRecord → Text → List Text
viewer_granted_permissions row user_id =
    if is_some (lookup user_id row.participant_permissions)
    then permissions_or_nil (lookup user_id row.participant_permissions)
    else if has_none row.participant_permissions
    then row.global_permissions
    else []

unfoldable pub has_joined : SessionRecord → Text → Bool
has_joined row user_id =
    is_some (lookup user_id row.participant_permissions)
    || (has_none row.participant_permissions && text_eq user_id row.created_by)

-- decodeParticipantPermissions
unfoldable pub decode_participant_permissions : Map (List Text) → Map (List Text)
unfolding sort_compact
decode_participant_permissions [] = []
decode_participant_permissions ((user, permissions) ∷ rest) =
    (user, sort_compact permissions) ∷ decode_participant_permissions rest

-- What loadSessionRecord makes of a row.
unfoldable pub decoded : SessionRecord → SessionRecord
unfolding normalize_participants sort_compact decode_participant_permissions
decoded row = record row {
  participants = normalize_participants row.participants no_participant;
  global_permissions = sort_compact row.global_permissions;
  participant_permissions = decode_participant_permissions row.participant_permissions;
}
