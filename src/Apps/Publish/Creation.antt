-- ===== src/Apps/Publish/Creation.antt =====
-- publisherCreateAppHandler of services/apps/handlers.go.
use messages.Text.{trim_space, to_lower, codes}
use messages.Apps.View.{failed, created, crashed, Reply}
use messages.Apps.Types.{public, private, Visibility, State, App}
use messages.Apps.Store.{
  ◌>>=◌, unauthorized, ok, names_required, mutate_state, method_not_allowed, is_post,
  invalid_request, err, ensure, current_user_id, app_exists, app_created, Server, Result, Request,
  Mutation, Io, ◌>>◌,
}
use messages.Base.{
  ◌∷◌, ℕ, if◌then◌else◌, text_eq, some, not, none, lookup, is_some, is_empty, insert, if◌then◌else◌,
  if◌then◌else◌, [], Text, Option, ◌&&◌,
}
use messages.Json.{Json, get_field, Fields, object, null}

-- The body of publisherCreateAppHandler. A field that is absent is "".
pub record AppRequest : Type 0 where
  pub app_id : Text
  pub name : Text
  pub summary : Text
  pub visibility : Text

-- A field of a string type: absent and null leave it "", any other value is an error.
abbrev pub string_member : Text → Fields → Result Text
string_member k m = elim (get_field k m) [
  | none ↦ ok []
  | some v ↦ elim v [ null ↦ ok [] | Json.string t ↦ ok t | _ ↦ err invalid_request ]
]

unfoldable pub decode_app_request : Option Json → Result AppRequest
decode_app_request (some (object m)) = do
  app_id ← string_member (codes "app_id") m
  name ← string_member (codes "name") m
  summary ← string_member (codes "summary") m
  visibility ← string_member (codes "visibility") m
  ok (record { app_id = app_id; name = name; summary = summary; visibility = visibility })
decode_app_request (some null) =
    ok (record { app_id = []; name = []; summary = []; visibility = [] })
decode_app_request _ = err invalid_request

abbrev requested_visibility : Text → Visibility
requested_visibility v =
    if text_eq (to_lower (trim_space v)) (codes "private") then private else public

unfoldable pub requested_app : ℕ → Text → AppRequest → App
requested_app now user_id req = record {
  app_id = trim_space req.app_id;
  name = trim_space req.name;
  owner_user_id = user_id;
  visibility = requested_visibility req.visibility;
  summary = trim_space req.summary;
  created_at = now;
  updated_at = now;
  latest_version = [];
  latest_approved = [];
  releases = [];
}

unfoldable pub create_app_mutation : ℕ → Text → AppRequest → State → Result (Mutation (Unit {0}))
unfolding requested_app
create_app_mutation now user_id req state =
    ensure (not (is_some (lookup (trim_space req.app_id) state.apps))) app_exists
    >> ok (record {
      state = record state {
        apps = insert (trim_space req.app_id) (requested_app now user_id req) state.apps;
      };
      entries =
          (record {
            app_id = trim_space req.app_id;
            version = [];
            actor_user_id = user_id;
            action = app_created (some (requested_visibility req.visibility));
            note = [];
            created_at = now;
          })
          ∷ [];
      extra = tt;
    })

abbrev pub view_app : Text → Result (Mutation (Unit {0})) → Reply
view_app app_id (err e) = failed e
view_app app_id (ok m) = elim (lookup app_id m.state.apps) [
  | none ↦ crashed
  | some app ↦ created app
]

abbrev pub read_app_request : Option Json → Result AppRequest
read_app_request body = do
  req ← decode_app_request body
  ensure (not (is_empty (trim_space req.app_id)) && not (is_empty (trim_space req.name)))
      names_required
  ok req

unfoldable pub create_app_decoded : Io → Request → Server → Result AppRequest → Server × Reply
create_app_decoded io r s (err e) = (s, failed e)
create_app_decoded io r s (ok req) =
    let result = mutate_state io s (create_app_mutation io.now (current_user_id r) req) in
    (result.0, view_app (trim_space req.app_id) result.1)

unfoldable pub create_app : Io → Request → Server → Server × Reply
create_app io r s =
    if not (is_post r.method)
    then (s, failed method_not_allowed)
    else if is_empty (current_user_id r)
    then (s, failed unauthorized)
    else create_app_decoded io r s (read_app_request r.body)
