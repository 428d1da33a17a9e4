-- ===== src/Sessions/Examples.antt =====
-- The theorems about sessions at a small catalog and its users.
use messages.Apps.Permissions.Sort.{insert_sorted}
use messages.Sessions.Runs.{snapshots, run_sessions-Advance, run_sessions, joins, ends}
use messages.Json.{null, end}
use messages.Text.{codes}
use messages.Sessions.Access.{snapshot_session_for_user-once, append_event_for_user-access}
use messages.Sessions.{viewer_granted_permissions, player, has_none, has_joined, SessionRecord}
use messages.Sessions.Create.{CreateInput}
use messages.Sessions.Service.{
  is_member, with_found, snapshot_session_for_user, snapshot_session, refuse_if,
  load_session_record, is_over, append_event_for_user, append_event, World, Catalog,
}
use messages.Sessions.Advance.{Advance}
use messages.Base.{
  ◌≢◌, ◌≡◌, ◌∷◌, true, text_eq, some, refl, pos, none, lookup, inr, false, arith, [], Text,
  Distinct,
}

abbrev chess : Text
chess = codes "chess"

abbrev room : Text
room = codes "room"

abbrev ann : Text
ann = codes "ann"

abbrev eve : Text
eve = codes "eve"

abbrev first_id : Text
first_id = codes "s1"

abbrev one_app : Catalog
one_app = record {
  entry = λ id.
      some
        (record { id = codes "m1"; version = codes "1.0.0"; manifest = end; is_published = true });
  manifest_by_id = λ id. none;
  release_status = λ id version. none;
  state_size = λ state. 10;
}

abbrev open_session : SessionRecord
open_session = record {
  manifest_id = codes "m1";
  app_id = chess;
  conversation_id = room;
  participants = player ann ∷ [];
  global_permissions = codes "storage" ∷ [];
  participant_permissions = (ann, codes "storage" ∷ []) ∷ [];
  state = record {
    snapshot = end;
    session_storage = end;
    shared_conversation_storage = end;
    projected_messages = [];
  };
  state_version = 1;
  created_by = ann;
  expires_at = some 100;
  created_at = 1;
  ended_at = none;
}

abbrev small_world : World
small_world = record {
  sessions = (first_id, open_session) ∷ [];
  events = [];
  next_seq = 1;
  members = (room, ann ∷ []) ∷ [];
}

abbrev by_eve : CreateInput
by_eve = record {
  manifest_id = [];
  app_id = chess;
  conversation_id = room;
  viewer = player eve;
  participants = [];
  granted_permissions = [];
  state_snapshot = null;
  ttl = 0;
  is_resuming = false;
}

small_world-Distinct : Distinct small_world.sessions
unfolding lookup
small_world-Distinct = (refl, tt)

run_sessions-Advance_example :
    Advance small_world.sessions
      (run_sessions one_app
        (snapshots 5 ann first_id null (pos 2) ∷ ends 6 ann first_id ∷ [])
        small_world).sessions
run_sessions-Advance_example =
    run_sessions-Advance one_app (snapshots 5 ann first_id null (pos 2) ∷ ends 6 ann first_id ∷ [])
      small_world small_world-Distinct

taken_in : (append_event_for_user one_app 5 ann first_id (codes "set") null small_world).1 ≡ inr 1
unfolding append_event_for_user append_event load_session_record is_member has_joined
    viewer_granted_permissions lookup text_eq with_found refuse_if insert_sorted
taken_in = refl

append_event_for_user-access_example :
    (row : SessionRecord) × (load_session_record small_world first_id ≡ some row)
    × (is_over row ≡ false)
    × (is_member small_world ann row.conversation_id ≡ true)
    × (has_joined row ann ≡ true)
    × (has_none (viewer_granted_permissions row ann) ≡ false)
append_event_for_user-access_example =
    append_event_for_user-access one_app 5 ann first_id (codes "set") null small_world 1 taken_in

snapshot_taken :
    (snapshot_session_for_user one_app 5 ann first_id null (pos 2) small_world).1 ≡ inr 2
unfolding snapshot_session_for_user snapshot_session load_session_record is_member has_joined lookup
    text_eq with_found refuse_if
snapshot_taken = refl

snapshot_session_for_user-once_example :
    (snapshot_session_for_user one_app 7 ann first_id null (pos 2) (
      run_sessions one_app
        (joins 6 ann first_id [] ∷ [])
        (snapshot_session_for_user one_app 5 ann first_id null (pos 2) small_world).0)).1
    ≢ inr 2
snapshot_session_for_user-once_example =
    snapshot_session_for_user-once one_app 5 7 ann ann first_id null null (pos 2) 1 2 2 small_world
      (joins 6 ann first_id [] ∷ []) small_world-Distinct snapshot_taken (omega arith)
