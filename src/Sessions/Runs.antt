-- ===== src/Sessions/Runs.antt =====
-- Runs of the sessions: any sequence of the requests of users, and of changes to the members of
-- conversations from elsewhere.
use messages.Sessions.Kept.{
  snapshot_session_for_user-Keeps, join_session-Keeps, get_session_for_user-Keeps,
  end_session_for_user-Keeps, create_session_for_user-Keeps, append_event_for_user-Keeps,
}
use messages.Json.{Json}
use messages.Base.{◌∷◌, ℤ, ℕ, [], Text, Map, List, Distinct}
use messages.Sessions.Create.{create_session_for_user, CreateInput}
use messages.Sessions.Service.{
  snapshot_session_for_user, join_session, get_session_for_user, end_session_for_user,
  append_event_for_user, World, Catalog,
}
use messages.Sessions.Advance.{Keeps, Advance-trans, Advance-refl, Advance}

pub data SessionEvent : Type 0 where
  creates : ℕ → Text → Text → CreateInput → SessionEvent
  joins : ℕ → Text → Text → List Text → SessionEvent
  shows : ℕ → Text → Text → SessionEvent
  appends : ℕ → Text → Text → Text → Json → SessionEvent
  snapshots : ℕ → Text → Text → Json → ℤ → SessionEvent
  ends : ℕ → Text → Text → SessionEvent
  members_become : Map (List Text) → SessionEvent

module _ (c : Catalog) where
  unfoldable pub apply_session_event : SessionEvent → World → World
  unfolding create_session_for_user join_session get_session_for_user append_event_for_user
      snapshot_session_for_user end_session_for_user
  apply_session_event (creates now id user input) w =
      (create_session_for_user c now id user input w).0
  apply_session_event (joins now user id granted) w = (join_session c now user id granted w).0
  apply_session_event (shows now user id) w = (get_session_for_user c now user id w).0
  apply_session_event (appends now user id event_name body) w =
      (append_event_for_user c now user id event_name body w).0
  apply_session_event (snapshots now user id state version) w =
      (snapshot_session_for_user c now user id state version w).0
  apply_session_event (ends now user id) w = (end_session_for_user c now user id w).0
  apply_session_event (members_become members) w = record w { members = members }

  unfoldable pub run_sessions : List SessionEvent → World → World
  unfolding apply_session_event
  run_sessions [] w = w
  run_sessions (e ∷ es) w = run_sessions es (apply_session_event e w)

  apply_session_event-Advance :
      (e : SessionEvent) (w : World)
      → Distinct w.sessions
      → Advance w.sessions (apply_session_event e w).sessions
  unfolding apply_session_event Keeps
  apply_session_event-Advance (creates now id user input) w d =
      create_session_for_user-Keeps c now id user input w d
  apply_session_event-Advance (joins now user id granted) w d =
      join_session-Keeps c now user id granted w
  apply_session_event-Advance (shows now user id) w d = get_session_for_user-Keeps c now user id w
  apply_session_event-Advance (appends now user id event_name body) w d =
      append_event_for_user-Keeps c now user id event_name body w
  apply_session_event-Advance (snapshots now user id state version) w d =
      snapshot_session_for_user-Keeps c now user id state version w
  apply_session_event-Advance (ends now user id) w d = end_session_for_user-Keeps c now user id w
  apply_session_event-Advance (members_become members) w d = Advance-refl w.sessions

  -- In any run from a table whose identifiers are distinct, the identifiers stay distinct, and a
  -- session that is there stays, with its app, conversation and creator; its state version never
  -- falls, and nothing of it changes once it is over.
  pub run_sessions-Advance :
      (events : List SessionEvent) (w : World)
      → Distinct w.sessions
      → Advance w.sessions (run_sessions events w).sessions
  unfolding run_sessions
  run_sessions-Advance [] w d = Advance-refl w.sessions
  run_sessions-Advance (e ∷ es) w d =
      let first = apply_session_event-Advance e w d in
      Advance-trans w.sessions (apply_session_event e w).sessions _ first
        (run_sessions-Advance es (apply_session_event e w) (first.0 d))
