-- ===== src/Sessions/Access.antt =====
-- Who may do what to a session.
use messages.Sessions.Kept.{snapshot_session_for_user-Keeps}
use messages.Text.{codes}
use messages.Sessions.Runs.{run_sessions-Advance, run_sessions, SessionEvent}
use messages.Sessions.{
  viewer_granted_permissions, state_envelope_from_any, has_none, has_joined, SessionRecord,
  SessionError,
}
use messages.Sessions.Advance.{append_event-Advance, Keeps}
use messages.Json.{Json}
use messages.Sessions.Service.{
  write_snapshot, with_found, update_session, snapshot_written_body, snapshot_session_for_user,
  snapshot_session, refuse_if, next_version, load_session_record, is_over, is_member,
  append_event_for_user, World, Catalog, Answer,
}
use messages.Base.{
  ◌⊎◌, ◌≤◌, ◌≢◌, ◌≡◌, ◌∙◌, ℤ, ℕ, true, sym, suc, subst, some_eq, some, refl, pos, not, none,
  lookup-insert_self, lookup, leb, inr, false, arith, ap, [], Text, Option, List, Distinct, Bool,
  ◌<◌,
}

refuse_if-done {ℓ} :
    {A : Type ℓ} (b : Bool) (e : SessionError) (w : World) (answer : Answer A) (a : A)
    → (refuse_if b e w answer).1 ≡ inr a
    → (b ≡ false) × (refuse_if b e w answer ≡ answer)
unfolding refuse_if
refuse_if-done true e w answer a h = cc
refuse_if-done false e w answer a h = (refl, refl)

with_found-done {ℓ κ} :
    {A : Type ℓ} {B : Type κ} (o : Option A) (e : SessionError) (w : World) (rest : A → Answer B)
    (b : B)
    → (with_found o e w rest).1 ≡ inr b
    → (a : A) × (o ≡ some a) × (with_found o e w rest ≡ rest a)
unfolding with_found
with_found-done none e w rest b h = cc
with_found-done (some a) e w rest b h = (a, refl, refl)

abbrev answered {ℓ} : {A : Type ℓ} → Answer A → SessionError ⊎ A
answered x = x.1

abbrev inr_of : ℕ → SessionError ⊎ ℕ
inr_of a = inr a

not-false : (b : Bool) → not b ≡ false → b ≡ true
not-false true h = refl
not-false false h = cc

pub updated_at :
    (id : Text) (change : SessionRecord → SessionRecord) (w : World) (row : SessionRecord)
    → lookup id w.sessions ≡ some row
    → lookup id (update_session id change w).sessions ≡ some (change row)
unfolding update_session
updated_at id change w row found =
    rw (update_session, found) (lookup-insert_self id (change row) w.sessions)

module _ (c : Catalog) where
  -- Where a bridge event is taken in, the session is there and is not over, the user is a member of
  -- its conversation and has joined it, and has at least one permission in it.
  pub append_event_for_user-access :
      (now : ℕ) (user id event_name : Text) (body : Json) (w : World) (seq : ℕ)
      → (append_event_for_user c now user id event_name body w).1 ≡ inr seq
      → (row : SessionRecord) × (load_session_record w id ≡ some row)
        × (is_over row ≡ false)
        × (is_member w user row.conversation_id ≡ true)
        × (has_joined row user ≡ true)
        × (has_none (viewer_granted_permissions row user) ≡ false)
  unfolding append_event_for_user
  append_event_for_user-access now user id event_name body w seq h =
      let f1 = with_found-done _ _ w _ seq h in
      let h1 = sym (ap answered f1.2) ∙ h in
      let f2 = refuse_if-done _ _ w _ seq h1 in
      let h2 = sym (ap answered f2.1) ∙ h1 in
      let f3 = refuse_if-done _ _ w _ seq h2 in
      let h3 = sym (ap answered f3.1) ∙ h2 in
      let f4 = refuse_if-done _ _ w _ seq h3 in
      let h4 = sym (ap answered f4.1) ∙ h3 in
      let f5 = refuse_if-done _ _ w _ seq h4 in
      (f1.0, f1.1, f2.0, not-false _ f3.0, not-false _ f4.0, f5.0)

  inr_number : (a b : ℕ) → inr_of a ≡ inr_of b → a ≡ b
  inr_number a b h = cc

  leb-false : (a b : ℕ) → leb a b ≡ false → b < a
  leb-false a b h = ground arith

  chosen_version : (now k current m : ℕ) → next_version c now (pos (suc k)) current ≡ m → suc k ≡ m
  chosen_version now k current m h = ground arith

  -- What a snapshot that succeeds has found and written.
  snapshot_session-made :
      (now : ℕ) (id : Text) (state : Json) (version : ℤ) (user : Text) (w : World) (n : ℕ)
      → (snapshot_session c now id state version user w).1 ≡ inr n
      → (row row' : SessionRecord) × (lookup id w.sessions ≡ some row)
        × (row.state_version < n)
        × (next_version c now version row.state_version ≡ n)
        × (lookup id (snapshot_session c now id state version user w).0.sessions ≡ some row')
        × (n ≤ row'.state_version)
  unfolding snapshot_session
  snapshot_session-made now id state version user w n h =
      let f1 = with_found-done _ _ w _ n h in
      let row = f1.0 in
      let h1 = sym (ap answered f1.2) ∙ h in
      let f2 = refuse_if-done _ _ w _ n h1 in
      let h2 = sym (ap answered f2.1) ∙ h1 in
      let f3 = refuse_if-done _ _ w _ n h2 in
      let next = next_version c now version row.state_version in
      let envelope = state_envelope_from_any state in
      let done : next ≡ n = inr_number next n (sym (ap answered f3.1) ∙ h2) in
      let mid = update_session id (write_snapshot c now envelope next) w in
      let at_mid : lookup id mid.sessions ≡ some (write_snapshot c now envelope next row) =
        updated_at id (write_snapshot c now envelope next) w row f1.1 in
      let logged =
        (append_event-Advance c now id user (codes "snapshot_written") []
            (snapshot_written_body next (c.state_size envelope)) mid).1
          id (write_snapshot c now envelope next row) at_mid in
      let above : next ≤ logged.0.state_version = logged.2.version in
      let rises : row.state_version < next = leb-false next row.state_version f3.0 in
      (
        row,
        logged.0,
        f1.1,
        subst (λ k. row.state_version < k) done rises,
        done,
        ap (λ (x : Answer ℕ). lookup id x.0.sessions) (f1.2 ∙ f2.1 ∙ f3.1) ∙ logged.1,
        subst (λ k. k ≤ logged.0.state_version) done above,
      )

  for_user-inner :
      (now : ℕ) (user id : Text) (state : Json) (version : ℤ) (w : World) (n : ℕ)
      → (snapshot_session_for_user c now user id state version w).1 ≡ inr n
      → snapshot_session_for_user c now user id state version w
        ≡ snapshot_session c now id state version user w
  unfolding snapshot_session_for_user
  for_user-inner now user id state version w n h =
      let f1 = with_found-done _ _ w _ n h in
      let h1 = sym (ap answered f1.2) ∙ h in
      let f2 = refuse_if-done _ _ w _ n h1 in
      let h2 = sym (ap answered f2.1) ∙ h1 in
      let f3 = refuse_if-done _ _ w _ n h2 in
      let h3 = sym (ap answered f3.1) ∙ h2 in
      let f4 = refuse_if-done _ _ w _ n h3 in f1.2 ∙ f2.1 ∙ f3.1 ∙ f4.1

  -- Where identifiers are distinct, once a snapshot has given a session a version n, no snapshot
  -- that names a version from 1 to n itself succeeds any more, whoever sends it, whatever was done
  -- in between.
  pub snapshot_session_for_user-once :
      (now later : ℕ) (user user' id : Text) (state state' : Json) (version : ℤ) (k n m : ℕ)
      (w : World) (events : List SessionEvent)
      → Distinct w.sessions
      → (snapshot_session_for_user c now user id state version w).1 ≡ inr n
      → suc k ≤ n
      → (snapshot_session_for_user c later user' id state'
          (pos (suc k))
          (run_sessions c events (snapshot_session_for_user c now user id state version w).0)).1
        ≢ inr m
  unfolding Keeps
  snapshot_session_for_user-once now later user user' id state state' version k n m w events d h low
        h' =
      let after = (snapshot_session_for_user c now user id state version w).0 in
      let inner = for_user-inner now user id state version w n h in
      let made_first =
        snapshot_session-made now id state version user w n (sym (ap answered inner) ∙ h) in
      let at_after : lookup id after.sessions ≡ some made_first.1 =
        ap (λ (x : Answer ℕ). lookup id x.0.sessions) inner ∙ made_first.5 in
      let distinct_after : Distinct after.sessions =
        (snapshot_session_for_user-Keeps c now user id state version w).0 d in
      let ran = (run_sessions-Advance c events after distinct_after).1 id made_first.1 at_after in
      let inner' =
        for_user-inner later user' id state' (pos (suc k)) (run_sessions c events after) m h' in
      let made_second =
        snapshot_session-made later id state' (pos (suc k)) user' (run_sessions c events after) m
          (sym (ap answered inner') ∙ h') in
      let same_row : ran.0 ≡ made_second.0 =
        some_eq ran.0 made_second.0 (sym ran.1 ∙ made_second.2) in
      let same_version : ran.0.state_version ≡ made_second.0.state_version =
        ap (λ (r : SessionRecord). r.state_version) same_row in
      let chosen : suc k ≡ m = chosen_version later k made_second.0.state_version m made_second.4 in
      let grown : made_first.1.state_version ≤ ran.0.state_version = ran.2.version in
      let first_high : n ≤ made_first.1.state_version = made_first.6 in
      let second_high : made_second.0.state_version < m = made_second.3 in absurd (omega arith)
