-- ===== src/Sessions/Kept.antt =====
-- Every operation on sessions keeps what is there, and changes no session that is over.
use messages.Text.{codes}
use messages.Sessions.{
  sanitize_granted_permissions, player, normalize_participants, normalize_participant,
  SessionRecord, SessionError, Participant,
}
use messages.Json.{Json}
use messages.Sessions.Create.{
  time_to_live, refuse_for, refresh_row, newer, new_session, named, is_active, insert_session,
  find_active_session, create_session_for_user, create_session, create_checked, Resolved,
  CreateInput,
}
use messages.Base.{
  ◌≡◌, ◌∷◌, ◌∙◌, ℤ, ℕ, true, if◌then◌else◌, text_eq_refl, text_eq_iff, text_eq, sym, subst, some_eq,
  some, refl, none, ltb, lookup-insert, lookup, length, is_some, insert, inr, inl, if◌then◌else◌,
  false, if◌then◌else◌, arith, [], Text, Option-cases, Option, List, Distinct-insert, Distinct,
  Bool-cases, Bool,
}
use messages.Sessions.Service.{
  update_session, snapshot_session_for_user, session_joined_body, session_created_body,
  join_session, join_row, is_over, get_session_for_user, end_session_for_user, bridge_body,
  append_event_for_user, World, Catalog, Answer,
}
use messages.Sessions.Advance.{
  with_found-Keeps, update_session-Advance, snapshot_session-Keeps, refuse_if-Keeps, open_change,
  loaded_open, end_session-Keeps, append_event-Keeps, append_event-Advance, and_then-Keeps, Rows,
  Later-refl, Keeps-answer, Keeps, Advance-trans, Advance-refl, Advance,
}

active_open :
    (app_id conversation : Text) (row : SessionRecord)
    → is_active app_id conversation row ≡ true
    → is_over row ≡ false
active_open app_id conversation row h = ground arith

first_entry :
    (id : Text) (row : SessionRecord) (rows : Rows) → lookup id ((id, row) ∷ rows) ≡ some row
unfolding lookup
first_entry id row rows = rw (text_eq_refl id) refl

later_entry :
    (id : Text) (row : SessionRecord) (rows : Rows) (x : Text × SessionRecord)
    → lookup id rows ≡ none
    → lookup x.0 rows ≡ some x.1
    → lookup x.0 ((id, row) ∷ rows) ≡ some x.1
unfolding lookup
later_entry id row rows x missing h = elim (Bool-cases (text_eq id x.0)) [
  | inr apart ↦ rw (apart, h) refl
  | inl same_id ↦
      let clash : none ≡ some x.1 =
        sym missing
        ∙ subst (λ i. lookup i rows ≡ some x.1) (sym ((text_eq_iff id x.0).0 same_id)) h in
      absurd cc
]

newer_either :
    (id : Text) (row : SessionRecord) (y : Text × SessionRecord) (P : Text × SessionRecord → Type 0)
    → P (id, row)
    → P y
    → P (newer (id, row) (some y))
newer_either id row y P here_one there_one = elim (Bool-cases (ltb row.created_at y.1.created_at)) [
  | inl second_one ↦ rw second_one there_one
  | inr first_one ↦ rw first_one here_one
]

resumed_found {ℓ} :
    {A : Type ℓ} (b : Bool) (o : Option A) (x : A) → (if b then o else none) ≡ some x → o ≡ some x
resumed_found true o x h = h
resumed_found false o x h = cc

module _ (c : Catalog) where
  module _ (now : ℕ) where
    pub join_session-Keeps :
        (user id : Text) (granted : List Text) (w : World)
        → Keeps w (join_session c now user id granted w)
    unfolding join_session
    join_session-Keeps user id granted w = with_found-Keeps _ _ w _ λ row loaded_row.
        refuse_if-Keeps _ _ w _ λ still_open. refuse_if-Keeps _ _ w _ λ _.
          with_found-Keeps _ _ w _ λ permitted _.
            let permissions = sanitize_granted_permissions granted permitted in
            let participants = normalize_participants row.participants (player user) in
            let joined = join_row c now user participants permissions row in
            let change : SessionRecord → SessionRecord = λ (r : SessionRecord). record r {
              participants = participants;
              participant_permissions = joined.participant_permissions;
            } in
            Keeps-answer w _ _ (
              Advance-trans w.sessions _ _
                (update_session-Advance id change w λ r e.
                  open_change r (change r) (loaded_open w id row r loaded_row still_open e)
                    (omega arith) refl refl refl)
                (append_event-Advance c now id user (codes "session_joined") []
                  (session_joined_body (player user) permissions) (update_session id change w)))

    pub get_session_for_user-Keeps :
        (user id : Text) (w : World) → Keeps w (get_session_for_user c now user id w)
    unfolding get_session_for_user
    get_session_for_user-Keeps user id w = with_found-Keeps _ _ w _ λ row _.
        refuse_if-Keeps _ _ w _
          λ _. with_found-Keeps _ _ w _ λ permitted _. Keeps-answer w w _ (Advance-refl w.sessions)

    pub append_event_for_user-Keeps :
        (user id event_name : Text) (body : Json) (w : World)
        → Keeps w (append_event_for_user c now user id event_name body w)
    unfolding append_event_for_user
    append_event_for_user-Keeps user id event_name body w = with_found-Keeps _ _ w _ λ row _.
        refuse_if-Keeps _ _ w _ λ _. refuse_if-Keeps _ _ w _ λ _. refuse_if-Keeps _ _ w _ λ _.
          refuse_if-Keeps _ _ w _ λ _.
            append_event-Keeps c now id user (codes "storage_updated") event_name (bridge_body body)
              w

    pub snapshot_session_for_user-Keeps :
        (user id : Text) (state : Json) (version : ℤ) (w : World)
        → Keeps w (snapshot_session_for_user c now user id state version w)
    unfolding snapshot_session_for_user
    snapshot_session_for_user-Keeps user id state version w = with_found-Keeps _ _ w _ λ row _.
        refuse_if-Keeps _ _ w _ λ _.
          refuse_if-Keeps _ _ w _
            λ _. refuse_if-Keeps _ _ w _ λ _. snapshot_session-Keeps c now id state version user w

    pub end_session_for_user-Keeps :
        (user id : Text) (w : World) → Keeps w (end_session_for_user c now user id w)
    unfolding end_session_for_user
    end_session_for_user-Keeps user id w = with_found-Keeps _ _ w _ λ row _.
        refuse_if-Keeps _ _ w _ λ _. refuse_if-Keeps _ _ w _ λ _. end_session-Keeps c now id w

    insert-Advance :
        (id : Text) (x : SessionRecord) (rows : Rows)
        → is_some (lookup id rows) ≡ false
        → Advance rows (insert id x rows)
    insert-Advance id x rows absent = (
      Distinct-insert id x rows,
      λ j row h. elim (Bool-cases (text_eq id j)) [
        | inr apart ↦ (row, lookup-insert id j x rows ∙ rw (apart, h) refl, Later-refl row)
        | inl same_id ↦
            let at_id : lookup id rows ≡ some row =
              subst (λ i. lookup i rows ≡ some row) (sym ((text_eq_iff id j).0 same_id)) h in
            let clash : true ≡ false = sym (rw at_id refl) ∙ absent in absurd cc
      ],
    )

    insert_session-Keeps :
        (id : Text) (input : CreateInput) (resolved : Resolved) (viewer : Participant)
        (participants : List Participant) (granted : List Text) (w : World)
        → Keeps w (insert_session c now id input resolved viewer participants granted w)
    unfolding insert_session
    insert_session-Keeps id input resolved viewer participants granted w =
        let x = new_session c now input resolved viewer participants granted in
        refuse_if-Keeps _ _ w _ λ absent. Keeps-answer w _ _ (
          Advance-trans w.sessions _ _ (insert-Advance id x w.sessions absent) (
            append_event-Advance c now id viewer.user_id (codes "session_created") []
              (session_created_body (length participants) granted participants)
              (record w { sessions = insert id x w.sessions })))

    -- What is found is a row of the table that is not over.
    find_active_session-open :
        (app_id conversation : Text) (rows : Rows) (x : Text × SessionRecord)
        → Distinct rows
        → find_active_session app_id conversation rows ≡ some x
        → (lookup x.0 rows ≡ some x.1) × (is_over x.1 ≡ false)
    unfolding find_active_session lookup
    find_active_session-open app_id conversation [] x d h = cc
    find_active_session-open app_id conversation ((id, row) ∷ rows) x d h =
        elim (Bool-cases (is_active app_id conversation row)) [
          | inr skipped ↦
              let below =
                find_active_session-open app_id conversation rows x d.1
                  (sym (rw (find_active_session, skipped) refl) ∙ h) in
              (later_entry id row rows x d.0 below.0, below.1)
          | inl active ↦ elim (Option-cases (find_active_session app_id conversation rows)) [
            | inl no_other ↦
                let first : (id, row) ≡ x =
                  some_eq (id, row) x (sym (rw (find_active_session, active, no_other) refl) ∙ h) in
                subst
                  (λ (y : Text × SessionRecord).
                    (lookup y.0 ((id, row) ∷ rows) ≡ some y.1) × (is_over y.1 ≡ false))
                  first (first_entry id row rows, active_open app_id conversation row active)
            | inr (y, found) ↦
                let below = find_active_session-open app_id conversation rows y d.1 found in
                let chosen : newer (id, row) (some y) ≡ x =
                  some_eq _ x (sym (rw (find_active_session, active, found) refl) ∙ h) in
                subst
                  (λ (z : Text × SessionRecord).
                    (lookup z.0 ((id, row) ∷ rows) ≡ some z.1) × (is_over z.1 ≡ false))
                  chosen
                  (newer_either id row y
                    (λ (z : Text × SessionRecord).
                      (lookup z.0 ((id, row) ∷ rows) ≡ some z.1) × (is_over z.1 ≡ false))
                    (first_entry id row rows, active_open app_id conversation row active)
                    (later_entry id row rows y d.0 below.0, below.1))
          ]
        ]

    create_checked-Keeps :
        (id : Text) (input : CreateInput) (resolved : Resolved) (w : World)
        → Distinct w.sessions
        → Keeps w (create_checked c now id input resolved w)
    unfolding create_checked
    create_checked-Keeps id input resolved w d =
        let viewer = normalize_participant input.viewer in
        let participants = normalize_participants input.participants viewer in
        elim (Option-cases (
          if input.is_resuming
          then find_active_session resolved.1 input.conversation_id w.sessions
          else none)) [
            | inl fresh_one ↦
                rw (create_checked, fresh_one)
                  (insert_session-Keeps id input resolved viewer participants _ w)
            | inr (x, resumed) ↦
                rw (create_checked, resumed)
                  (Keeps-answer w _ _ (
                    update_session-Advance x.0
                      (refresh_row c now participants (time_to_live c now input.ttl)) w
                      λ r e.
                        let found =
                          find_active_session-open resolved.1 input.conversation_id w.sessions x d
                            (resumed_found input.is_resuming _ x resumed) in
                        open_change r
                          (refresh_row c now participants (time_to_live c now input.ttl) r)
                          (subst (λ y. is_over y ≡ false) (some_eq x.1 r (sym found.0 ∙ e)) found.1)
                          (omega arith) refl refl refl))
          ]

    refuse_for-Keeps {ℓ} :
        {A : Type ℓ} (o : Option SessionError) (w : World) (answer : Answer A)
        → Keeps w answer
        → Keeps w (refuse_for c now o w answer)
    unfolding refuse_for
    refuse_for-Keeps none w answer h = h
    refuse_for-Keeps (some e) w answer h = Keeps-answer w w (inl e) (Advance-refl w.sessions)

    create_session-Keeps :
        (id : Text) (input : CreateInput) (w : World)
        → Distinct w.sessions
        → Keeps w (create_session c now id input w)
    unfolding create_session
    create_session-Keeps id input w d = refuse_if-Keeps _ _ w _ λ _.
        with_found-Keeps _ _ w _ λ resolved _. with_found-Keeps _ _ w _ λ entry _.
          refuse_if-Keeps _ _ w _
            λ _. refuse_for-Keeps _ w _ (create_checked-Keeps id input resolved w d)

    pub create_session_for_user-Keeps :
        (id user : Text) (input : CreateInput) (w : World)
        → Distinct w.sessions
        → Keeps w (create_session_for_user c now id user input w)
    unfolding create_session_for_user
    create_session_for_user-Keeps id user input w d =
        and_then-Keeps w _ _ (create_session-Keeps id (named c now user input) w d)
          λ w' session_id _.
            and_then-Keeps w' _ _ (join_session-Keeps user session_id input.granted_permissions w')
              λ w'' view _. get_session_for_user-Keeps user session_id w''
