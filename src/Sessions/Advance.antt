-- ===== src/Sessions/Advance.antt =====
-- What the operations do to a session that is there: it stays, its version never falls, its app,
-- conversation and creator stay, and once it is over nothing of it changes.
use messages.Text.{codes}
use messages.Sessions.{state_envelope_from_any, decoded, SessionRecord, SessionError}
use messages.Json.{Json}
use messages.Base.{
  ◌⊎◌, ◌≤◌, ◌≡◌, ◌∙◌, ℤ, ℕ, true, text_eq_iff, text_eq, sym, subst, some_eq, some, refl, none,
  lookup-insert, lookup, leb, insert, inr, inl, false, arith, [], Text, Option-cases, Option, Map,
  Distinct-insert, Distinct, Bool-cases, Bool,
}
use messages.Sessions.Service.{
  write_snapshot, with_found, update_session, snapshot_written_body, snapshot_session, refuse_if,
  next_version, load_session_record, is_over, hour, expires_in, end_session, append_event, and_then,
  World, EventBody, Catalog, Answer,
}

abbrev pub Rows : Type 0
Rows = Map SessionRecord

pub record Later (row row' : SessionRecord) : Type 0 where
  pub version : row.state_version ≤ row'.state_version
  pub final : is_over row ≡ true → row' ≡ row
  pub same_app : row'.app_id ≡ row.app_id
  pub same_conversation : row'.conversation_id ≡ row.conversation_id
  pub same_creator : row'.created_by ≡ row.created_by

abbrev pub Advance : Rows → Rows → Type 0
Advance rows rows' =
    (Distinct rows → Distinct rows')
    × ((id : Text) (row : SessionRecord)
        → lookup id rows ≡ some row
        → (row' : SessionRecord) × (lookup id rows' ≡ some row') × Later row row')

pub Later-refl : (row : SessionRecord) → Later row row
Later-refl row = record {
  version = omega arith;
  final = λ h. refl;
  same_app = refl;
  same_conversation = refl;
  same_creator = refl;
}

Later-trans : (a b c : SessionRecord) → Later a b → Later b c → Later a c
Later-trans a b c h k = record {
  version = omega (arith, h.version, k.version);
  final = λ o. k.final (subst (λ x. is_over x ≡ true) (sym (h.final o)) o) ∙ h.final o;
  same_app = k.same_app ∙ h.same_app;
  same_conversation = k.same_conversation ∙ h.same_conversation;
  same_creator = k.same_creator ∙ h.same_creator;
}

pub Advance-refl : (rows : Rows) → Advance rows rows
Advance-refl rows = (λ d. d, λ id row h. (row, h, Later-refl row))

pub Advance-trans : (a b c : Rows) → Advance a b → Advance b c → Advance a c
Advance-trans a b c h k = (
  λ d. k.0 (h.0 d),
  λ id row e.
      let first = h.1 id row e in
      let second = k.1 id first.0 first.1 in
      (second.0, second.1, Later-trans row first.0 second.0 first.2 second.2),
)

-- One entry takes the place of another.
replaced :
    (id : Text) (r x : SessionRecord) (rows : Rows)
    → lookup id rows ≡ some r
    → Later r x
    → Advance rows (insert id x rows)
replaced id r x rows found later = (
  Distinct-insert id x rows,
  λ j row h. elim (Bool-cases (text_eq id j)) [
    | inr apart ↦ (row, lookup-insert id j x rows ∙ rw (apart, h) refl, Later-refl row)
    | inl same_id ↦
        let at_id : lookup id rows ≡ some row =
          subst (λ i. lookup i rows ≡ some row) (sym ((text_eq_iff id j).0 same_id)) h in
        (
          x,
          lookup-insert id j x rows ∙ rw same_id refl,
          subst (λ y. Later y x) (some_eq r row (sym found ∙ at_id)) later,
        )
  ],
)

pub update_session-Advance :
    (id : Text) (change : SessionRecord → SessionRecord) (w : World)
    → ((r : SessionRecord) → lookup id w.sessions ≡ some r → Later r (change r))
    → Advance w.sessions (update_session id change w).sessions
unfolding update_session
update_session-Advance id change w ok_change = elim (Option-cases (lookup id w.sessions)) [
  | inl missing ↦ rw (update_session, missing) (Advance-refl w.sessions)
  | inr (r, found) ↦
      rw (update_session, found) (replaced id r (change r) w.sessions found (ok_change r found))
]

-- A session that is not over may change in all but these.
pub open_change :
    (row row' : SessionRecord)
    → is_over row ≡ false
    → row.state_version ≤ row'.state_version
    → row'.app_id ≡ row.app_id
    → row'.conversation_id ≡ row.conversation_id
    → row'.created_by ≡ row.created_by
    → Later row row'
open_change row row' o v a k b = record {
  version = v;
  final = λ h. absurd (ground arith);
  same_app = a;
  same_conversation = k;
  same_creator = b;
}

-- What an operation leaves of the sessions.
unfoldable pub Keeps {ℓ} : {A : Type ℓ} → World → Answer A → Type 0
Keeps w answer = Advance w.sessions answer.0.sessions

pub Keeps-answer {ℓ} :
    {A : Type ℓ} (w w' : World) (x : SessionError ⊎ A)
    → Advance w.sessions w'.sessions
    → Keeps w (w', x)
unfolding Keeps
Keeps-answer w w' x h = h

pub refuse_if-Keeps {ℓ} :
    {A : Type ℓ} (b : Bool) (e : SessionError) (w : World) (answer : Answer A)
    → (b ≡ false → Keeps w answer)
    → Keeps w (refuse_if b e w answer)
unfolding Keeps refuse_if
refuse_if-Keeps true e w answer h = Advance-refl w.sessions
refuse_if-Keeps false e w answer h = h refl

pub with_found-Keeps {ℓ κ} :
    {A : Type ℓ} {B : Type κ} (o : Option A) (e : SessionError) (w : World) (rest : A → Answer B)
    → ((a : A) → o ≡ some a → Keeps w (rest a))
    → Keeps w (with_found o e w rest)
unfolding Keeps with_found
with_found-Keeps none e w rest h = Advance-refl w.sessions
with_found-Keeps (some a) e w rest h = h a refl

pub and_then-Keeps {ℓ κ} :
    {A : Type ℓ} {B : Type κ} (w : World) (x : Answer A) (rest : World → A → Answer B)
    → Keeps w x
    → ((w' : World) (a : A) → x ≡ (w', inr a) → Keeps w' (rest w' a))
    → Keeps w (and_then x rest)
unfolding Keeps and_then
and_then-Keeps w (w', inl e) rest h k = h
and_then-Keeps w (w', inr a) rest h k = Advance-trans w.sessions w'.sessions _ h (k w' a refl)

pub load_session_record-found :
    (w : World) (id : Text) (row : SessionRecord)
    → load_session_record w id ≡ some row
    → (r : SessionRecord) × (lookup id w.sessions ≡ some r) × (row ≡ decoded r)
unfolding load_session_record
load_session_record-found w id row h = elim (Option-cases (lookup id w.sessions)) [
  | inl missing ↦
      let clash : none ≡ some row = sym (rw (load_session_record, missing) refl) ∙ h in absurd cc
  | inr (r, found) ↦
      (r, found, sym (some_eq (decoded r) row (sym (rw (load_session_record, found) refl) ∙ h)))
]

-- Whether the session is over, of the row that was loaded.
pub loaded_open :
    (w : World) (id : Text) (row r : SessionRecord)
    → load_session_record w id ≡ some row
    → is_over row ≡ false
    → lookup id w.sessions ≡ some r
    → is_over r ≡ false
unfolding decoded
loaded_open w id row r h o e =
    let found = load_session_record-found w id row h in
    let same_row : found.0 ≡ r = some_eq found.0 r (sym found.1 ∙ e) in
    subst (λ x. is_over x ≡ false) same_row (subst (λ x. is_over x ≡ false) found.2 o)

module _ (c : Catalog) (now : ℕ) where
  pub append_event-Keeps :
      (id actor event_type event_name : Text) (body : EventBody) (w : World)
      → Keeps w (append_event c now id actor event_type event_name body w)
  unfolding append_event
  append_event-Keeps id actor event_type event_name body w = refuse_if-Keeps _ _ w _ λ _.
      with_found-Keeps _ _ w _ λ row loaded_row. refuse_if-Keeps _ _ w _ λ still_open.
        Keeps-answer w _ _ (
          update_session-Advance id (expires_in c now hour) _ λ r e.
            open_change r (expires_in c now hour r) (loaded_open w id row r loaded_row still_open e)
              (omega arith) refl refl refl)

  -- The sessions after an event was appended to those of another state.
  pub append_event-Advance :
      (id actor event_type event_name : Text) (body : EventBody) (w : World)
      → Advance w.sessions (append_event c now id actor event_type event_name body w).0.sessions
  unfolding Keeps
  append_event-Advance id actor event_type event_name body w =
      append_event-Keeps id actor event_type event_name body w

  pub snapshot_session-Keeps :
      (id : Text) (state : Json) (version : ℤ) (actor : Text) (w : World)
      → Keeps w (snapshot_session c now id state version actor w)
  unfolding snapshot_session
  snapshot_session-Keeps id state version actor w = with_found-Keeps _ _ w _ λ row found.
      refuse_if-Keeps _ _ w _ λ still_open.
        refuse_if-Keeps (leb (next_version c now version row.state_version) row.state_version) _ w _
          λ rises.
            let next = next_version c now version row.state_version in
            let higher : row.state_version ≤ next = ground arith in
            Keeps-answer w _ _ (
              Advance-trans w.sessions _ _
                (update_session-Advance id
                  (write_snapshot c now (state_envelope_from_any state) next) w
                  λ r e.
                    let same_row : row ≡ r = some_eq row r (sym found ∙ e) in
                    subst
                      (λ x. Later x (write_snapshot c now (state_envelope_from_any state) next x))
                      same_row
                      (open_change row
                        (write_snapshot c now (state_envelope_from_any state) next row) still_open
                        higher refl refl refl))
                (append_event-Advance id actor (codes "snapshot_written") []
                  (snapshot_written_body next (c.state_size (state_envelope_from_any state)))
                  (update_session id (write_snapshot c now (state_envelope_from_any state) next)
                    w)))

  pub end_session-Keeps : (id : Text) (w : World) → Keeps w (end_session c now id w)
  unfolding end_session
  end_session-Keeps id w = with_found-Keeps _ _ w _ λ row found.
      refuse_if-Keeps _ _ w _ λ still_open. Keeps-answer w _ _ (
        update_session-Advance id (λ (r : SessionRecord). record r { ended_at = some now }) w
          λ r e.
            open_change r (record r { ended_at = some now })
              (subst (λ x. is_over x ≡ false) (some_eq row r (sym found ∙ e)) still_open)
              (omega arith) refl refl refl)
