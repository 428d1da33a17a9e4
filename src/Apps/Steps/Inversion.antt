-- ===== src/Apps/Steps/Inversion.antt =====
-- What a mutation that succeeded has found, and the state that it made.
use messages.Apps.Installs.{install_release, install_mutation}
use messages.Apps.Pointers.{latest_approved_release, refresh_latest_pointers}
use messages.Text.{trim_space, codes}
use messages.Apps.Review.{transition_mutation, apply_transition}
use messages.Apps.Review.Transition.{apply_transition-Transitioned, Transitioned}
use messages.Apps.Manifest.{manifest_hash_of, Platform}
use messages.Json.{string_field, Fields}
use messages.Base.{
  [], ◌⊎◌, ◌≡◌, ℕ, ◌||◌, true, text_eq, sym, some, refl, none, lookup, is_some, insert, inr, inl,
  false, arith, ap, Text, Option, List, Bool,
}
use messages.Apps.Publish.{
  register_found, requested_app, register_release, register_mutation, register_in_app, new_app,
  draft_release, create_release_mutation, create_app_mutation, app_or_new, AppRequest,
}
use messages.Apps.Types.{State, ReviewStatus, Release, App}
use messages.Apps.Store.{
  release_not_found, publisher_not_owner, ok, not_installable, found_in, ensured_test, ensured,
  app_not_found, Mutation, AuditEntry, succeeded, release_not_found, publisher_not_owner, ok,
  found_in, ensured_test, ensured, app_not_found, Mutation, AuditEntry,
}

abbrev state_of {ℓ} : {A : Type ℓ} → Mutation A → State
state_of m = m.state

ok_eq {ℓ} : {A : Type ℓ} (a b : A) → ok a ≡ ok b → a ≡ b
ok_eq a b h = cc

module _ (p : Platform) where
  -- A release that registerHandler finds under the version is left, with its app; else it is made.
  pub data RegisterCase (now : ℕ) (user_id : Text) (manifest : Fields) (st st' : State) (app : App)
      : Type 0 where
    known :
        (release : Release)
        → lookup (string_field manifest (codes "version")) app.releases ≡ some release
        → text_eq release.manifest_hash (manifest_hash_of p manifest) ≡ true
        → st' ≡ record st { apps = insert (string_field manifest (codes "app_id")) app st.apps }
        → RegisterCase now user_id manifest st st' app
    added :
        lookup (string_field manifest (codes "version")) app.releases ≡ none
        → st' ≡ record st {
          apps =
              insert
                (string_field manifest (codes "app_id"))
                (register_release p now user_id manifest app)
                st.apps;
        }
        → RegisterCase now user_id manifest st st' app

  pub record RegisterMade (now : ℕ) (user_id : Text) (admin : Bool) (manifest : Fields)
      (st st' : State) : Type 0 where
    pub app : App
    pub from :
        (lookup (string_field manifest (codes "app_id")) st.apps ≡ some app)
        ⊎ ((lookup (string_field manifest (codes "app_id")) st.apps ≡ none)
            × (app ≡ new_app p now user_id (string_field manifest (codes "app_id")) manifest))
    pub permitted : (text_eq app.owner_user_id user_id || admin) ≡ true
    pub then_made : RegisterCase now user_id manifest st st' app

  register_in_app_case :
      (now : ℕ) (user_id : Text) (manifest : Fields) (app : App) (entries : List AuditEntry)
      (state : State) (o : Option Release) (m : Mutation ℕ)
      → lookup (string_field manifest (codes "version")) app.releases ≡ o
      → register_in_app p now user_id
          (string_field manifest (codes "app_id"))
          manifest
          app
          entries
          state
          o
        ≡ ok m
      → RegisterCase now user_id manifest state m.state app
  unfolding register_in_app
  register_in_app_case now user_id manifest app entries state none m found e =
      added found (ground arith)
  register_in_app_case now user_id manifest app entries state (some x) m found e =
      known x found (ground arith) (ground arith)

  register_found-made :
      (now : ℕ) (user_id : Text) (admin : Bool) (manifest : Fields) (state : State) (m : Mutation ℕ)
      (app : App) (entries : List AuditEntry)
      → register_found p now user_id admin manifest state (app, entries) ≡ ok m
      → ((text_eq app.owner_user_id user_id || admin) ≡ true)
        × RegisterCase now user_id manifest state m.state app
  unfolding register_found
  register_found-made now user_id admin manifest state m app entries e =
      let b = text_eq app.owner_user_id user_id || admin in
      (
        ensured_test b publisher_not_owner _ e,
        register_in_app_case now user_id manifest app entries state _ m refl
            (ensured b publisher_not_owner _ e),
      )

  pub register_mutation-made :
      (now : ℕ) (user_id : Text) (admin : Bool) (manifest : Fields) (state : State) (m : Mutation ℕ)
      → register_mutation p now user_id admin manifest state ≡ ok m
      → RegisterMade now user_id admin manifest state m.state
  unfolding register_mutation
  register_mutation-made now user_id admin manifest state m e = go (lookup app_id state.apps) refl e
    where
      app_id : Text
      app_id = string_field manifest (codes "app_id")

      go :
          (o : Option App)
          → lookup app_id state.apps ≡ o
          → register_found p now user_id admin manifest state
              (app_or_new p now user_id app_id manifest o)
            ≡ ok m
          → RegisterMade now user_id admin manifest state m.state
      go none found h =
          let (permitted, done) =
            register_found-made now user_id admin manifest state m
              (new_app p now user_id app_id manifest)
              (app_or_new p now user_id app_id manifest none).1 h in
          record {
            app = new_app p now user_id app_id manifest;
            from = inr (found, refl);
            permitted = permitted;
            then_made = done;
          }
      go (some app) found h =
          let (permitted, done) = register_found-made now user_id admin manifest state m app [] h in
          record { app = app; from = inl found; permitted = permitted; then_made = done }

  pub record ReleaseMade (now : ℕ) (user_id : Text) (admin : Bool) (app_id : Text)
      (manifest : Fields) (st st' : State) : Type 0 where
    pub app : App
    pub found : lookup app_id st.apps ≡ some app
    pub permitted : (text_eq app.owner_user_id user_id || admin) ≡ true
    pub fresh : is_some (lookup (string_field manifest (codes "version")) app.releases) ≡ false
    pub made :
        st' ≡ record st { apps = insert app_id (draft_release p now user_id manifest app) st.apps }

  pub create_release_mutation-made :
      (now : ℕ) (user_id : Text) (admin : Bool) (app_id : Text) (manifest : Fields) (state : State)
      (m : Mutation (Unit {0}))
      → create_release_mutation p now user_id admin app_id manifest state ≡ ok m
      → ReleaseMade now user_id admin app_id manifest state m.state
  unfolding create_release_mutation
  create_release_mutation-made now user_id admin app_id manifest state m e =
      let (app, found, h) = found_in (lookup app_id state.apps) app_not_found _ e in
      record {
        app = app;
        found = found;
        permitted = ground arith;
        fresh = ground arith;
        made = ground arith;
      }

  pub record ReviewMade (now : ℕ) (user_id : Text) (admin : Bool) (app_id version : Text)
      (status : ReviewStatus) (admin_only : Bool) (st st' : State) : Type 1 where
    pub app : App
    pub release : Release
    pub app' : App
    pub found : lookup app_id st.apps ≡ some app
    pub permitted : (admin_only || text_eq app.owner_user_id user_id || admin) ≡ true
    pub under : lookup version app.releases ≡ some release
    pub step : Transitioned version status release app app'
    pub made : st' ≡ record st {
      apps = insert app_id (refresh_latest_pointers (record app' { updated_at = now })) st.apps;
    }

  pub transition_mutation-made :
      (now : ℕ) (user_id : Text) (admin : Bool) (app_id version : Text) (status : ReviewStatus)
      (note : Text) (admin_only : Bool) (state : State) (m : Mutation (Unit {0}))
      → transition_mutation p now user_id admin app_id version status note admin_only state ≡ ok m
      → ReviewMade now user_id admin app_id version status admin_only state m.state
  unfolding transition_mutation
  transition_mutation-made now user_id admin app_id version status note admin_only state m e =
      let (app, found, h) = found_in (lookup app_id state.apps) app_not_found _ e in
      let b = admin_only || text_eq app.owner_user_id user_id || admin in
      let (release, under, k) =
        found_in (lookup version app.releases) release_not_found _
          (ensured b publisher_not_owner _ h) in
      let (app', done, l) =
        succeeded (apply_transition p now note version app release status) _ k in
      record {
        app = app;
        release = release;
        app' = app';
        found = found;
        permitted = ensured_test b publisher_not_owner _ h;
        under = under;
        step = apply_transition-Transitioned p now note version app release status app' done;
        made = sym (ap state_of (ok_eq _ _ l));
      }

pub create_app_mutation-made :
    (now : ℕ) (user_id : Text) (req : AppRequest) (state : State) (m : Mutation (Unit {0}))
    → create_app_mutation now user_id req state ≡ ok m
    → (is_some (lookup (trim_space req.app_id) state.apps) ≡ false)
      × (m.state ≡ record state {
        apps = insert (trim_space req.app_id) (requested_app now user_id req) state.apps;
      })
unfolding create_app_mutation
create_app_mutation-made now user_id req state m e = ground arith

pub record InstallMade (now : ℕ) (user_id app_id : Text) (accept : Bool) (st : State)
    (m : Mutation Bool) : Type 0 where
  pub app : App
  pub release : Release
  pub found : lookup app_id st.apps ≡ some app
  pub latest : latest_approved_release app ≡ some release
  pub made : m ≡ install_release now user_id app_id accept app release st

pub install_mutation-made :
    (now : ℕ) (user_id app_id : Text) (accept : Bool) (st : State) (m : Mutation Bool)
    → install_mutation now user_id app_id accept st ≡ ok m
    → InstallMade now user_id app_id accept st m
unfolding install_mutation
install_mutation-made now user_id app_id accept st m e =
    let (app, found, h) = found_in (lookup app_id st.apps) app_not_found _ e in
    let (release, latest, k) = found_in (latest_approved_release app) not_installable _ h in
    record {
      app = app;
      release = release;
      found = found;
      latest = latest;
      made = sym (ok_eq _ _ k);
    }

pub apps-install_release :
    (now : ℕ) (user_id app_id : Text) (accept : Bool) (app : App) (release : Release) (st : State)
    → (install_release now user_id app_id accept app release st).state.apps ≡ st.apps
unfolding install_release
apps-install_release now user_id app_id accept app release st = ground arith
