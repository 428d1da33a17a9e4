-- ===== src/Apps/Steps/Answers.antt =====
-- No handler follows a nil pointer: after a mutation it reads back what the mutation has stored.
use messages.Apps.Review.{view_release}
use messages.Apps.Steps.Serve.{serve-Handled}
use messages.Apps.Pointers.Latest.{refresh_latest_pointers_keeps}
use messages.Apps.Pointers.{refresh_latest_pointers, latest_approved_release}
use messages.Apps.Publish.{view_registered, view_created, view_app, register_release, draft_release}
use messages.Text.{trim_space, codes}
use messages.Apps.Installs.{view_installed, accepts}
use messages.Apps.View.{crashed, Reply}
use messages.Apps.Steps.Inversion.{
  transition_mutation-made, register_mutation-made, known, install_mutation-made,
  create_release_mutation-made, create_app_mutation-made, apps-install_release, added, RegisterMade,
  RegisterCase,
}
use messages.Apps.Manifest.{Platform}
use messages.Apps.Store.{ok, loaded, is_admin, current_user_id, Server, Request, Mutation, Io}
use messages.Json.{string_field, Fields}
use messages.Apps.Route.{serve, panics, Endpoint}
use messages.Apps.Steps.{
  shown, reviewed, released, registered, refused, panicked, keyed, install_made, install_dropped,
  changed, app_made, IsAnswer, Handled, Change,
}
use messages.Apps.Types.{State, Release, App}
use messages.Base.{
  ◌≢◌, ◌≡◌, ◌∙◌, ℕ, sym, subst, some, lookup, insert, arith, ap, Text, Bool, lookup-insert_self,
}

pub releases-refresh : (app : App) → (refresh_latest_pointers app).releases ≡ app.releases
releases-refresh app = ap (λ (a : App). a.releases) (refresh_latest_pointers_keeps app)

-- What is looked up in an app under the pointers that a refresh leaves.
pub refreshed_lookup :
    (version : Text) (app : App) (release : Release)
    → lookup version app.releases ≡ some release
    → lookup version (refresh_latest_pointers app).releases ≡ some release
refreshed_lookup version app release h = rw (releases-refresh app) h

module _ (p : Platform) where
  pub register_release_stores :
      (now : ℕ) (user_id : Text) (manifest : Fields) (app : App)
      → (r : Release) × (lookup
            (string_field manifest (codes "version"))
            (register_release p now user_id manifest app).releases
          ≡ some r)
  unfolding register_release
  register_release_stores now user_id manifest app = (
    _,
    refreshed_lookup (string_field manifest (codes "version")) _ _
        (lookup-insert_self (string_field manifest (codes "version")) _ app.releases),
  )

  pub draft_release_stores :
      (now : ℕ) (user_id : Text) (manifest : Fields) (app : App)
      → (r : Release) × (lookup
            (string_field manifest (codes "version"))
            (draft_release p now user_id manifest app).releases
          ≡ some r)
  unfolding draft_release
  draft_release_stores now user_id manifest app = (
    _,
    refreshed_lookup (string_field manifest (codes "version")) _ _
        (lookup-insert_self (string_field manifest (codes "version")) _ app.releases),
  )

  registered_view :
      (viewer : Text) (manifest : Fields) (m : Mutation ℕ) (app : App) (release : Release)
      → lookup (string_field manifest (codes "app_id")) m.state.apps ≡ some app
      → lookup (string_field manifest (codes "version")) app.releases ≡ some release
      → view_registered p viewer manifest (ok m) ≢ crashed
  registered_view viewer manifest m app release found under h = ground arith

  created_view :
      (app_id version : Text) (m : Mutation (Unit {0})) (app : App) (release : Release)
      → lookup app_id m.state.apps ≡ some app
      → lookup version app.releases ≡ some release
      → view_created p app_id version (ok m) ≢ crashed
  created_view app_id version m app release found under h = ground arith

  reviewed_view :
      (user_id app_id version : Text) (m : Mutation (Unit {0})) (app : App) (release : Release)
      → lookup app_id m.state.apps ≡ some app
      → lookup version app.releases ≡ some release
      → view_release p user_id app_id version (ok m) ≢ crashed
  reviewed_view user_id app_id version m app release found under h = ground arith

installed_view :
    (user_id app_id : Text) (m : Mutation Bool) (app : App) (release : Release)
    → lookup app_id m.state.apps ≡ some app
    → latest_approved_release app ≡ some release
    → view_installed user_id app_id (ok m) ≢ crashed
installed_view user_id app_id m app release found under h = ground arith

app_view :
    (app_id : Text) (m : Mutation (Unit {0})) (app : App)
    → lookup app_id m.state.apps ≡ some app
    → view_app app_id (ok m) ≢ crashed
app_view app_id m app found h = ground arith

-- An app that is inserted is found.
pub stored_app :
    (app_id : Text) (app : App) (st st' : State)
    → st' ≡ record st { apps = insert app_id app st.apps }
    → lookup app_id st'.apps ≡ some app
stored_app app_id app st st' e = rw e (lookup-insert_self app_id app st.apps)

module _ (p : Platform) (io : Io) (r : Request) where
  RegisterMade-view :
      (now : ℕ) (user_id : Text) (admin : Bool) (manifest : Fields) (st : State) (m : Mutation ℕ)
      (viewer : Text)
      → RegisterMade p now user_id admin manifest st m.state
      → view_registered p viewer manifest (ok m) ≢ crashed
  RegisterMade-view now user_id admin manifest st m viewer made = go made.then_made
    where
      app_id : Text
      app_id = string_field manifest (codes "app_id")

      go :
          RegisterCase p now user_id manifest st m.state made.app
          → view_registered p viewer manifest (ok m) ≢ crashed
      go (known release under _ e) =
          registered_view p viewer manifest m made.app release
            (stored_app (string_field manifest (codes "app_id")) made.app st m.state e) under
      go (added _ e) =
          let (release, under) = register_release_stores p now user_id manifest made.app in
          registered_view p viewer manifest m (register_release p now user_id manifest made.app)
            release
            (stored_app (string_field manifest (codes "app_id"))
              (register_release p now user_id manifest made.app) st m.state e)
            under

  Change-view :
      (e : Endpoint) (st : State) (x : Server × Reply) (s : Server)
      → Change p io r e st x s
      → x.1 ≢ crashed
  Change-view e st x s (registered manifest m _ _ h _ v) crash =
      RegisterMade-view io.now _ (is_admin r) manifest st m (current_user_id r)
        (register_mutation-made p io.now _ (is_admin r) manifest st m h) (sym v ∙ crash)
  Change-view e st x s (released app_id manifest m _ _ _ h _ v) crash =
      let c = create_release_mutation-made p io.now _ (is_admin r) app_id manifest st m h in
      let (release, under) = draft_release_stores p io.now (current_user_id r) manifest c.app in
      created_view p app_id (string_field manifest (codes "version")) m _ release
        (stored_app app_id _ st m.state c.made) under (sym v ∙ crash)
  Change-view e st x s (app_made req m _ _ _ h _ v) crash =
      app_view (trim_space req.app_id) m _
        (stored_app (trim_space req.app_id) _ st m.state
          (create_app_mutation-made io.now (current_user_id r) req st m h).1)
        (sym v ∙ crash)
  Change-view e st x s (install_made app_id m _ _ h _ v) crash =
      let c = install_mutation-made io.now (current_user_id r) app_id (accepts r.body) st m h in
      installed_view (current_user_id r) app_id m c.app c.release
        (rw
          (
            c.made,
            apps-install_release io.now (current_user_id r) app_id (accepts r.body) c.app c.release
                st,
          )
          c.found)
        c.latest (sym v ∙ crash)
  Change-view e st x s (install_dropped app_id m _ _ h _ v) crash = ground arith
  Change-view e st x s (reviewed app_id version status note admin_only m _ _ _ h _ v) crash =
      let c =
        transition_mutation-made p io.now (current_user_id r) (is_admin r) app_id version status
          note admin_only st m h in
      reviewed_view p (current_user_id r) app_id version m _ c.step.release'
        (stored_app app_id _ st m.state c.made) (refreshed_lookup version _ _ c.step.stored)
        (sym v ∙ crash)

-- The only requests whose handler panics are those whose path the router cannot take apart: no
-- handler follows a nil pointer after a mutation.
pub serve-crashes_only_by_path :
    (p : Platform) (io : Io) (r : Request) (e : Endpoint) (s : Server)
    → (serve p e io r s).1 ≡ crashed
    → e ≡ panics
serve-crashes_only_by_path p io r e s h = go (serve p e io r s) (serve-Handled p io r e s) h
  where
    go : (x : Server × Reply) → Handled p io r e s x → x.1 ≡ crashed → e ≡ panics
    go x (refused a _ v) k = cc
    go x (shown _ v) k = absurd (subst (IsAnswer p io r) k v)
    go x (keyed _ _ _ v) k = absurd (subst (IsAnswer p io r) k v)
    go x (changed c) k = absurd (Change-view p io r e (loaded s) x s c k)
    go x (panicked q _ _) k = q
