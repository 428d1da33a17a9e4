-- ===== src/Apps/Steps/OneApp.antt =====
-- What a request does to one app of the registry.
use messages.Apps.Steps.Answers.{releases-refresh}
use messages.Text.{trim_space, codes}
use messages.Apps.Installs.{uninstall_mutation, accepts}
use messages.Apps.View.{Reply}
use messages.Apps.Steps.Inversion.{
  transition_mutation-made, register_mutation-made, known, install_mutation-made,
  create_release_mutation-made, create_app_mutation-made, apps-install_release, added, ReviewMade,
  ReleaseMade, RegisterMade, RegisterCase,
}
use messages.Apps.Manifest.{
  manifest_source_type, manifest_content_hash_of, initial_review_status, Platform,
}
use messages.Json.{string_field, Fields}
use messages.Apps.Steps.{
  reviewed, released, registered, install_made, install_dropped, app_made, Change,
}
use messages.Apps.Publish.{
  requested_app, register_release, new_release, new_app, draft_release, AppRequest,
  user_or_bootstrap,
}
use messages.Apps.Pointers.Latest.{refresh_latest_pointers_keeps}
use messages.Apps.Pointers.{refresh_latest_pointers}
use messages.Apps.Review.Transition.{Transitioned}
use messages.Apps.Store.{refresh_apps, Server, Io, is_admin, current_user_id, Request}
use messages.Apps.Route.{approves, Endpoint}
use messages.Base.{
  ◌⊎◌, arith, Map, ◌≡◌, ◌∷◌, ◌||◌, true, text_eq_iff, text_eq, sym, subst, some, refl, none,
  lookup-insert_self, lookup-insert, lookup, is_some, is_empty, insert, inr, inl, false, ap, [],
  Text, Option, Bool-cases, Bool,
}
use messages.Apps.Types.{is_dev, is_approved, approved, State, ReviewStatus, Release, App}

-- The user in whose name the request publishes.
abbrev pub actor : Request → Text
actor r = user_or_bootstrap (current_user_id r)

-- The owner of an app and admins publish under it.
abbrev pub may_publish : Request → App → Bool
may_publish r app = text_eq app.owner_user_id (actor r) || is_admin r

actor_named : (r : Request) → is_empty (current_user_id r) ≡ false → current_user_id r ≡ actor r
actor_named r h = go (current_user_id r) h
  where
    go : (u : Text) → is_empty u ≡ false → u ≡ user_or_bootstrap u
    go [] k = cc
    go (c ∷ u) k = refl

-- The app that a new release is put into: it was there, or is new and empty.
pub data Base (o : Option App) (app : App) : Type 0 where
  there : o ≡ some app → Base o app
  fresh : o ≡ none → app.releases ≡ [] → Base o app

-- From what stood under `k` to what stands there after.
pub data AppStep (r : Request) (e : Endpoint) (k : Text) (o o' : Option App) : Type 1 where
  left : o' ≡ o → AppStep r e k o o'
  made :
      (app' : App)
      → o ≡ none
      → o' ≡ some app'
      → app'.owner_user_id ≡ actor r
      → app'.releases ≡ []
      → AppStep r e k o o'
  put :
      (app app' : App) (version : Text) (release : Release)
      → Base o app
      → o' ≡ some app'
      → may_publish r app ≡ true
      → app'.owner_user_id ≡ app.owner_user_id
      → is_some (lookup version app.releases) ≡ false
      → app'.releases ≡ insert version release app.releases
      → (is_approved release.review_status ≡ true → is_dev release.source_type ≡ true)
      → AppStep r e k o o'
  turned :
      (app app' app'' : App) (version : Text) (status : ReviewStatus) (release : Release)
      → o ≡ some app
      → o' ≡ some app''
      → may_publish r app ≡ true
      → lookup version app.releases ≡ some release
      → Transitioned version status release app app'
      → app''.owner_user_id ≡ app'.owner_user_id
      → app''.releases ≡ app'.releases
      → (status ≡ approved → (e ≡ approves k version) × (is_admin r ≡ true))
      → AppStep r e k o o'

pub refresh-owner : (app : App) → (refresh_latest_pointers app).owner_user_id ≡ app.owner_user_id
refresh-owner app = ap (λ (a : App). a.owner_user_id) (refresh_latest_pointers_keeps app)

module _ (r : Request) (e : Endpoint) (k : Text) (st st' : State) where
  -- A write under one name is a step under every name.
  written :
      (j : Text) (app : App)
      → st' ≡ record st { apps = insert j app st.apps }
      → AppStep r e j (lookup j st.apps) (some app)
      → AppStep r e k (lookup k st.apps) (lookup k st'.apps)
  written j app h step = elim (Bool-cases (text_eq j k)) [
    | inl same ↦
        subst (λ n. AppStep r e n (lookup n st.apps) (lookup n st'.apps)) ((text_eq_iff j k).0 same)
          (subst (AppStep r e j (lookup j st.apps)) (sym (rw h (lookup-insert_self j app st.apps)))
            step)
    | inr apart ↦ left (rw (h, lookup-insert j k app st.apps, apart))
  ]

module _ (p : Platform) (io : Io) (r : Request) (e : Endpoint) (k : Text) where
  new_release_live :
      (manifest : Fields) (app : App)
      → is_approved
          (new_release p io.now
            (actor r)
            manifest
            (initial_review_status (manifest_source_type p manifest))
            (manifest_content_hash_of p manifest)
            app).review_status
        ≡ true
      → is_dev
          (new_release p io.now
            (actor r)
            manifest
            (initial_review_status (manifest_source_type p manifest))
            (manifest_content_hash_of p manifest)
            app).source_type
        ≡ true
  unfolding new_release initial_review_status
  new_release_live manifest app h = ground arith

  register-Base :
      (manifest : Fields) (st : State) (app : App)
      → (lookup (string_field manifest (codes "app_id")) st.apps ≡ some app)
        ⊎ ((lookup (string_field manifest (codes "app_id")) st.apps ≡ none)
            × (app ≡ new_app p io.now (actor r) (string_field manifest (codes "app_id")) manifest))
      → Base (lookup (string_field manifest (codes "app_id")) st.apps) app
  unfolding new_app
  register-Base manifest st app (inl h) = there h
  register-Base manifest st app (inr (h, q)) = fresh h (ap (λ (a : App). a.releases) q)

  register_put :
      (manifest : Fields) (app : App) (o : Option App)
      → Base o app
      → may_publish r app ≡ true
      → lookup (string_field manifest (codes "version")) app.releases ≡ none
      → AppStep r e
          (string_field manifest (codes "app_id"))
          o
          (some (register_release p io.now (actor r) manifest app))
  unfolding register_release
  register_put manifest app o base permitted free =
      put app _ (string_field manifest (codes "version")) _ base refl permitted (refresh-owner _)
        (rw free) (releases-refresh _) (new_release_live manifest app)

  -- A release that was known leaves the app as it is; there is none in a new app.
  register_kept :
      (manifest : Fields) (app : App) (o : Option App) (release : Release)
      → Base o app
      → lookup (string_field manifest (codes "version")) app.releases ≡ some release
      → AppStep r e (string_field manifest (codes "app_id")) o (some app)
  unfolding lookup
  register_kept manifest app o release (there h) found = left (sym h)
  register_kept manifest app o release (fresh h q) found =
      absurd (nothing_in (string_field manifest (codes "version")) app.releases release q found)
    where
      nothing_in : (v : Text) (m : Map Release) (x : Release) → m ≡ [] → lookup v m ≡ some x → ⊥
      nothing_in v [] x q f = cc
      nothing_in v (y ∷ m) x q f = cc

  RegisterMade-AppStep :
      (manifest : Fields) (st st' : State)
      → RegisterMade p io.now (actor r) (is_admin r) manifest st st'
      → AppStep r e k (lookup k st.apps) (lookup k st'.apps)
  RegisterMade-AppStep manifest st st' c = go c.then_made
    where
      base : Base (lookup (string_field manifest (codes "app_id")) st.apps) c.app
      base = register-Base manifest st c.app c.from

      go :
          RegisterCase p io.now (actor r) manifest st st' c.app
          → AppStep r e k (lookup k st.apps) (lookup k st'.apps)
      go (known release under _ h) =
          written r e k st st' (string_field manifest (codes "app_id")) c.app h
            (register_kept manifest c.app _ release base under)
      go (added free h) =
          written r e k st st' (string_field manifest (codes "app_id")) _ h
            (register_put manifest c.app _ base c.permitted free)

  ReleaseMade-AppStep :
      (user_id app_id : Text) (manifest : Fields) (st st' : State)
      → user_id ≡ actor r
      → ReleaseMade p io.now user_id (is_admin r) app_id manifest st st'
      → AppStep r e k (lookup k st.apps) (lookup k st'.apps)
  unfolding draft_release new_release
  ReleaseMade-AppStep user_id app_id manifest st st' same c = written r e k st st' app_id _ c.made (
      put c.app _ (string_field manifest (codes "version")) _ (there c.found) refl
        (subst (λ u. (text_eq c.app.owner_user_id u || is_admin r) ≡ true) same c.permitted)
        (refresh-owner _) c.fresh (releases-refresh _) (λ h. cc))

  create_app-AppStep :
      (req : AppRequest) (user_id : Text) (st st' : State)
      → user_id ≡ actor r
      → is_some (lookup (trim_space req.app_id) st.apps) ≡ false
      → st' ≡ record st {
        apps = insert (trim_space req.app_id) (requested_app io.now user_id req) st.apps;
      }
      → AppStep r e k (lookup k st.apps) (lookup k st'.apps)
  unfolding requested_app
  create_app-AppStep req user_id st st' same free h =
      written r e k st st' (trim_space req.app_id) _ h (made _ (ground arith) refl same refl)

  review_permitted :
      (admin_only : Bool) (app : App) (user_id : Text)
      → user_id ≡ actor r
      → (admin_only ≡ true → is_admin r ≡ true)
      → (admin_only || text_eq app.owner_user_id user_id || is_admin r) ≡ true
      → may_publish r app ≡ true
  review_permitted admin_only app user_id same only h =
      subst (λ u. (text_eq app.owner_user_id u || is_admin r) ≡ true) same (ground arith)

  ReviewMade-AppStep :
      (user_id app_id version : Text) (status : ReviewStatus) (admin_only : Bool) (st st' : State)
      → user_id ≡ actor r
      → (admin_only ≡ true → is_admin r ≡ true)
      → (status ≡ approved → (e ≡ approves app_id version) × (is_admin r ≡ true))
      → ReviewMade p io.now user_id (is_admin r) app_id version status admin_only st st'
      → AppStep r e k (lookup k st.apps) (lookup k st'.apps)
  ReviewMade-AppStep user_id app_id version status admin_only st st' same only live c =
      written r e k st st' app_id _ c.made (
        turned c.app c.app' _ version status c.release c.found refl
          (review_permitted admin_only c.app user_id same only c.permitted) c.under c.step
          (refresh-owner _) (releases-refresh _) live)

  pub Change-AppStep :
      (st : State) (x : Server × Reply) (s : Server)
      → Change p io r e st x s
      → AppStep r e k (lookup k st.apps) (lookup k x.0.saved.apps)
  unfolding uninstall_mutation
  Change-AppStep st x s (registered manifest m _ _ h save _) = rw save (
      RegisterMade-AppStep manifest st m.state
        (register_mutation-made p io.now _ (is_admin r) manifest st m h))
  Change-AppStep st x s (released app_id manifest m _ named _ h save _) = rw save (
      ReleaseMade-AppStep _ app_id manifest st m.state (actor_named r named)
        (create_release_mutation-made p io.now _ (is_admin r) app_id manifest st m h))
  Change-AppStep st x s (app_made req m _ named _ h save _) =
      let (free, q) = create_app_mutation-made io.now (current_user_id r) req st m h in
      rw save (create_app-AppStep req _ st m.state (actor_named r named) free q)
  Change-AppStep st x s (install_made app_id m _ _ h save _) =
      let c = install_mutation-made io.now (current_user_id r) app_id (accepts r.body) st m h in
      left (
        rw (
          save,
          c.made,
          apps-install_release io.now (current_user_id r) app_id (accepts r.body) c.app c.release
              st,
        ))
  Change-AppStep st x s (install_dropped app_id m _ _ h save _) = left (rw save (ground arith))
  Change-AppStep st x s
        (reviewed app_id version status note admin_only m named only live h save _) =
      rw save (
        ReviewMade-AppStep _ app_id version status admin_only st m.state (actor_named r named) only
          live
          (transition_mutation-made p io.now _ (is_admin r) app_id version status note admin_only st
            m h))

pub lookup-refresh_apps :
    (k : Text) (m : Map App) (app : App)
    → lookup k m ≡ some app
    → lookup k (refresh_apps m) ≡ some (refresh_latest_pointers app)
unfolding lookup refresh_apps
lookup-refresh_apps k [] app h = cc
lookup-refresh_apps k ((j, a) ∷ m) app h = ground (arith, lookup-refresh_apps k m app)

pub lookup-refresh_apps-none :
    (k : Text) (m : Map App) → lookup k m ≡ none → lookup k (refresh_apps m) ≡ none
unfolding lookup refresh_apps
lookup-refresh_apps-none k [] h = refl
lookup-refresh_apps-none k ((j, a) ∷ m) h = ground (arith, lookup-refresh_apps-none k m)
