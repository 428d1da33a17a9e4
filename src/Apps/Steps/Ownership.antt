-- ===== src/Apps/Steps/Ownership.antt =====
-- Who may change an app, and what no request does to it.
use messages.Apps.Steps.Serve.{serve-Handled}
use messages.Apps.Steps.Answers.{releases-refresh}
use messages.Apps.Pointers.{refresh_latest_pointers}
use messages.Apps.View.{Reply}
use messages.Apps.Manifest.{Platform}
use messages.Base.{
  text_eq_iff, none, ap, Bool-cases, ◌⊎◌, ◌≡◌, ◌∷◌, ◌∙◌, ◌||◌, true, text_eq, sym, subst, some,
  refl, lookup-insert, lookup, insert, inr, inl, false, arith, [], Text, Option, Map,
}
use messages.Apps.Store.{refresh_apps, loaded, is_admin, Server, Request, Io}
use messages.Apps.Steps.{shown, refused, panicked, keyed, changed, Handled}
use messages.Apps.Route.{serve, approves, Endpoint}
use messages.Apps.Steps.OneApp.{
  refresh-owner, lookup-refresh_apps-none, lookup-refresh_apps, Change-AppStep, turned, there, put,
  may_publish, made, left, fresh, actor, Base, AppStep,
}
use messages.Apps.Types.{
  under_review, suspended, submitted, revoked, rejected, needs_changes, draft, approved,
  ReviewStatus, is_dev, is_approved, Release, App,
}

-- What an app is after the request: its owner is the same, and its releases are too if the request
-- comes from neither the owner nor an admin.
pub record Heir (r : Request) (app app' : App) : Type 0 where
  pub owner_kept : app'.owner_user_id ≡ app.owner_user_id
  pub releases_kept : may_publish r app ≡ false → app'.releases ≡ app.releases

module _ (r : Request) (e : Endpoint) (k : Text) where
  AppStep-Heir :
      (o o' : Option App) (app : App)
      → AppStep r e k o o'
      → o ≡ some app
      → (app' : App) × (o' ≡ some app') × Heir r app app'
  AppStep-Heir o o' app (left q) h =
      (app, q ∙ h, record { owner_kept = refl; releases_kept = λ f. refl })
  AppStep-Heir o o' app (made app' q _ _ _) h = cc
  AppStep-Heir o o' app (put a app' v rel (fresh q _) _ _ _ _ _ _) h = cc
  AppStep-Heir o o' app (put a app' v rel (there q) found may owner _ _ _) h =
      (app', found, record { owner_kept = cc; releases_kept = λ f. cc })
  AppStep-Heir o o' app (turned a b app' v status rel q found may under t owner _ _) h = (
    app',
    found,
    record { owner_kept = (owner ∙ t.owner_kept) ∙ ground arith; releases_kept = λ f. cc },
  )

module _ (p : Platform) (io : Io) (r : Request) (e : Endpoint) (s : Server) where
  -- The step of one app, from what is saved or from what a load makes of it.
  pub serve-AppStep :
      (k : Text)
      → (lookup k (serve p e io r s).0.saved.apps ≡ lookup k s.saved.apps)
        ⊎ AppStep r e k (lookup k (loaded s).apps) (lookup k (serve p e io r s).0.saved.apps)
  serve-AppStep k = go (serve p e io r s) (serve-Handled p io r e s)
    where
      go :
          (x : Server × Reply)
          → Handled p io r e s x
          → (lookup k x.0.saved.apps ≡ lookup k s.saved.apps)
            ⊎ AppStep r e k (lookup k (loaded s).apps) (lookup k x.0.saved.apps)
      go x (refused a q _) = inl (rw q)
      go x (shown q _) = inl (rw q)
      go x (keyed q _ _ _) = inl (rw q)
      go x (changed c) = inr (Change-AppStep p io r e k (loaded s) x s c)
      go x (panicked _ q _) = inl (rw q)

  -- What stands under a name that was taken.
  serve-Heir :
      (k : Text) (app : App)
      → lookup k s.saved.apps ≡ some app
      → (app' : App) × (lookup k (serve p e io r s).0.saved.apps ≡ some app') × Heir r app app'
  serve-Heir k app h = elim (serve-AppStep k) [
    | inl q ↦ (app, q ∙ h, record { owner_kept = refl; releases_kept = λ f. refl })
    | inr step ↦
        let (app', found, heir) =
          AppStep-Heir r e k _ _ (refresh_latest_pointers app) step
            (lookup-refresh_apps k s.saved.apps app h) in
        (
          app',
          found,
          record {
            owner_kept = heir.owner_kept ∙ refresh-owner app;
            releases_kept = λ f.
                heir.releases_kept (
                  subst (λ u. (text_eq u (actor r) || is_admin r) ≡ false) (sym (refresh-owner app))
                    f)
                ∙ releases-refresh app;
          },
        )
  ]

  -- An app that is registered stays registered under its name, with the owner it had, whatever the
  -- request.
  pub serve-keeps_owner :
      (k : Text) (app : App)
      → lookup k s.saved.apps ≡ some app
      → (app' : App) × (lookup k (serve p e io r s).0.saved.apps ≡ some app')
        × (app'.owner_user_id ≡ app.owner_user_id)
  serve-keeps_owner k app h =
      let (app', found, heir) = serve-Heir k app h in (app', found, heir.owner_kept)

  -- A request that comes neither from the owner of an app nor from an admin leaves all releases of
  -- the app as they are.
  pub serve-strangers_change_no_release :
      (k : Text) (app : App)
      → lookup k s.saved.apps ≡ some app
      → may_publish r app ≡ false
      → (app' : App) × (lookup k (serve p e io r s).0.saved.apps ≡ some app')
        × (app'.releases ≡ app.releases)
  serve-strangers_change_no_release k app h stranger =
      let (app', found, heir) = serve-Heir k app h in (app', found, heir.releases_kept stranger)

-- Release `v` of the app is one that was approved already.
abbrev pub WasApproved : Option App → Text → Type 0
WasApproved o v =
    (app : App) × (release : Release) × (o ≡ some app)
    × (lookup v app.releases ≡ some release)
    × (is_approved release.review_status ≡ true)

module _ (r : Request) (e : Endpoint) (k : Text) where
  empty_lookup : (v : Text) (r' : Release) (m : Map Release) → m ≡ [] → lookup v m ≡ some r' → ⊥
  unfolding lookup
  empty_lookup v r' [] a b = cc
  empty_lookup v r' (x ∷ m) a b = cc

  inserted_approval :
      (o : Option App) (app : App) (j v : Text) (release r' : Release)
      → Base o app
      → lookup v (insert j release app.releases) ≡ some r'
      → (is_approved release.review_status ≡ true → is_dev release.source_type ≡ true)
      → is_approved r'.review_status ≡ true
      → is_dev r'.source_type ≡ false
      → WasApproved o v
  inserted_approval o app j v release r' base found live ok_now no_dev = go base
    where
      before : lookup v app.releases ≡ some r'
      before = ground (arith, lookup-insert j v release app.releases)

      go : Base o app → WasApproved o v
      go (there q) = (app, r', q, before, ok_now)
      go (fresh q none_yet) = absurd (empty_lookup v r' app.releases none_yet before)

  AppStep-approval :
      (o o' : Option App) (app' : App) (v : Text) (r' : Release)
      → AppStep r e k o o'
      → o' ≡ some app'
      → lookup v app'.releases ≡ some r'
      → is_approved r'.review_status ≡ true
      → is_dev r'.source_type ≡ false
      → WasApproved o v ⊎ ((e ≡ approves k v) × (is_admin r ≡ true))
  AppStep-approval o o' app' v r' (left q) h found live no_dev =
      inl (app', r', sym q ∙ h, found, live)
  AppStep-approval o o' app' v r' (made a _ q _ none_yet) h found live no_dev =
      absurd (empty_lookup v r' app'.releases (ground arith) found)
  AppStep-approval o o' app' v r' (put a a' j rel base q _ _ _ rels only) h found live no_dev =
      inl (
        inserted_approval o a j v rel r' base
          (subst (λ m. lookup v m ≡ some r') (rels_of a' app' (sym q ∙ h) rels) found) only live
          no_dev)
    where
      rels_of :
          (x y : App)
          → some x ≡ some y
          → x.releases ≡ insert j rel a.releases
          → y.releases ≡ insert j rel a.releases
      rels_of x y f g = cc
  AppStep-approval o o' app' v r' (turned a b a' j status rel q q' may under t _ rels only) h found
        live no_dev =
      elim (Bool-cases (text_eq j v)) [
        | inl same ↦ inr (turned_here ((text_eq_iff j v).0 same))
        | inr apart ↦ inl (a, r', q, sym (t.others v apart) ∙ found_b, live)
      ]
    where
      rels_of : (x y : App) → some x ≡ some y → x.releases ≡ b.releases → y.releases ≡ b.releases
      rels_of x y f g = cc

      found_b : lookup v b.releases ≡ some r'
      found_b = subst (λ m. lookup v m ≡ some r') (rels_of a' app' (sym q' ∙ h) rels) found

      status_live : (x : Release) → lookup j b.releases ≡ some x → j ≡ v → x ≡ r'
      status_live x f g = cc

      is_approved_only : (x : ReviewStatus) → is_approved x ≡ true → x ≡ approved
      is_approved_only approved f = refl
      is_approved_only draft f = cc
      is_approved_only submitted f = cc
      is_approved_only under_review f = cc
      is_approved_only needs_changes f = cc
      is_approved_only rejected f = cc
      is_approved_only suspended f = cc
      is_approved_only revoked f = cc

      turned_here : j ≡ v → (e ≡ approves k v) × (is_admin r ≡ true)
      turned_here same =
          let (asked, admin) = only (
            sym t.reviewed.status_set
            ∙ is_approved_only _ (rw (status_live t.release' t.stored same) live)) in
          (asked ∙ ap (approves k) same, admin)

WasApproved-refresh :
    (k v : Text) (m : Map App)
    → WasApproved (lookup k (refresh_apps m)) v
    → WasApproved (lookup k m) v
WasApproved-refresh k v m (app, release, found, under, live) = go (lookup k m) refl
  where
    go : (o : Option App) → lookup k m ≡ o → WasApproved o v
    go none q = absurd (differ (sym (lookup-refresh_apps-none k m q) ∙ found))
      where
        differ : none ≡ some app → ⊥
        differ f = cc
    go (some a) q = (a, release, refl, same, live)
      where
        refreshed : some (refresh_latest_pointers a) ≡ some app
        refreshed = sym (lookup-refresh_apps k m a q) ∙ found

        same : lookup v a.releases ≡ some release
        same =
            subst (λ n. lookup v n ≡ some release) (releases-refresh a)
              (subst (λ o. elim o [ none ↦ Unit | some x ↦ lookup v x.releases ≡ some release ])
                (sym refreshed) under)

-- A release of a production app is live only by the word of an admin: if after a request it is
-- approved, and it is not a development release, then it was approved before, or the request is an
-- admin's approval of just this version.
pub serve-approval_needs_admin :
    (p : Platform) (io : Io) (r : Request) (e : Endpoint) (s : Server) (k v : Text) (app' : App)
    (release' : Release)
    → lookup k (serve p e io r s).0.saved.apps ≡ some app'
    → lookup v app'.releases ≡ some release'
    → is_approved release'.review_status ≡ true
    → is_dev release'.source_type ≡ false
    → WasApproved (lookup k s.saved.apps) v ⊎ ((e ≡ approves k v) × (is_admin r ≡ true))
serve-approval_needs_admin p io r e s k v app' release' h found live no_dev =
    elim (serve-AppStep p io r e s k) [
      | inl q ↦ inl (app', release', sym q ∙ h, found, live)
      | inr step ↦ elim (AppStep-approval r e k _ _ app' v release' step h found live no_dev) [
        | inl was ↦ inl (WasApproved-refresh k v s.saved.apps was)
        | inr asked ↦ inr asked
      ]
    ]
