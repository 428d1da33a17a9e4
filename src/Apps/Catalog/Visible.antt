-- ===== src/Apps/Catalog/Visible.antt =====
-- Who sees what in the catalog.
use messages.Base.{ap, ◌∙◌}
use messages.Apps.Catalog.{
  release_visible_to_user, owns, matches_catalog_filters, list_apps_loop, latest_visible_release,
  latest_visible_loop, keep_matching, developer_mode_enabled, comes_after,
}
use messages.Apps.Store.{is_admin, current_user_id, Request}
use messages.Apps.Pointers.Recent.{Listed}
use messages.Apps.View.{user_install, app_response, AppView}
use messages.Apps.Types.{
  dev, public, Visibility, approved, ReviewStatus, is_public, is_dev, is_approved, State, Release,
  Install, App,
}
use messages.Base.{
  sym, text_eq_iff, text_eq, ◌&&◌, subst, Option, Map, List, Bool-cases, Bool, All, ◌&&◌, ◌⊎◌, ◌≡◌,
  ◌∷◌, ◌||◌, true, some, refl, not, none, lookup, inr, inl, false, arith, [], Text, Option, Map,
  List, Bool-cases, Bool, All, ◌&&◌,
}

-- A user who is no admin and neither owns the app nor has published the release sees the release
-- only if it is approved and public, and a development release only in developer mode.
pub release_visible_to_stranger :
    (app : App) (release : Release) (user_id : Text) (developer_mode : Bool)
    → owns app release user_id ≡ false
    → release_visible_to_user app release user_id false developer_mode ≡ (
        is_approved release.review_status
        && is_public release.visibility
        && (not (is_dev release.source_type) || developer_mode))
unfolding release_visible_to_user
release_visible_to_stranger app release user_id developer_mode h = ground arith

module _ (app : App) (user_id : Text) (admin developer_mode : Bool) where
  abbrev Seen : Option Release → Map Release → Option Release → Type 0
  Seen acc m none = acc ≡ none
  Seen acc m (some r) =
      (acc ≡ some r)
      ⊎ (Listed r m × (release_visible_to_user app r user_id admin developer_mode ≡ true))

  Seen-later :
      (acc : Option Release) (v : Text) (s : Release) (m : Map Release) (o : Option Release)
      → Seen acc m o
      → Seen acc ((v, s) ∷ m) o
  Seen-later acc v s m none h = h
  Seen-later acc v s m (some r) h = ground arith

  same_release : (x y : Release) → some x ≡ some y → x ≡ y
  same_release x y q = cc

  Seen-now :
      (acc : Option Release) (v : Text) (s : Release) (m : Map Release) (o : Option Release)
      → release_visible_to_user app s user_id admin developer_mode ≡ true
      → Seen (some s) m o
      → Seen acc ((v, s) ∷ m) o
  Seen-now acc v s m none a h = cc
  Seen-now acc v s m (some r) a (inl q) = inr (
    inl (ground arith),
    subst (λ x. release_visible_to_user app x user_id admin developer_mode ≡ true)
        (same_release s r q) a,
  )
  Seen-now acc v s m (some r) a (inr (l, b)) = inr (inr l, b)

  latest_visible_loop-Seen :
      (acc : Option Release) (m : Map Release)
      → Seen acc m (latest_visible_loop app user_id admin developer_mode acc m)
  unfolding latest_visible_loop
  latest_visible_loop-Seen none [] = refl
  latest_visible_loop-Seen (some r) [] = inl refl
  latest_visible_loop-Seen acc ((v, s) ∷ m) =
      elim (Bool-cases (release_visible_to_user app s user_id admin developer_mode)) [
        | inl a ↦ elim (Bool-cases (comes_after s acc)) [
          | inl b ↦ rw (a, b) (Seen-now acc v s m _ a (latest_visible_loop-Seen (some s) m))
          | inr b ↦ rw (a, b) (Seen-later acc v s m _ (latest_visible_loop-Seen acc m))
        ]
        | inr a ↦ rw a (Seen-later acc v s m _ (latest_visible_loop-Seen acc m))
      ]

  pub latest_visible_release-Listed :
      (r : Release)
      → latest_visible_release app user_id admin developer_mode ≡ some r
      → Listed r app.releases × (release_visible_to_user app r user_id admin developer_mode ≡ true)
  unfolding latest_visible_release
  latest_visible_release-Listed r h =
      go (latest_visible_loop app user_id admin developer_mode none app.releases) h
        (latest_visible_loop-Seen none app.releases)
    where
      go :
          (o : Option Release)
          → o ≡ some r
          → Seen none app.releases o
          → Listed r app.releases
            × (release_visible_to_user app r user_id admin developer_mode ≡ true)
      go none e s = cc
      go (some q) e (inl s) = cc
      go (some q) e (inr s) =
          subst
            (λ x.
              Listed x app.releases
              × (release_visible_to_user app x user_id admin developer_mode ≡ true))
            (same_release q r e) s

-- Who may see a release: an admin, the owner of the app, who published the release, and everybody
-- if it is approved and public, and for a development release the developer mode is on.
pub data Sees (r : Request) (app : App) (release : Release) : Type 0 where
  as_admin : is_admin r ≡ true → Sees r app release
  as_owner : app.owner_user_id ≡ current_user_id r → Sees r app release
  as_publisher : release.publisher_user_id ≡ current_user_id r → Sees r app release
  as_anybody :
      release.review_status ≡ approved
      → release.visibility ≡ public
      → (release.source_type ≡ dev → developer_mode_enabled r ≡ true)
      → Sees r app release

is_approved_eq : (x : ReviewStatus) → is_approved x ≡ true → x ≡ approved
is_approved_eq x h = ground arith

is_public_eq : (x : Visibility) → is_public x ≡ true → x ≡ public
is_public_eq public h = refl
is_public_eq Visibility.private h = cc

visible_to_anybody :
    (a b c m : Bool)
    → (a && b && (not c || m)) ≡ true
    → (a ≡ true) × (b ≡ true) × (c ≡ true → m ≡ true)
visible_to_anybody a b c m h = ground arith

release_visible_to_user-Sees :
    (r : Request) (app : App) (release : Release)
    → release_visible_to_user app release
        (current_user_id r)
        (is_admin r)
        (developer_mode_enabled r)
      ≡ true
    → Sees r app release
release_visible_to_user-Sees r app release h = elim (Bool-cases (is_admin r)) [
  | inl admin ↦ as_admin admin
  | inr user ↦ elim (Bool-cases (text_eq app.owner_user_id (current_user_id r))) [
    | inl owner ↦ as_owner ((text_eq_iff _ _).0 owner)
    | inr stranger ↦ elim (Bool-cases (text_eq release.publisher_user_id (current_user_id r))) [
      | inl publisher ↦ as_publisher ((text_eq_iff _ _).0 publisher)
      | inr nobody ↦
          let not_own : owns app release (current_user_id r) ≡ false = ground arith in
          let seen : release_visible_to_user app release (current_user_id r) false
                (developer_mode_enabled r)
              ≡ true =
            subst
              (λ b.
                release_visible_to_user app release (current_user_id r) b (developer_mode_enabled r)
                ≡ true)
              user h in
          let open_to_all =
            visible_to_anybody (is_approved release.review_status) (is_public release.visibility)
              (is_dev release.source_type) (developer_mode_enabled r)
              (sym (
                  release_visible_to_stranger app release (current_user_id r)
                    (developer_mode_enabled r) not_own)
                ∙ seen) in
          as_anybody (is_approved_eq _ open_to_all.0) (is_public_eq _ open_to_all.1)
            (λ e. open_to_all.2 (ap is_dev e))
    ]
  ]
]

-- The view is of a release that the user may see, of an app of the registry.
abbrev pub MaySee : Request → State → AppView → Type 0
MaySee r state v =
    (k : Text) × (app : App) × (lookup k state.apps ≡ some app)
    × (v.app_id ≡ app.app_id)
    × Listed v.release app.releases
    × Sees r app v.release

module _ (r : Request) (state : State) where
  keep_matching-MaySee :
      (k : Text) (app : App) (install : Option Install) (o : Option Release) (items : List AppView)
      → lookup k state.apps ≡ some app
      → latest_visible_release app (current_user_id r) (is_admin r) (developer_mode_enabled r) ≡ o
      → All (MaySee r state) items
      → All (MaySee r state) (keep_matching r app install o items)
  unfolding app_response
  keep_matching-MaySee k app install none items found h all = all
  keep_matching-MaySee k app install (some release) items found h all =
      elim (Bool-cases (matches_catalog_filters app release install r (is_admin r))) [
        | inr out ↦ rw out all
        | inl into ↦
            let (l, seen) =
              latest_visible_release-Listed app (current_user_id r) (is_admin r)
                (developer_mode_enabled r) release h in
            rw into ((k, app, found, refl, l, release_visible_to_user-Sees r app release seen), all)
      ]

  -- Every entry of the catalog, whatever the filters are, shows a release of an app of the registry
  -- to an admin, to the owner of the app, to who published the release, or a release that is
  -- approved and public, which is a development release only in developer mode.
  pub list_apps_loop-MaySee : (ids : List Text) → All (MaySee r state) (list_apps_loop r state ids)
  unfolding list_apps_loop
  list_apps_loop-MaySee [] = tt
  list_apps_loop-MaySee (k ∷ ids) = go (lookup k state.apps) refl (list_apps_loop-MaySee ids)
    where
      go :
          (o : Option App)
          → lookup k state.apps ≡ o
          → All (MaySee r state) (list_apps_loop r state ids)
          → All (MaySee r state) (elim o [
            | none ↦ list_apps_loop r state ids
            | some app ↦
                keep_matching r app
                  (user_install state (current_user_id r) app.app_id)
                  (latest_visible_release app
                    (current_user_id r)
                    (is_admin r)
                    (developer_mode_enabled r))
                  (list_apps_loop r state ids)
          ])
      go none found rest = rest
      go (some app) found rest = keep_matching-MaySee k app _ _ _ found refl rest
