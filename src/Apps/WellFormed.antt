-- ===== src/Apps/WellFormed.antt =====
-- The invariant of the registry: apps and releases stand under their own names, versions are not
-- empty, a release that is approved has been published, and no manifest differs from the hash that
-- was taken of it.
use messages.Apps.Pointers.Latest.{refresh_latest_pointers_keeps}
use messages.Apps.Pointers.{refresh_latest_pointers}
use messages.Apps.Review.{is_immutable}
use messages.Apps.Store.{refresh_apps, loaded, Server}
use messages.Apps.Manifest.{Platform}
use messages.Apps.Types.{is_approved, empty_state, State, Release, App}
use messages.Base.{◌≡◌, ◌∷◌, true, sym, subst, is_some, is_empty, false, [], Text, Map, AllEntries}
pub mod Preserved

module _ (p : Platform) where
  pub record IsRelease (v : Text) (release : Release) : Type 0 where
    pub keyed : release.version ≡ v
    pub named : is_empty v ≡ false
    pub dated : is_approved release.review_status ≡ true → is_some release.published_at ≡ true
    pub intact : is_immutable p release ≡ true

  pub record IsApp (k : Text) (app : App) : Type 0 where
    pub keyed : app.app_id ≡ k
    pub named : is_empty k ≡ false
    pub releases : AllEntries IsRelease app.releases

  pub record IsWellFormed (state : State) : Type 0 where
    pub apps : AllEntries IsApp state.apps

  pub IsApp-pointers :
      (k : Text) (app : App) (v w : Text)
      → IsApp k app
      → IsApp k (record app { latest_version = v; latest_approved = w })
  IsApp-pointers k app v w h = record { keyed = h.keyed; named = h.named; releases = h.releases }

  pub refresh_latest_pointers-IsApp :
      (k : Text) (app : App) → IsApp k app → IsApp k (refresh_latest_pointers app)
  refresh_latest_pointers-IsApp k app h =
      subst (IsApp k) (sym (refresh_latest_pointers_keeps app)) (IsApp-pointers k app _ _ h)

  refresh_apps-IsApp : (m : Map App) → AllEntries IsApp m → AllEntries IsApp (refresh_apps m)
  unfolding refresh_apps
  refresh_apps-IsApp [] h = tt
  refresh_apps-IsApp ((k, app) ∷ m) h =
      (refresh_latest_pointers-IsApp k app h.0, refresh_apps-IsApp m h.1)

  pub loaded-IsWellFormed : (s : Server) → IsWellFormed s.saved → IsWellFormed (loaded s)
  loaded-IsWellFormed s h = record { apps = refresh_apps-IsApp s.saved.apps h.apps }

  empty-IsWellFormed : IsWellFormed empty_state
  empty-IsWellFormed = record { apps = tt }
