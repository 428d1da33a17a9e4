-- ===== src/Apps/Examples/Parts.antt =====
-- The theorems about the keys and about single functions, each at a concrete input.
use messages.Apps.Pointers.{refresh_latest_pointers}
use messages.Apps.Permissions.Delta.{permission_delta_lem}
use messages.Apps.Permissions.{permission_delta, manifest_permissions}
use messages.Apps.Examples.{second, sample_app, first}
use messages.Apps.Permissions.Sort.{mem, IsAscending}
use messages.Apps.Pointers.Latest.{
  refresh_latest_pointers-IsGreatest, approved_release, any_release, IsGreatest, Holds,
}
use messages.Apps.Types.{App}
use messages.Base.{◌⊎◌, ◌≢◌, ◌≡◌, ◌∷◌, ℕ, some, not, [], Text, ◌&&◌}

named : (c : ℕ) (s : Text) → (c ∷ s) ≢ []
named c s h = cc

abbrev InOrder : (app : App) → Type 0
InOrder app =
    (((refresh_latest_pointers app).latest_approved ≡ [])
        × ((j : Text) → ¬ Holds approved_release j app.releases)
      ⊎ IsGreatest approved_release (refresh_latest_pointers app).latest_approved app.releases)
    × (((refresh_latest_pointers app).latest_version ≡ [])
          × ((j : Text) → ¬ Holds any_release j app.releases)
        ⊎ IsGreatest any_release (refresh_latest_pointers app).latest_version app.releases)

refresh_latest_pointers-IsGreatest_example : InOrder sample_app
refresh_latest_pointers-IsGreatest_example =
    refresh_latest_pointers-IsGreatest sample_app (named _ _, (named _ _, (named _ _, tt)))

permission_delta_lem_example :
    ((a : Text)
      → (mem a (permission_delta (some first) (some second)).0 ≡ (
          mem a (manifest_permissions second.manifest)
          && not (mem a (manifest_permissions first.manifest))))
        × (mem a (permission_delta (some first) (some second)).1 ≡ (
            mem a (manifest_permissions first.manifest)
            && not (mem a (manifest_permissions second.manifest)))))
    × IsAscending (permission_delta (some first) (some second)).0
    × IsAscending (permission_delta (some first) (some second)).1
permission_delta_lem_example = permission_delta_lem first second
