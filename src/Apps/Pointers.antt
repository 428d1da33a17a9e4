-- ===== src/Apps/Pointers.antt =====
-- refreshLatestPointers of services/apps/registry.go and latestApprovedRelease of
-- services/apps/handlers.go. Both range over a map: the order is that of the list.
pub mod Latest
pub mod Recent
use messages.Base.{
  ℕ, Bool, true, false, ◌&&◌, ◌||◌, Option, none, some, [], ◌∷◌, Text, Map, ltb, is_empty,
  if◌then◌else◌,
}
use messages.Apps.Types.{Release, App, is_approved}
use messages.Apps.Version.{version_greater}

-- The test of the two `if`s of the loop: the version is to replace the pointer.
unfoldable pub replaces : Text → Text → Bool
replaces version pointer = is_empty pointer || version_greater version pointer

unfoldable pub refresh_loop : Map Release → App → App
refresh_loop [] app = app
refresh_loop ((version, release) ∷ releases) app = refresh_loop releases (record app {
  latest_version = if replaces version app.latest_version then version else app.latest_version;
  latest_approved =
      if is_approved release.review_status && replaces version app.latest_approved
      then version
      else app.latest_approved;
})

unfoldable pub refresh_latest_pointers : App → App
refresh_latest_pointers app =
    refresh_loop app.releases (record app { latest_version = []; latest_approved = [] })

abbrev pub published_after : Option ℕ → Option ℕ → Bool
published_after (some a) (some b) = ltb b a
published_after _ _ = false

unfoldable pub more_recent : Release → Option Release → Bool
more_recent release none = true
more_recent release (some latest) = published_after release.published_at latest.published_at

unfoldable pub latest_approved_loop : Option Release → Map Release → Option Release
latest_approved_loop latest [] = latest
latest_approved_loop latest ((_, release) ∷ releases) =
    latest_approved_loop
      (if is_approved release.review_status && more_recent release latest
        then some release
        else latest)
      releases

unfoldable pub latest_approved_release : App → Option Release
latest_approved_release app = latest_approved_loop none app.releases
