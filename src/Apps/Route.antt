-- ===== src/Apps/Route.antt =====
-- The router of the service (services/apps/handlers.go, `route`).
use messages.Base.{ℕ, Bool, ◌&&◌, Option, none, some, [], ◌∷◌, ◌==◌, Text, text_eq, if◌then◌else◌}
use messages.Text.{
  codes, trim_space, has_prefix, has_suffix, contains, trim_prefix, trim_suffix, cut,
}
use messages.Apps.Types.{under_review, needs_changes, rejected, suspended}
use messages.Apps.Manifest.{Platform}
use messages.Apps.Store.{
  method_not_allowed, not_routed, Server, Io, Request, is_post, is_get, is_delete,
}
use messages.Apps.View.{Reply, failed, crashed}
use messages.Apps.Publish.{register, create_app, create_release}
use messages.Apps.Installs.{install_app, uninstall_app, app_updates}
use messages.Apps.Review.{submit_release, revoke_release, admin_approve_release, admin_transition}
use messages.Apps.Catalog.{list_apps, list_installed, get_app, list_releases}
use messages.Apps.Keys.{register_key, list_keys, revoke_key, rotate_key}

-- What a path asks for, with the method where the router looks at it.
pub data Endpoint : Type 0 where
  registers lists installed_list publisher_apps publisher_keys : Endpoint
  installs update_report views : Text → Endpoint
  rotates revokes_key publisher_releases : Text → Endpoint
  submits revokes approves starts_review needs_change rejects suspends : Text → Text → Endpoint
  not_found panics : Endpoint

drop_slashes : Text → Text
drop_slashes [] = []
drop_slashes (c ∷ s) = let rest = drop_slashes s in if c == b'/' then rest else c ∷ s

-- A character before a text that ends in no slash.
abbrev before_end : ℕ → Text → Text
before_end c [] = if c == b'/' then [] else c ∷ []
before_end c (d ∷ t) = c ∷ d ∷ t

drop_end_slashes : Text → Text
drop_end_slashes [] = []
drop_end_slashes (c ∷ s) = before_end c (drop_end_slashes s)

-- strings.Trim(strings.TrimSpace(r.URL.Path), "/")
unfoldable pub path_of : Text → Text
unfolding drop_slashes drop_end_slashes
path_of url_path = drop_end_slashes (drop_slashes (trim_space url_path))

-- parts[1] of a Split: up to the next separator.
abbrev first_part : Text → Option (Text × Text) → Text
first_part rest none = rest
first_part rest (some (a, _)) = a

-- parts := Split(TrimPrefix(path, prefix), "/releases/"), then parts[0] and parts[1] without the
-- suffix. Without a separator there is no parts[1], and indexing it panics.
unfoldable pub release_endpoint : (Text → Text → Endpoint) → Text → Text → Text → Endpoint
release_endpoint make before after path =
    elim (cut (codes "/releases/") (trim_prefix before path)) [
      | none ↦ panics
      | some (app_id, rest) ↦
          make app_id (trim_suffix after (first_part rest (cut (codes "/releases/") rest)))
    ]

abbrev between : Text → Text → Text → Bool
between before after path = has_prefix before path && has_suffix after path

abbrev inner : Text → Text → Text → Text
inner before after path = trim_suffix after (trim_prefix before path)

-- No slash may stand in what is left.
abbrev unless_nested : Text → (Text → Endpoint) → Endpoint
unless_nested id make = if contains (codes "/") id then not_found else make id

abbrev names_release : Text → Text → Text → Bool
names_release before after path =
    has_prefix before path && contains (codes "/releases/") path && has_suffix after path

unfoldable pub admin_endpoint : Text → Endpoint
unfolding release_endpoint
admin_endpoint path =
    let apps = codes "v1/admin/apps/" in
    if names_release apps (codes "/approve") path
    then release_endpoint approves apps (codes "/approve") path
    else if names_release apps (codes "/start-review") path
    then release_endpoint starts_review apps (codes "/start-review") path
    else if names_release apps (codes "/needs-changes") path
    then release_endpoint needs_change apps (codes "/needs-changes") path
    else if names_release apps (codes "/reject") path
    then release_endpoint rejects apps (codes "/reject") path
    else if names_release apps (codes "/suspend") path
    then release_endpoint suspends apps (codes "/suspend") path
    else not_found

unfoldable pub publisher_endpoint : Text → Endpoint
unfolding admin_endpoint
publisher_endpoint path =
    let apps = codes "v1/publisher/apps/" in
    let keys = codes "v1/publisher/keys/" in
    if text_eq path (codes "v1/publisher/apps")
    then publisher_apps
    else if text_eq path (codes "v1/publisher/keys")
    then publisher_keys
    else if between keys (codes "/rotate") path
    then unless_nested (inner keys (codes "/rotate") path) rotates
    else if has_prefix keys path
    then unless_nested (trim_prefix keys path) revokes_key
    else if between apps (codes "/releases") path
    then unless_nested (inner apps (codes "/releases") path) publisher_releases
    else if names_release apps (codes "/submit") path
    then release_endpoint submits apps (codes "/submit") path
    else if names_release apps (codes "/revoke") path
    then release_endpoint revokes apps (codes "/revoke") path
    else admin_endpoint path

-- The cases of the switch, in order.
unfoldable pub endpoint : Text → Endpoint
unfolding publisher_endpoint
endpoint path =
    let apps = codes "v1/apps/" in
    if text_eq path (codes "v1/apps/register")
    then registers
    else if text_eq path (codes "v1/apps")
    then lists
    else if text_eq path (codes "v1/apps/installed")
    then installed_list
    else if between apps (codes "/install") path
    then installs (inner apps (codes "/install") path)
    else if between apps (codes "/updates") path
    then update_report (inner apps (codes "/updates") path)
    else if has_prefix apps path
    then views (trim_prefix apps path)
    else publisher_endpoint path

module _ (p : Platform) where
  unfoldable pub serve : Endpoint → Io → Request → Server → Server × Reply
  serve registers io r s = register p io r s
  serve lists io r s = list_apps io r s
  serve installed_list io r s = list_installed io r s
  serve publisher_apps io r s = create_app io r s
  serve publisher_keys io r s =
      if is_post r.method
      then register_key p io r s
      else if is_get r.method
      then list_keys io r s
      else (s, failed method_not_allowed)
  serve (installs app_id) io r s =
      if is_post r.method
      then install_app io r app_id s
      else if is_delete r.method
      then uninstall_app io r app_id s
      else (s, failed method_not_allowed)
  serve (update_report app_id) io r s = app_updates io r app_id s
  serve (views app_id) io r s = get_app io r app_id s
  serve (rotates key_id) io r s = rotate_key io r key_id s
  serve (revokes_key key_id) io r s = revoke_key io r key_id s
  serve (publisher_releases app_id) io r s =
      if is_post r.method
      then create_release p io r app_id s
      else if is_get r.method
      then list_releases io r app_id s
      else (s, failed method_not_allowed)
  serve (submits app_id version) io r s = submit_release p io r app_id version s
  serve (revokes app_id version) io r s = revoke_release p io r app_id version s
  serve (approves app_id version) io r s = admin_approve_release p io r app_id version s
  serve (starts_review app_id version) io r s =
      admin_transition p under_review io r app_id version s
  serve (needs_change app_id version) io r s =
      admin_transition p needs_changes io r app_id version s
  serve (rejects app_id version) io r s = admin_transition p rejected io r app_id version s
  serve (suspends app_id version) io r s = admin_transition p suspended io r app_id version s
  serve not_found io r s = (s, failed not_routed)
  serve panics io r s = (s, crashed)

  unfoldable pub route : Io → Text → Request → Server → Server × Reply
  unfolding serve
  route io url_path r s = serve (endpoint (path_of url_path)) io r s
