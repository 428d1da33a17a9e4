-- ===== src/Apps/Installs.antt =====
-- Installs: installAppHandler, uninstallAppHandler and appUpdatesHandler of
-- services/apps/handlers.go, with userInstalls of services/apps/registry.go.
pub mod Undone
use messages.Base.{
  ℕ, Bool, true, false, not, ◌&&◌, Option, none, some, List, [], ◌∷◌, ◌==◌, Text, Map, lookup,
  insert, delete, is_empty, is_some, text_eq, if◌then◌else◌,
}
use messages.Json.{Json, object, get_field}
use messages.Text.{codes}
use messages.Apps.Types.{Release, App, Install, State}
use messages.Apps.Permissions.{permission_delta}
use messages.Apps.Pointers.{latest_approved_release}
use messages.Apps.Store.{
  unauthorized, method_not_allowed, app_not_found, install_not_found, not_installable, Result, ok,
  err, ◌>>=◌, ◌>>◌, ensure, or_fail, install_updated, install_removed, Server, Io, Request, is_post,
  is_get, is_delete, current_user_id, load_state, Mutation, mutate_state,
}
use messages.Apps.View.{
  Reply, failed, viewed, updates, no_content, crashed, app_response, installs_of, user_install,
  is_list,
}

-- The write `installs[appID] = x` to the map that userInstalls returns, which is the state's own.
-- An empty map that a user gets and no map are the same to every reader.
unfoldable pub put_installs : Text → Map Install → State → State
put_installs user_id installs state = record state {
  installs = insert user_id installs state.installs;
}

-- The permissions that moving to the release would add to those of the installed one; none where
-- nothing is installed, or the release already is.
unfoldable pub new_permissions : App → Release → Option Install → List Text
new_permissions app release none = []
new_permissions app release (some existing) =
    if text_eq existing.installed_version release.version
    then []
    else (permission_delta (lookup existing.installed_version app.releases) (some release)).0

abbrev pub kept_installed_at : ℕ → Option Install → ℕ
kept_installed_at now none = now
kept_installed_at now (some existing) =
    if existing.installed_at == 0 then now else existing.installed_at

unfoldable pub install_of : ℕ → Text → Release → Option Install → Install
install_of now app_id release existing = record {
  app_id = app_id;
  installed_version = release.version;
  auto_update = true;
  enabled = true;
  installed_at = kept_installed_at now existing;
  updated_at = now;
}

-- The closure of installAppHandler behind the two lookups. What it returns beside is whether
-- consent is required.
unfoldable pub install_release : ℕ → Text → Text → Bool → App → Release → State → Mutation Bool
unfolding new_permissions install_of put_installs
install_release now user_id app_id accept app release state =
    let installs = installs_of state user_id in
    let existing = lookup app_id installs in
    if is_list (new_permissions app release existing) && not accept
    then record { state = put_installs user_id installs state; entries = []; extra = true }
    else record {
      state =
          put_installs user_id (insert app_id (install_of now app_id release existing) installs)
            state;
      entries =
          (record {
            app_id = app_id;
            version = release.version;
            actor_user_id = user_id;
            action = install_updated;
            note = [];
            created_at = now;
          })
          ∷ [];
      extra = false;
    }

unfoldable pub install_mutation : ℕ → Text → Text → Bool → State → Result (Mutation Bool)
install_mutation now user_id app_id accept state = do
  app ← or_fail (lookup app_id state.apps) app_not_found
  release ← or_fail (latest_approved_release app) not_installable
  ok (install_release now user_id app_id accept app release state)

abbrev pub view_installed : Text → Text → Result (Mutation Bool) → Reply
view_installed user_id app_id (err e) = failed e
view_installed user_id app_id (ok m) = elim (lookup app_id m.state.apps) [
  | none ↦ crashed
  | some app ↦ elim (latest_approved_release app) [
    | none ↦ crashed
    | some release ↦
        viewed 200 (record (app_response app release (user_install m.state user_id app_id)) {
          install_note = m.extra;
        })
  ]
]

-- req.AcceptPermissionChanges; a body that does not decode leaves it false.
abbrev pub accepts : Option Json → Bool
accepts (some (object m)) = elim (get_field (codes "accept_permission_changes") m) [
  | none ↦ false
  | some v ↦ elim v [ Json.boolean b ↦ b | _ ↦ false ]
]
accepts _ = false

unfoldable pub install_app : Io → Request → Text → Server → Server × Reply
install_app io r app_id s =
    if not (is_post r.method)
    then (s, failed method_not_allowed)
    else if is_empty (current_user_id r)
    then (s, failed unauthorized)
    else let result =
        mutate_state io s (install_mutation io.now (current_user_id r) app_id (accepts r.body)) in
      (result.0, view_installed (current_user_id r) app_id result.1)

unfoldable pub uninstall_mutation : ℕ → Text → Text → State → Result (Mutation (Unit {0}))
unfolding put_installs
uninstall_mutation now user_id app_id state = do
  let installs = installs_of state user_id
  ensure (is_some (lookup app_id installs)) install_not_found
  ok (record {
    state = put_installs user_id (delete app_id installs) state;
    entries =
        (record {
          app_id = app_id;
          version = [];
          actor_user_id = user_id;
          action = install_removed;
          note = [];
          created_at = now;
        })
        ∷ [];
    extra = tt;
  })

abbrev pub view_uninstalled : Result (Mutation (Unit {0})) → Reply
view_uninstalled (err e) = failed e
view_uninstalled (ok m) = no_content

unfoldable pub uninstall_app : Io → Request → Text → Server → Server × Reply
uninstall_app io r app_id s =
    if not (is_delete r.method)
    then (s, failed method_not_allowed)
    else if is_empty (current_user_id r)
    then (s, failed unauthorized)
    else let result = mutate_state io s (uninstall_mutation io.now (current_user_id r) app_id) in
      (result.0, view_uninstalled result.1)

abbrev installed_version_of : Option Install → Text
installed_version_of none = []
installed_version_of (some install) = install.installed_version

abbrev version_of : Option Release → Text
version_of none = []
version_of (some release) = release.version

unfoldable pub update_report : Text → App → Option Install → Reply
update_report app_id app install =
    let latest = latest_approved_release app in
    let installed = installed_version_of install in
    let delta =
      if is_empty installed
      then ([], [])
      else permission_delta (lookup installed app.releases) latest in
    updates (record {
      app_id = app_id;
      installed_version = installed;
      latest_version = version_of latest;
      update_available =
          is_some latest && is_some install && not (text_eq installed (version_of latest));
      update_requires_consent = is_list delta.0;
      added = delta.0;
      removed = delta.1;
    })

unfoldable pub app_updates : Io → Request → Text → Server → Server × Reply
unfolding update_report
app_updates io r app_id s =
    if not (is_get r.method)
    then (s, failed method_not_allowed)
    else if is_empty (current_user_id r)
    then (s, failed unauthorized)
    else elim (load_state io s) [
      | err e ↦ (s, failed e)
      | ok state ↦ elim (lookup app_id state.apps) [
        | none ↦ (s, failed app_not_found)
        | some app ↦ (s, update_report app_id app (user_install state (current_user_id r) app_id))
      ]
    ]
