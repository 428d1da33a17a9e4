-- ===== src/Apps/Steps/Serve.antt =====
-- Every request makes a step.
use messages.Apps.Types.{under_review, suspended, rejected, needs_changes}
use messages.Apps.Steps.Handlers.{
  uninstall_app-Handled, submit_release-Handled, revoke_release-Handled, install_app-Handled,
  create_release-Handled, admin_transition-Handled, admin_approve_release-Handled,
  create_app-Handled, refuse_unless, register-Handled,
}
use messages.Apps.View.{failed, Reply}
use messages.Apps.Installs.{app_updates}
use messages.Apps.Steps.{
  rows_rotated, rows_revoked, key_inserted, shown, refused, panicked, keyed, Handled,
}
use messages.Apps.Catalog.{
  latest_visible_release, developer_mode_enabled, list_releases, get_app, list_apps, list_installed,
}
use messages.Apps.Keys.{
  rotation_check, read_key_request, has_live_row, register_key, list_keys, revoke_key, store_key,
  rotate_checked, rotate_key,
}
use messages.Base.{
  true, if◌then◌else◌, some, refl, none, lookup, is_empty, if◌then◌else◌, false, if◌then◌else◌, not,
  Text, Option, Bool,
}
use messages.Apps.Store.{
  unauthorized, publisher_not_owner, ok, not_routed, not_available, key_not_found, is_post, is_get,
  is_delete, is_admin, err, db_error, app_not_found, current_user_id, method_not_allowed, Result,
  load_state, ApiError, Server, Request, Io,
}
use messages.Apps.Manifest.{Platform}
use messages.Apps.Route.{
  views, suspends, submits, starts_review, rotates, revokes_key, revokes, rejects, registers,
  installs, installed_list, approves, Endpoint, serve, publisher_releases, publisher_keys,
  publisher_apps, panics, not_found, needs_change, lists, installs, installed_list, approves,
  Endpoint, views, suspends, submits, starts_review, rotates, revokes_key, revokes, rejects,
  registers, installs, installed_list, approves, Endpoint, serve, publisher_releases,
  publisher_keys, publisher_apps, panics, not_found, needs_change, lists, installs, installed_list,
  approves, Endpoint, views, suspends, submits, starts_review, rotates, revokes_key, revokes,
  rejects, registers, publisher_releases, publisher_keys, publisher_apps, panics, not_found,
  needs_change, lists, installs, installed_list, approves, Endpoint, serve, update_report,
}

module _ (p : Platform) (io : Io) (r : Request) (e : Endpoint) (s : Server) where
  if-Handled :
      (b : Bool) (x y : Server × Reply)
      → Handled p io r e s x
      → Handled p io r e s y
      → Handled p io r e s (if b then x else y)
  if-Handled true x y h k = h
  if-Handled false x y h k = k

  done_or_refused :
      {A : Type 0} (x : Result A) (f : A → Server × Reply)
      → ((a : A) → Handled p io r e s (f a))
      → Handled p io r e s (elim x [ err a ↦ (s, failed a) | ok a ↦ f a ])
  done_or_refused (err a) f h = refused a refl refl
  done_or_refused (ok a) f h = h a

  found_or_refused :
      {A : Type 0} (o : Option A) (f : A → Server × Reply) (a : ApiError)
      → ((x : A) → Handled p io r e s (f x))
      → Handled p io r e s (elim o [ none ↦ (s, failed a) | some x ↦ f x ])
  found_or_refused none f a h = refused a refl refl
  found_or_refused (some x) f a h = h x

  list_apps-Handled : Handled p io r e s (list_apps io r s)
  unfolding list_apps
  list_apps-Handled =
      refuse_unless p io r e s (not (is_get r.method)) method_not_allowed _
        λ _. done_or_refused (load_state io s) _ λ state. shown refl tt

  list_installed-Handled : Handled p io r e s (list_installed io r s)
  unfolding list_installed
  list_installed-Handled =
      refuse_unless p io r e s (not (is_get r.method)) method_not_allowed _ λ _.
        refuse_unless p io r e s (is_empty (current_user_id r)) unauthorized _
          λ _. done_or_refused (load_state io s) _ λ state. shown refl tt

  get_app-Handled : (app_id : Text) → Handled p io r e s (get_app io r app_id s)
  unfolding get_app
  get_app-Handled app_id = done_or_refused (load_state io s) _ λ state.
      found_or_refused (lookup app_id state.apps) _ app_not_found λ app.
        found_or_refused
          (latest_visible_release app (current_user_id r) (is_admin r) (developer_mode_enabled r)) _
          app_not_found λ release. shown refl tt

  app_updates-Handled : (app_id : Text) → Handled p io r e s (app_updates io r app_id s)
  unfolding app_updates
  app_updates-Handled app_id =
      refuse_unless p io r e s (not (is_get r.method)) method_not_allowed _ λ _.
        refuse_unless p io r e s (is_empty (current_user_id r)) unauthorized _ λ _.
          done_or_refused (load_state io s) _ λ state.
            found_or_refused (lookup app_id state.apps) _ app_not_found λ app. shown refl tt

  list_releases-Handled : (app_id : Text) → Handled p io r e s (list_releases io r app_id s)
  unfolding list_releases
  list_releases-Handled app_id =
      refuse_unless p io r e s (not (is_get r.method)) method_not_allowed _ λ _.
        refuse_unless p io r e s (is_empty (current_user_id r)) unauthorized _ λ _.
          done_or_refused (load_state io s) _ λ state.
            found_or_refused (lookup app_id state.apps) _ app_not_found
              λ app. refuse_unless p io r e s _ publisher_not_owner _ λ _. shown refl tt

  store_key-Handled :
      (x : Result (Text × Text × Text))
      → Handled p io r e s
          (elim x [ err a ↦ (s, failed a) | ok k ↦ store_key p io (current_user_id r) k s ])
  unfolding store_key
  store_key-Handled (err a) = refused a refl refl
  store_key-Handled (ok k) = if-Handled (not s.pooled) _ _ (shown refl tt) (
      refuse_unless p io r e s (not io.db_ok) db_error _
        λ _. keyed refl refl (key_inserted k refl) tt)

  register_key-Handled : Handled p io r e s (register_key p io r s)
  unfolding register_key
  register_key-Handled = refuse_unless p io r e s (not (is_post r.method)) method_not_allowed _ λ _.
      refuse_unless p io r e s (is_empty (current_user_id r)) unauthorized _
        λ _. store_key-Handled (read_key_request p r.body)

  list_keys-Handled : Handled p io r e s (list_keys io r s)
  unfolding list_keys
  list_keys-Handled = refuse_unless p io r e s (not (is_get r.method)) method_not_allowed _ λ _.
      refuse_unless p io r e s (is_empty (current_user_id r)) unauthorized _ λ _.
        refuse_unless p io r e s (not s.pooled) not_available _
          λ _. refuse_unless p io r e s (not io.db_ok) db_error _ λ _. shown refl tt

  revoke_key-Handled : (key_id : Text) → Handled p io r e s (revoke_key io r key_id s)
  unfolding revoke_key
  revoke_key-Handled key_id =
      refuse_unless p io r e s (not (is_delete r.method)) method_not_allowed _ λ _.
        refuse_unless p io r e s (is_empty (current_user_id r)) unauthorized _ λ _.
          refuse_unless p io r e s (not s.pooled) not_available _ λ _.
            refuse_unless p io r e s (not io.db_ok) db_error _ λ _.
              refuse_unless p io r e s (not (has_live_row (current_user_id r) key_id s.keys))
                key_not_found _ λ _. keyed refl refl (rows_revoked key_id refl) tt

  rotated-Handled :
      (old_id : Text) (x : Result Text)
      → Handled p io r e s (rotate_checked io (current_user_id r) old_id s x)
  unfolding rotate_checked
  rotated-Handled old_id (err a) = refused a refl refl
  rotated-Handled old_id (ok new_id) = keyed refl refl (rows_rotated old_id new_id refl) tt

  rotate_key-Handled : (old_id : Text) → Handled p io r e s (rotate_key io r old_id s)
  unfolding rotate_key
  rotate_key-Handled old_id =
      refuse_unless p io r e s (not (is_post r.method)) method_not_allowed _ λ _.
        refuse_unless p io r e s (is_empty (current_user_id r)) unauthorized _
          λ _. rotated-Handled old_id (rotation_check io (current_user_id r) old_id r.body s)

  not_allowed : Handled p io r e s (s, failed method_not_allowed)
  not_allowed = refused method_not_allowed refl refl

-- Every request makes one of the steps: a refusal or an answer that changes nothing, a change of
-- the keys alone, or one saved mutation.
pub serve-Handled :
    (p : Platform) (io : Io) (r : Request) (e : Endpoint) (s : Server)
    → Handled p io r e s (serve p e io r s)
unfolding serve
serve-Handled p io r registers s = register-Handled p io r registers s refl
serve-Handled p io r lists s = list_apps-Handled p io r lists s
serve-Handled p io r installed_list s = list_installed-Handled p io r installed_list s
serve-Handled p io r publisher_apps s = create_app-Handled p io r publisher_apps s refl
serve-Handled p io r publisher_keys s =
    if-Handled p io r publisher_keys s (is_post r.method) _ _
      (register_key-Handled p io r publisher_keys s)
      (if-Handled p io r publisher_keys s (is_get r.method) _ _
        (list_keys-Handled p io r publisher_keys s) (not_allowed p io r publisher_keys s))
serve-Handled p io r (installs a) s =
    if-Handled p io r (installs a) s (is_post r.method) _ _
      (install_app-Handled p io r (installs a) s a refl)
      (if-Handled p io r (installs a) s (is_delete r.method) _ _
        (uninstall_app-Handled p io r (installs a) s a refl) (not_allowed p io r (installs a) s))
serve-Handled p io r (update_report a) s = app_updates-Handled p io r (update_report a) s a
serve-Handled p io r (views a) s = get_app-Handled p io r (views a) s a
serve-Handled p io r (rotates k) s = rotate_key-Handled p io r (rotates k) s k
serve-Handled p io r (revokes_key k) s = revoke_key-Handled p io r (revokes_key k) s k
serve-Handled p io r (publisher_releases a) s =
    if-Handled p io r (publisher_releases a) s (is_post r.method) _ _
      (create_release-Handled p io r (publisher_releases a) s a refl)
      (if-Handled p io r (publisher_releases a) s (is_get r.method) _ _
        (list_releases-Handled p io r (publisher_releases a) s a)
        (not_allowed p io r (publisher_releases a) s))
serve-Handled p io r (submits a v) s = submit_release-Handled p io r (submits a v) s a v
serve-Handled p io r (revokes a v) s = revoke_release-Handled p io r (revokes a v) s a v
serve-Handled p io r (approves a v) s =
    admin_approve_release-Handled p io r (approves a v) s a v refl
serve-Handled p io r (starts_review a v) s =
    admin_transition-Handled p io r (starts_review a v) s under_review a v (λ h. cc)
serve-Handled p io r (needs_change a v) s =
    admin_transition-Handled p io r (needs_change a v) s needs_changes a v (λ h. cc)
serve-Handled p io r (rejects a v) s =
    admin_transition-Handled p io r (rejects a v) s rejected a v (λ h. cc)
serve-Handled p io r (suspends a v) s =
    admin_transition-Handled p io r (suspends a v) s suspended a v (λ h. cc)
serve-Handled p io r not_found s = refused not_routed refl refl
serve-Handled p io r panics s = panicked refl refl refl
