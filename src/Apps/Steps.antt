-- ===== src/Apps/Steps.antt =====
-- The requests of services/apps as steps: what a handler may do to the server, and the reply that
-- goes with it. Every proof about all handlers goes by the cases of these relations.
pub mod Handlers
pub mod Serve
pub mod Answers
pub mod Inversion
pub mod Errors
pub mod OneApp
pub mod Ownership
pub mod OneInstall
pub mod Consent
pub mod Revocation
pub mod Signed
use messages.Base.{
  ℕ, Bool, true, false, ◌≡◌, Option, none, some, List, Text, is_empty, text_eq, not,
}
use messages.Json.{Fields, string_field}
use messages.Text.{codes, trim_space}
use messages.Apps.Types.{ReviewStatus, approved, State}
use messages.Apps.Manifest.{Platform, validate_manifest}
use messages.Apps.Store.{
  ApiError, PublisherKey, ok, AuditEntry, Server, Io, Request, Mutation, after_save,
  current_user_id, is_admin, loaded,
}
use messages.Apps.View.{Reply, failed, crashed}
use messages.Apps.Publish.{
  AppRequest, register_mutation, user_or_bootstrap, view_registered, create_release_mutation,
  view_created, create_app_mutation, view_app,
}
use messages.Apps.Installs.{
  install_mutation, uninstall_mutation, view_installed, view_uninstalled, accepts,
}
use messages.Apps.Keys.{insert_key, new_key, revoke_rows, rotate_rows}
use messages.Apps.Review.{transition_mutation, view_release}
use messages.Apps.Route.{
  Endpoint, registers, publisher_apps, publisher_releases, installs, approves, panics,
}

module _ (p : Platform) (io : Io) (r : Request) where
  -- One successful mutation of the loaded state `st`, with the endpoint that asked for it.
  pub data Change (e : Endpoint) (st : State) (x : Server × Reply) (s : Server) : Type 0 where
    registered :
        (manifest : Fields) (m : Mutation ℕ)
        → e ≡ registers
        → validate_manifest manifest ≡ none
        → register_mutation p io.now
            (user_or_bootstrap (current_user_id r))
            (is_admin r)
            manifest
            st
          ≡ ok m
        → x.0 ≡ after_save s m
        → x.1 ≡ view_registered p (current_user_id r) manifest (ok m)
        → Change e st x s
    released :
        (app_id : Text) (manifest : Fields) (m : Mutation (Unit {0}))
        → e ≡ publisher_releases app_id
        → is_empty (current_user_id r) ≡ false
        → validate_manifest manifest ≡ none
        → create_release_mutation p io.now (current_user_id r) (is_admin r) app_id manifest st
          ≡ ok m
        → x.0 ≡ after_save s m
        → x.1 ≡ view_created p app_id (string_field manifest (codes "version")) (ok m)
        → Change e st x s
    app_made :
        (req : AppRequest) (m : Mutation (Unit {0}))
        → e ≡ publisher_apps
        → is_empty (current_user_id r) ≡ false
        → is_empty (trim_space req.app_id) ≡ false
        → create_app_mutation io.now (current_user_id r) req st ≡ ok m
        → x.0 ≡ after_save s m
        → x.1 ≡ view_app (trim_space req.app_id) (ok m)
        → Change e st x s
    install_made :
        (app_id : Text) (m : Mutation Bool)
        → e ≡ installs app_id
        → is_empty (current_user_id r) ≡ false
        → install_mutation io.now (current_user_id r) app_id (accepts r.body) st ≡ ok m
        → x.0 ≡ after_save s m
        → x.1 ≡ view_installed (current_user_id r) app_id (ok m)
        → Change e st x s
    install_dropped :
        (app_id : Text) (m : Mutation (Unit {0}))
        → e ≡ installs app_id
        → is_empty (current_user_id r) ≡ false
        → uninstall_mutation io.now (current_user_id r) app_id st ≡ ok m
        → x.0 ≡ after_save s m
        → x.1 ≡ view_uninstalled (ok m)
        → Change e st x s
    reviewed :
        (app_id version : Text) (next_status : ReviewStatus) (note : Text) (admin_only : Bool)
        (m : Mutation (Unit {0}))
        → is_empty (current_user_id r) ≡ false
        → (admin_only ≡ true → is_admin r ≡ true)
        → (next_status ≡ approved → (e ≡ approves app_id version) × (is_admin r ≡ true))
        → transition_mutation p io.now
            (current_user_id r)
            (is_admin r)
            app_id
            version
            next_status
            note
            admin_only
            st
          ≡ ok m
        → x.0 ≡ after_save s m
        → x.1 ≡ view_release p (current_user_id r) app_id version (ok m)
        → Change e st x s

  abbrev pub IsAnswer : Reply → Type 0
  IsAnswer (failed e) = ⊥
  IsAnswer crashed = ⊥
  IsAnswer _ = Unit

  -- One statement on the table of the keys, for rows of the user who asks.
  pub data KeyStep (keys keys' : List PublisherKey) : Type 0 where
    key_inserted :
        (k : Text × Text × Text)
        → keys' ≡ insert_key (new_key p io.now (current_user_id r) k) keys
        → KeyStep keys keys'
    rows_revoked :
        (key_id : Text)
        → keys' ≡ revoke_rows io.now (current_user_id r) key_id keys
        → KeyStep keys keys'
    rows_rotated :
        (old_id new_id : Text)
        → keys' ≡ rotate_rows io.now (current_user_id r) old_id new_id keys
        → KeyStep keys keys'

  pub data Handled (e : Endpoint) (s : Server) (x : Server × Reply) : Type 0 where
    refused : (a : ApiError) → x.0 ≡ s → x.1 ≡ failed a → Handled e s x
    shown : x.0 ≡ s → IsAnswer x.1 → Handled e s x
    keyed :
        x.0.saved ≡ s.saved
        → x.0.audit ≡ s.audit
        → KeyStep s.keys x.0.keys
        → IsAnswer x.1
        → Handled e s x
    changed : Change e (loaded s) x s → Handled e s x
    panicked : e ≡ panics → x.0 ≡ s → x.1 ≡ crashed → Handled e s x
