-- ===== src/Apps/Steps/Errors.antt =====
-- A request that is answered with an error has changed nothing: what its closure did to the state
-- in memory is not saved, and nothing is logged.
use messages.Apps.Review.{view_release}
use messages.Apps.Installs.{view_installed}
use messages.Apps.Publish.{view_registered, view_created, view_app}
use messages.Apps.Steps.Serve.{serve-Handled}
use messages.Apps.Types.{State}
use messages.Apps.View.{failed, Reply}
use messages.Apps.Manifest.{Platform}
use messages.Json.{Fields}
use messages.Apps.Route.{serve, Endpoint}
use messages.Apps.Steps.{
  shown, reviewed, released, registered, refused, panicked, keyed, install_made, install_dropped,
  changed, app_made, IsAnswer, Handled, Change,
}
use messages.Base.{◌≢◌, ◌≡◌, ◌∙◌, ℕ, sym, subst, arith, Text, Bool}
use messages.Apps.Store.{ok, loaded, Server, Request, Mutation, Io, ApiError}

module _ (p : Platform) (io : Io) (r : Request) (e : Endpoint) (s : Server) (a : ApiError) where
  not_answer : (reply : Reply) → IsAnswer p io r reply → reply ≡ failed a → ⊥
  not_answer reply h k = subst (IsAnswer p io r) k h

  registered_view :
      (viewer : Text) (manifest : Fields) (m : Mutation ℕ)
      → view_registered p viewer manifest (ok m) ≢ failed a
  registered_view viewer manifest m h = ground arith

  created_view :
      (app_id version : Text) (m : Mutation (Unit {0}))
      → view_created p app_id version (ok m) ≢ failed a
  created_view app_id version m h = ground arith

  app_view : (app_id : Text) (m : Mutation (Unit {0})) → view_app app_id (ok m) ≢ failed a
  app_view app_id m h = ground arith

  installed_view :
      (user_id app_id : Text) (m : Mutation Bool) → view_installed user_id app_id (ok m) ≢ failed a
  installed_view user_id app_id m h = ground arith

  release_view :
      (user_id app_id version : Text) (m : Mutation (Unit {0}))
      → view_release p user_id app_id version (ok m) ≢ failed a
  release_view user_id app_id version m h = ground arith

  changed_answers : (st : State) (x : Server × Reply) → Change p io r e st x s → x.1 ≡ failed a → ⊥
  changed_answers st x (registered manifest m _ _ _ _ h) k = registered_view _ _ m (sym h ∙ k)
  changed_answers st x (released app_id manifest m _ _ _ _ _ h) k = created_view _ _ m (sym h ∙ k)
  changed_answers st x (app_made req m _ _ _ _ _ h) k = app_view _ m (sym h ∙ k)
  changed_answers st x (install_made app_id m _ _ _ _ h) k = installed_view _ _ m (sym h ∙ k)
  changed_answers st x (install_dropped app_id m _ _ _ _ h) k = cc
  changed_answers st x (reviewed app_id version status note only m _ _ _ _ _ h) k =
      release_view _ _ _ m (sym h ∙ k)

  Handled-error : (x : Server × Reply) → Handled p io r e s x → x.1 ≡ failed a → x.0 ≡ s
  Handled-error x (refused b same _) h = same
  Handled-error x (shown same _) h = same
  Handled-error x (keyed _ _ _ answer) h = absurd (not_answer x.1 answer h)
  Handled-error x (changed c) h = absurd (changed_answers (loaded s) x c h)
  Handled-error x (panicked _ same _) h = same

-- A request that is answered with an error leaves the whole server as it was: the state, the audit
-- log, the keys and the log of the key operations.
pub serve-error_changes_nothing :
    (p : Platform) (io : Io) (r : Request) (e : Endpoint) (s : Server) (a : ApiError)
    → (serve p e io r s).1 ≡ failed a
    → (serve p e io r s).0 ≡ s
serve-error_changes_nothing p io r e s a h =
    Handled-error p io r e s a (serve p e io r s) (serve-Handled p io r e s) h
