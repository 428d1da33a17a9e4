-- ===== src/Apps/Steps/Handlers.antt =====
-- Each handler of the registry makes a step.
use messages.Text.{trim_space}
use messages.Apps.Types.{revoked, approved, submitted, ReviewStatus}
use messages.Apps.Review.{
  transition_mutation, revoke_release, approve_checked, transition_release, admin_transition,
  admin_approve_release, submit_release,
}
use messages.Apps.Installs.{
  uninstall_mutation, accepts, install_mutation, uninstall_app, install_app,
}
use messages.Base.{
  is_empty, not, Text, [], ◌≢◌, Bool, true, false, ◌≡◌, inl, inr, refl, arith, Option, none,
  if◌then◌else◌,
}
use messages.Json.{Json, Fields}
use messages.Apps.Manifest.{Platform, validate_manifest}
use messages.Apps.Store.{
  is_delete, unauthorized, method_not_allowed, is_post, admin_required, ApiError, Result, ok, err,
  Server, Io, Request, current_user_id, is_admin, mutate_state_cases,
}
use messages.Apps.View.{Reply, failed}
use messages.Apps.Publish.{
  create_app_mutation, create_release_mutation, read_app_request, read_manifest_of, AppRequest,
  create_release, create_app_decoded, create_release_decoded, register, create_app,
  register_mutation, user_or_bootstrap, read_manifest, register_decoded,
}
use messages.Apps.Route.{
  installs, approves, publisher_releases, publisher_apps, Endpoint, registers,
}
use messages.Apps.Steps.{
  install_made, install_dropped, reviewed, app_made, released, registered, Handled, refused,
  changed,
}

module _ (p : Platform) (io : Io) (r : Request) (e : Endpoint) (s : Server) where
  -- The two refusals that most handlers begin with.
  pub refuse_unless :
      (b : Bool) (a : ApiError) (x : Server × Reply)
      → (b ≡ false → Handled p io r e s x)
      → Handled p io r e s (if b then (s, failed a) else x)
  refuse_unless true a x h = refused a refl refl
  refuse_unless false a x h = h refl

  read_manifest_valid :
      (body : Option Json) (manifest : Fields)
      → read_manifest p body ≡ ok manifest
      → validate_manifest manifest ≡ none
  read_manifest_valid body manifest h = ground arith

  register_decoded-Handled :
      e ≡ registers
      → (x : Result Fields) → ((m : Fields) → x ≡ ok m → validate_manifest m ≡ none)
      → Handled p io r e s (register_decoded p io r s x)
  unfolding register_decoded
  register_decoded-Handled he (err a) h = refused a refl refl
  register_decoded-Handled he (ok manifest) h =
      elim (mutate_state_cases io s (
        register_mutation p io.now (user_or_bootstrap (current_user_id r)) (is_admin r) manifest)) [
          | inl (a, failing, same) ↦ rw (failing) (refused a same refl)
          | inr (m, done, saved, made) ↦
              rw done (changed (registered manifest m he (h manifest refl) made saved refl))
        ]

  pub register-Handled : e ≡ registers → Handled p io r e s (register p io r s)
  unfolding register
  register-Handled he = refuse_unless (not (is_post r.method)) method_not_allowed _ λ _.
      register_decoded-Handled he (read_manifest p r.body) (λ m h. read_manifest_valid r.body m h)

  read_manifest_of_valid :
      (app_id : Text) (body : Option Json) (manifest : Fields)
      → read_manifest_of p app_id body ≡ ok manifest
      → validate_manifest manifest ≡ none
  read_manifest_of_valid app_id body manifest h = ground arith

  create_release_decoded-Handled :
      (app_id : Text)
      → e ≡ publisher_releases app_id
      → is_empty (current_user_id r) ≡ false
      → (x : Result Fields) → ((m : Fields) → x ≡ ok m → validate_manifest m ≡ none)
      → Handled p io r e s (create_release_decoded p io r app_id s x)
  unfolding create_release_decoded
  create_release_decoded-Handled app_id he hu (err a) h = refused a refl refl
  create_release_decoded-Handled app_id he hu (ok manifest) h =
      elim (mutate_state_cases io s
        (create_release_mutation p io.now (current_user_id r) (is_admin r) app_id manifest)) [
          | inl (a, failing, same) ↦ rw failing (refused a same refl)
          | inr (m, done, saved, made) ↦
              rw done (changed (released app_id manifest m he hu (h manifest refl) made saved refl))
        ]

  pub create_release-Handled :
      (app_id : Text)
      → e ≡ publisher_releases app_id
      → Handled p io r e s (create_release p io r app_id s)
  unfolding create_release
  create_release-Handled app_id he =
      refuse_unless (not (is_post r.method)) method_not_allowed _ λ _.
        refuse_unless (is_empty (current_user_id r)) unauthorized _ λ hu.
          create_release_decoded-Handled app_id he hu (read_manifest_of p app_id r.body)
            (λ m h. read_manifest_of_valid app_id r.body m h)

  read_app_request_named :
      (body : Option Json) (req : AppRequest)
      → read_app_request body ≡ ok req
      → is_empty (trim_space req.app_id) ≡ false
  read_app_request_named body req h = ground arith

  create_app_decoded-Handled :
      e ≡ publisher_apps
      → is_empty (current_user_id r) ≡ false
      → (x : Result AppRequest)
      → ((q : AppRequest) → x ≡ ok q → is_empty (trim_space q.app_id) ≡ false)
      → Handled p io r e s (create_app_decoded io r s x)
  unfolding create_app_decoded
  create_app_decoded-Handled he hu (err a) h = refused a refl refl
  create_app_decoded-Handled he hu (ok req) h =
      elim (mutate_state_cases io s (create_app_mutation io.now (current_user_id r) req)) [
        | inl (a, failing, same) ↦ rw failing (refused a same refl)
        | inr (m, done, saved, made) ↦
            rw done (changed (app_made req m he hu (h req refl) made saved refl))
      ]

  pub create_app-Handled : e ≡ publisher_apps → Handled p io r e s (create_app io r s)
  unfolding create_app
  create_app-Handled he = refuse_unless (not (is_post r.method)) method_not_allowed _ λ _.
      refuse_unless (is_empty (current_user_id r)) unauthorized _ λ hu.
        create_app_decoded-Handled he hu (read_app_request r.body)
          (λ m h. read_app_request_named r.body m h)

  pub install_app-Handled :
      (app_id : Text) → e ≡ installs app_id → Handled p io r e s (install_app io r app_id s)
  unfolding install_app
  install_app-Handled app_id he = refuse_unless (not (is_post r.method)) method_not_allowed _ λ _.
      refuse_unless (is_empty (current_user_id r)) unauthorized _ λ hu.
        elim (mutate_state_cases io s
          (install_mutation io.now (current_user_id r) app_id (accepts r.body))) [
            | inl (a, failing, same) ↦ rw failing (refused a same refl)
            | inr (m, done, saved, made) ↦
                rw done (changed (install_made app_id m he hu made saved refl))
          ]

  pub uninstall_app-Handled :
      (app_id : Text) → e ≡ installs app_id → Handled p io r e s (uninstall_app io r app_id s)
  unfolding uninstall_app
  uninstall_app-Handled app_id he =
      refuse_unless (not (is_delete r.method)) method_not_allowed _ λ _.
        refuse_unless (is_empty (current_user_id r)) unauthorized _ λ hu.
          elim (mutate_state_cases io s (uninstall_mutation io.now (current_user_id r) app_id)) [
            | inl (a, failing, same) ↦ rw failing (refused a same refl)
            | inr (m, done, saved, made) ↦
                rw done (changed (install_dropped app_id m he hu made saved refl))
          ]

  pub transition_release-Handled :
      (app_id version : Text) (next_status : ReviewStatus) (note : Text) (admin_only : Bool)
      → (admin_only ≡ true → is_admin r ≡ true)
      → (next_status ≡ approved → (e ≡ approves app_id version) × (is_admin r ≡ true))
      → Handled p io r e s (transition_release p io r app_id version next_status note admin_only s)
  unfolding transition_release
  transition_release-Handled app_id version next_status note admin_only ha hp =
      refuse_unless (not (is_post r.method)) method_not_allowed _ λ _.
        refuse_unless (is_empty (current_user_id r)) unauthorized _ λ hu.
          elim (mutate_state_cases io s (
            transition_mutation p io.now (current_user_id r) (is_admin r) app_id version next_status
              note admin_only)) [
                | inl (a, failing, same) ↦ rw failing (refused a same refl)
                | inr (m, done, saved, made) ↦ rw done (
                    changed (
                      reviewed app_id version next_status note admin_only m hu ha hp made saved
                        refl))
              ]

  pub submit_release-Handled :
      (app_id version : Text) → Handled p io r e s (submit_release p io r app_id version s)
  unfolding submit_release
  submit_release-Handled app_id version =
      transition_release-Handled app_id version submitted [] false (λ h. cc) (λ h. cc)

  pub revoke_release-Handled :
      (app_id version : Text) → Handled p io r e s (revoke_release p io r app_id version s)
  unfolding revoke_release
  revoke_release-Handled app_id version =
      transition_release-Handled app_id version revoked [] false (λ h. cc) (λ h. cc)

  pub admin_transition-Handled :
      (next_status : ReviewStatus) (app_id version : Text)
      → next_status ≢ approved
      → Handled p io r e s (admin_transition p next_status io r app_id version s)
  unfolding admin_transition
  admin_transition-Handled next_status app_id version ne =
      refuse_unless (not (is_admin r)) admin_required _ λ ha.
        transition_release-Handled app_id version next_status _ true (λ _. ground arith)
          (λ h. absurd (ne h))

  approve_checked-Handled :
      (app_id version : Text)
      → e ≡ approves app_id version
      → is_admin r ≡ true
      → (x : Result (Unit {0})) → Handled p io r e s (approve_checked p io r app_id version s x)
  unfolding approve_checked
  approve_checked-Handled app_id version he ha (err a) = refused a refl refl
  approve_checked-Handled app_id version he ha (ok u) =
      transition_release-Handled app_id version approved [] true (λ _. ha) (λ _. (he, ha))

  pub admin_approve_release-Handled :
      (app_id version : Text)
      → e ≡ approves app_id version
      → Handled p io r e s (admin_approve_release p io r app_id version s)
  unfolding admin_approve_release
  admin_approve_release-Handled app_id version he =
      refuse_unless (not (is_admin r)) admin_required _
        λ ha. approve_checked-Handled app_id version he (ground arith) _
