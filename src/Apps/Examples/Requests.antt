-- ===== src/Apps/Examples/Requests.antt =====
-- The theorems about whole requests, each at a concrete one.
use messages.Apps.Steps.Signed.{serve-approval_IsTrusted, IsTrusted}
use messages.Apps.Signature.{verify_manifest_signature_with_key}
use messages.Apps.Manifest.{trimmed_strings}
use messages.Apps.Installs.{
  put_installs, new_permissions, install_release, install_of, install_mutation, install_app,
}
use messages.Apps.Steps.OneInstall.{serve-others_keep_installs}
use messages.Apps.Steps.Errors.{serve-error_changes_nothing}
use messages.Apps.Steps.Answers.{serve-crashes_only_by_path}
use messages.Apps.Steps.Consent.{serve-asks_consent}
use messages.Apps.WellFormed.Preserved.{serve-IsWellFormed}
use messages.Apps.Steps.Serve.{serve-Handled}
use messages.Apps.Permissions.Sort.{sort, insert_sorted, compact, mem}
use messages.Apps.Permissions.{
  permission_delta, missing_from, added_permissions, manifest_permissions,
}
use messages.Apps.Pointers.{
  replaces, refresh_loop, refresh_latest_pointers, more_recent, latest_approved_release,
  latest_approved_loop,
}
use messages.Apps.View.{is_list, installs_of}
use messages.Base.{◌⊎◌, ◌≡◌, ◌||◌, true, text_eq, some, refl, not, lookup, insert}
use messages.Json.{get_field}
use messages.Text.{
  trim_prefix, has_suffix, has_prefix, cut, contains, trim_space, trim_right, trim_left, to_lower,
  is_space, codes,
}
use messages.Apps.Route.{submits, serve, panics, installs, endpoint, approves}
use messages.Apps.Examples.{
  third, sample_server, sample_platform, sample_io, sample_install, sample_app, release_of, first,
  chess, bob_asks, approval, app_of, after_approval, admin_asks,
}
use messages.Apps.Review.{
  verify_release_signature, transition_release, transition_mutation, put_release, mark_expansion,
  is_immutable, finish_transition, approve_release, approve_checked, approval_check,
  apply_transition, admin_approve_release,
}
use messages.Apps.Steps.Ownership.{
  serve-strangers_change_no_release, serve-keeps_owner, serve-approval_needs_admin, WasApproved,
}
use messages.Apps.WellFormed.{IsWellFormed}
use messages.Apps.Steps.{Handled}
use messages.Apps.Types.{Release, App}
use messages.Apps.Store.{
  refresh_apps, mutate_state, load_state, is_admin, current_user_id, admin_required, save_mutation,
  refresh_apps, mutate_state, load_state, is_admin, current_user_id, admin_required,
}

serve-approval_needs_admin_example :
    WasApproved (lookup chess sample_server.saved.apps) (codes "2.0.0")
    ⊎ ((approval ≡ approves chess (codes "2.0.0")) × (is_admin admin_asks ≡ true))
unfolding serve admin_approve_release approval_check load_state approve_checked transition_release
    transition_mutation mutate_state lookup insert text_eq is_admin current_user_id trim_space
    trim_left trim_right is_space to_lower refresh_apps refresh_latest_pointers refresh_loop
    get_field verify_release_signature apply_transition is_immutable approve_release put_release
    mark_expansion finish_transition save_mutation latest_approved_release latest_approved_loop
    more_recent verify_manifest_signature_with_key
serve-approval_needs_admin_example =
    serve-approval_needs_admin sample_platform sample_io admin_asks approval sample_server chess
      (codes "2.0.0") (app_of after_approval) (release_of (codes "2.0.0") (app_of after_approval))
      refl refl refl refl

serve-approval_IsTrusted_example :
    WasApproved (lookup chess sample_server.saved.apps) (codes "2.0.0")
    ⊎ ((approval ≡ approves chess (codes "2.0.0"))
        × (is_admin admin_asks ≡ true)
        × IsTrusted sample_platform sample_server.keys third.publisher_user_id third.manifest)
unfolding serve admin_approve_release approval_check load_state approve_checked transition_release
    transition_mutation mutate_state lookup insert text_eq is_admin current_user_id trim_space
    trim_left trim_right is_space to_lower refresh_apps refresh_latest_pointers refresh_loop
    get_field verify_release_signature apply_transition is_immutable approve_release put_release
    mark_expansion finish_transition save_mutation latest_approved_release latest_approved_loop
    more_recent verify_manifest_signature_with_key
serve-approval_IsTrusted_example =
    serve-approval_IsTrusted sample_platform sample_io admin_asks approval sample_server chess
      (codes "2.0.0") (refresh_latest_pointers sample_app) (app_of after_approval) third
      (release_of (codes "2.0.0") (app_of after_approval)) refl refl refl refl refl refl refl refl

serve-keeps_owner_example :
    (app' : App) × (lookup chess after_approval.saved.apps ≡ some app')
    × (app'.owner_user_id ≡ codes "ann")
unfolding lookup text_eq
serve-keeps_owner_example =
    serve-keeps_owner sample_platform sample_io admin_asks approval sample_server chess sample_app
      refl

serve-strangers_change_no_release_example :
    (app' : App) × (lookup chess
        (serve sample_platform
          (submits chess (codes "2.0.0"))
          sample_io
          bob_asks
          sample_server).0.saved.apps
      ≡ some app')
    × (app'.releases ≡ sample_app.releases)
unfolding lookup text_eq is_admin current_user_id trim_space trim_left trim_right is_space to_lower
serve-strangers_change_no_release_example =
    serve-strangers_change_no_release sample_platform sample_io bob_asks
      (submits chess (codes "2.0.0")) sample_server chess sample_app refl refl

sample-IsWellFormed : IsWellFormed sample_platform sample_server.saved
unfolding is_immutable
sample-IsWellFormed = record {
  apps = (
    record {
      keyed = refl;
      named = refl;
      releases = (
        record { keyed = refl; named = refl; dated = λ _. refl; intact = refl },
        (
          record { keyed = refl; named = refl; dated = λ _. refl; intact = refl },
          (record { keyed = refl; named = refl; dated = λ h. cc; intact = refl }, tt),
        ),
      );
    },
    tt,
  );
}

serve-IsWellFormed_example : IsWellFormed sample_platform after_approval.saved
serve-IsWellFormed_example =
    serve-IsWellFormed sample_platform sample_io admin_asks approval sample_server
      sample-IsWellFormed

serve-asks_consent_example :
    (codes "1.0.0" ≡ codes "1.0.0")
    ⊎ ((release : Release) × (latest_approved_release (refresh_latest_pointers sample_app)
          ≡ some release)
        × (codes "1.0.0" ≡ release.version)
        × ((not (mem (codes "camera") (manifest_permissions release.manifest))
              || mem (codes "camera") (manifest_permissions first.manifest))
            ≡ true))
unfolding lookup insert text_eq installs_of serve install_app current_user_id trim_space trim_left
    trim_right mutate_state save_mutation install_mutation refresh_apps latest_approved_release
    latest_approved_loop refresh_latest_pointers refresh_loop replaces more_recent install_release
    new_permissions put_installs install_of is_list permission_delta added_permissions
    manifest_permissions missing_from mem sort compact insert_sorted trimmed_strings get_field
serve-asks_consent_example =
    serve-asks_consent sample_platform sample_io bob_asks (installs chess) sample_server
      (codes "bob") chess sample_install sample_install (refresh_latest_pointers sample_app) first
      (codes "camera") refl refl refl refl refl

serve-others_keep_installs_example :
    installs_of
      (serve sample_platform (installs chess) sample_io admin_asks sample_server).0.saved
      (codes "bob")
    ≡ installs_of sample_server.saved (codes "bob")
unfolding text_eq current_user_id trim_space trim_left trim_right is_space
serve-others_keep_installs_example =
    serve-others_keep_installs sample_platform sample_io admin_asks (installs chess) sample_server
      (codes "bob") refl

serve-error_changes_nothing_example :
    (serve sample_platform approval sample_io bob_asks sample_server).0 ≡ sample_server
unfolding serve admin_approve_release is_admin text_eq to_lower trim_space
serve-error_changes_nothing_example =
    serve-error_changes_nothing sample_platform sample_io bob_asks approval sample_server
      admin_required refl

serve-crashes_only_by_path_example :
    endpoint (codes "v1/publisher/apps/releases/chess/submit") ≡ panics
unfolding endpoint serve text_eq has_prefix has_suffix contains cut trim_prefix
serve-crashes_only_by_path_example =
    serve-crashes_only_by_path sample_platform sample_io bob_asks
      (endpoint (codes "v1/publisher/apps/releases/chess/submit")) sample_server refl

serve-Handled_example :
    Handled sample_platform sample_io admin_asks approval sample_server
      (serve sample_platform approval sample_io admin_asks sample_server)
serve-Handled_example = serve-Handled sample_platform sample_io admin_asks approval sample_server
