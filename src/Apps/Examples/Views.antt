-- ===== src/Apps/Examples/Views.antt =====
-- The theorems about the catalog and the installs, each at a concrete input.
use messages.Apps.Installs.Undone.{uninstall_mutation-install_mutation}
use messages.Apps.Publish.Repeat.{register_mutation-again}
use messages.Apps.Catalog.{list_apps_loop}
use messages.Apps.Pointers.{
  refresh_loop, refresh_latest_pointers, more_recent, latest_approved_release, latest_approved_loop,
}
use messages.Apps.Installs.{uninstall_mutation, new_permissions, install_release, install_mutation}
use messages.Apps.Manifest.{manifest_source_type, initial_review_status}
use messages.Apps.Catalog.Paging.Pages.{collect-all, collect}
use messages.Text.{trim_space, trim_right, trim_left, is_space, codes}
use messages.Apps.Examples.{
  third, second, sample_server, sample_platform, sample_app, first, chess, bob_asks,
}
use messages.Apps.Publish.{
  register_release, register_mutation, register_in_app, register_found, new_release, new_app,
  app_or_new,
}
use messages.Apps.Permissions.{permission_delta, added_permissions}
use messages.Apps.Store.{ok, err, Mutation}
use messages.Apps.Catalog.Visible.{list_apps_loop-MaySee, MaySee}
use messages.Json.{string_field, get_field, field, end, Json, Fields}
use messages.Apps.View.{is_list, installs_of, app_response, AppView}
use messages.Apps.Types.{Release, Install, App}
use messages.Base.{
  ◌≡◌, ◌∷◌, ℕ, true, text_eq, some, refl, none, lookup, insert, false, arith, [], List, Bool, All,
}

abbrev three_views : List AppView
three_views =
    app_response sample_app first none
    ∷ app_response sample_app second none
    ∷ app_response sample_app third none
    ∷ []

collect-all_example : collect 4 2 0 three_views ≡ three_views
collect-all_example = collect-all 2 three_views (omega arith)

list_apps_loop-MaySee_example :
    All
      (MaySee bob_asks sample_server.saved)
      (list_apps_loop bob_asks sample_server.saved (chess ∷ []))
list_apps_loop-MaySee_example = list_apps_loop-MaySee bob_asks sample_server.saved (chess ∷ [])

abbrev sample_mutation : Mutation Bool
sample_mutation = install_release 9 (codes "ann") chess true sample_app second sample_server.saved

uninstall_mutation-install_mutation_example :
    ((app : App) × (release : Release) × (install : Install) × (lookup chess
          sample_server.saved.apps
        ≡ some app)
      × (latest_approved_release app ≡ some release)
      × (lookup chess (installs_of sample_mutation.state (codes "ann")) ≡ some install)
      × (install.installed_version ≡ release.version))
    × ((m' : Mutation (Unit {0})) × (uninstall_mutation 10 (codes "ann") chess sample_mutation.state
          ≡ ok m')
        × (lookup chess (installs_of m'.state (codes "ann")) ≡ none)
        × (lookup (codes "go") (installs_of m'.state (codes "ann"))
            ≡ lookup (codes "go") (installs_of sample_server.saved (codes "ann"))))
unfolding install_mutation install_release lookup text_eq latest_approved_release
    latest_approved_loop more_recent new_permissions is_list installs_of permission_delta
    added_permissions
uninstall_mutation-install_mutation_example =
    uninstall_mutation-install_mutation 9 10 (codes "ann") chess (codes "go") true
      sample_server.saved sample_mutation refl refl refl

abbrev go_manifest : Fields
go_manifest =
    field (codes "app_id") (Json.string (codes "go"))
      (field (codes "version") (Json.string (codes "1.0.0")) end)

abbrev registered_go : Mutation ℕ
registered_go =
    elim (register_mutation sample_platform 9 (codes "ann") false go_manifest sample_server.saved) [
      | ok m ↦ m
      | err e ↦ record { state = sample_server.saved; entries = []; extra = 0 }
    ]

register_mutation-again_example :
    (m' : Mutation ℕ) × (register_mutation sample_platform 12
        (codes "ann")
        false
        go_manifest
        registered_go.state
      ≡ ok m')
    × (m'.extra ≡ 200)
    × (m'.entries ≡ [])
    × (lookup chess m'.state.apps ≡ lookup chess registered_go.state.apps)
unfolding register_mutation register_found app_or_new new_app register_in_app register_release
    new_release string_field get_field lookup text_eq insert trim_space trim_left trim_right
    is_space refresh_latest_pointers refresh_loop manifest_source_type initial_review_status
register_mutation-again_example =
    register_mutation-again sample_platform 9 12 (codes "ann") false go_manifest sample_server.saved
      registered_go chess refl
