-- ===== src/Apps/Catalog.antt =====
-- The catalog: releaseVisibleToUser, latestVisibleRelease, matchesCatalogFilters, the paging, and
-- the handlers that list and show apps (services/apps/handlers.go).
pub mod Paging
pub mod Visible
use messages.Base.{
  ℕ, ◌+◌, Bool, true, false, not, ◌&&◌, ◌||◌, Option, none, some, List, [], ◌∷◌, ◌++◌, Text, Map,
  lookup, is_empty, is_some, text_eq, if◌then◌else◌,
}
use messages.Json.{string_field}
use messages.Text.{codes, trim_space, to_lower, contains, join}
use messages.Apps.Types.{
  Release, App, Install, State, status_text, source_text, visibility_text, is_approved, is_dev,
  is_public,
}
use messages.Apps.Version.{version_greater}
use messages.Apps.Permissions.Sort.{sort}
use messages.Apps.Store.{
  ApiError, unauthorized, method_not_allowed, app_not_found, publisher_not_owner, Result, ok, err,
  Server, Io, Request, is_get, current_user_id, is_admin, load_state,
}
use messages.Apps.View.{
  AppView, Page, Reply, failed, viewed, listed, app_response, installs_of, user_install,
}
use Paging.{parse_limit, parse_offset, query_get, query_get_text, page}

abbrev pub owns : App → Release → Text → Bool
owns app release user_id =
    text_eq app.owner_user_id user_id || text_eq release.publisher_user_id user_id

unfoldable pub release_visible_to_user : App → Release → Text → Bool → Bool → Bool
release_visible_to_user app release user_id admin developer_mode =
    if admin
    then true
    else if is_dev release.source_type && not developer_mode && not (owns app release user_id)
    then false
    else if is_approved release.review_status
    then is_public release.visibility || owns app release user_id
    else owns app release user_id

abbrev pub comes_after : Release → Option Release → Bool
comes_after release none = true
comes_after release (some best) = version_greater release.version best.version

unfoldable pub latest_visible_loop :
    App → Text → Bool → Bool → Option Release → Map Release → Option Release
unfolding release_visible_to_user
latest_visible_loop app user_id admin developer_mode best [] = best
latest_visible_loop app user_id admin developer_mode best ((_, release) ∷ releases) =
    latest_visible_loop app user_id admin developer_mode
      (if release_visible_to_user app release user_id admin developer_mode
          && comes_after release best
        then some release
        else best)
      releases

unfoldable pub latest_visible_release : App → Text → Bool → Bool → Option Release
latest_visible_release app user_id admin developer_mode =
    latest_visible_loop app user_id admin developer_mode none app.releases

unfoldable pub developer_mode_enabled : Request → Bool
developer_mode_enabled r =
    let value = trim_space (query_get "developer_mode" r.query) in
    text_eq value (codes "1") || text_eq (to_lower value) (codes "true")

unfoldable pub optional_bool_query : Map Text → Option Bool
optional_bool_query query =
    let value = to_lower (trim_space (query_get "installed" query)) in
    if text_eq value (codes "1") || text_eq value (codes "true") || text_eq value (codes "yes")
    then some true
    else if text_eq value (codes "0") || text_eq value (codes "false") || text_eq value (codes "no")
    then some false
    else none

any_equal : Text → List Text → Bool
any_equal candidate [] = false
any_equal candidate (v ∷ vs) = text_eq (to_lower (trim_space v)) candidate || any_equal candidate vs

unfoldable pub string_list_contains : List Text → Text → Bool
unfolding any_equal
string_list_contains values candidate =
    let wanted = trim_space (to_lower candidate) in is_empty wanted || any_equal wanted values

-- A filter that is absent lets everything through.
abbrev filter_equal : Text → Text → Bool
filter_equal [] value = true
filter_equal (c ∷ s) value = text_eq value (c ∷ s)

abbrev filter_installed : Option Bool → Option Install → Bool
filter_installed none install = true
filter_installed (some true) install = is_some install
filter_installed (some false) install = not (is_some install)

matches_query : App → Release → Text → Bool
matches_query app release query =
    is_empty query
    || contains query (
        to_lower (
          join (codes " ") (
            app.app_id
            ∷ app.name
            ∷ app.summary
            ∷ string_field release.manifest (codes "name")
            ∷ [])))

matches_status : App → Release → Text → Bool → Text → Bool
matches_status app release user_id admin status =
    is_empty status
    || ((admin || owns app release user_id) && text_eq (status_text release.review_status) status)

unfoldable pub matches_catalog_filters : App → Release → Option Install → Request → Bool → Bool
unfolding matches_query matches_status optional_bool_query string_list_contains
matches_catalog_filters app release install r admin =
    let param = λ (k : Text). trim_space (query_get_text k r.query) in
    matches_query app release (to_lower (param (codes "q")))
    && matches_status app release (current_user_id r) admin (param (codes "review_status"))
    && filter_equal (param (codes "source_type")) (source_text release.source_type)
    && filter_equal (param (codes "visibility")) (visibility_text release.visibility)
    && (is_empty (param (codes "platform"))
        || string_list_contains release.supported_platforms (param (codes "platform")))
    && filter_equal (param (codes "owner_user_id")) app.owner_user_id
    && filter_equal (param (codes "publisher_user_id")) release.publisher_user_id
    && filter_installed (optional_bool_query r.query) install

unfoldable pub keys_of {ℓ} : {V : Type ℓ} → Map V → List Text
keys_of [] = []
keys_of ((k, _) ∷ m) = k ∷ keys_of m

abbrev pub keep_matching :
    Request → App → Option Install → Option Release → List AppView → List AppView
keep_matching r app install none items = items
keep_matching r app install (some release) items =
    if matches_catalog_filters app release install r (is_admin r)
    then app_response app release install ∷ items
    else items

-- The loop of listAppsHandler over the sorted ids.
unfoldable pub list_apps_loop : Request → State → List Text → List AppView
list_apps_loop r state [] = []
list_apps_loop r state (app_id ∷ ids) = elim (lookup app_id state.apps) [
  | none ↦ list_apps_loop r state ids
  | some app ↦
      keep_matching r app (user_install state (current_user_id r) app.app_id)
        (latest_visible_release app (current_user_id r) (is_admin r) (developer_mode_enabled r))
        (list_apps_loop r state ids)
]

abbrev reply_page : Request → List AppView → Reply
reply_page r items = listed (
    page (parse_limit (query_get "limit" r.query) 50) (parse_offset (query_get "cursor" r.query))
      items)

unfoldable pub list_apps : Io → Request → Server → Server × Reply
unfolding list_apps_loop
list_apps io r s =
    if not (is_get r.method) then (s, failed method_not_allowed) else elim (load_state io s) [
      | err e ↦ (s, failed e)
      | ok state ↦ (s, reply_page r (list_apps_loop r state (sort (keys_of state.apps))))
    ]

unfoldable pub get_app : Io → Request → Text → Server → Server × Reply
get_app io r app_id s = elim (load_state io s) [
  | err e ↦ (s, failed e)
  | ok state ↦ elim (lookup app_id state.apps) [
    | none ↦ (s, failed app_not_found)
    | some app ↦
        elim (latest_visible_release app (current_user_id r) (is_admin r)
          (developer_mode_enabled r)) [
            | none ↦ (s, failed app_not_found)
            | some release ↦ (
              s,
              viewed 200 (app_response app release (user_install state (current_user_id r) app_id)),
            )
          ]
  ]
]

-- The release that is installed, or else the latest that the user may see.
unfoldable pub shown_release : Request → App → Install → Option Release
shown_release r app install = elim (lookup install.installed_version app.releases) [
  | some release ↦ some release
  | none ↦ latest_visible_release app (current_user_id r) (is_admin r) (developer_mode_enabled r)
]

unfoldable pub list_installed_loop : Request → State → Map Install → List Text → List AppView
unfolding shown_release
list_installed_loop r state installs [] = []
list_installed_loop r state installs (app_id ∷ ids) = elim (lookup app_id installs) [
  | none ↦ list_installed_loop r state installs ids
  | some install ↦ elim (lookup app_id state.apps) [
    | none ↦ list_installed_loop r state installs ids
    | some app ↦
        keep_matching r app (some install) (shown_release r app install)
          (list_installed_loop r state installs ids)
  ]
]

unfoldable pub list_installed : Io → Request → Server → Server × Reply
unfolding list_installed_loop
list_installed io r s =
    if not (is_get r.method)
    then (s, failed method_not_allowed)
    else if is_empty (current_user_id r)
    then (s, failed unauthorized)
    else elim (load_state io s) [
      | err e ↦ (s, failed e)
      | ok state ↦
          let installs = installs_of state (current_user_id r) in
          (s, reply_page r (list_installed_loop r state installs (sort (keys_of installs))))
    ]

-- The filters of publisherListReleasesHandler.
unfoldable pub matches_release_filters : App → Release → Map Text → Bool
matches_release_filters app release query =
    let q = to_lower (trim_space (query_get "q" query)) in
    (is_empty q
      || contains q (
          to_lower (
            join (codes " ") (
              app.app_id
              ∷ app.name
              ∷ app.summary
              ∷ release.version
              ∷ status_text release.review_status
              ∷ []))))
    && filter_equal (trim_space (query_get "review_status" query))
        (status_text release.review_status)

unfoldable pub list_releases_loop : Request → App → List Text → List AppView
unfolding matches_release_filters
list_releases_loop r app [] = []
list_releases_loop r app (version ∷ versions) = elim (lookup version app.releases) [
  | none ↦ list_releases_loop r app versions
  | some release ↦
      let rest = list_releases_loop r app versions in
      if matches_release_filters app release r.query
      then app_response app release none ∷ rest
      else rest
]

reversed : List Text → List Text
reversed [] = []
reversed (x ∷ xs) = reversed xs ++ x ∷ []

unfoldable pub list_releases : Io → Request → Text → Server → Server × Reply
unfolding list_releases_loop reversed
list_releases io r app_id s =
    if not (is_get r.method)
    then (s, failed method_not_allowed)
    else if is_empty (current_user_id r)
    then (s, failed unauthorized)
    else elim (load_state io s) [
      | err e ↦ (s, failed e)
      | ok state ↦ elim (lookup app_id state.apps) [
        | none ↦ (s, failed app_not_found)
        | some app ↦
            if not (text_eq app.owner_user_id (current_user_id r)) && not (is_admin r)
            then (s, failed publisher_not_owner)
            else (
              s,
              reply_page r (list_releases_loop r app (reversed (sort (keys_of app.releases)))),
            )
      ]
    ]
