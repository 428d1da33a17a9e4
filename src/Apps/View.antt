-- ===== src/Apps/View.antt =====
-- What the handlers of the registry answer with: installState and appResponse of
-- services/apps/registry.go.
use messages.Base.{
  ℕ, Bool, true, false, not, ◌&&◌, Option, none, some, List, [], ◌∷◌, Text, Map, lookup, is_empty,
  is_some, text_eq, if◌then◌else◌,
}
use messages.Apps.Types.{Release, App, Install, State, is_approved, is_dev}
use messages.Apps.Permissions.{permission_delta}
use messages.Apps.Store.{ApiError, PublisherKey}

pub data InstallState : Type 0 where
  blocked not_installed disabled update_requires_consent update_available installed : InstallState

abbrev is_blocked : Option Release → Bool
is_blocked none = false
is_blocked (some release) =
    not (is_approved release.review_status) && not (is_dev release.source_type)

abbrev state_of_install : Option Install → Bool → Bool → InstallState
state_of_install none available consent = not_installed
state_of_install (some install) available consent =
    if not install.enabled
    then disabled
    else if available
    then (if consent then update_requires_consent else update_available)
    else installed

unfoldable pub install_state : Option Install → Bool → Bool → Option Release → InstallState
install_state install available consent release =
    if is_blocked release then blocked else state_of_install install available consent

-- The object of appResponse. The fields that it copies out of the release are the release's.
pub record AppView : Type 0 where
  pub app_id : Text
  pub title : Text
  pub summary : Text
  pub release : Release
  pub latest_version : Text
  pub latest_approved_version : Text
  pub added : List Text
  pub removed : List Text
  pub update_requires_consent : Bool
  pub install : Option Install
  pub update_available : Bool
  pub state : InstallState
  pub install_note : Bool

unfoldable pub is_list : List Text → Bool
is_list [] = false
is_list (x ∷ xs) = true

-- app.Releases[version], guarded by `version != ""`
unfoldable pub release_at : App → Text → Option Release
release_at app version = if is_empty version then none else lookup version app.releases

abbrev installed_release : App → Option Install → Option Release
installed_release app none = none
installed_release app (some install) = release_at app install.installed_version

unfoldable pub is_update_available : App → Option Install → Bool
is_update_available app none = false
is_update_available app (some install) =
    not (is_empty app.latest_approved)
    && not (is_empty install.installed_version)
    && not (text_eq install.installed_version app.latest_approved)

unfoldable pub app_response : App → Release → Option Install → AppView
unfolding is_update_available install_state release_at is_list
app_response app release install =
    let delta =
      permission_delta (installed_release app install) (release_at app app.latest_approved) in
    let consent = is_some install && is_list delta.0 in
    let available = is_update_available app install in
    record {
      app_id = app.app_id;
      title = app.name;
      summary = app.summary;
      release = release;
      latest_version = app.latest_version;
      latest_approved_version = app.latest_approved;
      added = delta.0;
      removed = delta.1;
      update_requires_consent = consent;
      install = install;
      update_available = available;
      state = install_state install available consent (some release);
      install_note = false;
    }

-- The object of appUpdatesHandler; "" stands for a version that there is not.
pub record Updates : Type 0 where
  pub app_id : Text
  pub installed_version : Text
  pub latest_version : Text
  pub update_available : Bool
  pub update_requires_consent : Bool
  pub added : List Text
  pub removed : List Text

-- A page of a list; no `next_cursor` is "".
pub record Page : Type 0 where
  pub items : List AppView
  pub next_cursor : Option ℕ
  pub total : ℕ

pub data Reply : Type 0 where
  failed : ApiError → Reply
  viewed : ℕ → AppView → Reply
  created : App → Reply
  listed : Page → Reply
  updates : Updates → Reply
  key_created : Text → Text → Text → Reply
  keys_listed : List PublisherKey → Reply
  key_rotated : Text → Text → Reply
  no_content : Reply
  -- a nil pointer was followed
  crashed : Reply

unfoldable pub installs_of : State → Text → Map Install
installs_of state user_id = elim (lookup user_id state.installs) [ none ↦ [] | some m ↦ m ]

-- userInstalls(state, userID)[appID]
unfoldable pub user_install : State → Text → Text → Option Install
unfolding installs_of
user_install state user_id app_id =
    if is_empty user_id then none else lookup app_id (installs_of state user_id)
