-- ===== src/Apps/Publish.antt =====
-- What publishers do: registerHandler, publisherCreateAppHandler and
-- publisherCreateReleaseHandler of services/apps/handlers.go.
mod Creation
pub mod Repeat
pub use Creation.*
unfoldable pub use Creation.{
  decode_app_request, requested_app, create_app_mutation, create_app_decoded, create_app,
}
use messages.Base.{
  ℕ, Bool, false, not, ◌&&◌, ◌||◌, Option, none, some, List, [], ◌∷◌, ◌++◌, Text, lookup, insert,
  is_empty, is_some, text_eq, if◌then◌else◌,
}
use messages.Json.{Json, object, null, Fields, get_field, object_or_nil, string_field}
use messages.Text.{codes, trim_space, to_lower}
use messages.Apps.Types.{
  Visibility, ReviewStatus, draft, public, private, Release, App, State, is_approved,
}
use messages.Apps.Manifest.{
  Platform, validate_manifest, manifest_hash_of, manifest_content_hash_of, manifest_origin,
  manifest_source_type, manifest_visibility, manifest_summary, manifest_platforms,
  initial_review_status, decode_manifest_payload,
}
use messages.Apps.Pointers.{refresh_latest_pointers}
use messages.Apps.Store.{
  unauthorized, method_not_allowed, invalid_request, app_id_mismatch, names_required,
  invalid_manifest, publisher_not_owner, app_not_found, app_exists, release_exists,
  version_conflict, Result, ok, err, ◌>>=◌, ◌>>◌, ensure, or_fail, AuditEntry, app_created,
  release_created, Server, Io, Request, is_post, current_user_id, is_admin, Mutation, mutate_state,
}
use messages.Apps.View.{Reply, failed, viewed, created, crashed, app_response, user_install}

abbrev pub valid_or_fail : Fields → Result (Unit {0})
valid_or_fail manifest = elim (validate_manifest manifest) [
  | none ↦ ok tt
  | some e ↦ err (invalid_manifest e)
]

-- Who registers without a user header.
abbrev pub user_or_bootstrap : Text → Text
user_or_bootstrap [] = codes "dev-bootstrap"
user_or_bootstrap (c ∷ s) = c ∷ s

module _ (p : Platform) where
  -- A release as both handlers make it; they differ in the status and the content hash.
  unfoldable pub new_release : ℕ → Text → Fields → ReviewStatus → Text → App → Release
  new_release now user_id manifest status content_hash app = record {
    version = string_field manifest (codes "version");
    manifest = manifest;
    manifest_hash = manifest_hash_of p manifest;
    review_status = status;
    review_note = [];
    source_type = manifest_source_type p manifest;
    visibility = app.visibility;
    publisher_user_id = user_id;
    supported_platforms = manifest_platforms manifest;
    entrypoint_origin =
        manifest_origin p
          (string_field (object_or_nil (get_field (codes "entrypoint") manifest)) (codes "url"));
    preview_origin =
        manifest_origin p (
          string_field (object_or_nil (get_field (codes "message_preview") manifest))
            (codes "url"));
    created_at = now;
    submitted_at = none;
    reviewed_at = if is_approved status then some now else none;
    published_at = if is_approved status then some now else none;
    revoked_at = none;
    suspended_at = none;
    suspension_reason = [];
    manifest_content_hash = content_hash;
    asset_set_hash = [];
    immutable_at = none;
    requires_reconsent = false;
    previous_permissions = [];
  }

  unfoldable pub new_app : ℕ → Text → Text → Fields → App
  new_app now user_id app_id manifest = record {
    app_id = app_id;
    name = string_field manifest (codes "name");
    owner_user_id = user_id;
    visibility = manifest_visibility manifest;
    summary = manifest_summary manifest;
    created_at = now;
    updated_at = now;
    latest_version = [];
    latest_approved = [];
    releases = [];
  }

  -- The app, new if there is none of that id, and the entry that is logged then.
  unfoldable pub app_or_new : ℕ → Text → Text → Fields → Option App → App × List AuditEntry
  unfolding new_app
  app_or_new now user_id app_id manifest (some app) = (app, [])
  app_or_new now user_id app_id manifest none = (
    new_app now user_id app_id manifest,
    (record {
      app_id = app_id;
      version = [];
      actor_user_id = user_id;
      action = app_created none;
      note = [];
      created_at = now;
    })
        ∷ [],
  )

  -- The app with the release under its version, named anew.
  unfoldable pub register_release : ℕ → Text → Fields → App → App
  unfolding new_release
  register_release now user_id manifest app = refresh_latest_pointers (record app {
    name = string_field manifest (codes "name");
    summary = manifest_summary manifest;
    updated_at = now;
    releases =
        insert (string_field manifest (codes "version"))
          (new_release now user_id manifest
            (initial_review_status (manifest_source_type p manifest))
            (manifest_content_hash_of p manifest) app)
          app.releases;
  })

  -- What becomes of the app in the closure of registerHandler, with the status of the reply.
  unfoldable pub register_in_app :
      ℕ
      → Text
      → Text
      → Fields
      → App
      → List AuditEntry
      → State
      → Option Release
      → Result (Mutation ℕ)
  unfolding register_release
  register_in_app now user_id app_id manifest app entries state (some existing) = do
    ensure (text_eq existing.manifest_hash (manifest_hash_of p manifest)) version_conflict
    ok (record {
      state = record state { apps = insert app_id app state.apps };
      entries = entries;
      extra = 200;
    })
  register_in_app now user_id app_id manifest app entries state none = ok (record {
    state = record state {
      apps = insert app_id (register_release now user_id manifest app) state.apps;
    };
    entries =
        entries
        ++ (record {
          app_id = app_id;
          version = string_field manifest (codes "version");
          actor_user_id = user_id;
          action =
              release_created (manifest_source_type p manifest)
                (some (initial_review_status (manifest_source_type p manifest)));
          note = [];
          created_at = now;
        })
          ∷ [];
    extra = 201;
  })

  unfoldable pub register_found :
      ℕ → Text → Bool → Fields → State → App × List AuditEntry → Result (Mutation ℕ)
  unfolding register_in_app
  register_found now user_id admin manifest state found =
      ensure (text_eq found.0.owner_user_id user_id || admin) publisher_not_owner
      >> register_in_app now user_id (string_field manifest (codes "app_id")) manifest found.0
          found.1 state (lookup (string_field manifest (codes "version")) found.0.releases)

  -- The closure of registerHandler.
  unfoldable pub register_mutation : ℕ → Text → Bool → Fields → State → Result (Mutation ℕ)
  unfolding app_or_new register_found
  register_mutation now user_id admin manifest state =
      let app_id = string_field manifest (codes "app_id") in
      register_found now user_id admin manifest state
        (app_or_new now user_id app_id manifest (lookup app_id state.apps))

  abbrev pub view_registered : Text → Fields → Result (Mutation ℕ) → Reply
  view_registered viewer manifest (err e) = failed e
  view_registered viewer manifest (ok m) =
      elim (lookup (string_field manifest (codes "app_id")) m.state.apps) [
        | none ↦ crashed
        | some app ↦ elim (lookup (string_field manifest (codes "version")) app.releases) [
          | none ↦ crashed
          | some release ↦ viewed m.extra (
              app_response app release
                (user_install m.state viewer (string_field manifest (codes "app_id"))))
        ]
      ]

  abbrev pub read_manifest : Option Json → Result Fields
  read_manifest body = do
    manifest ← or_fail (decode_manifest_payload body) invalid_request
    valid_or_fail manifest
    ok manifest

  -- registerHandler behind the decoding of the manifest.
  unfoldable pub register_decoded : Io → Request → Server → Result Fields → Server × Reply
  register_decoded io r s (err e) = (s, failed e)
  register_decoded io r s (ok manifest) =
      let result =
        mutate_state io s (
          register_mutation io.now (user_or_bootstrap (current_user_id r)) (is_admin r) manifest) in
      (result.0, view_registered (current_user_id r) manifest result.1)

  unfoldable pub register : Io → Request → Server → Server × Reply
  register io r s =
      if not (is_post r.method)
      then (s, failed method_not_allowed)
      else register_decoded io r s (read_manifest r.body)

  -- The app with a draft under the version of the manifest.
  unfoldable pub draft_release : ℕ → Text → Fields → App → App
  unfolding new_release
  draft_release now user_id manifest app = refresh_latest_pointers (record app {
    updated_at = now;
    releases =
        insert (string_field manifest (codes "version"))
          (new_release now user_id manifest draft [] app) app.releases;
  })

  unfoldable pub create_release_in_app :
      ℕ → Text → Bool → Text → Fields → App → State → Result (Mutation (Unit {0}))
  unfolding draft_release
  create_release_in_app now user_id admin app_id manifest app state = do
    ensure (text_eq app.owner_user_id user_id || admin) publisher_not_owner
    ensure (not (is_some (lookup (string_field manifest (codes "version")) app.releases)))
        release_exists
    ok (record {
      state = record state {
        apps = insert app_id (draft_release now user_id manifest app) state.apps;
      };
      entries =
          (record {
            app_id = app_id;
            version = string_field manifest (codes "version");
            actor_user_id = user_id;
            action = release_created (manifest_source_type p manifest) none;
            note = [];
            created_at = now;
          })
          ∷ [];
      extra = tt;
    })

  unfoldable pub create_release_mutation :
      ℕ → Text → Bool → Text → Fields → State → Result (Mutation (Unit {0}))
  unfolding create_release_in_app
  create_release_mutation now user_id admin app_id manifest state = do
    app ← or_fail (lookup app_id state.apps) app_not_found
    create_release_in_app now user_id admin app_id manifest app state

  abbrev pub view_created : Text → Text → Result (Mutation (Unit {0})) → Reply
  view_created app_id version (err e) = failed e
  view_created app_id version (ok m) = elim (lookup app_id m.state.apps) [
    | none ↦ crashed
    | some app ↦ elim (lookup version app.releases) [
      | none ↦ crashed
      | some release ↦ viewed 201 (app_response app release none)
    ]
  ]

  abbrev pub read_manifest_of : Text → Option Json → Result Fields
  read_manifest_of app_id body = do
    manifest ← or_fail (decode_manifest_payload body) invalid_request
    ensure (text_eq (string_field manifest (codes "app_id")) app_id) app_id_mismatch
    valid_or_fail manifest
    ok manifest

  unfoldable pub create_release_decoded :
      Io → Request → Text → Server → Result Fields → Server × Reply
  create_release_decoded io r app_id s (err e) = (s, failed e)
  create_release_decoded io r app_id s (ok manifest) =
      let result =
        mutate_state io s
          (create_release_mutation io.now (current_user_id r) (is_admin r) app_id manifest) in
      (result.0, view_created app_id (string_field manifest (codes "version")) result.1)

  unfoldable pub create_release : Io → Request → Text → Server → Server × Reply
  create_release io r app_id s =
      if not (is_post r.method)
      then (s, failed method_not_allowed)
      else if is_empty (current_user_id r)
      then (s, failed unauthorized)
      else create_release_decoded io r app_id s (read_manifest_of app_id r.body)
