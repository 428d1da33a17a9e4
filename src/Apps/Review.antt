-- ===== src/Apps/Review.antt =====
-- The review of releases: transitionRelease and the handlers that call it
-- (services/apps/handlers.go), with validateManifestImmutability and computeAssetSetHash
-- (services/apps/registry.go).
pub mod Transition
pub mod Reconsent
use messages.Apps.Signature.{verify_manifest_signature_with_key}
use messages.Base.{
  ℕ, Bool, true, false, not, ◌&&◌, ◌||◌, Option, none, some, List, [], ◌∷◌, ◌++◌, Text, lookup,
  insert, is_empty, text_eq, if◌then◌else◌,
}
use messages.Json.{string, Json, object, null, Fields, get_field, string_or_empty}
use messages.Text.{codes, trim_space}
use messages.Apps.Types.{
  ReviewStatus, draft, submitted, under_review, needs_changes, approved, rejected, suspended,
  revoked, Release, App, State, is_dev,
}
use messages.Apps.Manifest.{Platform, manifest_content_hash_of}
use messages.Apps.Permissions.{extract_permissions, is_permission_expansion}
use messages.Apps.Permissions.Sort.{sort}
use messages.Apps.Pointers.{refresh_latest_pointers, latest_approved_release}
use messages.Apps.Store.{
  unauthorized, method_not_allowed, publisher_not_owner, admin_required, app_not_found,
  release_not_found, immutability_violation, invalid_transition, signature_rejected, Result, ok,
  err, ◌>>=◌, ◌>>◌, ensure, or_fail, release_transition, PublisherKey, Server, Io, Request, is_post,
  current_user_id, is_admin, load_state, Mutation, mutate_state,
}
use messages.Apps.View.{Reply, failed, viewed, crashed, app_response, user_install}

concat_all : List Text → Text
concat_all [] = []
concat_all (x ∷ xs) = x ++ concat_all xs

module _ (p : Platform) where
  -- validateManifestImmutability: true for the nil error
  unfoldable pub is_immutable : Release → Bool
  is_immutable release =
      is_empty release.manifest_content_hash
      || text_eq (manifest_content_hash_of p release.manifest) release.manifest_content_hash

  unfoldable pub compute_asset_set_hash : List Text → Text
  unfolding concat_all
  compute_asset_set_hash hashes = codes "sha256:" ++ p.sha256_hex (concat_all hashes)

  -- A part that is appended only if it is not "".
  abbrev optional_part : Text → List Text → List Text
  optional_part [] parts = parts
  optional_part (c ∷ s) parts = parts ++ (c ∷ s) ∷ []

  unfoldable pub approve_release : ℕ → Release → Release
  approve_release now release = record release {
    review_status = approved;
    reviewed_at = some now;
    published_at = some now;
    revoked_at = none;
    immutable_at = some now;
    asset_set_hash = compute_asset_set_hash (
        sort (
          optional_part release.preview_origin
            (optional_part release.entrypoint_origin (release.manifest_content_hash ∷ []))));
  }

-- `release` is a pointer into the map: what is written to it is seen in the app.
unfoldable pub put_release : App → Text → Release → App
put_release app version release = record app { releases = insert version release app.releases }

-- The comparison with the approved release that latestApprovedRelease finds after the change.
unfoldable pub mark_expansion : Text → Release → App → App
unfolding put_release
mark_expansion version release app = elim (latest_approved_release app) [
  | none ↦ app
  | some previous ↦
      let previous_perms = extract_permissions previous.manifest in
      if not (text_eq previous.version version)
        && is_permission_expansion previous_perms (extract_permissions release.manifest)
      then put_release app version
          (record release { requires_reconsent = true; previous_permissions = previous_perms })
      else app
]

-- req.Reason; a body that does not decode leaves it "".
abbrev pub reason_of : Option Json → Text
reason_of (some (object m)) = elim (get_field (codes "reason") m) [
  | none ↦ []
  | some v ↦ elim v [ Json.string t ↦ t | _ ↦ [] ]
]
reason_of _ = []

-- The key of the publisher that the signature names, if it is active.
unfoldable pub find_key : Text → Text → List PublisherKey → Option PublisherKey
find_key publisher key_id [] = none
find_key publisher key_id (k ∷ ks) =
    if text_eq k.publisher_user_id publisher && text_eq k.key_id key_id
    then some k
    else find_key publisher key_id ks

module _ (p : Platform) where
  -- The switch of transitionRelease.
  unfoldable pub apply_transition : ℕ → Text → Text → App → Release → ReviewStatus → Result App
  unfolding put_release mark_expansion approve_release
  apply_transition now note version app release submitted = ok (
      put_release app version
        (record release { review_status = submitted; submitted_at = some now }))
  apply_transition now note version app release under_review = ok (
      put_release app version (record release {
        review_status = under_review;
        reviewed_at = some now;
        review_note = trim_space note;
      }))
  apply_transition now note version app release needs_changes = ok (
      put_release app version (record release {
        review_status = needs_changes;
        reviewed_at = some now;
        review_note = trim_space note;
      }))
  apply_transition now note version app release approved = do
    ensure (is_immutable p release) immutability_violation
    let release' = approve_release p now release
    ok (mark_expansion version release' (put_release app version release'))
  apply_transition now note version app release rejected = ok (
      put_release app version (record release {
        review_status = rejected;
        reviewed_at = some now;
        review_note = trim_space note;
      }))
  apply_transition now note version app release revoked =
      ok (
        put_release app version (record release { review_status = revoked; revoked_at = some now }))
  apply_transition now note version app release suspended = ok (
      put_release app version (record release {
        review_status = suspended;
        reviewed_at = some now;
        review_note = trim_space note;
      }))
  apply_transition now note version app release draft = err invalid_transition

  -- The end of the closure: the app is saved with its pointers refreshed, and the entry logged.
  unfoldable pub finish_transition :
      ℕ → Text → Text → Text → ReviewStatus → Text → State → App → Mutation (Unit {0})
  finish_transition now user_id app_id version next_status note state app' = record {
    state = record state {
      apps = insert app_id (refresh_latest_pointers (record app' { updated_at = now })) state.apps;
    };
    entries =
        (record {
          app_id = app_id;
          version = version;
          actor_user_id = user_id;
          action = release_transition next_status;
          note = trim_space note;
          created_at = now;
        })
        ∷ [];
    extra = tt;
  }

  -- The closure of transitionRelease; `admin` is isAdmin of the request.
  unfoldable pub transition_mutation :
      ℕ
      → Text
      → Bool
      → Text
      → Text
      → ReviewStatus
      → Text
      → Bool
      → State
      → Result (Mutation (Unit {0}))
  unfolding finish_transition
  transition_mutation now user_id admin app_id version next_status note admin_only state = do
    app ← or_fail (lookup app_id state.apps) app_not_found
    ensure (admin_only || text_eq app.owner_user_id user_id || admin) publisher_not_owner
    release ← or_fail (lookup version app.releases) release_not_found
    app' ← apply_transition now note version app release next_status
    ok (finish_transition now user_id app_id version next_status note state app')

  abbrev pub view_release : Text → Text → Text → Result (Mutation (Unit {0})) → Reply
  view_release user_id app_id version (err e) = failed e
  view_release user_id app_id version (ok m) = elim (lookup app_id m.state.apps) [
    | none ↦ crashed
    | some app ↦ elim (lookup version app.releases) [
      | none ↦ crashed
      | some release ↦ viewed 200 (app_response app release (user_install m.state user_id app_id))
    ]
  ]

  unfoldable pub transition_release :
      Io → Request → Text → Text → ReviewStatus → Text → Bool → Server → Server × Reply
  transition_release io r app_id version next_status note admin_only s =
      let result = mutate_state io s (
        transition_mutation io.now (current_user_id r) (is_admin r) app_id version next_status note
          admin_only) in
      if not (is_post r.method)
      then (s, failed method_not_allowed)
      else if is_empty (current_user_id r)
      then (s, failed unauthorized)
      else (result.0, view_release (current_user_id r) app_id version result.1)

  unfoldable pub submit_release : Io → Request → Text → Text → Server → Server × Reply
  submit_release io r app_id version s = transition_release io r app_id version submitted [] false s

  unfoldable pub revoke_release : Io → Request → Text → Text → Server → Server × Reply
  revoke_release io r app_id version s = transition_release io r app_id version revoked [] false s

  -- The handlers of reject, start-review, needs-changes and suspend, which differ in the status.
  unfoldable pub admin_transition :
      ReviewStatus → Io → Request → Text → Text → Server → Server × Reply
  admin_transition next_status io r app_id version s =
      if not (is_admin r)
      then (s, failed admin_required)
      else transition_release io r app_id version next_status (reason_of r.body) true s

  abbrev pub key_verifies : Bool → Fields → Text → Text → Option PublisherKey → Bool
  key_verifies db_ok manifest alg sig none = false
  key_verifies db_ok manifest alg sig (some k) =
      db_ok && k.is_active && verify_manifest_signature_with_key p manifest k.public_key alg sig

  abbrev pub verify_signature_object : Bool → List PublisherKey → Fields → Text → Option Json → Bool
  verify_signature_object db_ok keys manifest publisher none = true
  verify_signature_object db_ok keys manifest publisher (some null) = true
  verify_signature_object db_ok keys manifest publisher (some (object m)) =
      let alg = string_or_empty (get_field (codes "alg") m) in
      let kid = string_or_empty (get_field (codes "kid") m) in
      let sig = string_or_empty (get_field (codes "sig") m) in
      not (is_empty alg)
      && not (is_empty kid)
      && not (is_empty sig)
      && key_verifies db_ok manifest alg sig (find_key publisher kid keys)
  verify_signature_object db_ok keys manifest publisher _ = false

  -- verifyReleaseSignature with a pool: true for the nil error. `db_ok` is whether the query of the
  -- key succeeds.
  unfoldable pub verify_release_signature : Bool → List PublisherKey → Fields → Text → Bool
  unfolding find_key
  verify_release_signature db_ok keys manifest publisher =
      verify_signature_object db_ok keys manifest publisher (get_field (codes "signature") manifest)

  -- The checks of adminApproveReleaseHandler before the transition.
  unfoldable pub approval_check : Io → Server → Text → Text → Result (Unit {0})
  unfolding verify_release_signature
  approval_check io s app_id version = do
    state ← load_state io s
    app ← or_fail (lookup app_id state.apps) app_not_found
    release ← or_fail (lookup version app.releases) release_not_found
    ensure
        (is_dev release.source_type
          || not s.pooled
          || verify_release_signature io.db_ok s.keys release.manifest release.publisher_user_id)
        signature_rejected

  unfoldable pub approve_checked :
      Io → Request → Text → Text → Server → Result (Unit {0}) → Server × Reply
  approve_checked io r app_id version s (err e) = (s, failed e)
  approve_checked io r app_id version s (ok _) =
      transition_release io r app_id version approved [] true s

  unfoldable pub admin_approve_release : Io → Request → Text → Text → Server → Server × Reply
  admin_approve_release io r app_id version s =
      if not (is_admin r)
      then (s, failed admin_required)
      else approve_checked io r app_id version s (approval_check io s app_id version)
