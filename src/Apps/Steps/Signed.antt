-- ===== src/Apps/Steps/Signed.antt =====
-- Which production releases an approval lets through: what has no signature, and what is signed with
-- an active key of its publisher.
use messages.Base.{is_empty, sym, not, ◌||◌}
use messages.Base.{◌∙◌}
use messages.Base.{◌⊎◌}
use messages.Apps.Steps.Ownership.{serve-approval_needs_admin, WasApproved}
use messages.Apps.Types.{is_approved, is_dev, Release, App}
use messages.Apps.Route.{approves, serve, Endpoint}
use messages.Apps.Manifest.{Platform}
use messages.Apps.Types.{is_dev}
use messages.Json.{boolean, number, string, array}
use messages.Apps.Review.{approve_checked, admin_approve_release, approval_check, find_key}
use messages.Apps.Signature.{verify_manifest_signature_with_key}
use messages.Apps.Review.{find_key, verify_signature_object, verify_release_signature, key_verifies}
use messages.Text.{codes}
use messages.Apps.Store.{
  signature_rejected, load_failed, is_admin, ensure, ok, err, Result, ApiError, loaded, Server,
  Request, load_state, Io, PublisherKey,
}
use messages.Json.{string_or_empty, object, null, get_field, Json, Fields}
use messages.Base.{
  ap, false, lookup, ◌≡◌, ◌∷◌, true, text_eq_iff, text_eq, subst, some_eq, some, refl, none, inr,
  inl, arith, [], Text, Option, List, Bool-cases, Bool, ◌&&◌,
}

pub data HasKey (k : PublisherKey) : List PublisherKey → Type 0 where
  first_key : {keys : List PublisherKey} → HasKey k (k ∷ keys)
  later_key : {j : PublisherKey} {keys : List PublisherKey} → HasKey k keys → HasKey k (j ∷ keys)

-- A manifest without a signature, or with one that verifies under an active key in the table that
-- its publisher has registered under the name the signature gives.
pub data IsTrusted (p : Platform) (keys : List PublisherKey) (publisher : Text) (manifest : Fields)
    : Type 0 where
  unsigned : get_field (codes "signature") manifest ≡ none → IsTrusted p keys publisher manifest
  null_signature :
      get_field (codes "signature") manifest ≡ some null → IsTrusted p keys publisher manifest
  signed :
      (m : Fields) (k : PublisherKey)
      → get_field (codes "signature") manifest ≡ some (object m)
      → HasKey k keys
      → k.publisher_user_id ≡ publisher
      → k.key_id ≡ string_or_empty (get_field (codes "kid") m)
      → k.is_active ≡ true
      → verify_manifest_signature_with_key p manifest k.public_key
          (string_or_empty (get_field (codes "alg") m))
          (string_or_empty (get_field (codes "sig") m))
        ≡ true
      → IsTrusted p keys publisher manifest

find_key-HasKey :
    (publisher key_id : Text) (keys : List PublisherKey) (k : PublisherKey)
    → find_key publisher key_id keys ≡ some k
    → HasKey k keys × (k.publisher_user_id ≡ publisher) × (k.key_id ≡ key_id)
unfolding find_key
find_key-HasKey publisher key_id [] k h = cc
find_key-HasKey publisher key_id (j ∷ keys) k h =
    elim (Bool-cases (text_eq j.publisher_user_id publisher && text_eq j.key_id key_id)) [
      | inl this_one ↦
          let same : j ≡ k = some_eq j k (ground arith) in
          subst (λ x. HasKey x (j ∷ keys) × (x.publisher_user_id ≡ publisher) × (x.key_id ≡ key_id))
            same
            (
              first_key,
              (text_eq_iff j.publisher_user_id publisher).0 (ground arith),
              (text_eq_iff j.key_id key_id).0 (ground arith),
            )
      | inr further ↦
          let found = find_key-HasKey publisher key_id keys k (ground arith) in
          (later_key found.0, found.1, found.2)
    ]

last_of_four : (a b c d : Bool) → (a && b && c && d) ≡ true → d ≡ true
last_of_four a b c d h = ground arith

both_of_three : (a b c : Bool) → (a && b && c) ≡ true → (b ≡ true) × (c ≡ true)
both_of_three a b c h = ground arith

module _ (p : Platform) (db_ok : Bool) (keys : List PublisherKey) (publisher : Text)
    (manifest : Fields) where
  key_verifies-IsTrusted :
      (m : Fields) (o : Option PublisherKey)
      → get_field (codes "signature") manifest ≡ some (object m)
      → find_key publisher (string_or_empty (get_field (codes "kid") m)) keys ≡ o
      → key_verifies p db_ok manifest
          (string_or_empty (get_field (codes "alg") m))
          (string_or_empty (get_field (codes "sig") m))
          o
        ≡ true
      → IsTrusted p keys publisher manifest
  key_verifies-IsTrusted m none given found h = cc
  key_verifies-IsTrusted m (some k) given found h =
      let row = find_key-HasKey publisher _ keys k found in
      let good = both_of_three db_ok k.is_active _ h in
      signed m k given row.0 row.1 row.2 good.0 good.1

  signature-IsTrusted :
      (o : Option Json)
      → get_field (codes "signature") manifest ≡ o
      → verify_signature_object p db_ok keys manifest publisher o ≡ true
      → IsTrusted p keys publisher manifest
  signature-IsTrusted none given h = unsigned given
  signature-IsTrusted (some null) given h = null_signature given
  signature-IsTrusted (some (object m)) given h =
      let alg = string_or_empty (get_field (codes "alg") m) in
      let kid = string_or_empty (get_field (codes "kid") m) in
      let sig = string_or_empty (get_field (codes "sig") m) in
      key_verifies-IsTrusted m (find_key publisher kid keys) given refl (
        last_of_four (not (is_empty alg)) (not (is_empty kid)) (not (is_empty sig))
          (key_verifies p db_ok manifest alg sig (find_key publisher kid keys)) h)
  signature-IsTrusted (some (boolean b)) given h = cc
  signature-IsTrusted (some (number n)) given h = cc
  signature-IsTrusted (some (string t)) given h = cc
  signature-IsTrusted (some (array xs)) given h = cc

  verify_release_signature-IsTrusted :
      verify_release_signature p db_ok keys manifest publisher ≡ true
      → IsTrusted p keys publisher manifest
  unfolding verify_release_signature
  verify_release_signature-IsTrusted h = signature-IsTrusted _ refl h

check_cases : (x : Result (Unit {0})) → ((a : ApiError) × (x ≡ err a)) ⊎ (x ≡ ok tt)
check_cases (err a) = inl (a, refl)
check_cases (ok tt) = inr refl

ensure_lem : (b : Bool) (a : ApiError) → ensure b a ≡ ok tt → b ≡ true
ensure_lem true a h = refl
ensure_lem false a h = cc

no_exception : (a b c : Bool) → (a || not b || c) ≡ true → a ≡ false → b ≡ true → c ≡ true
no_exception a b c h x y = ground arith

-- What the checks of an approval that pass have found.
approval_check-IsTrusted :
    (p : Platform) (io : Io) (s : Server) (a v : Text) (app : App) (release : Release)
    → s.pooled ≡ true
    → lookup a (loaded s).apps ≡ some app
    → lookup v app.releases ≡ some release
    → is_dev release.source_type ≡ false
    → approval_check p io s a v ≡ ok tt
    → IsTrusted p s.keys release.publisher_user_id release.manifest
unfolding approval_check load_state
approval_check-IsTrusted p io s a v app release pooled found under no_dev h =
    elim (Bool-cases io.load_ok) [
      | inr fails ↦ let clash : err load_failed ≡ ok tt = sym (rw fails refl) ∙ h in absurd cc
      | inl loads ↦
          let last : ensure
                (is_dev release.source_type
                  || not s.pooled
                  || verify_release_signature p io.db_ok s.keys release.manifest
                      release.publisher_user_id)
                signature_rejected
              ≡ ok tt =
            sym (rw (loads, found, under) refl) ∙ h in
          verify_release_signature-IsTrusted p io.db_ok s.keys release.publisher_user_id
            release.manifest (no_exception _ _ _ (ensure_lem _ _ last) no_dev pooled)
    ]

-- An approval that is refused leaves the server as it was.
refused_approval :
    (p : Platform) (io : Io) (r : Request) (e : Endpoint) (s : Server) (k v : Text) (a : ApiError)
    → e ≡ approves k v
    → is_admin r ≡ true
    → approval_check p io s k v ≡ err a
    → (serve p e io r s).0 ≡ s
unfolding serve admin_approve_release approve_checked
refused_approval p io r e s k v a asked admin refusing =
    ap (λ x. (serve p x io r s).0) asked ∙ rw (admin, refusing) refl

-- Where the server has a database, a production release becomes approved only if it is trusted: if
-- after a request it is approved, and it was no development release before nor is it one after,
-- then it was approved before, or the request is an admin's approval of just this version, and the
-- manifest had no signature, or one that verifies under an active key that is in the table for its
-- publisher under the name that the signature gives.
pub serve-approval_IsTrusted :
    (p : Platform) (io : Io) (r : Request) (e : Endpoint) (s : Server) (k v : Text) (app app' : App)
    (release release' : Release)
    → s.pooled ≡ true
    → lookup k (loaded s).apps ≡ some app
    → lookup v app.releases ≡ some release
    → is_dev release.source_type ≡ false
    → lookup k (serve p e io r s).0.saved.apps ≡ some app'
    → lookup v app'.releases ≡ some release'
    → is_approved release'.review_status ≡ true
    → is_dev release'.source_type ≡ false
    → WasApproved (lookup k s.saved.apps) v
      ⊎ ((e ≡ approves k v)
          × (is_admin r ≡ true)
          × IsTrusted p s.keys release.publisher_user_id release.manifest)
serve-approval_IsTrusted p io r e s k v app app' release release' pooled found under no_dev found'
      under' live no_dev' =
    elim (serve-approval_needs_admin p io r e s k v app' release' found' under' live no_dev') [
      | inl was ↦ inl was
      | inr (asked, admin) ↦ elim (check_cases (approval_check p io s k v)) [
        | inr passing ↦ inr (
          asked,
          admin,
          approval_check-IsTrusted p io s k v app release pooled found under no_dev passing,
        )
        | inl (a, refusing) ↦
            let same = refused_approval p io r e s k v a asked admin refusing in
            inl (
              app',
              release',
              ap (λ (x : Server). lookup k x.saved.apps) (sym same) ∙ found',
              under',
              live,
            )
      ]
    ]
