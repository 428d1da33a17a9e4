-- ===== src/Apps/Steps/Revocation.antt =====
-- The signing keys under requests, for a database whose tables of keys have the columns that the
-- statements name: what is revoked stays revoked, and signs nothing any more.
use messages.Apps.Signature.{verify_manifest_signature_with_key}
use messages.Apps.Steps.Serve.{serve-Handled}
use messages.Apps.Keys.{revoke_rows, revoke_key, has_live_row}
use messages.Text.{codes}
use messages.Apps.Review.{
  verify_release_signature, approve_checked, approval_check, admin_approve_release,
}
use messages.Apps.View.{no_content, failed, Reply}
use messages.Apps.Manifest.{Platform}
use messages.Apps.Keys.Rows.{
  rotate_rows-IsSound, rotate_rows-IsRevoked, revoke_live-IsRevoked, revoke_rows-IsSound,
  revoke_rows-IsRevoked, insert_key-IsSound, insert_key-IsRevoked, IsSound, IsRevoked,
}
use messages.Apps.Store.{
  signature_rejected, loaded, load_state, is_admin, current_user_id, Server, Request, PublisherKey,
  Io,
}
use messages.Json.{string_or_empty, object, get_field, Fields}
use messages.Apps.Route.{serve, Endpoint}
use messages.Apps.Steps.{
  shown, rows_rotated, rows_revoked, reviewed, released, registered, refused, panicked, keyed,
  key_inserted, install_made, install_dropped, changed, app_made, KeyStep, Handled, Change,
}
use messages.Apps.Types.{is_dev, State, Release, App}
use messages.Base.{
  inr, inl, false, arith, [], List, ◌&&◌, Bool, All, ◌&&◌, ◌⊎◌, ◌≡◌, true, sym, subst, some, not,
  lookup, is_empty, inr, inl, false, arith, [], Text, List, Bool, All, ◌&&◌,
}

-- The keys after a change of the registry are those before.
Change-keys :
    (p : Platform) (io : Io) (r : Request) (e : Endpoint) (st : State) (x : Server × Reply)
    (s : Server)
    → Change p io r e st x s
    → x.0.keys ≡ s.keys
Change-keys p io r e st x s (registered manifest m _ _ _ save _) = rw save
Change-keys p io r e st x s (released app_id manifest m _ _ _ _ save _) = rw save
Change-keys p io r e st x s (app_made req m _ _ _ _ save _) = rw save
Change-keys p io r e st x s (install_made app_id m _ _ _ save _) = rw save
Change-keys p io r e st x s (install_dropped app_id m _ _ _ save _) = rw save
Change-keys p io r e st x s (reviewed a v status note only m _ _ _ _ save _) = rw save

serve-KeyStep :
    (p : Platform) (io : Io) (r : Request) (e : Endpoint) (s : Server)
    → ((serve p e io r s).0.keys ≡ s.keys) ⊎ KeyStep p io r s.keys (serve p e io r s).0.keys
serve-KeyStep p io r e s = go (serve p e io r s) (serve-Handled p io r e s)
  where
    go :
        (x : Server × Reply)
        → Handled p io r e s x
        → (x.0.keys ≡ s.keys) ⊎ KeyStep p io r s.keys x.0.keys
    go x (refused a q _) = inl (rw q)
    go x (shown q _) = inl (rw q)
    go x (keyed _ _ q _) = inr q
    go x (changed c) = inl (Change-keys p io r e (loaded s) x s c)
    go x (panicked _ q _) = inl (rw q)

-- Every request keeps the rows of the keys sound: one that has been revoked is not active.
pub serve-keys_IsSound :
    (p : Platform) (io : Io) (r : Request) (e : Endpoint) (s : Server)
    → All IsSound s.keys
    → All IsSound (serve p e io r s).0.keys
serve-keys_IsSound p io r e s h = elim (serve-KeyStep p io r e s) [
  | inl q ↦ subst (All IsSound) (sym q) h
  | inr step ↦ go _ step
]
  where
    go : (keys : List PublisherKey) → KeyStep p io r s.keys keys → All IsSound keys
    go keys (key_inserted k q) =
        subst (All IsSound) (sym q) (insert_key-IsSound _ s.keys (λ f. cc) h)
    go keys (rows_revoked i q) =
        subst (All IsSound) (sym q) (revoke_rows-IsSound io.now _ i s.keys h)
    go keys (rows_rotated i j q) =
        subst (All IsSound) (sym q) (rotate_rows-IsSound io.now _ i j s.keys h)

-- A key that is revoked stays so, whatever is asked and by whom: registering it again or rotating
-- to it does not bring it back.
pub serve-keeps_IsRevoked :
    (p : Platform) (io : Io) (r : Request) (e : Endpoint) (s : Server) (u i : Text)
    → IsRevoked u i s.keys
    → IsRevoked u i (serve p e io r s).0.keys
serve-keeps_IsRevoked p io r e s u i h = elim (serve-KeyStep p io r e s) [
  | inl q ↦ subst (IsRevoked u i) (sym q) h
  | inr step ↦ go _ step
]
  where
    go : (keys : List PublisherKey) → KeyStep p io r s.keys keys → IsRevoked u i keys
    go keys (key_inserted k q) = subst (IsRevoked u i) (sym q) (insert_key-IsRevoked u i _ s.keys h)
    go keys (rows_revoked j q) =
        subst (IsRevoked u i) (sym q) (revoke_rows-IsRevoked io.now _ j [] u i s.keys h)
    go keys (rows_rotated j k q) =
        subst (IsRevoked u i) (sym q) (rotate_rows-IsRevoked io.now _ j k u i s.keys h)

revoke_key_cases :
    (io : Io) (r : Request) (i : Text) (s : Server)
    → (revoke_key io r i s).1 ≡ no_content
    → (has_live_row (current_user_id r) i s.keys ≡ true)
      × ((revoke_key io r i s).0.keys ≡ revoke_rows io.now (current_user_id r) i s.keys)
unfolding revoke_key
revoke_key_cases io r i s h = ground arith

-- If the keys are sound and revoking a key is answered with success, the key is revoked.
pub revoke_key-IsRevoked :
    (io : Io) (r : Request) (i : Text) (s : Server)
    → All IsSound s.keys
    → (revoke_key io r i s).1 ≡ no_content
    → IsRevoked (current_user_id r) i (revoke_key io r i s).0.keys
revoke_key-IsRevoked io r i s sound h =
    let (live, q) = revoke_key_cases io r i s h in
    subst (IsRevoked (current_user_id r) i) (sym q)
      (revoke_live-IsRevoked io.now (current_user_id r) i s.keys sound live)

all_false : (a b c d x : Bool) → (a && b && c && (d && false && x)) ≡ false
all_false a b c d x = ground arith

revoked_signs_nothing :
    (p : Platform) (db_ok : Bool) (u i : Text) (keys : List PublisherKey) (manifest m : Fields)
    → IsRevoked u i keys
    → get_field (codes "signature") manifest ≡ some (object m)
    → string_or_empty (get_field (codes "kid") m) ≡ i
    → verify_release_signature p db_ok keys manifest u ≡ false
unfolding verify_release_signature
revoked_signs_nothing p db_ok u i keys manifest m (k, found, off) signed kid =
    rw (signed, kid, found, off)
      (all_false (not (is_empty (string_or_empty (get_field (codes "alg") m)))) (not (is_empty i))
        (not (is_empty (string_or_empty (get_field (codes "sig") m)))) db_ok
        (verify_manifest_signature_with_key p manifest k.public_key
          (string_or_empty (get_field (codes "alg") m))
          (string_or_empty (get_field (codes "sig") m))))

-- A production release that is signed with a revoked key of its publisher is not approved: an
-- admin who asks for it is answered that the signature is rejected, and nothing changes.
pub revoked_key_approves_nothing :
    (p : Platform) (io : Io) (r : Request) (a v u i : Text) (s : Server) (app : App)
    (release : Release) (m : Fields)
    → io.load_ok ≡ true
    → is_admin r ≡ true
    → s.pooled ≡ true
    → lookup a (loaded s).apps ≡ some app
    → lookup v app.releases ≡ some release
    → is_dev release.source_type ≡ false
    → release.publisher_user_id ≡ u
    → get_field (codes "signature") release.manifest ≡ some (object m)
    → string_or_empty (get_field (codes "kid") m) ≡ i
    → IsRevoked u i s.keys
    → admin_approve_release p io r a v s ≡ (s, failed signature_rejected)
unfolding admin_approve_release approval_check load_state approve_checked
revoked_key_approves_nothing p io r a v u i s app release m loads admin pooled found under no_dev by
      signed kid off =
    rw (
      admin,
      loads,
      found,
      under,
      no_dev,
      pooled,
      by,
      revoked_signs_nothing p io.db_ok u i s.keys release.manifest m off signed kid,
    )
