-- ===== src/Apps/Keys.antt =====
-- The signing keys of publishers: the four key handlers of services/apps/handlers.go over the
-- tables miniapp_registry_publisher_keys and miniapp_publisher_key_operations. A publisher and a
-- key id name at most one row. The statements name columns, and the second table, that the
-- migrations of the repository do not make: there they all fail, which is the case that `db_ok` of
-- Io is false.
pub mod Rows
use messages.Apps.Signature.{validate_public_key_pem}
use messages.Base.{
  ℕ, Bool, true, false, not, ◌&&◌, ◌||◌, Option, none, some, List, [], ◌∷◌, ◌++◌, Text, is_empty,
  is_some, text_eq, ltb, if◌then◌else◌,
}
use messages.Json.{string, end, Json, object, null, Fields, get_field}
use messages.Text.{codes, trim_space}
use messages.Apps.Manifest.{Platform}
use messages.Apps.Review.{find_key, reason_of}
use messages.Apps.Store.{
  unauthorized, method_not_allowed, invalid_request, db_error, not_available, key_fields_required,
  algorithm_invalid, public_key_invalid, key_not_found, old_key_not_found, new_key_required,
  new_key_not_found, Result, ok, err, ◌>>=◌, ◌>>◌, ensure, PublisherKey, logged_register,
  logged_revoke, logged_rotate, Server, Io, Request, is_post, is_get, is_delete, current_user_id,
}
use messages.Apps.View.{Reply, failed, key_created, keys_listed, key_rotated, no_content}

-- A member of a string type: absent and null leave it "", any other value is an error.
abbrev text_member : Text → Fields → Result Text
text_member k m = elim (get_field k m) [
  | none ↦ ok []
  | some v ↦ elim v [ null ↦ ok [] | Json.string t ↦ ok t | _ ↦ err invalid_request ]
]

abbrev body_members : Option Json → Result Fields
body_members (some (object m)) = ok m
body_members (some null) = ok Fields.end
body_members _ = err invalid_request

is_algorithm : Text → Bool
is_algorithm a =
    text_eq a (codes "RS256") || text_eq a (codes "Ed25519") || text_eq a (codes "EdDSA")

-- INSERT … ON CONFLICT (publisher_user_id, key_id) DO NOTHING
unfoldable pub insert_key : PublisherKey → List PublisherKey → List PublisherKey
insert_key k keys =
    if is_some (find_key k.publisher_user_id k.key_id keys) then keys else keys ++ k ∷ []

unfoldable pub read_key_request : Platform → Option Json → Result (Text × Text × Text)
unfolding is_algorithm
read_key_request p body = do
  m ← body_members body
  key_id ← text_member (codes "key_id") m
  algorithm ← text_member (codes "algorithm") m
  public_key ← text_member (codes "public_key") m
  ensure
      (not (is_empty (trim_space key_id))
        && not (is_empty (trim_space algorithm))
        && not (is_empty (trim_space public_key)))
      key_fields_required
  ensure (is_algorithm (trim_space algorithm)) algorithm_invalid
  ensure (validate_public_key_pem p (trim_space public_key) (trim_space algorithm))
      public_key_invalid
  ok (trim_space key_id, trim_space algorithm, trim_space public_key)

abbrev pub new_key : Platform → ℕ → Text → Text × Text × Text → PublisherKey
new_key p now user_id k = record {
  publisher_user_id = user_id;
  key_id = k.0;
  algorithm = k.1;
  public_key = k.2;
  fingerprint = p.sha256_hex k.2;
  is_active = true;
  revoked_at = none;
  rotated_to = none;
  created_at = now;
  updated_at = now;
}

unfoldable pub store_key : Platform → Io → Text → Text × Text × Text → Server → Server × Reply
unfolding insert_key
store_key p io user_id k s =
    if not s.pooled
    then (s, key_created k.0 k.1 (p.sha256_hex k.2))
    else if not io.db_ok
    then (s, failed db_error)
    else (
      record s {
        keys = insert_key (new_key p io.now user_id k) s.keys;
        key_operations = s.key_operations ++ logged_register user_id k.0 ∷ [];
      },
      key_created k.0 k.1 (p.sha256_hex k.2),
    )

unfoldable pub register_key : Platform → Io → Request → Server → Server × Reply
unfolding store_key
register_key p io r s =
    if not (is_post r.method)
    then (s, failed method_not_allowed)
    else if is_empty (current_user_id r)
    then (s, failed unauthorized)
    else elim (read_key_request p r.body) [
      | err e ↦ (s, failed e)
      | ok k ↦ store_key p io (current_user_id r) k s
    ]

-- WHERE publisher_user_id = $1 ORDER BY created_at DESC
insert_newest : PublisherKey → List PublisherKey → List PublisherKey
insert_newest k [] = k ∷ []
insert_newest k (j ∷ js) =
    let rest = insert_newest k js in if ltb k.created_at j.created_at then j ∷ rest else k ∷ j ∷ js

unfoldable pub keys_of_publisher : Text → List PublisherKey → List PublisherKey
unfolding insert_newest
keys_of_publisher user_id [] = []
keys_of_publisher user_id (k ∷ ks) =
    let rest = keys_of_publisher user_id ks in
    if text_eq k.publisher_user_id user_id then insert_newest k rest else rest

unfoldable pub list_keys : Io → Request → Server → Server × Reply
list_keys io r s =
    if not (is_get r.method)
    then (s, failed method_not_allowed)
    else if is_empty (current_user_id r)
    then (s, failed unauthorized)
    else if not s.pooled
    then (s, failed not_available)
    else if not io.db_ok
    then (s, failed db_error)
    else (s, keys_listed (keys_of_publisher (current_user_id r) s.keys))

abbrev pub names_key : Text → Text → PublisherKey → Bool
names_key user_id key_id k = text_eq k.publisher_user_id user_id && text_eq k.key_id key_id

-- UPDATE … SET revoked_at = now(), is_active = false WHERE … AND revoked_at IS NULL
unfoldable pub revoke_rows : ℕ → Text → Text → List PublisherKey → List PublisherKey
revoke_rows now user_id key_id [] = []
revoke_rows now user_id key_id (k ∷ ks) =
    (if names_key user_id key_id k && not (is_some k.revoked_at)
      then record k { revoked_at = some now; is_active = false; updated_at = now }
      else k)
    ∷ revoke_rows now user_id key_id ks

-- RowsAffected() of that statement is not zero.
unfoldable pub has_live_row : Text → Text → List PublisherKey → Bool
has_live_row user_id key_id [] = false
has_live_row user_id key_id (k ∷ ks) =
    (names_key user_id key_id k && not (is_some k.revoked_at)) || has_live_row user_id key_id ks

unfoldable pub revoke_key : Io → Request → Text → Server → Server × Reply
unfolding revoke_rows has_live_row
revoke_key io r key_id s =
    if not (is_delete r.method)
    then (s, failed method_not_allowed)
    else if is_empty (current_user_id r)
    then (s, failed unauthorized)
    else if not s.pooled
    then (s, failed not_available)
    else if not io.db_ok
    then (s, failed db_error)
    else if not (has_live_row (current_user_id r) key_id s.keys)
    then (s, failed key_not_found)
    else (
      record s {
        keys = revoke_rows io.now (current_user_id r) key_id s.keys;
        key_operations =
            s.key_operations
            ++ logged_revoke (current_user_id r) key_id (trim_space (reason_of r.body)) ∷ [];
      },
      no_content,
    )

-- UPDATE … SET rotated_to_key_id = $1, updated_at = now()
unfoldable pub rotate_rows : ℕ → Text → Text → Text → List PublisherKey → List PublisherKey
rotate_rows now user_id old_id new_id [] = []
rotate_rows now user_id old_id new_id (k ∷ ks) =
    (if names_key user_id old_id k
      then record k { rotated_to = some new_id; updated_at = now }
      else k)
    ∷ rotate_rows now user_id old_id new_id ks

abbrev is_active_key : Option PublisherKey → Bool
is_active_key none = false
is_active_key (some k) = k.is_active

unfoldable pub rotation_check : Io → Text → Text → Option Json → Server → Result Text
rotation_check io user_id old_id body s = do
  ensure s.pooled not_available
  m ← body_members body
  new_id ← text_member (codes "new_key_id") m
  ensure (not (is_empty (trim_space new_id))) new_key_required
  ensure io.db_ok db_error
  ensure (is_active_key (find_key user_id old_id s.keys)) old_key_not_found
  ensure (is_some (find_key user_id (trim_space new_id) s.keys)) new_key_not_found
  ok (trim_space new_id)

unfoldable pub rotate_checked : Io → Text → Text → Server → Result Text → Server × Reply
unfolding rotate_rows
rotate_checked io user_id old_id s (err e) = (s, failed e)
rotate_checked io user_id old_id s (ok new_id) = (
  record s {
    keys = rotate_rows io.now user_id old_id new_id s.keys;
    key_operations = s.key_operations ++ logged_rotate user_id new_id old_id ∷ [];
  },
  key_rotated old_id new_id,
)

unfoldable pub rotate_key : Io → Request → Text → Server → Server × Reply
rotate_key io r old_id s =
    if not (is_post r.method)
    then (s, failed method_not_allowed)
    else if is_empty (current_user_id r)
    then (s, failed unauthorized)
    else rotate_checked io (current_user_id r) old_id s
        (rotation_check io (current_user_id r) old_id r.body s)
