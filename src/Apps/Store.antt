-- ===== src/Apps/Store.antt =====
-- How the registry's handlers reach its state: loadState, saveState and mutateState of
-- services/apps/registry.go. The state is loaded whole, changed in memory, and saved whole: to a
-- file by way of a temporary file and a rename, or in one database transaction.
use messages.Base.{
  ◌≡◌, ◌⊎◌, inl, inr, refl, arith, Bool-cases, ℕ, Bool, true, false, Option, none, some, List, [],
  ◌∷◌, ◌++◌, Text, Map, if◌then◌else◌, text_eq,
}
use messages.Json.{Json}
use messages.Text.{codes, trim_space, to_lower}
use messages.Apps.Types.{ReviewStatus, SourceType, Visibility, App, State}
use messages.Apps.Manifest.{ManifestError}
use messages.Apps.Pointers.{refresh_latest_pointers}

-- The errors, one for each pair of a code and a message.
pub data ApiError : Type 0 where
  unauthorized method_not_allowed not_routed invalid_request : ApiError
  app_id_mismatch names_required : ApiError
  invalid_manifest : ManifestError → ApiError
  publisher_not_owner admin_required : ApiError
  app_not_found release_not_found install_not_found : ApiError
  app_exists release_exists version_conflict not_installable : ApiError
  immutability_violation invalid_transition signature_rejected : ApiError
  load_failed internal_error db_error not_available : ApiError
  key_fields_required algorithm_invalid public_key_invalid : ApiError
  key_not_found old_key_not_found new_key_required new_key_not_found : ApiError

unfoldable pub http_status : ApiError → ℕ
http_status unauthorized = 401
http_status method_not_allowed = 405
http_status not_routed = 404
http_status publisher_not_owner = 403
http_status admin_required = 403
http_status app_not_found = 404
http_status release_not_found = 404
http_status install_not_found = 404
http_status key_not_found = 404
http_status old_key_not_found = 404
http_status app_exists = 409
http_status release_exists = 409
http_status version_conflict = 409
http_status not_installable = 409
http_status load_failed = 500
http_status internal_error = 500
http_status db_error = 500
http_status not_available = 501
http_status _ = 400

pub data Result {ℓ} (A : Type ℓ) : Type ℓ where
  ok : A → Result A
  err : ApiError → Result A

infixl 10 ◌>>=◌ ◌>>◌
abbrev pub ◌>>=◌ {ℓ κ} : {A : Type ℓ} {C : Type κ} → Result A → (A → Result C) → Result C
err e >>= next = err e
ok a >>= next = next a

abbrev pub ◌>>◌ {κ} : {C : Type κ} → Result (Unit {0}) → Result C → Result C
first_part >> next = first_part >>= λ done. next

-- `if !test { return err }`
abbrev pub ensure : Bool → ApiError → Result (Unit {0})
ensure true e = ok tt
ensure false e = err e

abbrev pub or_fail {ℓ} : {A : Type ℓ} → Option A → ApiError → Result A
or_fail none e = err e
or_fail (some a) e = ok a

-- What follows a test in a block that succeeds.
pub ensured {ℓ} :
    {A : Type ℓ} (b : Bool) (e : ApiError) (k : Result A) {a : A}
    → (ensure b e >> k) ≡ ok a
    → k ≡ ok a
ensured true e k h = h
ensured false e k h = cc

pub ensured_test {ℓ} :
    {A : Type ℓ} (b : Bool) (e : ApiError) (k : Result A) {a : A}
    → (ensure b e >> k) ≡ ok a
    → b ≡ true
ensured_test true e k h = refl
ensured_test false e k h = cc

-- What a lookup in a block that succeeds has found.
pub found_in {ℓ κ} :
    {A : Type ℓ} {B : Type κ} (o : Option A) (e : ApiError) (f : A → Result B) {b : B}
    → (or_fail o e >>= f) ≡ ok b
    → (a : A) × (o ≡ some a) × (f a ≡ ok b)
found_in none e f h = cc
found_in (some a) e f h = (a, refl, h)

pub succeeded {ℓ κ} :
    {A : Type ℓ} {B : Type κ} (x : Result A) (f : A → Result B) {b : B}
    → (x >>= f) ≡ ok b
    → (a : A) × (x ≡ ok a) × (f a ≡ ok b)
succeeded (ok a) f h = (a, refl, h)
succeeded (err e) f h = cc

-- What an audit entry records, with its metadata.
pub data Action : Type 0 where
  app_created : Option Visibility → Action
  release_created : SourceType → Option ReviewStatus → Action
  install_updated install_removed : Action
  release_transition : ReviewStatus → Action

pub record AuditEntry : Type 0 where
  pub app_id : Text
  pub version : Text
  pub actor_user_id : Text
  pub action : Action
  pub note : Text
  pub created_at : ℕ

-- A row of miniapp_registry_publisher_keys with the columns that the statements of handlers.go name;
-- the migrations of the repository make only the first four, created_at and revoked_at.
pub record PublisherKey : Type 0 where
  pub publisher_user_id : Text
  pub key_id : Text
  pub algorithm : Text
  pub public_key : Text
  pub fingerprint : Text
  pub is_active : Bool
  pub revoked_at : Option ℕ
  pub rotated_to : Option Text
  pub created_at : ℕ
  pub updated_at : ℕ

-- A row of miniapp_publisher_key_operations.
pub data KeyOperation : Type 0 where
  logged_register : Text → Text → KeyOperation
  logged_revoke : Text → Text → Text → KeyOperation
  logged_rotate : Text → Text → Text → KeyOperation

-- appsServer, with what it has saved. `pooled` is `s.pool != nil`. The audit log and the keys are
-- tables of the database.
pub record Server : Type 0 where
  pub pooled : Bool
  pub saved : State
  pub audit : List AuditEntry
  pub keys : List PublisherKey
  pub key_operations : List KeyOperation

-- What the outside answers during one request: the clock, and whether loading, saving and the
-- other database statements succeed.
pub record Io : Type 0 where
  pub now : ℕ
  pub load_ok : Bool
  pub save_ok : Bool
  pub db_ok : Bool

pub data Method : Type 0 where
  get post delete other : Method

-- The query holds the first value of each parameter; the body is `none` if it is not JSON.
pub record Request : Type 0 where
  pub method : Method
  pub user_header : Text
  pub role_header : Text
  pub query : Map Text
  pub body : Option Json

abbrev pub is_get : Method → Bool
is_get get = true
is_get _ = false

abbrev pub is_post : Method → Bool
is_post post = true
is_post _ = false

abbrev pub is_delete : Method → Bool
is_delete delete = true
is_delete _ = false

unfoldable pub current_user_id : Request → Text
current_user_id r = trim_space r.user_header

unfoldable pub is_admin : Request → Bool
is_admin r = text_eq (to_lower (trim_space r.role_header)) (codes "admin")

-- The loop over the apps at the end of a load.
unfoldable pub refresh_apps : Map App → Map App
refresh_apps [] = []
refresh_apps ((k, app) ∷ apps) = (k, refresh_latest_pointers app) ∷ refresh_apps apps

-- What a load hands out.
abbrev pub loaded : Server → State
loaded s = record s.saved { apps = refresh_apps s.saved.apps }

unfoldable pub load_state : Io → Server → Result State
load_state io s =
    if io.load_ok then ok (record s.saved { apps = refresh_apps s.saved.apps }) else err load_failed

-- What a mutation returns: the changed state, the entries to log, and what its closure sets.
pub record Mutation {ℓ} (A : Type ℓ) : Type ℓ where
  pub state : State
  pub entries : List AuditEntry
  pub extra : A

module _ {ℓ} {A : Type ℓ} where
  -- The server after the save. Without a pool the entries are dropped. A database does not keep
  -- requires_reconsent and previous_permissions, which a file does; here they are kept.
  abbrev pub after_save : Server → Mutation A → Server
  after_save s m = record s {
    saved = m.state;
    audit = if s.pooled then s.audit ++ m.entries else s.audit;
  }

  -- A failed save leaves the old file, or rolls the transaction back.
  unfoldable pub save_mutation : Io → Server → Result (Mutation A) → Server × Result (Mutation A)
  save_mutation io s (err e) = (s, err e)
  save_mutation io s (ok m) = if io.save_ok then (after_save s m, ok m) else (s, err internal_error)

  unfoldable pub mutate_state :
      Io → Server → (State → Result (Mutation A)) → Server × Result (Mutation A)
  unfolding save_mutation
  mutate_state io s mutate =
      if io.load_ok then save_mutation io s (mutate (loaded s)) else (s, err internal_error)

  -- Either the closure's change of the loaded state is saved, or there is an error and no change.
  pub mutate_state_cases :
      (io : Io) (s : Server) (f : State → Result (Mutation A))
      → ((e : ApiError) × ((mutate_state io s f).1 ≡ err e) × ((mutate_state io s f).0 ≡ s))
        ⊎ ((m : Mutation A) × ((mutate_state io s f).1 ≡ ok m)
            × ((mutate_state io s f).0 ≡ after_save s m)
            × (f (loaded s) ≡ ok m))
  unfolding mutate_state
  mutate_state_cases io s f = elim (Bool-cases io.load_ok) [
    | inr e ↦ inl (internal_error, ground arith, ground arith)
    | inl e ↦ rw e (go (f (loaded s)) refl)
  ]
    where
      go :
          (x : Result (Mutation A))
          → f (loaded s) ≡ x
          → ((e : ApiError) × ((save_mutation io s x).1 ≡ err e) × ((save_mutation io s x).0 ≡ s))
            ⊎ ((m : Mutation A) × ((save_mutation io s x).1 ≡ ok m)
                × ((save_mutation io s x).0 ≡ after_save s m)
                × (x ≡ ok m))
      go (err e) h = inl (e, refl, refl)
      go (ok m) h = elim (Bool-cases io.save_ok) [
        | inl y ↦ inr (m, rw y, rw y, refl)
        | inr n ↦ inl (internal_error, rw n, rw n)
      ]
