-- ===== src/Apps/Manifest.antt =====
-- Manifests: validateManifest and the functions that read one (services/apps/registry.go). What
-- the code takes from packages that are not part of it is the record `Platform`.
use messages.Base.{
  Bool, true, false, not, ◌&&◌, ◌||◌, Option, none, some, List, [], ◌∷◌, ◌++◌, Text, text_eq,
  is_empty, is_some, if◌then◌else◌,
}
use messages.Json.{
  Json, null, array, object, Items, nil, cons, Fields, end, field, get_field, as_object,
  object_or_nil, string_or_empty, string_field,
}
use messages.Text.{codes, trim_space, to_lower, has_prefix}
use messages.Apps.Types.{
  ReviewStatus, approved, draft, SourceType, dev, external, registry, Visibility, public, private,
  is_dev,
}
use messages.Apps.Version.{is_semver}
use messages.Apps.Permissions.Sort.{sort, compact}

-- A public key as x509.ParsePKIXPublicKey answers it.
pub data KeyMaterial : Type 0 where
  rsa_key ed25519_key : Text → KeyMaterial
  other_key : KeyMaterial

-- json.Marshal, sha256 in hexadecimal, url.Parse (the scheme and the host, `none` for an error),
-- base64.StdEncoding.DecodeString, pem.Decode with x509.ParsePKIXPublicKey, rsa.VerifyPKCS1v15 (of
-- a digest) and ed25519.Verify (of a payload).
pub record Platform : Type 0 where
  pub marshal : Fields → Text
  pub sha256_hex : Text → Text
  pub parse_url : Text → Option (Text × Text)
  pub decode_base64 : Text → Option Text
  pub parse_public_key : Text → Option KeyMaterial
  pub rsa_verifies : Text → Text → Text → Bool
  pub ed25519_verifies : Text → Text → Text → Bool

pub data ManifestError : Type 0 where
  manifest_required app_id_required name_required version_invalid : ManifestError
  entrypoint_required entrypoint_type_invalid entrypoint_url_required : ManifestError
  preview_required preview_type_invalid preview_url_required : ManifestError
  permissions_required capabilities_required signature_invalid : ManifestError

abbrev is_array : Option Json → Bool
is_array (some (array xs)) = true
is_array _ = false

unfoldable pub signature_complete : Fields → Bool
signature_complete m =
    not (is_empty (string_field m (codes "alg")))
    && not (is_empty (string_field m (codes "kid")))
    && not (is_empty (string_field m (codes "sig")))

abbrev signature_accepted : Option Json → Bool
signature_accepted none = true
signature_accepted (some null) = true
signature_accepted (some (object m)) = signature_complete m
signature_accepted _ = false

validate_capabilities : Fields → Option ManifestError
unfolding signature_complete
validate_capabilities raw =
    if not (is_some (as_object (get_field (codes "capabilities") raw)))
    then some capabilities_required
    else if not (signature_accepted (get_field (codes "signature") raw))
    then some signature_invalid
    else none

is_preview_type : Text → Bool
is_preview_type t = text_eq t (codes "static_image") || text_eq t (codes "live")

validate_preview : Fields → Option Fields → Option ManifestError
unfolding validate_capabilities is_preview_type
validate_preview raw none = some preview_required
validate_preview raw (some preview) =
    if not (is_preview_type (string_field preview (codes "type")))
    then some preview_type_invalid
    else if is_empty (string_field preview (codes "url"))
    then some preview_url_required
    else if not (is_array (get_field (codes "permissions") raw))
    then some permissions_required
    else validate_capabilities raw

is_entry_type : Text → Bool
is_entry_type t =
    text_eq t (codes "url") || text_eq t (codes "inline") || text_eq t (codes "web_bundle")

validate_entrypoint : Fields → Option Fields → Option ManifestError
unfolding validate_preview is_entry_type
validate_entrypoint raw none = some entrypoint_required
validate_entrypoint raw (some entrypoint) =
    if not (is_entry_type (string_field entrypoint (codes "type")))
    then some entrypoint_type_invalid
    else if is_empty (string_field entrypoint (codes "url"))
    then some entrypoint_url_required
    else validate_preview raw (as_object (get_field (codes "message_preview") raw))

-- `none` is the nil error.
unfoldable pub validate_manifest : Fields → Option ManifestError
unfolding validate_entrypoint
validate_manifest end = some manifest_required
validate_manifest (field k v fs) =
    let raw = field k v fs in
    if is_empty (string_field raw (codes "app_id"))
    then some app_id_required
    else if is_empty (string_field raw (codes "name"))
    then some name_required
    else if not (is_semver (string_field raw (codes "version")))
    then some version_invalid
    else validate_entrypoint raw (as_object (get_field (codes "entrypoint") raw))

module _ (p : Platform) where
  unfoldable pub manifest_content_hash_of : Fields → Text
  manifest_content_hash_of m = codes "sha256:" ++ p.sha256_hex (p.marshal m)

  unfoldable pub manifest_hash_of : Fields → Text
  manifest_hash_of m = p.sha256_hex (p.marshal m)

  abbrev origin_of : Option (Text × Text) → Text
  origin_of none = []
  origin_of (some (scheme, host)) =
      if is_empty scheme || is_empty host then [] else scheme ++ codes "://" ++ host

  unfoldable pub manifest_origin : Text → Text
  manifest_origin raw = origin_of (p.parse_url (trim_space raw))

  unfoldable pub source_type_of_origin : Text → SourceType
  source_type_of_origin origin =
      if has_prefix (codes "http://localhost:") origin
        || has_prefix (codes "https://localhost:") origin
        || has_prefix (codes "http://127.0.0.1:") origin
        || has_prefix (codes "https://127.0.0.1:") origin
      then dev
      else if not (is_empty origin)
      then external
      else registry

  unfoldable pub manifest_source_type : Fields → SourceType
  manifest_source_type raw = source_type_of_origin (
      manifest_origin
        (string_field (object_or_nil (get_field (codes "entrypoint") raw)) (codes "url")))

unfoldable pub manifest_visibility : Fields → Visibility
manifest_visibility raw =
    let metadata = object_or_nil (get_field (codes "metadata") raw) in
    if text_eq (to_lower (string_field metadata (codes "visibility"))) (codes "private")
    then private
    else public

unfoldable pub manifest_summary : Fields → Text
manifest_summary raw =
    string_field (object_or_nil (get_field (codes "metadata") raw)) (codes "summary")

-- The trimmed strings of an array that are not blank.
unfoldable pub trimmed_strings : Items → List Text
trimmed_strings nil = []
trimmed_strings (cons v vs) =
    let value = trim_space (string_or_empty (some v)) in
    let rest = trimmed_strings vs in if is_empty value then rest else value ∷ rest

abbrev pub items_or_nil : Option Json → Items
items_or_nil (some (array xs)) = xs
items_or_nil _ = nil

abbrev web_if_none : List Text → List Text
web_if_none [] = codes "web" ∷ []
web_if_none (x ∷ xs) = x ∷ xs

unfoldable pub manifest_platforms : Fields → List Text
manifest_platforms raw =
    let metadata = object_or_nil (get_field (codes "metadata") raw) in
    compact (
      sort (
        web_if_none
          (trimmed_strings (items_or_nil (get_field (codes "supported_platforms") metadata)))))

unfoldable pub initial_review_status : SourceType → ReviewStatus
initial_review_status s = if is_dev s then approved else draft

-- decodeManifestPayload, on the body as JSON; `none` stands for a body that is not JSON.
unfoldable pub decode_manifest_payload : Option Json → Option Fields
decode_manifest_payload (some null) = some end
decode_manifest_payload (some (object raw)) = elim (get_field (codes "manifest") raw) [
  | none ↦ some raw
  | some wrapped ↦ as_object (some wrapped)
]
decode_manifest_payload _ = none
