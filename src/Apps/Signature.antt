-- ===== src/Apps/Signature.antt =====
-- The checks of keys and signatures: validatePublicKeyPEM and verifyManifestSignatureWithKey of
-- services/apps/handlers.go.
use messages.Text.{codes}
use messages.Apps.Manifest.{rsa_key, ed25519_key, Platform, KeyMaterial}
use messages.Json.{field, end, Fields}
use messages.Base.{
  arith, Option, Bool, ◌≡◌, ◌||◌, true, if◌then◌else◌, text_eq, some, none, if◌then◌else◌, false,
  if◌then◌else◌, Text, Option, Bool,
}

abbrev is_rsa : Option KeyMaterial → Bool
is_rsa (some (rsa_key k)) = true
is_rsa _ = false

abbrev is_ed25519 : Option KeyMaterial → Bool
is_ed25519 (some (ed25519_key k)) = true
is_ed25519 _ = false

abbrev names_ed25519 : Text → Bool
names_ed25519 alg = text_eq alg (codes "Ed25519") || text_eq alg (codes "EdDSA")

-- The copy of the manifest without its signature, whose payload is signed.
unfoldable pub without_signature : Fields → Fields
without_signature end = end
without_signature (field k v m) =
    let rest = without_signature m in if text_eq k (codes "signature") then rest else field k v rest

module _ (p : Platform) where
  unfoldable pub validate_public_key_pem : Text → Text → Bool
  validate_public_key_pem pem algorithm =
      if text_eq algorithm (codes "RS256")
      then is_rsa (p.parse_public_key pem)
      else if names_ed25519 algorithm
      then is_ed25519 (p.parse_public_key pem)
      else false

  abbrev rsa_accepts : Text → Text → Option KeyMaterial → Bool
  rsa_accepts payload sig (some (rsa_key k)) = p.rsa_verifies k (p.sha256_hex payload) sig
  rsa_accepts payload sig _ = false

  abbrev ed25519_accepts : Text → Text → Option KeyMaterial → Bool
  ed25519_accepts payload sig (some (ed25519_key k)) = p.ed25519_verifies k payload sig
  ed25519_accepts payload sig _ = false

  abbrev accepts_decoded : Text → Text → Text → Option Text → Bool
  accepts_decoded payload pem alg none = false
  accepts_decoded payload pem alg (some sig) =
      if text_eq alg (codes "RS256")
      then rsa_accepts payload sig (p.parse_public_key pem)
      else if names_ed25519 alg
      then ed25519_accepts payload sig (p.parse_public_key pem)
      else false

  -- true for the nil error
  unfoldable pub verify_manifest_signature_with_key : Fields → Text → Text → Text → Bool
  verify_manifest_signature_with_key manifest pem alg sig =
      accepts_decoded (p.marshal (without_signature manifest)) pem alg (p.decode_base64 sig)

  -- A key under which a signature is accepted for an algorithm is one that could have been
  -- registered for that algorithm.
  pub verify_manifest_signature_with_key-validate_public_key_pem :
      (manifest : Fields) (pem alg sig : Text)
      → verify_manifest_signature_with_key manifest pem alg sig ≡ true
      → validate_public_key_pem pem alg ≡ true
  unfolding verify_manifest_signature_with_key validate_public_key_pem
  verify_manifest_signature_with_key-validate_public_key_pem manifest pem alg sig h = ground arith
