-- ===== src/Apps/Examples.antt =====
-- Concrete requests, releases and servers, at which the theorems about the registry are applied.
use messages.Apps.Manifest.{Platform}
use messages.Apps.Manifest.{rsa_key}
use messages.Text.{codes}
use messages.Base.{◌∷◌, ℕ, true, some, none, lookup, false, [], Text, Option, List}
use messages.Apps.Store.{post, Server, Request, PublisherKey, Method, Io}
use messages.Json.{string, object, nil, field, end, cons, array, Json, Items, Fields}
use messages.Apps.Route.{serve, installs, approves, Endpoint}
use messages.Apps.Types.{submitted, public, external, approved, ReviewStatus, Release, Install, App}
pub mod Requests
pub mod Parts
pub mod Views

abbrev pub identity : Text → Text
identity t = t

-- A platform that hashes a text to itself, takes every URL for one of a host and every key for
-- one of RSA, and accepts every signature.
abbrev pub sample_platform : Platform
sample_platform = record {
  marshal = λ m. codes "{}";
  sha256_hex = identity;
  parse_url = λ t. some (codes "https", codes "apps.example");
  decode_base64 = λ t. some t;
  parse_public_key = λ t. some (rsa_key t);
  rsa_verifies = λ k h s. true;
  ed25519_verifies = λ k h s. true;
}

abbrev pub sample_io : Io
sample_io = record { now = 9; load_ok = true; save_ok = true; db_ok = true }

abbrev pub asks : Method → Text → Text → Option Json → Request
asks method user role body = record {
  method = method;
  user_header = user;
  role_header = role;
  query = [];
  body = body;
}

abbrev pub permissions : List Text → Items
permissions [] = nil
permissions (t ∷ ts) = cons (Json.string t) (permissions ts)

abbrev pub manifest_with : List Text → Fields
manifest_with ts = field (codes "permissions") (array (permissions ts)) end

abbrev pub signed_manifest : Fields
signed_manifest =
    field (codes "signature")
      (object (
        field (codes "alg") (Json.string (codes "RS256")) (
          field (codes "kid") (Json.string (codes "k1"))
            (field (codes "sig") (Json.string (codes "s")) end))))
      end

abbrev pub sample_release : Text → Fields → ReviewStatus → Option ℕ → Release
sample_release version manifest status published = record {
  version = version;
  manifest = manifest;
  manifest_hash = [];
  review_status = status;
  review_note = [];
  source_type = external;
  visibility = public;
  publisher_user_id = codes "ann";
  supported_platforms = [];
  entrypoint_origin = [];
  preview_origin = [];
  created_at = 1;
  submitted_at = none;
  reviewed_at = none;
  published_at = published;
  revoked_at = none;
  suspended_at = none;
  suspension_reason = [];
  manifest_content_hash = [];
  asset_set_hash = [];
  immutable_at = none;
  requires_reconsent = false;
  previous_permissions = [];
}

abbrev pub first : Release
first = sample_release (codes "1.0.0") (manifest_with []) approved (some 2)

abbrev pub second : Release
second = sample_release (codes "1.1.0") (manifest_with (codes "camera" ∷ [])) approved (some 3)

abbrev pub third : Release
third = sample_release (codes "2.0.0") signed_manifest submitted none

abbrev pub sample_app : App
sample_app = record {
  app_id = codes "chess";
  name = codes "Chess";
  owner_user_id = codes "ann";
  visibility = public;
  summary = [];
  created_at = 1;
  updated_at = 1;
  latest_version = codes "2.0.0";
  latest_approved = codes "1.1.0";
  releases = (codes "1.0.0", first) ∷ (codes "1.1.0", second) ∷ (codes "2.0.0", third) ∷ [];
}

abbrev pub sample_install : Install
sample_install = record {
  app_id = codes "chess";
  installed_version = codes "1.0.0";
  auto_update = true;
  enabled = true;
  installed_at = 2;
  updated_at = 2;
}

abbrev pub sample_key : PublisherKey
sample_key = record {
  publisher_user_id = codes "ann";
  key_id = codes "k1";
  algorithm = codes "RS256";
  public_key = codes "pem";
  fingerprint = codes "pem";
  is_active = true;
  revoked_at = none;
  rotated_to = none;
  created_at = 1;
  updated_at = 1;
}

abbrev pub sample_server : Server
sample_server = record {
  pooled = true;
  saved = record {
    apps = (codes "chess", sample_app) ∷ [];
    installs = (codes "bob", (codes "chess", sample_install) ∷ []) ∷ [];
  };
  audit = [];
  keys = sample_key ∷ [];
  key_operations = [];
}

abbrev pub admin_asks : Request
admin_asks = asks post (codes "root") (codes "admin") none

abbrev pub bob_asks : Request
bob_asks = asks post (codes "bob") [] none

abbrev pub chess : Text
chess = codes "chess"

abbrev pub approval : Endpoint
approval = approves (codes "chess") (codes "2.0.0")

-- The app after a request, if it is there.
abbrev pub app_of : Server → App
app_of s = elim (lookup chess s.saved.apps) [ none ↦ sample_app | some app ↦ app ]

abbrev pub release_of : Text → App → Release
release_of v app = elim (lookup v app.releases) [ none ↦ first | some release ↦ release ]

abbrev pub after_approval : Server
after_approval = (serve sample_platform approval sample_io admin_asks sample_server).0
