-- ===== src/Trust/Examples.antt =====
-- The theorems about trust at a device whose key changes.
use messages.Trust.Views.{verify_trust_state-view, revoke_trust_state-view}
use messages.Text.{trim_space, equal_fold, codes}
use messages.KeyAgreement.{Suite}
use messages.Base.{◌≢◌, ◌≡◌, true, text_eq, some, refl, none, inr, [], Option}
use messages.Trust.{
  derive_effective_trust_state, revoke_trust_state, load_current_trust_material, verify_trust_state,
  verified, trust_row_written, revoked_trust, mismatch, get_trust_state_view, TrustStateView,
  TrustRow, DeviceKeys,
}

abbrev toy_suite : Suite
toy_suite = record {
  ciphers = record {
    hmac = λ key text. text;
    hkdf_expand = λ key info. some key;
    seal = λ key nonce text. text;
    unseal = λ key nonce text. some text;
  };
  x25519 = λ a b. some a;
  basepoint = [];
  encode = λ b. b;
  decode = λ t. some t;
  sha256_hex = λ b. b;
  ed25519_verifies = λ key message signature. true;
}

abbrev old_device : Option DeviceKeys
old_device = some (record { signing_public_key = codes "k1"; fingerprint = codes "AB" })

-- A device whose fingerprint is not kept.
abbrev new_device : Option DeviceKeys
new_device = some (record { signing_public_key = codes "k2"; fingerprint = [] })

abbrev confirmed_row : TrustRow
confirmed_row = trust_row_written toy_suite 5 verified (codes "AB") (codes "k1") none

verify_trust_state-view_example :
    (equal_fold (trim_space (codes " ab")) (codes "AB") ≡ true)
    × (verified ≡ verified)
    × ((view' : TrustStateView) × (get_trust_state_view toy_suite new_device
            (verify_trust_state toy_suite 5 old_device (codes " ab") none).0
          ≡ inr view')
        × (view'.effective_trust_state ≡ mismatch))
unfolding text_eq load_current_trust_material verify_trust_state trim_space equal_fold
    derive_effective_trust_state
verify_trust_state-view_example =
    verify_trust_state-view toy_suite 5 old_device new_device (codes " ab") none
      (record {
        trust_state = verified;
        effective_trust_state = verified;
        recorded_fingerprint = codes "AB";
        current_fingerprint = codes "AB";
        trust_established_at = some 5;
        verified_at = some 5;
        warning = [];
      })
      (codes "AB", codes "k1") (codes "k2", codes "k2") refl refl refl refl refl refl

revoke_trust_state-view_example : revoked_trust ≢ verified
unfolding text_eq revoke_trust_state trim_space derive_effective_trust_state
revoke_trust_state-view_example =
    revoke_trust_state-view toy_suite 9 old_device old_device (some confirmed_row)
      (record {
        trust_state = revoked_trust;
        effective_trust_state = revoked_trust;
        recorded_fingerprint = codes "AB";
        current_fingerprint = codes "AB";
        trust_established_at = some 5;
        verified_at = none;
        warning = codes "Verification was revoked for this device.";
      })
      (record {
        trust_state = revoked_trust;
        effective_trust_state = revoked_trust;
        recorded_fingerprint = codes "AB";
        current_fingerprint = codes "AB";
        trust_established_at = some 5;
        verified_at = none;
        warning = codes "Verification was revoked for this device.";
      })
      refl refl
