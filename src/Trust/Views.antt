-- ===== src/Trust/Views.antt =====
-- What the view shows after a verification and after a revocation.
use messages.Text.{trim_space, to_lower, equal_fold, codes}
use messages.KeyAgreement.{Suite}
use messages.Trust.{
  write_trust_state, view_of_row, verify_trust_state, verified, unverified, trust_row_written,
  revoked_trust, revoke_trust_state, normalize_stored_trust_state, mismatch,
  load_current_trust_material, get_trust_state_view, fingerprint_mismatch,
  derive_effective_trust_state, TrustStateView, TrustRow, TrustError, DeviceKeys,
}
use messages.Base.{
  ◌⊎◌, ◌≢◌, ◌≡◌, ◌∙◌, ℕ, ◌||◌, true, if◌then◌else◌, text_eq_refl, text_eq_iff, text_eq, sym, subst,
  some, refl, not, is_empty, inr, inl, if◌then◌else◌, false, if◌then◌else◌, arith, ap, [], Text,
  Option, Either-cases, Bool-cases, ◌&&◌,
}

equal_fold_refl : (t : Text) → equal_fold t t ≡ true
unfolding equal_fold
equal_fold_refl t = text_eq_refl (to_lower t)

derive_same :
    (state current : Text)
    → derive_effective_trust_state state current current ≡ (
        if text_eq (normalize_stored_trust_state state) revoked_trust
        then (revoked_trust, codes "Verification was revoked for this device.")
        else if text_eq (normalize_stored_trust_state state) verified
        then (verified, [])
        else (unverified, []))
unfolding derive_effective_trust_state
derive_same state current = ground (arith, equal_fold_refl (trim_space current))

derive_other :
    (state recorded current : Text)
    → is_empty (trim_space recorded) ≡ false
    → is_empty (trim_space current) ≡ false
    → equal_fold (trim_space recorded) (trim_space current) ≡ false
    → derive_effective_trust_state state recorded current
      ≡ (mismatch, codes "Current fingerprint does not match the previously recorded trust state.")
unfolding derive_effective_trust_state
derive_other state recorded current hr hc hd = rw (derive_effective_trust_state, hr, hc, hd) refl

inr_eq : (x : TrustError ⊎ TrustStateView) (v w : TrustStateView) → x ≡ inr v → x ≡ inr w → v ≡ w
inr_eq x v w h k = cc

apart_text : (a b : Text) → text_eq a b ≡ false → a ≢ b
apart_text a b h q = ground (arith, (text_eq_iff a b).1 q)

blocked_shown :
    (recorded current : Text)
    → (derive_effective_trust_state (codes "BLOCKED") recorded current).0 ≢ verified
unfolding derive_effective_trust_state normalize_stored_trust_state text_eq trim_space
blocked_shown recorded current h =
    elim (Bool-cases (
      not (is_empty (trim_space recorded))
      && not (is_empty (trim_space current))
      && not (equal_fold (trim_space recorded) (trim_space current)))) [
        | inl apart ↦
            apart_text mismatch verified refl
              (sym (rw (derive_effective_trust_state, apart) refl) ∙ h)
        | inr alike ↦
            apart_text revoked_trust verified refl
              (sym (rw (derive_effective_trust_state, alike) refl) ∙ h)
      ]

derive_verified :
    (current : Text) → derive_effective_trust_state verified current current ≡ (verified, [])
unfolding normalize_stored_trust_state text_eq trim_space
derive_verified current = derive_same verified current

module _ (s : Suite) where
  get_view :
      (device : Option DeviceKeys) (row : TrustRow) (material : Text × Text)
      → load_current_trust_material s device ≡ inr material
      → get_trust_state_view s device (some row) ≡ inr (view_of_row material.0 row)
  unfolding get_trust_state_view
  get_view device row material hm = rw (get_trust_state_view, hm) refl

  -- Where a verification succeeds and the fingerprint of the device is not blank, the user has given
  -- that fingerprint, the view shows the device as verified, and it shows a mismatch as soon as the
  -- device has a key with another fingerprint that is not blank.
  pub verify_trust_state-view :
      (now : ℕ) (device device' : Option DeviceKeys) (expected : Text) (row : Option TrustRow)
      (view : TrustStateView) (material material' : Text × Text)
      → load_current_trust_material s device ≡ inr material
      → (verify_trust_state s now device expected row).1 ≡ inr view
      → load_current_trust_material s device' ≡ inr material'
      → is_empty (trim_space material.0) ≡ false
      → is_empty (trim_space material'.0) ≡ false
      → equal_fold (trim_space material.0) (trim_space material'.0) ≡ false
      → (equal_fold (trim_space expected) material.0 ≡ true)
        × (view.effective_trust_state ≡ verified)
        × ((view' : TrustStateView) × (get_trust_state_view s device'
                (verify_trust_state s now device expected row).0
              ≡ inr view')
            × (view'.effective_trust_state ≡ mismatch))
  unfolding verify_trust_state write_trust_state get_trust_state_view trust_row_written
  verify_trust_state-view now device device' expected row view material material' hm hv hm' hne hne'
        hd =
      elim (Bool-cases
        (is_empty (trim_space expected) || not (equal_fold (trim_space expected) material.0))) [
          | inl refused ↦
              let clash : inl fingerprint_mismatch ≡ inr view =
                sym (rw (verify_trust_state, hm, refused) refl) ∙ hv in
              absurd cc
          | inr confirmed ↦
              let written = trust_row_written s now verified material.0 material.1 row in
              let done : verify_trust_state s now device expected row
                  ≡ (some written, inr (view_of_row material.0 written)) =
                rw (verify_trust_state, hm, confirmed)
                  (ap (λ v. (some written, v)) (get_view device written material hm)) in
              let shown : view_of_row material.0 written ≡ view =
                inr_eq _ _ view
                  (ap (λ (x : Option TrustRow × (TrustError ⊎ TrustStateView)). x.1) done) hv in
              (
                ground arith,
                subst (λ (v : TrustStateView). v.effective_trust_state ≡ verified) shown
                    (ap (λ (d : Text × Text). d.0) (derive_verified material.0)),
                (
                  view_of_row material'.0 written,
                  ap
                        (λ (x : Option TrustRow × (TrustError ⊎ TrustStateView)).
                          get_trust_state_view s device' x.0)
                        done
                      ∙ get_view device' written material' hm',
                  ap (λ (d : Text × Text). d.0)
                      (derive_other verified material.0 material'.0 hne hne' hd),
                ),
              )
        ]

  -- After a revocation that succeeded the view does not show the device as verified, whatever key
  -- the device has then.
  pub revoke_trust_state-view :
      (now : ℕ) (device device' : Option DeviceKeys) (row : Option TrustRow)
      (view view' : TrustStateView)
      → (revoke_trust_state s now device row).1 ≡ inr view
      → get_trust_state_view s device' (revoke_trust_state s now device row).0 ≡ inr view'
      → view'.effective_trust_state ≢ verified
  unfolding revoke_trust_state get_trust_state_view write_trust_state
  revoke_trust_state-view now device device' row view view' hv hv' =
      elim (Either-cases (load_current_trust_material s device)) [
        | inl (e, failing) ↦
            let clash : inl e ≡ inr view = sym (rw (revoke_trust_state, failing) refl) ∙ hv in
            absurd cc
        | inr (material, hm) ↦
            let written = trust_row_written s now (codes "BLOCKED") material.0 material.1 row in
            let stored : (revoke_trust_state s now device row).0 ≡ some written =
              rw (revoke_trust_state, hm) refl in
            elim (Either-cases (load_current_trust_material s device')) [
              | inl (e, failing) ↦
                  let clash : inl e ≡ inr view' =
                    sym (rw (get_trust_state_view, failing) refl) ∙ hv' in
                  absurd cc
              | inr (material', hm') ↦
                  let shown : view_of_row material'.0 written ≡ view' =
                    inr_eq _ _ view'
                      (ap (get_trust_state_view s device') stored
                        ∙ get_view device' written material' hm')
                      hv' in
                  subst (λ (v : TrustStateView). v.effective_trust_state ≢ verified) shown
                    (blocked_shown material.0 material'.0)
            ]
      ]
