-- ===== src/Phone/Normal.antt =====
-- What NormalizeE164 answers, and that it leaves its own answers as they are.
use messages.Text.{trim_space, trim_left, has_prefix, trim_right, is_space}
use messages.Phone.{
  checked_or_empty, international, normalize_e164, starts_with_zero, plus, keep_loop,
  check_normalized, byte_length, all_digits,
}
use messages.Base.{
  ◌||◌, ◌||◌, sym, subst, refl, none, ltb, is_empty, inr, inl, false, arith, ap, [], Option,
  Bool-cases, Bool, ◌⊎◌, ◌≤◌, ◌≡◌, ◌∷◌, ◌==◌, ◌⊎◌, ◌≤◌, ◌≡◌, ◌∷◌, ◌∙◌, ℕ, true, if◌then◌else◌, some,
  if◌then◌else◌, if◌then◌else◌, Bool-cases, ◌==◌, refl, none, is_empty, false, [], Option, Bool,
  ◌||◌, sym, subst, ltb, inr, inl, arith, ap, Bool-cases, ◌==◌, ◌⊎◌, ◌≤◌, ◌≡◌, ◌∷◌, ℕ, true, some,
  refl, false, [], Text, Bool,
}

-- A plus sign, and digits of 8 to 15 bytes, the first of which is no zero.
pub record IsE164 (is_digit : ℕ → Bool) (n : Text) : Type 0 where
  pub digits : Text
  pub form : n ≡ plus ∷ digits
  pub long : 8 ≤ byte_length digits
  pub short : byte_length digits ≤ 15
  pub only : all_digits is_digit digits ≡ true
  pub leads : starts_with_zero digits ≡ false

module _ (is_digit : ℕ → Bool) where
  check_normalized-cases :
      (s : Text)
      → (check_normalized is_digit s ≡ []) ⊎ IsE164 is_digit (check_normalized is_digit s)
  unfolding check_normalized
  check_normalized-cases [] = inl refl
  check_normalized-cases (r ∷ digits) = elim (Bool-cases (r == plus)) [
    | inr unsigned ↦ inl (ground arith)
    | inl signed ↦ elim (Bool-cases (ltb (byte_length digits) 8 || ltb 15 (byte_length digits))) [
      | inl outside ↦ inl (ground arith)
      | inr within ↦ elim (Bool-cases (starts_with_zero digits)) [
        | inl zero_first ↦ inl (ground arith)
        | inr nonzero ↦ elim (Bool-cases (all_digits is_digit digits)) [
          | inr odd ↦ inl (ground arith)
          | inl digits_only ↦
              let kept : check_normalized is_digit (r ∷ digits) ≡ r ∷ digits = ground arith in
              let is_plus : r ≡ plus = ground arith in
              inr (
                subst (IsE164 is_digit) (sym kept) (record {
                  digits = digits;
                  form = ap (λ c. c ∷ digits) is_plus;
                  long = ground arith;
                  short = ground arith;
                  only = digits_only;
                  leads = nonzero;
                }))
        ]
      ]
    ]
  ]

  keep_loop-all_digits :
      (s : Text) → all_digits is_digit s ≡ true → keep_loop is_digit false s ≡ some s
  unfolding keep_loop
  keep_loop-all_digits [] h = refl
  keep_loop-all_digits (r ∷ s) h = ground (arith, keep_loop-all_digits s)

  trim_right-all_digits :
      (s : Text)
      → ((r : ℕ) → is_digit r ≡ true → is_space r ≡ false)
      → all_digits is_digit s ≡ true
      → trim_right s ≡ s
  unfolding trim_right
  trim_right-all_digits [] apart h = refl
  trim_right-all_digits (r ∷ s) apart h = ground (arith, apart r, trim_right-all_digits s apart)

  check_normalized-good :
      (digits : Text)
      → 8 ≤ byte_length digits
      → byte_length digits ≤ 15
      → all_digits is_digit digits ≡ true
      → starts_with_zero digits ≡ false
      → check_normalized is_digit (plus ∷ digits) ≡ plus ∷ digits
  unfolding check_normalized
  check_normalized-good digits long short only leads = ground arith

  kept_plus :
      (digits : Text)
      → all_digits is_digit digits ≡ true
      → keep_loop is_digit true (plus ∷ digits) ≡ some (plus ∷ digits)
  unfolding keep_loop
  kept_plus digits only = rw (keep_loop-all_digits digits only) refl

  trim_space-plus :
      (digits : Text)
      → ((r : ℕ) → is_digit r ≡ true → is_space r ≡ false)
      → all_digits is_digit digits ≡ true
      → trim_space (plus ∷ digits) ≡ plus ∷ digits
  unfolding trim_space trim_right trim_left is_space
  trim_space-plus digits apart only =
      ap (λ (s : Text). plus ∷ s) (trim_right-all_digits digits apart only)

  -- The function behind the trimming of spaces.
  abbrev after_trim : Text → Text
  after_trim raw =
      if is_empty raw
      then []
      else checked_or_empty is_digit (keep_loop is_digit true (international raw))

  normalize_e164-digits :
      (digits : Text)
      → ((r : ℕ) → is_digit r ≡ true → is_space r ≡ false)
      → 8 ≤ byte_length digits
      → byte_length digits ≤ 15
      → all_digits is_digit digits ≡ true
      → starts_with_zero digits ≡ false
      → normalize_e164 is_digit (plus ∷ digits) ≡ plus ∷ digits
  unfolding normalize_e164 international has_prefix
  normalize_e164-digits digits apart long short only leads =
      ap after_trim (trim_space-plus digits apart only)
      ∙ ap (checked_or_empty is_digit) (kept_plus digits only)
      ∙ check_normalized-good digits long short only leads

  -- A number in the strict form is given back unchanged.
  IsE164-fixed :
      (n : Text)
      → ((r : ℕ) → is_digit r ≡ true → is_space r ≡ false)
      → IsE164 is_digit n
      → normalize_e164 is_digit n ≡ n
  IsE164-fixed n apart good =
      subst (λ m. normalize_e164 is_digit m ≡ m) (sym good.form)
        (normalize_e164-digits good.digits apart good.long good.short good.only good.leads)

  checked-cases :
      (o : Option Text)
      → (checked_or_empty is_digit o ≡ []) ⊎ IsE164 is_digit (checked_or_empty is_digit o)
  unfolding checked_or_empty
  checked-cases none = inl refl
  checked-cases (some s) = check_normalized-cases s

  normalize_e164-cases :
      (v : Text) → (normalize_e164 is_digit v ≡ []) ⊎ IsE164 is_digit (normalize_e164 is_digit v)
  unfolding normalize_e164
  normalize_e164-cases v = elim (Bool-cases (is_empty (trim_space v))) [
    | inl blank ↦ rw blank (inl refl)
    | inr filled ↦
        rw filled (checked-cases (keep_loop is_digit true (international (trim_space v))))
  ]

  -- Where no digit is a space, the answer is empty, or a plus sign followed by digits that are 8 to
  -- 15 bytes long and do not begin with a zero, which the function itself gives back unchanged.
  pub normalize_e164_lem :
      (v : Text)
      → ((r : ℕ) → is_digit r ≡ true → is_space r ≡ false)
      → (normalize_e164 is_digit v ≡ [])
        ⊎ (IsE164 is_digit (normalize_e164 is_digit v)
            × (normalize_e164 is_digit (normalize_e164 is_digit v) ≡ normalize_e164 is_digit v))
  normalize_e164_lem v apart = elim (normalize_e164-cases v) [
    | inl empty ↦ inl empty
    | inr good ↦ inr (good, IsE164-fixed (normalize_e164 is_digit v) apart good)
  ]
