-- ===== src/Phone.antt =====
-- NormalizeE164 of ohmf/services/gateway/internal/phone/normalize.go. unicode.IsDigit is a
-- parameter; a text is a list of code points, whose length in bytes is that of UTF-8.
use messages.Text.{trim_space, trim_prefix, has_prefix, codes}
use messages.Base.{
  ◌∷◌, ℕ, ◌||◌, true, if◌then◌else◌, some, not, none, ltb, is_empty, if◌then◌else◌, false,
  if◌then◌else◌, [], Text, Option, Bool, ◌==◌, ◌+◌, ◌&&◌,
}
pub mod Normal
pub mod Examples

abbrev pub plus : ℕ
plus = 43

abbrev pub is_separator : ℕ → Bool
is_separator r = r == 32 || r == 45 || r == 40 || r == 41 || r == 46

-- The bytes of a code point in UTF-8.
abbrev pub rune_bytes : ℕ → ℕ
rune_bytes r = if ltb r 0x80 then 1 else if ltb r 0x800 then 2 else if ltb r 0x10000 then 3 else 4

-- `len` of a string
abbrev pub byte_length : Text → ℕ
byte_length [] = 0
byte_length (r ∷ s) = rune_bytes r + byte_length s

-- `digits[0] == '0'`
abbrev pub starts_with_zero : Text → Bool
starts_with_zero [] = false
starts_with_zero (r ∷ s) = r == 48

unfoldable pub international : Text → Text
unfolding trim_prefix
international raw = if has_prefix (codes "00") raw then plus ∷ trim_prefix (codes "00") raw else raw

module _ (is_digit : ℕ → Bool) where
  abbrev pub is_kept : Bool → ℕ → Bool
  is_kept at_start r = (r == plus && at_start) || is_digit r

  abbrev kept_with : ℕ → Option Text → Option Text
  kept_with r none = none
  kept_with r (some s) = some (r ∷ s)

  -- The loop over the runes, which stops at a rune that is none of a number; `at_start` says that the
  -- index is 0.
  unfoldable pub keep_loop : Bool → Text → Option Text
  keep_loop at_start [] = some []
  keep_loop at_start (r ∷ s) =
      let rest = keep_loop false s in
      if is_kept at_start r then kept_with r rest else if is_separator r then rest else none

  abbrev pub all_digits : Text → Bool
  all_digits [] = true
  all_digits (r ∷ s) = is_digit r && all_digits s

  -- What follows the loop.
  unfoldable pub check_normalized : Text → Text
  check_normalized [] = []
  check_normalized (r ∷ digits) =
      if not (r == plus)
      then []
      else if ltb (byte_length digits) 8 || ltb 15 (byte_length digits)
      then []
      else if starts_with_zero digits
      then []
      else if all_digits digits
      then r ∷ digits
      else []

  abbrev pub checked_or_empty : Option Text → Text
  unfolding check_normalized
  checked_or_empty none = []
  checked_or_empty (some s) = check_normalized s

  unfoldable pub normalize_e164 : Text → Text
  unfolding trim_space international keep_loop check_normalized
  normalize_e164 v =
      let raw = trim_space v in
      if is_empty raw then [] else checked_or_empty (keep_loop true (international raw))
