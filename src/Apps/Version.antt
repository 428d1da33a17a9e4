-- ===== src/Apps/Version.antt =====
-- Release versions: semverPattern and versionGreater of services/apps/registry.go.
pub mod Order
use messages.Base.{
  ℕ, ◌+◌, ◌*◌, ◌-◌, ◌^◌, Bool, true, false, not, ◌&&◌, ◌||◌, Option, none, some, [], ◌∷◌, ◌≡◌, refl,
  ltb, leb, ◌==◌, Text, is_empty, if◌then◌else◌,
}
use messages.Text.{codes}
use messages.Text.Order.{text_lt}

abbrev is_digit : ℕ → Bool
is_digit c = leb 48 c && leb c 57

-- The rest after the digits at the front, `none` if there are none: `\d+`.
drop_more : Text → Text
drop_more [] = []
drop_more (c ∷ s) = let rest = drop_more s in if is_digit c then rest else c ∷ s

drop_digits : Text → Option Text
unfolding drop_more
drop_digits [] = none
drop_digits (c ∷ s) = if is_digit c then some (drop_more s) else none

drop_dot : Text → Option Text
drop_dot [] = none
drop_dot (c ∷ s) = if c == b'.' then some s else none

abbrev ◌then◌ : Option Text → (Text → Option Text) → Option Text
◌then◌ none f = none
◌then◌ (some s) f = f s

is_suffix_char : ℕ → Bool
is_suffix_char c =
    (leb b'A' c && leb c b'Z') || (leb b'a' c && leb c b'z') || is_digit c || c == b'.' || c == b'-'

all_suffix_chars : Text → Bool
unfolding is_suffix_char
all_suffix_chars [] = true
all_suffix_chars (c ∷ s) = is_suffix_char c && all_suffix_chars s

-- `(-[A-Za-z0-9.-]+)?$`
is_suffix : Text → Bool
unfolding all_suffix_chars
is_suffix [] = true
is_suffix (c ∷ s) = c == b'-' && not (is_empty s) && all_suffix_chars s

abbrev matched : Option Text → Bool
matched none = false
matched (some s) = is_suffix s

-- semverPattern.MatchString, the pattern `^\d+\.\d+\.\d+(-[A-Za-z0-9.-]+)?$`
unfoldable pub is_semver : Text → Bool
unfolding drop_digits drop_dot is_suffix
is_semver s =
    matched
      (◌then◌ (◌then◌ (◌then◌ (◌then◌ (drop_digits s) drop_dot) drop_digits) drop_dot) drop_digits)

-- strings.SplitN(value, "-", 2)[0]
before_dash : Text → Text
before_dash [] = []
before_dash (c ∷ s) = let rest = before_dash s in if c == b'-' then [] else c ∷ rest

-- `%d` of Sscanf: the digits at the front. Without a digit, or past the range of an int, the scan
-- ends. A blank or a sign before a number, which semverPattern refuses, ends it here too.
scan_more : ℕ → Text → ℕ × Text
scan_more n [] = (n, [])
scan_more n (c ∷ s) =
    let rest = scan_more (n * 10 + (c - 48)) s in if is_digit c then rest else (n, c ∷ s)

scan_int : Text → Option (ℕ × Text)
unfolding scan_more
scan_int [] = none
scan_int (c ∷ s) =
    let r = scan_more 0 (c ∷ s) in
    if is_digit c then (if ltb r.0 (2 ^ 63) then some r else none) else none

pub record Triple : Type 0 where
  pub major : ℕ
  pub minor : ℕ
  pub patch : ℕ

abbrev with_patch : ℕ → ℕ → Option Text → Triple
with_patch a b none = record { major = a; minor = b; patch = 0 }
with_patch a b (some s) = elim (scan_int s) [
  | none ↦ record { major = a; minor = b; patch = 0 }
  | some (c, _) ↦ record { major = a; minor = b; patch = c }
]

abbrev with_minor : ℕ → Option Text → Triple
with_minor a none = record { major = a; minor = 0; patch = 0 }
with_minor a (some s) = elim (scan_int s) [
  | none ↦ record { major = a; minor = 0; patch = 0 }
  | some (b, rest) ↦ with_patch a b (drop_dot rest)
]

-- The local function `parse` of versionGreater: Sscanf with "%d.%d.%d".
unfoldable pub parse : Text → Triple
unfolding scan_int drop_dot before_dash
parse value = elim (scan_int (before_dash value)) [
  | none ↦ record { major = 0; minor = 0; patch = 0 }
  | some (a, rest) ↦ with_minor a (drop_dot rest)
]

-- The loop over the three numbers, `tie` being what follows it.
unfoldable pub triple_greater : Triple → Triple → Bool → Bool
triple_greater p q tie =
    if ltb q.major p.major
    then true
    else if ltb p.major q.major
    then false
    else if ltb q.minor p.minor
    then true
    else if ltb p.minor q.minor
    then false
    else if ltb q.patch p.patch
    then true
    else if ltb p.patch q.patch
    then false
    else tie

unfoldable pub version_greater : Text → Text → Bool
version_greater a b = if is_empty b then true else triple_greater (parse a) (parse b) (text_lt b a)

semver_test : is_semver (codes "1.20.3-rc.1") ≡ true
unfolding is_semver
semver_test = refl

semver_refused : is_semver (codes "1.2") ≡ false
unfolding is_semver
semver_refused = refl

-- The numbers are compared as numbers: 1.10.0 comes after 1.9.0.
version_test : version_greater (codes "1.10.0") (codes "1.9.0") ≡ true
unfolding version_greater parse triple_greater
version_test = refl
