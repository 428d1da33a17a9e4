-- ===== src/Phone/Examples.antt =====
-- The theorem about phone numbers at a number, and what other digits do.
use messages.Phone.{normalize_e164}
use messages.Text.{is_space, codes}
use messages.Phone.Normal.{normalize_e164_lem, IsE164}
use messages.Base.{◌⊎◌, ◌≡◌, ◌∷◌, ℕ, ◌||◌, true, refl, leb, false, arith, [], Bool, ◌&&◌}

abbrev is_ascii_digit : ℕ → Bool
is_ascii_digit r = leb 48 r && leb r 57

-- The digits of ASCII and of Arabic.
abbrev is_wide_digit : ℕ → Bool
is_wide_digit r = (leb 48 r && leb r 57) || (leb 0x660 r && leb r 0x669)

ascii_digit-is_space : (r : ℕ) → is_ascii_digit r ≡ true → is_space r ≡ false
unfolding is_space
ascii_digit-is_space r h = ground arith

normalized : normalize_e164 is_ascii_digit (codes " 0049 (30) 123-456 ") ≡ codes "+4930123456"
unfolding normalize_e164
normalized = refl

too_short : normalize_e164 is_ascii_digit (codes "+49 30") ≡ []
unfolding normalize_e164
too_short = refl

-- Four digits of Arabic are eight bytes, and are taken for a number.
four_digits :
    normalize_e164 is_wide_digit (43 ∷ 0x664 ∷ 0x665 ∷ 0x666 ∷ 0x667 ∷ [])
    ≡ 43 ∷ 0x664 ∷ 0x665 ∷ 0x666 ∷ 0x667 ∷ []
unfolding normalize_e164
four_digits = refl

normalize_e164_lem_example :
    (normalize_e164 is_ascii_digit (codes " 0049 (30) 123-456 ") ≡ [])
    ⊎ (IsE164 is_ascii_digit (normalize_e164 is_ascii_digit (codes " 0049 (30) 123-456 "))
        × (normalize_e164 is_ascii_digit
              (normalize_e164 is_ascii_digit (codes " 0049 (30) 123-456 "))
            ≡ normalize_e164 is_ascii_digit (codes " 0049 (30) 123-456 ")))
normalize_e164_lem_example =
    normalize_e164_lem is_ascii_digit (codes " 0049 (30) 123-456 ") ascii_digit-is_space
