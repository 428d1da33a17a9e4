-- ===== src/Text/Order.antt =====
-- Go's order on strings, `<`. On code points it is the order that Go takes on the UTF-8 bytes.
use messages.Base.{
  Bool, true, false, ◌&&◌, ◌||◌, [], ◌∷◌, ◌≡◌, ◌⊎◌, inl, inr, refl, arith, ltb, ◌==◌, Text,
}

unfoldable pub text_lt : Text → Text → Bool
text_lt [] [] = false
text_lt [] (b ∷ t) = true
text_lt (a ∷ s) [] = false
text_lt (a ∷ s) (b ∷ t) = ltb a b || (a == b && text_lt s t)

pub text_lt_irrefl : (s : Text) → text_lt s s ≡ false
unfolding text_lt
text_lt_irrefl [] = refl
text_lt_irrefl (a ∷ s) = ground (arith, text_lt_irrefl s)

pub text_lt_trans : (s t u : Text) → text_lt s t ≡ true → text_lt t u ≡ true → text_lt s u ≡ true
unfolding text_lt
text_lt_trans [] [] u h k = ground arith
text_lt_trans [] (b ∷ t) [] h k = ground arith
text_lt_trans [] (b ∷ t) (c ∷ u) h k = refl
text_lt_trans (a ∷ s) [] u h k = ground arith
text_lt_trans (a ∷ s) (b ∷ t) [] h k = ground arith
text_lt_trans (a ∷ s) (b ∷ t) (c ∷ u) h k = ground (arith, text_lt_trans s t u)

pub text_lt_connex : (s t : Text) → (s ≡ t) ⊎ ((text_lt s t ≡ true) ⊎ (text_lt t s ≡ true))
unfolding text_lt
text_lt_connex [] [] = inl refl
text_lt_connex [] (b ∷ t) = inr (inl refl)
text_lt_connex (a ∷ s) [] = inr (inr refl)
text_lt_connex (a ∷ s) (b ∷ t) = ground (arith, text_lt_connex s t)
