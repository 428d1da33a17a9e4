-- ===== src/Apps/Version/Order.antt =====
-- versionGreater is a strict total order on the versions that are not empty.
use messages.Base.{Bool, true, false, [], ◌∷◌, ◌≡◌, ◌≢◌, ◌⊎◌, arith, Text}
use messages.Text.Order.{text_lt, text_lt_irrefl, text_lt_trans, text_lt_connex}
use messages.Apps.Version.{Triple, parse, triple_greater, version_greater}

triple_greater_trans :
    (p q r : Triple) (s t u : Bool)
    → (s ≡ true → t ≡ true → u ≡ true)
    → triple_greater p q s ≡ true
    → triple_greater q r t ≡ true
    → triple_greater p r u ≡ true
unfolding triple_greater
triple_greater_trans p q r s t u tie h k = ground arith

-- No version comes after itself.
pub version_greater_irrefl : (a : Text) → a ≢ [] → version_greater a a ≡ false
unfolding version_greater triple_greater
version_greater_irrefl a h = ground (arith, text_lt_irrefl a)

pub version_greater_trans :
    (a b c : Text)
    → b ≢ []
    → version_greater a b ≡ true
    → version_greater b c ≡ true
    → version_greater a c ≡ true
unfolding version_greater
version_greater_trans a b c hb h k = ground (
  arith,
  triple_greater_trans (parse a) (parse b) (parse c) (text_lt b a) (text_lt c b) (text_lt c a)
      (λ (p : text_lt b a ≡ true) (q : text_lt c b ≡ true). text_lt_trans c b a q p),
)

-- Of two different versions one comes after the other.
pub version_greater_connex :
    (a b : Text) → (a ≡ b) ⊎ ((version_greater a b ≡ true) ⊎ (version_greater b a ≡ true))
unfolding version_greater triple_greater
version_greater_connex a b = ground (arith, text_lt_connex a b)

-- The empty version comes after no other.
pub version_greater-nil : (a : Text) → a ≢ [] → version_greater [] a ≡ false
unfolding version_greater triple_greater parse text_lt
version_greater-nil [] h = absurd (h (λ i. []))
version_greater-nil (c ∷ s) h = ground arith
