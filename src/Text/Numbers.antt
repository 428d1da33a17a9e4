-- ===== src/Text/Numbers.antt =====
-- strconv.Atoi, and strconv.ParseInt to the base 10 with 64 bits, which read the same.
-- The number of digits, `none` where another character stands among them.
use messages.Base.{ap, inl, inr}
use messages.Base.{◌++◌}
use messages.Base.{Bool-cases, arith, ◌/◌, ◌≡◌}
use messages.Base.{some_eq, ◌<◌, ◌%◌, ◌∙◌}
use messages.Base.{
  ◌∷◌, ℤ, ℕ, zero, true, if◌then◌else◌, suc, some, pos, none, negsuc, ltb, leb, if◌then◌else◌,
  false, if◌then◌else◌, ◌^◌, [], Text, Option, Bool, ◌==◌, ◌-◌, ◌+◌, ◌*◌, ◌&&◌,
}

unfoldable pub digits_loop : ℕ → Text → Option ℕ
digits_loop n [] = some n
digits_loop n (c ∷ s) =
    let rest = digits_loop (n * 10 + (c - 48)) s in if leb 48 c && leb c 57 then rest else none

abbrev in_range : Bool → Option ℕ → Option ℤ
in_range minus none = none
in_range false (some n) = if ltb n (2 ^ 63) then some (pos n) else none
in_range true (some zero) = some (pos 0)
in_range true (some (suc n)) = if leb (suc n) (2 ^ 63) then some (negsuc n) else none

unsigned : Bool → Text → Option ℤ
unfolding digits_loop
unsigned minus [] = none
unsigned minus (c ∷ s) = in_range minus (digits_loop 0 (c ∷ s))

-- strconv.Atoi
unfoldable pub atoi : Text → Option ℤ
unfolding unsigned
atoi [] = none
atoi (c ∷ s) =
    if c == b'-'
    then unsigned true s
    else if c == b'+'
    then unsigned false s
    else unsigned false (c ∷ s)

-- The digits of a number, on fuel.
unfoldable pub decimal_loop : ℕ → ℕ → Text
decimal_loop zero n = []
decimal_loop (suc fuel) n =
    let rest = decimal_loop fuel (n / 10) in
    if ltb n 10 then (48 + n) ∷ [] else rest ++ ((48 + n % 10) ∷ [])

-- `%d` of fmt.Sprintf
unfoldable pub decimal : ℕ → Text
unfolding decimal_loop
decimal n = decimal_loop (n + 1) n

unfoldable pub decimal_integer : ℤ → Text
unfolding decimal
decimal_integer (pos n) = decimal n
decimal_integer (negsuc n) = 45 ∷ decimal (n + 1)

digits_loop-append :
    (xs : Text) (a d v : ℕ)
    → digits_loop a xs ≡ some v
    → d < 10
    → digits_loop a (xs ++ ((48 + d) ∷ [])) ≡ some (v * 10 + d)
unfolding digits_loop
digits_loop-append [] a d v h b = ground (arith, some_eq a v h)
digits_loop-append (c ∷ xs) a d v h b =
    ground (arith, digits_loop-append xs (a * 10 + (c - 48)) d v)

-- The fuel is enough: the digits are read back as the number.
pub digits_loop-decimal_loop :
    (fuel n : ℕ) → n < fuel → digits_loop 0 (decimal_loop fuel n) ≡ some n
unfolding digits_loop decimal_loop
digits_loop-decimal_loop zero n h = absurd (omega arith)
digits_loop-decimal_loop (suc fuel) n h = elim (Bool-cases (ltb n 10)) [
  | inl small ↦ rw small (ground arith)
  | inr large ↦
      let rest = digits_loop-decimal_loop fuel (n / 10) (ground arith) in
      rw large (
        digits_loop-append (decimal_loop fuel (n / 10)) 0 (n % 10) (n / 10) rest (omega arith)
        ∙ ap some (omega arith))
]
