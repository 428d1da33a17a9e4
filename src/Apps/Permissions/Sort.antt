-- ===== src/Apps/Permissions/Sort.antt =====
-- Package `slices` on strings: Sort, Compact and membership. All sorting algorithms give the same
-- list, so insertion stands for the one of the library.
use messages.Base.{
  Bool, true, false, ◌||◌, List, [], ◌∷◌, ◌≡◌, inl, inr, refl, arith, Text, text_eq, text_eq_iff,
  if◌then◌else◌, Bool-cases,
}
use messages.Text.Order.{text_lt, text_lt_irrefl, text_lt_trans, text_lt_connex}

unfoldable pub mem : Text → List Text → Bool
mem a [] = false
mem a (x ∷ xs) = text_eq a x || mem a xs

unfoldable pub insert_sorted : Text → List Text → List Text
insert_sorted a [] = a ∷ []
insert_sorted a (x ∷ xs) = if text_lt x a then x ∷ insert_sorted a xs else a ∷ x ∷ xs

unfoldable pub sort : List Text → List Text
sort [] = []
sort (x ∷ xs) = insert_sorted x (sort xs)

-- slices.Compact: of a run of equal elements the first stays.
compact_after : Text → List Text → List Text
compact_after a [] = []
compact_after a (x ∷ xs) = if text_eq a x then compact_after a xs else x ∷ compact_after x xs

unfoldable pub compact : List Text → List Text
unfolding compact_after
compact [] = []
compact (x ∷ xs) = x ∷ compact_after x xs

pub mem-insert_sorted :
    (a b : Text) (xs : List Text) → mem a (insert_sorted b xs) ≡ (text_eq a b || mem a xs)
unfolding mem insert_sorted
mem-insert_sorted a b [] = refl
mem-insert_sorted a b (x ∷ xs) = ground (arith, mem-insert_sorted a b xs)

pub mem-sort : (a : Text) (xs : List Text) → mem a (sort xs) ≡ mem a xs
unfolding mem sort
mem-sort a [] = refl
mem-sort a (x ∷ xs) = ground (arith, mem-sort a xs, mem-insert_sorted a x (sort xs))

mem-compact_after :
    (a b : Text) (xs : List Text)
    → (text_eq a b || mem a (compact_after b xs)) ≡ (text_eq a b || mem a xs)
unfolding mem compact_after
mem-compact_after a b [] = refl
mem-compact_after a b (x ∷ xs) =
    ground (arith, mem-compact_after a b xs, mem-compact_after a x xs, text_eq_iff b x)

pub mem-compact : (a : Text) (xs : List Text) → mem a (compact xs) ≡ mem a xs
unfolding mem compact
mem-compact a [] = refl
mem-compact a (x ∷ xs) = mem-compact_after a x xs

-- Strictly ascending, which leaves no duplicates.
abbrev pub IsAscending : List Text → Type 0
IsAscending [] = Unit
IsAscending (x ∷ []) = Unit
IsAscending (x ∷ y ∷ xs) = (text_lt x y ≡ true) × IsAscending (y ∷ xs)

-- Ascending with repetitions.
abbrev IsSorted : List Text → Type 0
IsSorted [] = Unit
IsSorted (x ∷ []) = Unit
IsSorted (x ∷ y ∷ xs) = (text_lt y x ≡ false) × IsSorted (y ∷ xs)

insert_sorted-IsSorted : (a : Text) (xs : List Text) → IsSorted xs → IsSorted (insert_sorted a xs)
unfolding insert_sorted
insert_sorted-IsSorted a [] s = tt
insert_sorted-IsSorted a (x ∷ []) s = ground (arith, text_lt_trans x a x, text_lt_irrefl x)
insert_sorted-IsSorted a (x ∷ y ∷ xs) s =
    ground (arith, insert_sorted-IsSorted a (y ∷ xs), text_lt_trans x a x, text_lt_irrefl x)

sort-IsSorted : (xs : List Text) → IsSorted (sort xs)
unfolding sort
sort-IsSorted [] = tt
sort-IsSorted (x ∷ xs) = insert_sorted-IsSorted x (sort xs) (sort-IsSorted xs)

compact_after-IsAscending :
    (a : Text) (xs : List Text) → IsSorted (a ∷ xs) → IsAscending (a ∷ compact_after a xs)
unfolding compact_after
compact_after-IsAscending a [] s = tt
compact_after-IsAscending a (x ∷ []) s = ground (arith, text_lt_connex a x, text_eq_iff a x)
compact_after-IsAscending a (x ∷ y ∷ xs) s = elim (Bool-cases (text_eq a x)) [
  | inl same ↦ ground (arith, text_eq_iff a x, compact_after-IsAscending a (y ∷ xs))
  | inr other ↦
      ground (arith, text_eq_iff a x, text_lt_connex a x, compact_after-IsAscending x (y ∷ xs))
]

pub compact-sort-IsAscending : (xs : List Text) → IsAscending (compact (sort xs))
unfolding compact
compact-sort-IsAscending xs = go (sort xs) (sort-IsSorted xs)
  where
    go : (ys : List Text) → IsSorted ys → IsAscending (compact ys)
    go [] s = tt
    go (y ∷ ys) s = compact_after-IsAscending y ys s
