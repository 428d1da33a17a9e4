-- ===== src/Apps/Catalog/Paging/Pages.antt =====
-- The pages of a list together are the list.
use messages.Apps.Catalog.Paging.{parse_limit, page, clamp_limit, atoi, at_most}
use messages.Text.{trim_space}
use messages.Apps.View.{AppView}
use messages.Base.{
  ◌⊎◌, ◌≤◌, ◌≡◌, ◌∷◌, ◌∙◌, ◌<◌, ◌⊎◌, ◌≤◌, ◌≡◌, ◌∷◌, ◌∙◌, ℤ, ℕ, zero, sym, refl, pos, negsuc, ltb,
  false, ap, Option, ◌<◌, ◌-◌, ◌+◌, ◌++◌, take, suc, some, none, length, inr, inl, drop, arith, [],
  List, Bool-cases, ◌-◌, ◌++◌, ◌+◌, ◌⊎◌, ◌≤◌, ◌≡◌, ◌∷◌, ◌∙◌, ◌⊎◌, ◌≤◌, ◌≡◌, ◌∷◌, ◌∙◌, ℕ, zero, sym,
  refl, ltb, false, ap, Option, ◌<◌, ◌-◌, ◌+◌, ◌++◌, take, suc, some, none, length, inr, inl, drop,
  arith, [], List, Bool-cases, ◌<◌, ◌-◌, ◌++◌, ◌+◌, ◌⊎◌, ◌≤◌, ◌≡◌, ◌∷◌, ◌⊎◌, ◌≤◌, ◌≡◌, ◌∷◌, ◌∙◌, ℕ,
  zero, sym, refl, ltb, false, ap, Option, Bool-cases, ◌<◌, take, suc, some, none, length, inr, inl,
  drop, arith, [], Text, List, ◌<◌, ◌-◌, ◌+◌, ◌++◌, ◌∷◌, refl, ltb, ap, Option, Bool-cases, ◌-◌,
  ◌++◌, ◌+◌, ◌⊎◌, ◌≤◌, ◌≡◌, ℕ, zero, take, suc, some, none, length, inr, inl, drop, arith, [], Text,
  List, ◌<◌, ◌-◌, ◌++◌, ◌+◌,
}

-- The items of a page, and those from its cursor on if it has one.
follow : List AppView → Option ℕ → (ℕ → List AppView) → List AppView
follow items none rest = items
follow items (some next) rest = items ++ rest next

-- A client that asks for page after page, each from the cursor of the one before.
unfoldable pub collect : ℕ → ℕ → ℕ → List AppView → List AppView
unfolding follow
collect zero limit offset items = []
collect (suc fuel) limit offset items =
    follow (page limit offset items).items (page limit offset items).next_cursor
      (λ next. collect fuel limit next items)

module _ {ℓ} {A : Type ℓ} where
  drop_nil : (n : ℕ) (xs : List A) → xs ≡ [] → drop n xs ≡ []
  drop_nil zero xs h = h
  drop_nil (suc n) [] h = refl
  drop_nil (suc n) (x ∷ xs) h = cc

  drop-drop : (n a : ℕ) (xs : List A) → drop n (drop a xs) ≡ drop (a + n) xs
  drop-drop n zero xs = ap (λ k. drop k xs) (omega arith)
  drop-drop n (suc a) [] = drop_nil n [] refl ∙ sym (drop_nil (suc a + n) [] refl)
  drop-drop n (suc a) (x ∷ xs) = drop-drop n a xs ∙ ap (λ k. drop k (x ∷ xs)) (the_suc a n)
    where
      the_suc : (b c : ℕ) → suc (b + c) ≡ suc b + c
      the_suc b c = omega arith

  take-rest : (n : ℕ) (xs : List A) → take n xs ++ drop n xs ≡ xs
  take-rest zero xs = refl
  take-rest (suc n) [] = refl
  take-rest (suc n) (x ∷ xs) = ap (λ ys. x ∷ ys) (take-rest n xs)

  take-drop : (n a : ℕ) (xs : List A) → take n (drop a xs) ++ drop (a + n) xs ≡ drop a xs
  take-drop n a xs = rw (sym (drop-drop n a xs)) (take-rest n (drop a xs))

  take_all : (n : ℕ) (xs : List A) → length xs ≤ n → take n xs ≡ xs
  take_all zero [] h = refl
  take_all zero (x ∷ xs) h = absurd (omega arith)
  take_all (suc n) [] h = refl
  take_all (suc n) (x ∷ xs) h = ap (λ ys. x ∷ ys) (take_all n xs (omega arith))

  length-drop : (n : ℕ) (xs : List A) → length (drop n xs) ≡ length xs - n
  length-drop zero xs = omega arith
  length-drop (suc n) [] = omega arith
  length-drop (suc n) (x ∷ xs) = omega (arith, length-drop n xs)

at_most_small : (b n : ℕ) → n ≤ b → at_most b n ≡ n
at_most_small b n h = ground arith

at_most_big : (b n : ℕ) → b ≤ n → at_most b n ≡ b
at_most_big b n h = ground arith

not_below_itself : (n : ℕ) → ltb n n ≡ false
not_below_itself n = ground arith

-- The two forms of a page: the last one has the rest, any other has a cursor that is further on.
page_cases :
    (limit offset : ℕ) (items : List AppView)
    → offset ≤ length items
    → (((page limit offset items).next_cursor ≡ none)
        × ((page limit offset items).items ≡ drop offset items))
      ⊎ (((page limit offset items).next_cursor ≡ some (offset + limit))
          × ((page limit offset items).items ≡ take limit (drop offset items))
          × (offset + limit < length items))
unfolding page
page_cases limit offset items h = elim (Bool-cases (ltb (offset + limit) (length items))) [
  | inl inside ↦
      rw
        (
          at_most_small (length items) offset h,
          at_most_small (length items) (offset + limit) (ground arith),
          inside,
        )
        (inr (refl, ap (λ k. take k (drop offset items)) (omega arith), ground arith))
  | inr beyond ↦
      rw
        (
          at_most_small (length items) offset h,
          at_most_big (length items) (offset + limit) (ground arith),
        )
        (inl (
          rw (not_below_itself (length items)),
          take_all (length items - offset) (drop offset items)
              (omega (arith, length-drop offset items)),
        ))
]

collect-from :
    (fuel limit offset : ℕ) (items : List AppView)
    → 0 < limit
    → offset ≤ length items
    → length items < offset + fuel
    → collect fuel limit offset items ≡ drop offset items
unfolding collect
collect-from zero limit offset items some_limit h enough = absurd (omega arith)
collect-from (suc fuel) limit offset items some_limit h enough =
    elim (page_cases limit offset items h) [
      | inl (last, rest) ↦ rw (last, rest)
      | inr (more, some_of, bound) ↦ rw (
        more,
        some_of,
        collect-from fuel limit (offset + limit) items some_limit (omega arith) (omega arith),
        take-drop limit offset items,
      )
    ]

-- A client that follows the cursors of a list from its beginning gets every item once and in
-- order, whatever the limit is but 0; one page more than there are items is enough.
pub collect-all :
    (limit : ℕ) (items : List AppView)
    → 0 < limit
    → collect (suc (length items)) limit 0 items ≡ items
collect-all limit items some_limit =
    collect-from (suc (length items)) limit 0 items some_limit (omega arith) (omega arith)

-- The limit of a request is at least 1 and at most 100, whatever the text says, if the default is.
pub parse_limit_bounds :
    (raw : Text) (default : ℕ)
    → 0 < default
    → default ≤ 100
    → (0 < parse_limit raw default) × (parse_limit raw default ≤ 100)
unfolding parse_limit
parse_limit_bounds raw default some_limit h = go (atoi (trim_space raw))
  where
    go : (n : Option ℤ) → (0 < clamp_limit default n) × (clamp_limit default n ≤ 100)
    go none = (some_limit, h)
    go (some (negsuc n)) = (some_limit, h)
    go (some (pos n)) = ground arith
