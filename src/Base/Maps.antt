-- ===== src/Base/Maps.antt =====
-- A Go map with string keys, as an association list. The order in which a Go program meets the
-- entries of a map is not specified; here it is the order of the list, and a theorem over all
-- lists holds for every order.
use mathlib.Core.Path.{◌∙◌}
use messages.Base.Tests.{Bool-cases, Text, text_eq, text_eq_iff, text_eq_refl, if◌then◌else◌}
use mathlib.Core.Bool.{false}
use mathlib.Core.Path.{◌≡◌, refl}
use mathlib.Core.Option.{Option, none, some}
use mathlib.Core.List.{List, [], ◌∷◌}
use native.Mathlib.Omega.{arith}
use mathlib.Core.Path.{sym, subst}
use mathlib.Core.Logic.{inl, inr}

abbrev pub Map {ℓ} : Type ℓ → Type ℓ
Map V = List (Text × V)

module _ {ℓ} {V : Type ℓ} where
  unfoldable pub lookup : Text → Map V → Option V
  lookup k [] = none
  lookup k ((j, v) ∷ m) = if text_eq j k then some v else lookup k m

  unfoldable pub insert : Text → V → Map V → Map V
  insert k v [] = (k, v) ∷ []
  insert k v ((j, w) ∷ m) = if text_eq j k then (j, v) ∷ m else (j, w) ∷ insert k v m

  -- `delete(m, k)`: every entry of the key goes.
  unfoldable pub delete : Text → Map V → Map V
  delete k [] = []
  delete k ((j, w) ∷ m) = let rest = delete k m in if text_eq j k then rest else (j, w) ∷ rest

  pub lookup-insert :
      (k j : Text) (v : V) (m : Map V)
      → lookup j (insert k v m) ≡ (if text_eq k j then some v else lookup j m)
  unfolding lookup insert
  lookup-insert k j v [] = refl
  lookup-insert k j v ((i, w) ∷ m) =
      ground (arith, text_eq_iff k j, text_eq_iff i k, text_eq_iff i j, lookup-insert k j v m)

  pub lookup-insert_self : (k : Text) (v : V) (m : Map V) → lookup k (insert k v m) ≡ some v
  lookup-insert_self k v m = rw (lookup-insert k k v m, text_eq_refl k)

  pub lookup-delete :
      (k j : Text) (m : Map V) → lookup j (delete k m) ≡ (if text_eq k j then none else lookup j m)
  unfolding lookup delete
  lookup-delete k j [] = ground arith
  lookup-delete k j ((i, w) ∷ m) =
      ground (arith, text_eq_iff k j, text_eq_iff i k, text_eq_iff i j, lookup-delete k j m)

text_eq_other : (j k : Text) → text_eq j k ≡ false → text_eq k j ≡ false
text_eq_other j k h = ground (arith, text_eq_iff j k, text_eq_iff k j)

-- A predicate on every entry.
abbrev pub AllEntries {ℓ κ} : {V : Type ℓ} → (Text → V → Type κ) → Map V → Type κ
AllEntries P [] = Unit
AllEntries P ((k, v) ∷ m) = P k v × AllEntries P m

module _ {ℓ κ} {V : Type ℓ} (P : Text → V → Type κ) where
  pub AllEntries-lookup :
      (k : Text) (v : V) (m : Map V) → AllEntries P m → lookup k m ≡ some v → P k v
  unfolding lookup
  AllEntries-lookup k v [] h e = cc
  AllEntries-lookup k v ((j, w) ∷ m) h e = elim (Bool-cases (text_eq j k)) [
    | inl same ↦ subst (λ x. P x v) ((text_eq_iff j k).0 same) (subst (P j) (ground arith) h.0)
    | inr other ↦ AllEntries-lookup k v m h.1 (ground arith)
  ]

  pub AllEntries-insert :
      (k : Text) (v : V) (m : Map V) → P k v → AllEntries P m → AllEntries P (insert k v m)
  unfolding insert
  AllEntries-insert k v [] p h = (p, tt)
  AllEntries-insert k v ((j, w) ∷ m) p h = elim (Bool-cases (text_eq j k)) [
    | inl same ↦ rw same (subst (λ x. P x v) (sym ((text_eq_iff j k).0 same)) p, h.1)
    | inr other ↦ rw other (h.0, AllEntries-insert k v m p h.1)
  ]

  pub AllEntries-delete : (k : Text) (m : Map V) → AllEntries P m → AllEntries P (delete k m)
  unfolding delete
  AllEntries-delete k [] h = tt
  AllEntries-delete k ((j, w) ∷ m) h = elim (Bool-cases (text_eq j k)) [
    | inl same ↦ rw same (AllEntries-delete k m h.1)
    | inr other ↦ rw other (h.0, AllEntries-delete k m h.1)
  ]

-- Every key stands in one entry.
abbrev pub Distinct {ℓ} : {V : Type ℓ} → Map V → Type ℓ
Distinct [] = Unit
Distinct ((k, v) ∷ m) = (lookup k m ≡ none) × Distinct m

pub Distinct-insert {ℓ} :
    {V : Type ℓ} (k : Text) (v : V) (m : Map V) → Distinct m → Distinct (insert k v m)
unfolding insert lookup
Distinct-insert k v [] h = (refl, tt)
Distinct-insert k v ((j, w) ∷ m) h = elim (Bool-cases (text_eq j k)) [
  | inl same ↦ rw same h
  | inr other ↦
      rw other
        (lookup-insert k j v m ∙ rw (text_eq_other j k other, h.0) refl, Distinct-insert k v m h.1)
]
