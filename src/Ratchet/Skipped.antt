-- ===== src/Ratchet/Skipped.antt =====
-- SkippedMessageKeys of double_ratchet.go, which nothing calls: the keys of messages that were
-- passed over, by their index.
use messages.Ratchet.{Bytes}
use messages.Base.{
  ◌≡◌, ◌∷◌, ◌∙◌, ◌↔◌, ℤ, ℕ, true, if◌then◌else◌, some, refl, pos, none, negsuc, length,
  if◌then◌else◌, false, if◌then◌else◌, arith, [], Option, List, Bool, ◌==◌,
}

abbrev pub SkippedKeys : Type 0
SkippedKeys = List (ℤ × Bytes)

abbrev pub same_index : ℤ → ℤ → Bool
same_index (pos a) (pos b) = a == b
same_index (negsuc a) (negsuc b) = a == b
same_index _ _ = false

abbrev pub new_skipped_keys : SkippedKeys
new_skipped_keys = []

-- The key of an index takes the place of the one that is there.
unfoldable pub store_key : ℤ → Bytes → SkippedKeys → SkippedKeys
store_key index key [] = (index, key) ∷ []
store_key index key ((i, k) ∷ keys) =
    if same_index i index then (i, key) ∷ keys else (i, k) ∷ store_key index key keys

unfoldable pub find_key : ℤ → SkippedKeys → Option Bytes
find_key index [] = none
find_key index ((i, k) ∷ keys) = if same_index i index then some k else find_key index keys

unfoldable pub drop_key : ℤ → SkippedKeys → SkippedKeys
drop_key index [] = []
drop_key index ((i, k) ∷ keys) =
    let rest = drop_key index keys in if same_index i index then rest else (i, k) ∷ rest

-- Get, which deletes the key that it finds.
unfoldable pub get_key : ℤ → SkippedKeys → SkippedKeys × Option Bytes
unfolding find_key drop_key
get_key index keys = elim (find_key index keys) [
  | none ↦ (keys, none)
  | some k ↦ (drop_key index keys, some k)
]

unfoldable pub key_count : SkippedKeys → ℕ
key_count keys = length keys

abbrev pub clear_keys : SkippedKeys → SkippedKeys
clear_keys keys = []

same_index_iff : (a b : ℤ) → (same_index a b ≡ true) ↔ (a ≡ b)
same_index_iff (pos a) (pos b) = ground arith
same_index_iff (negsuc a) (negsuc b) = ground arith
same_index_iff (pos a) (negsuc b) = (λ h. cc, λ h. cc)
same_index_iff (negsuc a) (pos b) = (λ h. cc, λ h. cc)

find_key-store_key :
    (i j : ℤ) (key : Bytes) (keys : SkippedKeys)
    → find_key j (store_key i key keys) ≡ (if same_index i j then some key else find_key j keys)
unfolding find_key store_key
find_key-store_key i j key [] = refl
find_key-store_key i j key ((l, k) ∷ keys) = ground (
  arith,
  same_index_iff i j,
  same_index_iff l i,
  same_index_iff l j,
  find_key-store_key i j key keys,
)

find_key-drop_key :
    (i j : ℤ) (keys : SkippedKeys)
    → find_key j (drop_key i keys) ≡ (if same_index i j then none else find_key j keys)
unfolding find_key drop_key
find_key-drop_key i j [] = ground arith
find_key-drop_key i j ((l, k) ∷ keys) =
    ground (
      arith,
      same_index_iff i j,
      same_index_iff l i,
      same_index_iff l j,
      find_key-drop_key i j keys,
    )

-- A key that was stored is handed out once: the first request for its index gives it, a second
-- gives nothing, and the keys of the other indices are still there after both.
pub get_key-store_key :
    (i j : ℤ) (key : Bytes) (keys : SkippedKeys)
    → let first = get_key i (store_key i key keys) in
      (first.1 ≡ some key)
      × ((get_key i first.0).1 ≡ none)
      × (same_index i j ≡ false → find_key j (get_key i first.0).0 ≡ find_key j keys)
unfolding get_key
get_key-store_key i j key keys =
    let own : find_key i (store_key i key keys) ≡ some key =
      find_key-store_key i i key keys ∙ rw ((same_index_iff i i).1 refl) refl in
    let gone : find_key i (drop_key i (store_key i key keys)) ≡ none =
      find_key-drop_key i i (store_key i key keys) ∙ rw ((same_index_iff i i).1 refl) refl in
    let first : get_key i (store_key i key keys) ≡ (drop_key i (store_key i key keys), some key) =
      rw (get_key, own) refl in
    let second : get_key i (drop_key i (store_key i key keys))
        ≡ (drop_key i (store_key i key keys), none) =
      rw (get_key, gone) refl in
    rw (first, second)
      (
        refl,
        refl,
        λ apart.
            find_key-drop_key i j (store_key i key keys)
            ∙ rw apart (find_key-store_key i j key keys ∙ rw apart refl),
      )
