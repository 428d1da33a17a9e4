-- ===== src/Apps/Keys/Rows.antt =====
-- What the statements on the table of the keys make of its rows.
use messages.Apps.Keys.{rotate_rows, revoke_rows, names_key, insert_key, has_live_row}
use messages.Apps.Review.{find_key}
use messages.Apps.Store.{PublisherKey}
use messages.Base.{
  ◌≡◌, ◌∷◌, ℕ, true, some, refl, not, is_some, inr, inl, false, arith, [], Text, List, Bool-cases,
  All, ◌++◌, ◌&&◌,
}

-- A row that has been revoked is not active.
abbrev pub IsSound : PublisherKey → Type 0
IsSound k = is_some k.revoked_at ≡ true → k.is_active ≡ false

-- A publisher and a key id whose row is there and is not active.
abbrev pub IsRevoked : Text → Text → List PublisherKey → Type 0
IsRevoked user_id key_id keys =
    (k : PublisherKey) × (find_key user_id key_id keys ≡ some k) × (k.is_active ≡ false)

All-append {ℓ κ} :
    {A : Type ℓ} (P : A → Type κ) (xs : List A) (y : A) → All P xs → P y → All P (xs ++ y ∷ [])
All-append P [] y h k = (k, tt)
All-append P (x ∷ xs) y h k = (h.0, All-append P xs y h.1 k)

pub insert_key-IsSound :
    (k : PublisherKey) (keys : List PublisherKey)
    → IsSound k
    → All IsSound keys
    → All IsSound (insert_key k keys)
unfolding insert_key
insert_key-IsSound k keys h all =
    elim (Bool-cases (is_some (find_key k.publisher_user_id k.key_id keys))) [
      | inl taken_id ↦ rw taken_id all
      | inr free ↦ rw free (All-append IsSound keys k all h)
    ]

pub revoke_rows-IsSound :
    (now : ℕ) (user_id key_id : Text) (keys : List PublisherKey)
    → All IsSound keys
    → All IsSound (revoke_rows now user_id key_id keys)
unfolding revoke_rows
revoke_rows-IsSound now user_id key_id [] h = tt
revoke_rows-IsSound now user_id key_id (k ∷ ks) h =
    elim (Bool-cases (names_key user_id key_id k && not (is_some k.revoked_at))) [
      | inl hit ↦ rw hit ((λ _. refl), revoke_rows-IsSound now user_id key_id ks h.1)
      | inr miss ↦ rw miss (h.0, revoke_rows-IsSound now user_id key_id ks h.1)
    ]

pub rotate_rows-IsSound :
    (now : ℕ) (user_id old_id new_id : Text) (keys : List PublisherKey)
    → All IsSound keys
    → All IsSound (rotate_rows now user_id old_id new_id keys)
unfolding rotate_rows
rotate_rows-IsSound now user_id old_id new_id [] h = tt
rotate_rows-IsSound now user_id old_id new_id (k ∷ ks) h =
    elim (Bool-cases (names_key user_id old_id k)) [
      | inl hit ↦ rw hit (h.0, rotate_rows-IsSound now user_id old_id new_id ks h.1)
      | inr miss ↦ rw miss (h.0, rotate_rows-IsSound now user_id old_id new_id ks h.1)
    ]

find_key-append :
    (u i : Text) (keys : List PublisherKey) (j k : PublisherKey)
    → find_key u i keys ≡ some k
    → find_key u i (keys ++ j ∷ []) ≡ some k
unfolding find_key
find_key-append u i [] j k h = cc
find_key-append u i (x ∷ xs) j k h = ground (arith, find_key-append u i xs j k)

pub insert_key-IsRevoked :
    (u i : Text) (j : PublisherKey) (keys : List PublisherKey)
    → IsRevoked u i keys
    → IsRevoked u i (insert_key j keys)
unfolding insert_key
insert_key-IsRevoked u i j keys (k, found, off) =
    elim (Bool-cases (is_some (find_key j.publisher_user_id j.key_id keys))) [
      | inl taken_id ↦ rw taken_id (k, found, off)
      | inr free ↦ rw free (k, find_key-append u i keys j k found, off)
    ]

-- What the two statements make of the row that a lookup finds.
module _ (now : ℕ) (user_id old_id new_id u i : Text) where
  pub revoke_rows-IsRevoked :
      (keys : List PublisherKey)
      → IsRevoked u i keys
      → IsRevoked u i (revoke_rows now user_id old_id keys)
  unfolding revoke_rows find_key
  revoke_rows-IsRevoked [] (k, found, off) = cc
  revoke_rows-IsRevoked (x ∷ xs) (k, found, off) = elim (Bool-cases (names_key u i x)) [
    | inl here ↦ elim (Bool-cases (names_key user_id old_id x && not (is_some x.revoked_at))) [
      | inl hit ↦ rw (hit, here) (_, refl, refl)
      | inr miss ↦ rw (miss, here) (x, refl, ground arith)
    ]
    | inr past ↦ elim (Bool-cases (names_key user_id old_id x && not (is_some x.revoked_at))) [
      | inl hit ↦ rw (hit, past) (revoke_rows-IsRevoked xs (k, ground arith, off))
      | inr miss ↦ rw (miss, past) (revoke_rows-IsRevoked xs (k, ground arith, off))
    ]
  ]

  pub rotate_rows-IsRevoked :
      (keys : List PublisherKey)
      → IsRevoked u i keys
      → IsRevoked u i (rotate_rows now user_id old_id new_id keys)
  unfolding rotate_rows find_key
  rotate_rows-IsRevoked [] (k, found, off) = cc
  rotate_rows-IsRevoked (x ∷ xs) (k, found, off) = elim (Bool-cases (names_key u i x)) [
    | inl here ↦ elim (Bool-cases (names_key user_id old_id x)) [
      | inl hit ↦ rw (hit, here) (_, refl, ground arith)
      | inr miss ↦ rw (miss, here) (x, refl, ground arith)
    ]
    | inr past ↦ elim (Bool-cases (names_key user_id old_id x)) [
      | inl hit ↦ rw (hit, past) (rotate_rows-IsRevoked xs (k, ground arith, off))
      | inr miss ↦ rw (miss, past) (rotate_rows-IsRevoked xs (k, ground arith, off))
    ]
  ]

-- A row that the statement finds live is inactive after it; one that is sound and revoked was
-- inactive before.
pub revoke_live-IsRevoked :
    (now : ℕ) (u i : Text) (keys : List PublisherKey)
    → All IsSound keys
    → has_live_row u i keys ≡ true
    → IsRevoked u i (revoke_rows now u i keys)
unfolding revoke_rows has_live_row find_key
revoke_live-IsRevoked now u i [] sound h = cc
revoke_live-IsRevoked now u i (x ∷ xs) sound h = elim (Bool-cases (names_key u i x)) [
  | inl here ↦ elim (Bool-cases (is_some x.revoked_at)) [
    | inl gone ↦ rw (here, gone, here) (x, refl, sound.0 gone)
    | inr live ↦ rw (here, live, here) (_, refl, refl)
  ]
  | inr past ↦ rw (past, past) (revoke_live-IsRevoked now u i xs sound.1 (ground arith))
]
