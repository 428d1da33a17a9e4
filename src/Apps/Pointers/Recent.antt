-- ===== src/Apps/Pointers/Recent.antt =====
-- What latestApprovedRelease answers with.
use messages.Base.{
  ℕ, ◌<◌, true, Option, none, some, [], ◌∷◌, ◌≡◌, ◌⊎◌, inl, inr, refl, arith, Text, Map, Bool-cases,
}
use messages.Apps.Types.{Release, App, is_approved}
use messages.Apps.Pointers.{more_recent, latest_approved_loop, latest_approved_release}

-- The release is one of the entries.
abbrev pub Listed : Release → Map Release → Type 0
Listed r [] = ⊥
Listed r ((v, s) ∷ m) = (s ≡ r) ⊎ Listed r m

abbrev Sound : Option Release → Map Release → Option Release → Type 0
Sound acc m none = acc ≡ none
Sound acc m (some r) = (acc ≡ some r) ⊎ (Listed r m × (is_approved r.review_status ≡ true))

weaken :
    (acc : Option Release) (v : Text) (s : Release) (m : Map Release) (o : Option Release)
    → Sound acc m o
    → Sound acc ((v, s) ∷ m) o
weaken acc v s m none h = h
weaken acc v s m (some r) h = ground arith

taken :
    (acc : Option Release) (v : Text) (s : Release) (m : Map Release) (o : Option Release)
    → is_approved s.review_status ≡ true
    → Sound (some s) m o
    → Sound acc ((v, s) ∷ m) o
taken acc v s m none a h = cc
taken acc v s m (some r) a h = ground arith

latest_approved_loop-Sound :
    (acc : Option Release) (m : Map Release) → Sound acc m (latest_approved_loop acc m)
unfolding latest_approved_loop
latest_approved_loop-Sound none [] = refl
latest_approved_loop-Sound (some r) [] = inl refl
latest_approved_loop-Sound acc ((v, s) ∷ m) = elim (Bool-cases (is_approved s.review_status)) [
  | inl a ↦ elim (Bool-cases (more_recent s acc)) [
    | inl b ↦ rw (a, b) (taken acc v s m _ a (latest_approved_loop-Sound (some s) m))
    | inr b ↦ rw (a, b) (weaken acc v s m _ (latest_approved_loop-Sound acc m))
  ]
  | inr a ↦ rw a (weaken acc v s m _ (latest_approved_loop-Sound acc m))
]

-- The release that latestApprovedRelease answers with is an entry of the app and is approved.
pub latest_approved_release-Listed :
    (app : App) (r : Release)
    → latest_approved_release app ≡ some r
    → Listed r app.releases × (is_approved r.review_status ≡ true)
unfolding latest_approved_release
latest_approved_release-Listed app r h =
    go (latest_approved_loop none app.releases) h (latest_approved_loop-Sound none app.releases)
  where
    go :
        (o : Option Release)
        → o ≡ some r
        → Sound none app.releases o
        → Listed r app.releases × (is_approved r.review_status ≡ true)
    go none e s = cc
    go (some q) e s = ground arith

-- A release that was published before `t`.
abbrev pub PublishedBefore : ℕ → Release → Type 0
PublishedBefore t s = (u : ℕ) × (s.published_at ≡ some u) × (u < t)
