-- ===== src/Apps/Review/Reconsent.antt =====
-- When an approval asks for consent again. The comparison of transitionRelease is made after the
-- release is approved and dated, so that latestApprovedRelease answers with that very release.
use messages.Apps.Store.{immutability_violation, ensured, ok}
use messages.Apps.Review.{
  is_immutable, mark_expansion, apply_transition, put_release, approve_release,
}
use messages.Apps.Manifest.{Platform}
use messages.Apps.Pointers.{latest_approved_release, more_recent, latest_approved_loop}
use messages.Apps.Types.{approved, App, is_approved, Release}
use messages.Apps.Pointers.Recent.{PublishedBefore}
use messages.Base.{
  ◌∙◌, ◌∙◌, text_eq_refl, sym, lookup-insert_self, inr, inl, false, arith, [], Text, Option, Map,
  AllEntries, ◌⊎◌, ◌≡◌, ◌∷◌, ◌⊎◌, ◌≡◌, ◌∷◌, ℕ, true, some, refl, none, lookup, Bool-cases,
  AllEntries-insert, AllEntries, ◌∙◌, text_eq_refl, sym, lookup-insert_self, inr, inl, false, arith,
  [], Text, Option, Map, Bool-cases, AllEntries-insert, ◌⊎◌, ◌≡◌, ◌∷◌, ◌⊎◌, ◌≡◌, ◌∷◌, ℕ, true, some,
  refl, none, lookup, AllEntries, lookup-insert_self, inr, inl, false, arith, [], Text,
  AllEntries-insert, Option, Map, Bool-cases, AllEntries, ◌⊎◌, ◌≡◌, ◌∷◌, ℕ, true, some, refl, none,
  lookup, inr, inl, false, arith, [], Text, Option, Map, Bool-cases, AllEntries,
}

-- The release is the one, or was published before `now` if it is approved.
abbrev Earlier : ℕ → Release → Release → Type 0
Earlier now rel s = is_approved s.review_status ≡ true → (s ≡ rel) ⊎ PublishedBefore now s

abbrev Beaten : ℕ → Option Release → Type 0
Beaten now none = Unit
Beaten now (some q) = PublishedBefore now q

module _ (now : ℕ) (rel : Release) (dated : rel.published_at ≡ some now)
    (live : is_approved rel.review_status ≡ true) where
  not_beaten : (s : Release) → (s ≡ rel) ⊎ PublishedBefore now s → more_recent s (some rel) ≡ false
  unfolding more_recent
  not_beaten s (inl q) = ground arith
  not_beaten s (inr (u, at, h)) = ground arith

  stays :
      (m : Map Release)
      → AllEntries (λ _ s. Earlier now rel s) m
      → latest_approved_loop (some rel) m ≡ some rel
  unfolding latest_approved_loop
  stays [] h = refl
  stays ((j, s) ∷ m) h = elim (Bool-cases (is_approved s.review_status)) [
    | inl a ↦ rw (a, not_beaten s (h.0 a)) (stays m h.1)
    | inr a ↦ rw a (stays m h.1)
  ]

  beats : (acc : Option Release) → Beaten now acc → more_recent rel acc ≡ true
  unfolding more_recent
  beats none h = refl
  beats (some q) (u, at, h) = ground arith

  wins :
      (v : Text) (acc : Option Release) (m : Map Release)
      → Beaten now acc
      → AllEntries (λ _ s. Earlier now rel s) m
      → lookup v m ≡ some rel
      → latest_approved_loop acc m ≡ some rel
  unfolding latest_approved_loop lookup
  wins v acc [] b h found = cc
  wins v acc ((j, s) ∷ m) b h found = elim (Bool-cases (is_approved s.review_status)) [
    | inr a ↦ rw a (wins v acc m b h.1 (further a))
    | inl a ↦ elim (Bool-cases (more_recent s acc)) [
      | inl better ↦
          rw (a, better) (next (h.0 a) (λ before. wins v (some s) m before h.1 (later before)))
      | inr worse ↦ rw (a, worse) (wins v acc m b h.1 (past_it worse))
    ]
  ]
    where
      further : is_approved s.review_status ≡ false → lookup v m ≡ some rel
      further a = ground arith

      later : PublishedBefore now s → lookup v m ≡ some rel
      later (u, at, lt) = ground arith

      next :
          (s ≡ rel) ⊎ PublishedBefore now s
          → (PublishedBefore now s → latest_approved_loop (some s) m ≡ some rel)
          → latest_approved_loop (some s) m ≡ some rel
      next (inl q) k = rw q (stays m h.1)
      next (inr before) k = k before

      past_it : more_recent s acc ≡ false → lookup v m ≡ some rel
      past_it worse = ground (arith, beats acc b)

-- The apps whose approved releases were all published before `now`.
abbrev pub AllBefore : ℕ → Map Release → Type 0
AllBefore now m = AllEntries (λ _ s. is_approved s.review_status ≡ true → PublishedBefore now s) m

earlier :
    (now : ℕ) (rel : Release) (m : Map Release)
    → AllBefore now m
    → AllEntries (λ _ s. Earlier now rel s) m
earlier now rel [] h = tt
earlier now rel ((j, s) ∷ m) h = ((λ a. inr (h.0 a)), earlier now rel m h.1)

finds_itself :
    (p : Platform) (now : ℕ) (version : Text) (app : App) (release : Release)
    → AllBefore now app.releases
    → latest_approved_release (put_release app version (approve_release p now release))
      ≡ some (approve_release p now release)
unfolding latest_approved_release put_release
finds_itself p now version app release before =
    wins now (approve_release p now release) (unfold approve_release in refl)
      (unfold approve_release in refl) version none _ tt
      (AllEntries-insert (λ _ s. Earlier now (approve_release p now release) s) version
        (approve_release p now release) app.releases (λ _. inl refl)
        (earlier now (approve_release p now release) app.releases before))
      (lookup-insert_self version (approve_release p now release) app.releases)

mark_itself :
    (version : Text) (rel : Release) (app : App)
    → latest_approved_release app ≡ some rel
    → rel.version ≡ version
    → mark_expansion version rel app ≡ app
unfolding mark_expansion
mark_itself version rel app h named = rw (h, mark_expansion, named, text_eq_refl version)

ok_app : (a b : App) → ok a ≡ ok b → a ≡ b
ok_app a b h = cc

-- An approval never asks for consent again: if the release stands under its own version and all
-- approved releases of the app were published before now, the approval that succeeds writes the
-- approved release and nothing of the comparison with the release before.
pub approval_asks_nothing :
    (p : Platform) (now : ℕ) (note version : Text) (app app' : App) (release : Release)
    → release.version ≡ version
    → AllBefore now app.releases
    → apply_transition p now note version app release approved ≡ ok app'
    → (app' ≡ put_release app version (approve_release p now release))
      × ((approve_release p now release).requires_reconsent ≡ release.requires_reconsent)
      × ((approve_release p now release).previous_permissions ≡ release.previous_permissions)
unfolding apply_transition
approval_asks_nothing p now note version app app' release named before done = (
  sym (ok_app _ app' (ensured (is_immutable p release) immutability_violation _ done))
      ∙ mark_itself version (approve_release p now release)
          (put_release app version (approve_release p now release))
          (finds_itself p now version app release before) (unfold approve_release in named),
  unfold approve_release in refl,
  unfold approve_release in refl,
)
