-- ===== src/Apps/Pointers/Latest.antt =====
-- The pointers that refreshLatestPointers sets are the greatest versions, whatever the order in
-- which the map is met.
use messages.Base.{
  Bool, true, false, ◌&&◌, [], ◌∷◌, ◌≡◌, ◌≢◌, ◌⊎◌, ◌↔◌, inl, inr, refl, sym, ◌∙◌, subst, arith,
  Text, Map, All, if◌then◌else◌, Bool-cases,
}
use messages.Apps.Types.{Release, App, is_approved}
use messages.Apps.Version.{version_greater}
use messages.Apps.Version.Order.{
  version_greater_irrefl, version_greater_trans, version_greater_connex, version_greater-nil,
}
use messages.Apps.Pointers.{replaces, refresh_loop, refresh_latest_pointers}

-- Version `v` has a release that passes the test.
abbrev pub Holds : (Release → Bool) → Text → Map Release → Type 0
Holds P v [] = ⊥
Holds P v ((j, r) ∷ m) = ((j ≡ v) × (P r ≡ true)) ⊎ Holds P v m

abbrev pub HasVersions : Map Release → Type 0
HasVersions m = All (λ (e : Text × Release). e.0 ≢ []) m

abbrev pub AtMost : Text → Text → Type 0
AtMost j w = (j ≡ w) ⊎ (version_greater w j ≡ true)

-- `w` is a version that passes, and comes after every other one.
pub record IsGreatest (P : Release → Bool) (w : Text) (m : Map Release) : Type 0 where
  pub passes : Holds P w m
  pub greatest : (j : Text) → Holds P j m → AtMost j w

-- One pointer of the loop.
greatest_loop : (Release → Bool) → Text → Map Release → Text
greatest_loop P w [] = w
greatest_loop P w ((v, r) ∷ m) = greatest_loop P (if P r && replaces v w then v else w) m

abbrev pub any_release : Release → Bool
any_release r = true

abbrev pub approved_release : Release → Bool
approved_release r = is_approved r.review_status

latest_version-refresh_loop :
    (m : Map Release) (app : App)
    → (refresh_loop m app).latest_version ≡ greatest_loop any_release app.latest_version m
unfolding refresh_loop greatest_loop
latest_version-refresh_loop [] app = refl
latest_version-refresh_loop ((v, r) ∷ m) app = latest_version-refresh_loop m _

latest_approved-refresh_loop :
    (m : Map Release) (app : App)
    → (refresh_loop m app).latest_approved ≡ greatest_loop approved_release app.latest_approved m
unfolding refresh_loop greatest_loop
latest_approved-refresh_loop [] app = refl
latest_approved-refresh_loop ((v, r) ∷ m) app = latest_approved-refresh_loop m _

AtMost-trans : (a b c : Text) → b ≢ [] → AtMost a b → AtMost b c → AtMost a c
AtMost-trans a b c h p q = ground (arith, version_greater_trans c b a h)

replaces_cases :
    (v w : Text)
    → v ≢ []
    → ((replaces v w ≡ true) × ((w ≡ []) ⊎ AtMost w v))
      ⊎ ((replaces v w ≡ false) × (w ≢ []) × AtMost v w)
unfolding replaces
replaces_cases v [] h = inl (refl, inl refl)
replaces_cases v (c ∷ w) h = elim (Bool-cases (version_greater v (c ∷ w))) [
  | inl e ↦ inl (e, inr (inr e))
  | inr e ↦ inr (e, (λ p. cc), ground (arith, version_greater_connex v (c ∷ w)))
]

module _ (P : Release → Bool) where
  record Found (w acc : Text) (m : Map Release) : Type 0 where
    from : (w ≡ acc) ⊎ Holds P w m
    over_acc : (acc ≡ []) ⊎ AtMost acc w
    over_all : (j : Text) → Holds P j m → AtMost j w

  Found-head :
      (v acc w : Text) (r : Release) (m : Map Release)
      → v ≢ []
      → P r ≡ true
      → (acc ≡ []) ⊎ AtMost acc v
      → Found w v m
      → Found w acc ((v, r) ∷ m)
  Found-head v acc w r m hv pr low f = record {
    from = ground (arith, f.from);
    over_acc = ground (arith, f.over_acc, AtMost-trans acc v w hv);
    over_all = λ j h. ground (arith, f.over_acc, f.over_all j);
  }

  Found-kept :
      (v acc w : Text) (r : Release) (m : Map Release)
      → (P r ≡ true → (acc ≢ []) × AtMost v acc)
      → Found w acc m
      → Found w acc ((v, r) ∷ m)
  Found-kept v acc w r m low f = record {
    from = ground (arith, f.from);
    over_acc = f.over_acc;
    over_all = λ j h. ground (arith, f.over_acc, f.over_all j, low, AtMost-trans v acc w);
  }

  greatest_loop-Found :
      (acc : Text) (m : Map Release) → HasVersions m → Found (greatest_loop P acc m) acc m
  unfolding greatest_loop
  greatest_loop-Found acc [] h = record {
    from = inl refl;
    over_acc = inr (inl refl);
    over_all = λ j b. absurd b;
  }
  greatest_loop-Found acc ((v, r) ∷ m) h = elim (Bool-cases (P r)) [
    | inl pr ↦ elim (replaces_cases v acc h.0) [
      | inl (e, low) ↦ rw (pr, e) (Found-head v acc _ r m h.0 pr low (greatest_loop-Found v m h.1))
      | inr (e, ne, low) ↦
          rw (pr, e) (Found-kept v acc _ r m (λ _. (ne, low)) (greatest_loop-Found acc m h.1))
    ]
    | inr pr ↦ rw pr (Found-kept v acc _ r m (λ q. cc) (greatest_loop-Found acc m h.1))
  ]

  -- From the empty pointer: nothing passes, or the result is the greatest that does.
  greatest_loop_lem :
      (m : Map Release)
      → HasVersions m
      → ((greatest_loop P [] m ≡ []) × ((j : Text) → ¬ Holds P j m))
        ⊎ IsGreatest P (greatest_loop P [] m) m
  greatest_loop_lem m h = go (greatest_loop P [] m) (greatest_loop-Found [] m h)
    where
      no_version : (j : Text) (n : Map Release) → HasVersions n → Holds P j n → j ≢ []
      no_version j [] hn b = absurd b
      no_version j ((v, r) ∷ n) hn (inl (e, _)) = subst (λ x. x ≢ []) e hn.0
      no_version j ((v, r) ∷ n) hn (inr b) = no_version j n hn.1 b

      none_below : (j : Text) → j ≢ [] → AtMost j [] → ⊥
      none_below j hj (inl e) = hj e
      none_below j hj (inr e) = cc (version_greater-nil j hj)

      go : (w : Text) → Found w [] m → ((w ≡ []) × ((j : Text) → ¬ Holds P j m)) ⊎ IsGreatest P w m
      go w f = elim f.from [
        | inl e ↦
            inl (e, λ j b. none_below j (no_version j m h b) (subst (AtMost j) e (f.over_all j b)))
        | inr b ↦ inr (record { passes = b; greatest = f.over_all })
      ]

AtMost-antisym : (a b : Text) → a ≢ [] → b ≢ [] → AtMost a b → AtMost b a → a ≡ b
AtMost-antisym a b h k p q =
    ground (arith, version_greater_trans a b a k, version_greater_irrefl a h, p, q)

-- A refresh writes the two pointers and nothing else.
refresh_loop_keeps :
    (m : Map Release) (app : App)
    → refresh_loop m app ≡ record app {
      latest_version = (refresh_loop m app).latest_version;
      latest_approved = (refresh_loop m app).latest_approved;
    }
unfolding refresh_loop
refresh_loop_keeps [] app = refl
refresh_loop_keeps ((v, r) ∷ m) app = refresh_loop_keeps m _

pub refresh_latest_pointers_keeps :
    (app : App)
    → refresh_latest_pointers app ≡ record app {
      latest_version = (refresh_latest_pointers app).latest_version;
      latest_approved = (refresh_latest_pointers app).latest_approved;
    }
unfolding refresh_latest_pointers
refresh_latest_pointers_keeps app = refresh_loop_keeps app.releases _

module _ (app : App) (named : HasVersions app.releases) where
  -- After a refresh of an app whose versions are not empty, LatestApproved is empty if no release
  -- is approved, and otherwise the version of an approved release that comes after those of all
  -- other approved ones. LatestVersion is the same for all releases.
  pub refresh_latest_pointers-IsGreatest :
      (((refresh_latest_pointers app).latest_approved ≡ [])
          × ((j : Text) → ¬ Holds approved_release j app.releases)
        ⊎ IsGreatest approved_release (refresh_latest_pointers app).latest_approved app.releases)
      × (((refresh_latest_pointers app).latest_version ≡ [])
            × ((j : Text) → ¬ Holds any_release j app.releases)
          ⊎ IsGreatest any_release (refresh_latest_pointers app).latest_version app.releases)
  unfolding refresh_latest_pointers
  refresh_latest_pointers-IsGreatest = (
    rw (latest_approved-refresh_loop app.releases)
        (greatest_loop_lem approved_release app.releases named),
    rw (latest_version-refresh_loop app.releases)
        (greatest_loop_lem any_release app.releases named),
  )

-- Two lists hold the same versions under every test: they are one map, met in two orders.
abbrev pub SameEntries : Map Release → Map Release → Type 0
SameEntries m n = (P : Release → Bool) (v : Text) → Holds P v m ↔ Holds P v n

module _ (P : Release → Bool) (m n : Map Release) (same : SameEntries m n) where
  no_entry : (v w : Text) → ((j : Text) → ¬ Holds P j m) → Holds P w n → v ≡ w
  no_entry v w h b = absurd (h w ((same P w).1 b))

  greatest_loop-order : HasVersions m → HasVersions n → greatest_loop P [] m ≡ greatest_loop P [] n
  greatest_loop-order hm hn = go (greatest_loop_lem P m hm) (greatest_loop_lem P n hn)
    where
      named_version : (j : Text) (k : Map Release) → HasVersions k → Holds P j k → j ≢ []
      named_version j [] hk b = absurd b
      named_version j ((v, r) ∷ k) hk (inl (e, _)) = subst (λ x. x ≢ []) e hk.0
      named_version j ((v, r) ∷ k) hk (inr b) = named_version j k hk.1 b

      go :
          {v w : Text}
          → ((v ≡ []) × ((j : Text) → ¬ Holds P j m)) ⊎ IsGreatest P v m
          → ((w ≡ []) × ((j : Text) → ¬ Holds P j n)) ⊎ IsGreatest P w n
          → v ≡ w
      go (inl (e, _)) (inl (f, _)) = e ∙ sym f
      go {v} {w} (inl (_, h)) (inr g) = absurd (h w ((same P w).1 g.passes))
      go {v} {w} (inr g) (inl (_, h)) = absurd (h v ((same P v).0 g.passes))
      go {v} {w} (inr g) (inr k) =
          AtMost-antisym v w (named_version v m hm g.passes) (named_version w n hn k.passes)
            (k.greatest v ((same P v).0 g.passes)) (g.greatest w ((same P w).1 k.passes))

-- The order in which the map of the releases is met does not change the pointers.
pub refresh_latest_pointers-order :
    (app : App) (releases : Map Release)
    → HasVersions app.releases
    → HasVersions releases
    → SameEntries app.releases releases
    → let other = refresh_latest_pointers (record app { releases = releases }) in
      (other.latest_approved ≡ (refresh_latest_pointers app).latest_approved)
      × (other.latest_version ≡ (refresh_latest_pointers app).latest_version)
unfolding refresh_latest_pointers
refresh_latest_pointers-order app releases h k same = (
  latest_approved-refresh_loop releases _
      ∙ sym (greatest_loop-order approved_release app.releases releases same h k)
      ∙ sym (latest_approved-refresh_loop app.releases _),
  latest_version-refresh_loop releases _
      ∙ sym (greatest_loop-order any_release app.releases releases same h k)
      ∙ sym (latest_version-refresh_loop app.releases _),
)
