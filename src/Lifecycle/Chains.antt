-- ===== src/Lifecycle/Chains.antt =====
-- Every change of state goes forward, so that a message comes to rest.
use messages.Lifecycle.{
  valid_transitions, state_stored, state_sent_to_modem, state_sent_to_carrier, state_queued,
  state_pushed, state_pending_local, state_delivered, state_accepted, is_valid_lifecycle_transition,
}
use messages.Base.{
  ◌≤◌, ◌≡◌, ◌∷◌, ◌∙◌, ℕ, true, text_eq, sym, some, refl, not, none, lookup, length, inr, inl, false,
  arith, [], Text, Option-cases, Option, Map, List, Bool, AllEntries-lookup, AllEntries, ◌<◌, ◌+◌,
  ◌&&◌,
}

-- How far a state is from the start; a text that is no state is at rest.
abbrev ranks : Map ℕ
ranks =
    (state_queued, 0)
    ∷ (state_pending_local, 0)
    ∷ (state_accepted, 1)
    ∷ (state_sent_to_modem, 1)
    ∷ (state_stored, 2)
    ∷ (state_sent_to_carrier, 2)
    ∷ (state_pushed, 3)
    ∷ (state_delivered, 4)
    ∷ []

rank_or_rest : Option ℕ → ℕ
rank_or_rest none = 5
rank_or_rest (some n) = n

unfoldable rank : Text → ℕ
unfolding rank_or_rest
rank t = rank_or_rest (lookup t ranks)

ranks_small : AllEntries (λ t n. n ≤ 5) ranks
ranks_small = ground arith

rank_bound : (t : Text) → rank t ≤ 5
unfolding rank rank_or_rest
rank_bound t = elim (Option-cases (lookup t ranks)) [
  | inl missing ↦ rw missing (omega arith)
  | inr (n, found) ↦ rw found (AllEntries-lookup (λ t n. n ≤ 5) t n ranks ranks_small found)
]

abbrev Rises : Text → Map Bool → Type 0
Rises from allowed = AllEntries (λ to b. rank from < rank to) allowed

transitions_rise : AllEntries Rises valid_transitions
unfolding rank rank_or_rest lookup text_eq valid_transitions
transitions_rise = ground arith

valid_rises :
    (from to : Text)
    → is_valid_lifecycle_transition from to ≡ true
    → text_eq from to ≡ false
    → rank from < rank to
unfolding is_valid_lifecycle_transition
valid_rises from to h apart = elim (Option-cases (lookup from valid_transitions)) [
  | inl missing ↦
      let clash : false ≡ true =
        sym (rw (is_valid_lifecycle_transition, apart, missing) refl) ∙ h in
      absurd cc
  | inr (allowed, found) ↦ elim (Option-cases (lookup to allowed)) [
    | inl missing ↦
        let clash : false ≡ true =
          sym (rw (is_valid_lifecycle_transition, apart, found, missing) refl) ∙ h in
        absurd cc
    | inr (b, in_row) ↦
        AllEntries-lookup (λ to b. rank from < rank to) to b allowed
          (AllEntries-lookup Rises from allowed valid_transitions transitions_rise found) in_row
  ]
]

-- States that follow one another by allowed changes, none of them to the same state.
unfoldable pub is_chain : Text → List Text → Bool
is_chain s [] = true
is_chain s (t ∷ ts) = is_valid_lifecycle_transition s t && not (text_eq s t) && is_chain t ts

chain_rank : (s : Text) (ts : List Text) → is_chain s ts ≡ true → length ts + rank s ≤ 5
unfolding is_chain
chain_rank s [] h = omega (arith, rank_bound s)
chain_rank s (t ∷ ts) h =
    let rest = chain_rank t ts (ground arith) in
    let rises = valid_rises s t (ground arith) (ground arith) in omega arith

-- From any state, a message changes its state at most five times, in whatever order the allowed
-- changes come.
pub is_chain-length : (s : Text) (ts : List Text) → is_chain s ts ≡ true → length ts ≤ 5
is_chain-length s ts h = omega (arith, chain_rank s ts h)
