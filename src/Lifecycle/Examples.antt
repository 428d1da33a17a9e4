-- ===== src/Lifecycle/Examples.antt =====
-- A message that fails after it was stored.
use messages.Lifecycle.{
  state_stored, state_queued, state_failed, state_accepted, is_valid_lifecycle_transition,
}
use messages.Lifecycle.Chains.{is_chain-length, is_chain}
use messages.Base.{◌≤◌, ◌∷◌, text_eq, refl, lookup, length, []}

is_chain-length_example : length (state_accepted ∷ state_stored ∷ state_failed ∷ []) ≤ 5
unfolding is_chain text_eq is_valid_lifecycle_transition lookup
is_chain-length_example =
    is_chain-length state_queued (state_accepted ∷ state_stored ∷ state_failed ∷ []) refl
