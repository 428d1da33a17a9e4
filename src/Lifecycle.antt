-- ===== src/Lifecycle.antt =====
-- The states of a message (ohmf/services/gateway/internal/messages/lifecycle.go) and the table of
-- the changes that are allowed.
use messages.Text.{codes}
use messages.Base.{
  ◌∷◌, true, if◌then◌else◌, text_eq, some, none, lookup, if◌then◌else◌, false, if◌then◌else◌, [],
  Text, Option, Map, Bool,
}
pub mod Chains
pub mod Examples

abbrev pub state_queued : Text
state_queued = codes "QUEUED"

abbrev pub state_accepted : Text
state_accepted = codes "ACCEPTED"

abbrev pub state_stored : Text
state_stored = codes "STORED"

abbrev pub state_pushed : Text
state_pushed = codes "PUSHED"

abbrev pub state_delivered : Text
state_delivered = codes "DELIVERED"

abbrev pub state_read : Text
state_read = codes "READ"

abbrev pub state_failed : Text
state_failed = codes "FAILED"

abbrev pub state_pending_local : Text
state_pending_local = codes "PENDING_LOCAL"

abbrev pub state_sent_to_modem : Text
state_sent_to_modem = codes "SENT_TO_MODEM"

abbrev pub state_sent_to_carrier : Text
state_sent_to_carrier = codes "SENT_TO_CARRIER"

abbrev pub state_failed_local : Text
state_failed_local = codes "FAILED_LOCAL"

abbrev pub state_failed_carrier : Text
state_failed_carrier = codes "FAILED_CARRIER"

-- validTransitions
unfoldable pub valid_transitions : Map (Map Bool)
valid_transitions =
    (state_queued, (state_accepted, true) ∷ (state_failed, true) ∷ [])
    ∷ (state_accepted, (state_stored, true) ∷ (state_failed, true) ∷ [])
    ∷ (state_stored, (state_pushed, true) ∷ (state_failed, true) ∷ [])
    ∷ (state_pushed, (state_delivered, true) ∷ (state_failed, true) ∷ [])
    ∷ (state_delivered, (state_read, true) ∷ [])
    ∷ (state_pending_local, (state_sent_to_modem, true) ∷ (state_failed_local, true) ∷ [])
    ∷ (state_sent_to_modem, (state_sent_to_carrier, true) ∷ (state_failed_local, true) ∷ [])
    ∷ (state_sent_to_carrier, (state_delivered, true) ∷ (state_failed_carrier, true) ∷ [])
    ∷ []

-- `allowed[to]`
abbrev pub allows : Option Bool → Bool
allows none = false
allows (some b) = b

unfoldable pub is_valid_lifecycle_transition : Text → Text → Bool
unfolding valid_transitions
is_valid_lifecycle_transition from to =
    if text_eq from to then true else elim (lookup from valid_transitions) [
      | none ↦ false
      | some allowed ↦ allows (lookup to allowed)
    ]
