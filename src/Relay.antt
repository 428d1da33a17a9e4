-- ===== src/Relay.antt =====
-- The relay jobs of the gateway (ohmf/services/gateway/internal/relay/handler.go) and their retry
-- worker: the policy of a message, the devices, the table of jobs, and the handlers.
pub mod Policy
pub mod Devices
pub mod Jobs
pub mod Handlers
pub mod Effects
pub mod Lifecycle
pub mod Runs
pub mod Stages
pub mod Safety
pub mod Media
pub mod Listing
pub mod Examples
