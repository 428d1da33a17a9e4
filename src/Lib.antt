-- ===== src/Lib.antt =====
-- A model of the registry of mini-apps of this repository (ohmf/services/apps) and of five parts of
-- its gateway (ohmf/services/gateway/internal): end-to-end encryption (e2ee), the jobs that relay
-- text messages through a phone (relay, worker), the sessions of mini-apps (miniapp), the states of
-- a message (messages/lifecycle.go), and phone numbers (phone); with the theorems about them.
--
-- The registry is one Go service. Publishers register apps and releases, admins review the
-- releases, users list, install and update apps, and publishers keep the keys that sign their
-- releases. Every request goes through route, which picks a handler; a handler that changes the
-- registry hands a closure to mutateState, which loads the whole state, runs the closure on it, and
-- saves the state and the audit entries whole or not at all.
--
-- The parts of the gateway share the database and not much else. A relay job is put in a queue by its
-- creator, accepted by a device that the policy allows, finished with a result, and put back in the
-- queue by a worker when it has failed. A session of a mini-app belongs to a conversation: members
-- create and join it, append events and write snapshots of its state until it is ended. A ratchet
-- starts from the secret of a key agreement (X3DH) and encrypts message by message; a group message
-- is encrypted once, under a key that is wrapped for each recipient; the trust state says how far a
-- user trusts the keys of a contact's device.
--
-- Base, Text, Json: the shared helpers: tests, lists and maps; the functions of Go's `strings` on
--   lists of code points, Text.Numbers those of strconv; decoded JSON.
-- Apps.Types, Version, Manifest, Permissions, Pointers, View: the data and the pure functions of
--   ohmf/services/apps/registry.go (registryState, versionGreater, validateManifest,
--   permissionDelta, refreshLatestPointers, appResponse and the rest).
-- Apps.Signature: validatePublicKeyPEM and verifyManifestSignatureWithKey of handlers.go.
-- Apps.Store: appsServer, loadState and mutateState of the same file.
-- Apps.Publish, Review, Installs, Catalog, Keys, Route: the handlers of
--   ohmf/services/apps/handlers.go, each with its closure as a function from a state to a result.
-- Apps.Steps: what any request may do, as a relation, and the theorems that go by its cases:
--   Handlers and Serve (every request makes a step), Inversion (what a successful closure has found
--   and made), Errors, Answers, OneApp and Ownership, OneInstall and Consent, Signed, Revocation.
-- Apps.WellFormed: the invariant of the registry.
-- Apps.Publish.Repeat, Apps.Catalog.Visible, Apps.Catalog.Paging.Pages, Apps.Installs.Undone,
--   Apps.Review.Transition and Reconsent, Apps.Keys.Rows, Apps.Pointers.Latest and Recent,
--   Apps.Permissions.Delta, Apps.Version.Order: what single functions do.
-- Apps.Examples: the theorems at concrete requests.
-- Ratchet: DoubleRatchetState and its operations (double_ratchet.go), as functions from a state to
--   a state and an outcome. Ratchet.Agreement is about a sender and a receiver in step, Order about
--   replays, Renewal about the start, RatchetDH and sessions; Examples has a toy cipher.
-- Ratchet.Skipped: SkippedMessageKeys of double_ratchet.go.
-- KeyAgreement: crypto.go of ohmf/services/gateway/internal/e2ee (Exchange: PerformX3DH,
--   PerformX3DHResponder and MessageEncrypt; Sessions: CreateOrGetSession, SaveSession and the use
--   of a ratchet) and group_encryption.go (Group); Agreed, Wrapped and Kept hold theorems.
-- Trust: trust_state.go, with StoreTrustState and EstablishTOFUTrust of crypto.go; Trust.Views is
--   about what GetTrustStateView shows afterwards.
-- Lifecycle: messages/lifecycle.go; Lifecycle.Chains is about chains of its transitions.
-- Relay.Policy, Devices, Jobs: policies and media of relay/handler.go, the devices and who may use
--   them, the jobs and their SQL updates; Relay.Handlers: the handlers, and runRelayRetry of
--   worker/relay_retry.go, as steps of a server. Relay.Stages has the stages of a job and what an
--   event may do to them, as a relation indexed by the event; Effects, Lifecycle, Runs, Safety,
--   Media and Listing hold theorems.
-- Sessions: the data of miniapp/service.go and share.go and its pure functions; Sessions.Service and
--   Create: the operations, on a world of the tables of sessions, events and members;
--   Sessions.Advance, Kept, Runs, Access, Strangers and Grants hold theorems.
-- Phone: NormalizeE164 of ohmf/services/gateway/internal/phone, over unicode.IsDigit; Phone.Normal
--   is about its answers.
-- KeyAgreement.Examples, Trust.Examples, Lifecycle.Examples, Relay.Examples, Sessions.Examples,
--   Phone.Examples: the theorems at concrete keys, devices, requests and numbers.
--
-- The state is passed explicitly: a handler is a function from a server to a server and a reply. A
-- clock, and whether loading, saving and the other statements succeed, are inputs of a request
-- (Io). A time is a number of ticks with 0 for the zero time. A Go map is a list of entries whose
-- order is the order of an iteration, so that what is proved for all lists holds for every order.
-- Every loop is structural recursion on a list or text, but that of a decimal (strconv.Itoa), whose
-- fuel is one more than the number, which is enough since each digit divides it by ten; the client
-- of the paging theorem makes one request more than there are items, which is enough. In the
-- gateway, times are in nanoseconds, and an early return is a combinator that gives back the state
-- with the error (refuse_if, with_found).
--
-- What the code takes from other packages is the record Platform: json.Marshal, sha256, url.Parse,
-- base64, the parsing of public keys, and the verification by RSA and Ed25519. Nothing is assumed
-- of it. The ratchet has the record Crypto: HMAC, HKDF and AES-GCM; where a theorem needs that what
-- was sealed opens again, it says so. KeyAgreement has the record Suite, with Curve25519, SHA-256,
-- Ed25519 and base64 besides, and says where it needs that an agreement is symmetric. Relay has its
-- own record Platform: base64, Ed25519, and what a NULL column is scanned to. Sessions has the
-- record Catalog: what the queries on published releases answer. An index of a
-- message stays below 2 ^ 63.
--
-- Not modelled: the SQL statements by which the state is loaded and saved and the layout of the
-- file (their effect is the load and the save of the whole state), HTTP encoding, CORS and metrics;
-- ToLower is that of ASCII; JSON keys are matched exactly; a scan of a version ends at blanks and
-- signs, which no version that is accepted holds. An empty map of installs and none are the same.
-- With a database, the load of a release leaves requires_reconsent and previous_permissions out,
-- while the model keeps them, as a file does. The statements on the keys of publishers name columns
-- that the migrations of the repository do not make; whether they succeed is an input (db_ok), and
-- with these migrations they do not. The table of sessions of the ratchet refuses a session without
-- a session key, as its migration says.
-- In the gateway: an operation whose statement fails in the database, which then answers with an
-- error, except where it is an input; audit logs, logs and metrics; the ratchet tree (mls.go) and the
-- stores of libsignal_stores.go; ShareSession, the listing of events and the registration of
-- manifests; the services of messages, conversations, users, devices and authentication, whose
-- content is mostly SQL; realtime delivery and replication; and the other services.
mod Base
pub mod Text
pub mod Json
pub mod Apps
pub mod Ratchet
pub mod Relay
pub mod KeyAgreement
pub mod Trust
pub mod Lifecycle
pub mod Sessions
pub mod Phone
