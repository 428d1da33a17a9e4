-- ===== src/Apps.antt =====
-- services/apps: the registry of mini-apps, its releases and their review, and the installs.
pub mod Types
pub mod Version
pub mod Manifest
pub mod Signature
pub mod Permissions
pub mod Pointers
pub mod Store
pub mod View
pub mod Review
pub mod Publish
pub mod Installs
pub mod Catalog
pub mod Keys
pub mod Route
pub mod Steps
pub mod WellFormed
pub mod Examples
