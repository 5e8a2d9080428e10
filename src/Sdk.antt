-- ===== src/Sdk.antt =====
-- gosdk.go: toolchains and targets.
pub mod Targets
pub mod Versions
pub mod Ensure
pub mod Listing
