-- ===== src/Retry.antt =====
-- retry.go: one successor for each request that is submitted again, and the search for an equivalent
-- request that is still open.
pub mod Fingerprint
pub mod Successor
pub mod Fresh
pub mod Linking
pub mod Creating
pub mod Adopting
