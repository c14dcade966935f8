-- ===== src/Http.antt =====
-- api.go and auth.go: the HTTP handlers.
pub mod Auth
pub mod Message
pub mod Callers
pub mod Submit
pub mod Serve
pub mod Decide
pub mod Page
pub mod Pages
pub mod Guards
pub mod Identity
pub mod Groups
pub mod Admitted
pub mod Submitting
pub mod Owned
pub mod Streams
