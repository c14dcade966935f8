-- ===== src/Reconciler.antt =====
-- reconciler.go: the state machine of a request, a module for each handler. Each handler takes the
-- answers that its calls to the API server get, one field for each call site.
pub mod Update
pub mod Finalize
pub mod Token
pub mod Decide
pub mod Once
pub mod Masked
pub mod Decided
pub mod Deliver
pub mod Notified
pub mod Pending
pub mod New
pub mod Checks
pub mod Approved
pub mod Dispatch
