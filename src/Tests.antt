-- ===== src/Tests.antt =====
-- Concrete requests and runs, and the theorems at them.
mod Requests
mod Runs
mod Lives
mod Decisions
mod Specs
mod Ends
mod Events
mod Retries
mod Pages
mod Texts
mod Starts
