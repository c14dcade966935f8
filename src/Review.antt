-- ===== src/Review.antt =====
-- review.go: what a reviewer is shown of a request.
pub mod Shell
pub mod Words
pub mod Reader
pub mod Describe
pub mod Extras
pub mod Revalued
pub mod Redacted
pub mod Displayed
