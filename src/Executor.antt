-- ===== src/Executor.antt =====
-- executor.go, in parts: where and as whom a request runs, the Job it becomes, its children.
pub mod Target
pub mod Scratch
pub mod Manifest
pub mod Decode
pub mod Children
pub mod Pods
pub mod Output
pub mod Bounded
pub mod Confined
pub mod Stamping
