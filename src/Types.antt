-- ===== src/Types.antt =====
-- types.go: the SudoRequest resource, its phases, and the error values of the program.
mod Errors
mod Chains
mod Phases
mod Spec
mod Status
mod Request
pub use Errors.*
pub use Chains.*
pub use Phases.*
pub use Spec.*
pub use Status.*
unfoldable pub use Request.*
