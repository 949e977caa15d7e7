-- ===== src/Effect.antt =====
-- The effects of src/syncstate.go: the types, and the monad with its primitive operations.
mod Types
mod Monad
pub mod Keeps
unfoldable pub use Types.*
unfoldable pub use Monad.*
