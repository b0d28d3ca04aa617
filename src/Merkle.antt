-- ===== src/Merkle.antt =====
-- crypto/merkle: the RFC 6962 tree hash and its inclusion proofs. SHA-256 is the parameter `sum`.
mod Split
mod Hash
mod Tree
mod Verify
mod Trails
pub mod Grow
pub mod Climb
pub mod Complete
pub mod Bounds
pub mod Shown
pub mod Sound
pub mod Bind
pub mod Rooted
pub mod Iterative
pub mod Toy
mod Tests
unfoldable pub use Split.*
unfoldable pub use Hash.*
unfoldable pub use Tree.*
unfoldable pub use Verify.*
unfoldable pub use Trails.*
