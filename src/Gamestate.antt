-- ===== src/Gamestate.antt =====
-- cardinal/gamestate: the entity command buffer over a redis store, and its read-only view.
pub mod Types
pub mod Store
pub mod Tests
pub mod MapStorage
pub mod Active
pub mod CompSets
pub mod Ecb
pub mod Redis
pub mod Pipe
pub mod ReadOnly
