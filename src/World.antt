-- ===== src/World.antt =====
-- cardinal/world.go and the files of cardinal/ that it drives: the systems, one tick, the game loop,
-- starting, recovering and shutting down.
pub mod Systems
pub mod Types
pub mod Context
pub mod Tick
pub mod Buffer
pub mod Recovery
pub mod Loop
pub mod Lifecycle
pub mod Sample
pub mod Tests
