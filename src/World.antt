-- ===== src/World.antt =====
-- The game world: places (position.h) and kinds of items (items.h).
pub mod Position
pub mod ItemType
mod Tests
