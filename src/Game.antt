-- ===== src/Game.antt =====
-- The game's own data: the tree of the names that are online (src/wildcardtree.cpp).
pub mod Wildcard
pub mod Party
pub mod Chat
mod Tests
