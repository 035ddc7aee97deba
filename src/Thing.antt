-- ===== src/Thing.antt =====
-- Things that lie in other things: containers (src/container.cpp).
pub mod Container
pub mod Tile
mod Tests
