-- ===== src/File.antt =====
-- Files that the server reads: trees of nodes (src/fileloader.h, src/fileloader.cpp).
pub mod Otb
pub mod Props
mod Tests
