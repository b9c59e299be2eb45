-- ===== src/OpenFileMap.antt =====
-- src/client/open_file_map.cpp: the descriptors that the client library hands out.
pub mod Defs
pub mod Search
pub mod Table
pub mod Dup2
