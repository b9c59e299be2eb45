-- ===== src/MetaStore.antt =====
-- The metadata of a daemon: src/daemon/backend/metadata/db.cpp and src/daemon/ops/metadentry.cpp.
pub mod Rocks
pub mod Db
pub mod Live
pub mod Refinement
pub mod View
pub mod Run
pub mod Scan
pub mod Keys
pub mod Listing
