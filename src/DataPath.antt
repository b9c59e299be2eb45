-- ===== src/DataPath.antt =====
-- The data path: a write or a read of a byte range, from src/client/rpc/forward_data.cpp to
-- src/daemon/handler/srv_data.cpp and src/daemon/backend/data/chunk_storage.cpp.
pub mod Targets
pub mod ChunkFile
pub mod SrvWrite
pub mod Plan
pub mod PlanLoop
pub mod Requests
pub mod Effect
pub mod Shares
pub mod Truncate
pub mod Forward
pub mod TruncateHosts
pub mod WriteView
pub mod SrvRead
pub mod ReadPlan
pub mod ForwardRead
pub mod DiskRead
pub mod ReadPart
pub mod ReadEffect
pub mod ReadView
pub mod WrittenBytes
pub mod WriteRead
pub mod Holes
