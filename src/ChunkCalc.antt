-- ===== src/ChunkCalc.antt =====
-- include/global/chunk_calc_util.hpp: the arithmetic between byte offsets and chunks.
pub mod Defs
pub mod Align
