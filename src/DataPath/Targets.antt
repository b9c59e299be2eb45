-- ===== src/DataPath/Targets.antt =====
-- The part of `forward_write` and `forward_read` (src/client/rpc/forward_data.cpp) that spreads the
-- chunks of a byte range over their hosts and sizes each host's request.
use gekko_fwd.Base.{
  ℕ, zero, suc, ◌+◌, ◌-◌, List, [], ◌∷◌, ◌++◌, Bool, true, false, ◌==◌, if◌then◌else◌, length,
}
use gekko_fwd.Base.Words.{add64, sub64, mul64}
use gekko_fwd.ChunkCalc.Defs.{chnk_lpad, chnk_rpad, chnk_id_for_offset}

-- gkfs::config::rpc::chunksize, in include/config.hpp
abbrev pub chunksize : ℕ
chunksize = 524288

-- std::map<uint64_t, std::vector<uint64_t>>: the chunks of each target, in the order of the keys'
-- insertion; the code looks keys up and never walks the map.
abbrev pub ChunkMap : Type 0
ChunkMap = List (ℕ × List ℕ)

unfoldable pub has_target : ChunkMap → ℕ → Bool
has_target [] target = false
has_target ((t, ids) ∷ m) target = if t == target then true else has_target m target

-- target_chnks[target]
unfoldable pub chunks_of : ChunkMap → ℕ → List ℕ
chunks_of [] target = []
chunks_of ((t, ids) ∷ m) target = if t == target then ids else chunks_of m target

-- target_chnks[target].push_back(chnk_id)
unfoldable pub add_chunk : ChunkMap → ℕ → ℕ → ChunkMap
add_chunk [] target chnk_id = []
add_chunk ((t, ids) ∷ m) target chnk_id =
    if t == target then (t, ids ++ chnk_id ∷ []) ∷ m else (t, ids) ∷ add_chunk m target chnk_id

pub record Spread : Type 0 where
  pub target_chnks : ChunkMap
  pub targets : List ℕ
  pub chnk_start_target : ℕ
  pub chnk_end_target : ℕ

abbrev pub no_targets : Spread
no_targets = record { target_chnks = []; targets = []; chnk_start_target = 0; chnk_end_target = 0 }

module _ (locate : ℕ → ℕ) (chnk_start chnk_end : ℕ) where
  -- The body of the loop over the chunk ids.
  unfoldable pub spread_chunk : ℕ → Spread → Spread
  spread_chunk chnk_id s =
      let target = locate chnk_id in
      let known = has_target s.target_chnks target in
      record {
        target_chnks =
            if known
            then add_chunk s.target_chnks target chnk_id
            else s.target_chnks ++ (target, chnk_id ∷ []) ∷ [];
        targets = if known then s.targets else s.targets ++ target ∷ [];
        chnk_start_target = if chnk_id == chnk_start then target else s.chnk_start_target;
        chnk_end_target = if chnk_id == chnk_end then target else s.chnk_end_target;
      }

  -- `rounds` chunks from `chnk_id` on.
  unfoldable pub spread_from : ℕ → ℕ → Spread → Spread
  spread_from zero chnk_id s = s
  spread_from (suc rounds) chnk_id s = spread_from rounds (suc chnk_id) (spread_chunk chnk_id s)

-- for (chnk_id = chnk_start; chnk_id <= chnk_end; chnk_id++)
unfoldable pub spread : (ℕ → ℕ) → ℕ → ℕ → Spread
unfolding spread_from spread_chunk
spread locate chnk_start chnk_end =
    spread_from locate chnk_start chnk_end (chnk_end + 1 - chnk_start) chnk_start no_targets

-- total_chunk_size of one target's request for `size` bytes at `offset`.
unfoldable pub total_chunk_size : Spread → ℕ → ℕ → ℕ → ℕ
total_chunk_size s offset size target =
    let whole = mul64 (length (chunks_of s.target_chnks target)) chunksize in
    let tail =
      if target == s.chnk_start_target then sub64 whole (chnk_lpad offset chunksize) else whole in
    if target == s.chnk_end_target
    then sub64 tail (chnk_rpad (add64 offset size) chunksize)
    else tail

-- rpc_write_data_in_t and rpc_read_data_in_t, but for the path, with the size of the exposed buffer.
pub record DataIn : Type 0 where
  pub offset : ℕ
  pub host_id : ℕ
  pub host_size : ℕ
  pub chunk_n : ℕ
  pub chunk_start : ℕ
  pub chunk_end : ℕ
  pub total_chunk_size : ℕ
  pub bulk_size : ℕ

-- The request that goes to `target`, in a pool of `host_size` hosts.
unfoldable pub request : (ℕ → ℕ) → ℕ → ℕ → ℕ → ℕ → DataIn
request locate host_size offset size target =
    let chnk_start = chnk_id_for_offset offset chunksize in
    let chnk_end = chnk_id_for_offset (sub64 (add64 offset size) 1) chunksize in
    let s = spread locate chnk_start chnk_end in
    record {
      offset = chnk_lpad offset chunksize;
      host_id = target;
      host_size = host_size;
      chunk_n = length (chunks_of s.target_chnks target);
      chunk_start = chnk_start;
      chunk_end = chnk_end;
      total_chunk_size = total_chunk_size s offset size target;
      bulk_size = size;
    }
