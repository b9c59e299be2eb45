-- ===== src/DataPath/Truncate.antt =====
-- `rpc_srv_truncate` of src/daemon/handler/srv_data.cpp: a daemon's chunk files are cut at a length.
use gekko_fwd.Base.{
  ℕ, suc, ◌/◌, ◌%◌, ◌<◌, ◌≡◌, ◌≢◌, refl, Bool, true, false, ◌&&◌, ltb, ◌==◌, if◌then◌else◌, Option,
  none, some, arith,
}
use mathlib.Core.Option
use gekko_fwd.ChunkCalc.Defs.{chnk_id_for_offset, chnk_lpad}
use gekko_fwd.ChunkCalc.Align.{chnk_id_for_offset-div}
use gekko_fwd.DataPath.Targets.{chunksize}
use gekko_fwd.DataPath.ChunkFile.{
  ChunkFile, Chunks, narrow, update, truncate_chunk, trim_chunk_space,
}
use gekko_fwd.DataPath.Plan.{max_offset}

-- `none` is an exception that leaves the handler: of `truncate` on a chunk file, or of the iterator
-- over the chunk directory, which `dir` says exists. chunk_start is an `unsigned int`.
unfoldable pub srv_truncate : Bool → ℕ → Chunks → Option Chunks
srv_truncate dir length chunks =
    let chunk_start = narrow (chnk_id_for_offset length chunksize) in
    let left_pad = chnk_lpad length chunksize in
    if dir
    then (if left_pad == 0
        then some (trim_chunk_space chunks chunk_start)
        else Option.map (λ c. trim_chunk_space c (narrow (suc chunk_start)))
            (truncate_chunk chunks chunk_start left_pad))
    else none

truncated : ChunkFile → ℕ → ChunkFile
truncated f length = record {
  size = length;
  byte = λ i. if ltb i f.size && ltb i length then f.byte i else 0;
}

truncate_chunk-none :
    (chunks : Chunks) (id length : ℕ) → chunks id ≡ none → truncate_chunk chunks id length ≡ none
unfolding truncate_chunk
truncate_chunk-none chunks id length e = rw (truncate_chunk, e) refl

module _ (length : ℕ) (fits : length < max_offset) where
  start : narrow (chnk_id_for_offset length chunksize) ≡ length / chunksize
  start = rw (chnk_id_for_offset-div length 19 (omega arith) (omega arith)) (omega arith)

  lpad : chnk_lpad length chunksize ≡ length % chunksize
  unfolding chnk_lpad
  lpad = refl

  padded : length % chunksize ≢ 0 → length % chunksize == 0 ≡ false
  padded h = ground arith

  cut : Chunks → ChunkFile → Chunks
  cut chunks f = update chunks (length / chunksize) (some (truncated f (length % chunksize)))

  -- Where a length below 2 ^ 51 falls into a chunk whose file is not on the daemon, and not on
  -- its boundary, the handler ends with an exception, whatever other chunks of the file the
  -- daemon has.
  pub srv_truncate_missing :
      (dir : Bool) (chunks : Chunks)
      → length % chunksize ≢ 0
      → chunks (length / chunksize) ≡ none
      → srv_truncate dir length chunks ≡ none
  unfolding srv_truncate
  srv_truncate_missing true chunks pad gone =
      rw
        (
          start,
          lpad,
          padded pad,
          truncate_chunk-none chunks (length / chunksize) (length % chunksize) gone,
        )
        refl
  srv_truncate_missing false chunks pad gone = refl
