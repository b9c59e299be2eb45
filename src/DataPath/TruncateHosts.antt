-- ===== src/DataPath/TruncateHosts.antt =====
-- Which hosts `forward_truncate` (src/client/rpc/forward_data.cpp) contacts.
use gekko_fwd.Base.{ℕ, suc, ◌-◌, ◌/◌, ◌<◌, ◌≡◌, refl, [], ◌==◌, false, some, arith}
use gekko_fwd.Base.Words.{sub64, sub64_lem}
use gekko_fwd.ChunkCalc.Defs.{chnk_id_for_offset}
use gekko_fwd.ChunkCalc.Align.{chnk_id_for_offset-div}
use gekko_fwd.DataPath.Targets.{chunksize}
use gekko_fwd.DataPath.ChunkFile.{narrow}
use gekko_fwd.DataPath.Plan.{max_offset}
use gekko_fwd.DataPath.Forward.{
  Network, transferred, hosts_from, truncate_hosts, all_posted, gather_truncate, forward_truncate,
}

-- For a new size below the current one, and a current one below 2 ^ 51: if the last byte of a
-- range that starts at 0 and is as long as what is cut off lies in an earlier chunk than the new
-- size does, no host is contacted and the call returns 0, whatever the network and the hosts
-- would do.
pub forward_truncate_none :
    (net : Network) (err locate : ℕ → ℕ) (current_size new_size : ℕ)
    → new_size < current_size
    → current_size < max_offset
    → (current_size - new_size - 1) / chunksize < new_size / chunksize
    → (truncate_hosts locate current_size new_size ≡ some [])
      × (forward_truncate net err locate current_size new_size ≡ some (transferred 0))
unfolding forward_truncate truncate_hosts hosts_from all_posted gather_truncate
forward_truncate_none net err locate current_size new_size less fits short =
    (none_contacted, rw (forward_truncate, none_contacted, all_posted, gather_truncate) refl)
  where
    first : chnk_id_for_offset new_size chunksize ≡ new_size / chunksize
    first = chnk_id_for_offset-div new_size 19 (omega arith) (omega arith)

    last :
        chnk_id_for_offset (sub64 (sub64 current_size new_size) 1) chunksize
        ≡ (current_size - new_size - 1) / chunksize
    last =
        rw
          (
            sub64_lem current_size new_size (omega arith) (omega arith),
            sub64_lem (current_size - new_size) 1 (omega arith) (omega arith),
          )
          (chnk_id_for_offset-div (current_size - new_size - 1) 19 (omega arith) (omega arith))

    rounds :
        suc (narrow (chnk_id_for_offset (sub64 (sub64 current_size new_size) 1) chunksize))
          - narrow (chnk_id_for_offset new_size chunksize)
        ≡ 0
    rounds = rw (first, last) (omega arith)

    ends :
        narrow (chnk_id_for_offset (sub64 (sub64 current_size new_size) 1) chunksize) == 4294967295
        ≡ false
    ends = rw last (ground arith)

    none_contacted : truncate_hosts locate current_size new_size ≡ some []
    none_contacted = rw (truncate_hosts, ends, rounds, hosts_from) refl
