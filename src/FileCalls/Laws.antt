-- ===== src/FileCalls/Laws.antt =====
-- What calls of src/client/gkfs_functions.cpp leave on the daemons, and a loop of links in get_metadata
-- of src/client/preload_util.cpp.
use gekko_fwd.Base.{ℕ, zero, suc, ◌/◌, ◌≤◌, ◌<◌, ◌≡◌, refl, Bool, true, false, some, ◌==◌, arith}
use gekko_fwd.Base.Words.{sign_bit}
use gekko_fwd.Decimal.{Bytes, to_string}
use gekko_fwd.Metadata.{Metadata, Config, parse, is_link, is_reg, get_target_path}
use gekko_fwd.Metadata.RoundTrip.{Fits}
use gekko_fwd.Distributor.{Distributor, locate_data, locate_file_metadata}
use gekko_fwd.DataPath.Targets.{chunksize}
use gekko_fwd.MetaStore.Rocks.{Rocks}
use gekko_fwd.MetaStore.Refinement.{Holds}
use gekko_fwd.MetaServer.{Node}
use gekko_fwd.MetaServer.Laws.{shown, parse-value_of, srv_stat-Holds}
use gekko_fwd.MetaClient.{Delivery, answered, returned, posted, forward_stat}
use gekko_fwd.MetaClient.Remove.{Cleared, OthersKept, forward_remove_lem}
use gekko_fwd.FileCalls.{value, unfinished, metadata_of, get_metadata, follow, gkfs_remove}

module _ (format_int : ℕ → Bytes) (cfg : Config) (rocks : Rocks format_int cfg)
    (str_hash : Bytes → ℕ) (d : Distributor) (path : Bytes)
    (nodes : ℕ → Node format_int cfg rocks) where
  module _ (decimal : (n : ℕ) → format_int n ≡ to_string n) where
    pub metadata_of-Holds :
        (net : ℕ → Delivery) (md : Metadata) (n : ℕ)
        → Holds format_int cfg rocks (nodes (locate_file_metadata str_hash d path)).db path md n
        → Fits md
        → n < sign_bit
        → net 0 ≡ answered
        → metadata_of format_int cfg rocks str_hash d net path nodes ≡ value (shown cfg md n)
    unfolding get_metadata forward_stat posted
    metadata_of-Holds net md n h fits small reply =
        rw
          (
            get_metadata,
            reply,
            forward_stat,
            posted,
            srv_stat-Holds format_int cfg rocks decimal path
                (nodes (locate_file_metadata str_hash d path)) md n h,
            parse-value_of format_int cfg rocks decimal md n fits small,
          )
          refl

    -- With a decimal `format_int`, where every host answers, every delete works and the path's hosts
    -- are in the pool: removing a regular file of n bytes, n not 0 and below 2 ^ 63, succeeds, and
    -- leaves no entry of the path on the entry's host and neither an entry nor any chunk file of
    -- the path on the host of any of its first n / chunksize + 1 chunks; the entries of every other
    -- path and the chunks in every other chunk directory are the same on every host.
    pub gkfs_remove_lem :
        (deletes : (db : rocks.Db) (k : Bytes)
          → (next : rocks.Db) × (rocks.delete db k ≡ some next))
        (net later : ℕ → Delivery) (destroyed : ℕ → Bool)
        → ((i : ℕ) → net i ≡ answered)
        → ((i : ℕ) → later i ≡ answered)
        → ((i : ℕ) → destroyed i ≡ true)
        → (hosts : ℕ) (md : Metadata) (n : ℕ)
        → Holds format_int cfg rocks (nodes (locate_file_metadata str_hash d path)).db path md n
        → Fits md
        → n < sign_bit
        → is_reg md.mode ≡ true
        → 0 < n
        → locate_file_metadata str_hash d path < hosts
        → ((k : ℕ) → locate_data str_hash d path k < hosts)
        → (last : ℕ → Node format_int cfg rocks) × (gkfs_remove format_int cfg rocks str_hash d net
              later destroyed hosts path nodes
            ≡ (value 0, last))
          × Cleared format_int cfg rocks path (last (locate_file_metadata str_hash d path))
          × ((k : ℕ)
              → k ≤ n / chunksize
              → Cleared format_int cfg rocks path (last (locate_data str_hash d path k)))
          × ((u : ℕ) → OthersKept format_int cfg rocks path (nodes u) (last u))
    unfolding gkfs_remove
    gkfs_remove_lem deletes net later destroyed replies answers destroys hosts md n h fits small
          regular some_bytes entry_in chunks_in =
        let (last, e, home, chunks, others) =
          forward_remove_lem format_int cfg rocks path deletes str_hash d later destroyed answers
            destroys hosts n nodes small entry_in chunks_in in
        let seen = metadata_of-Holds net md n h fits small (replies 0) in
        let full : (n == 0) ≡ false = ground arith in
        (last, rw (gkfs_remove, seen, regular, full, e) refl, home, chunks, others)

  -- A link that leads to itself: whatever the number of rounds, get_metadata has not ended.
  follow-cycle :
      (fuel : ℕ) (net : ℕ → Delivery) (i : ℕ) (attr : Bytes) (md : Metadata)
      → ((j : ℕ) → forward_stat format_int cfg rocks str_hash d (net j) path nodes ≡ returned attr)
      → parse cfg attr ≡ some md
      → is_link md ≡ true
      → get_target_path md ≡ some path
      → follow format_int cfg rocks str_hash d fuel net i attr nodes ≡ unfinished
  unfolding follow
  follow-cycle zero net i attr md stat e link target = refl
  follow-cycle (suc fuel) net i attr md stat e link target =
      rw (follow, e, link, target, stat i)
        (follow-cycle fuel net (suc i) attr md stat e link target)

  -- If the path is a link that leads to itself and every stat of it is answered: get_metadata, asked
  -- to follow links, does not end within any number of rounds.
  pub get_metadata-cycle :
      (fuel : ℕ) (net : ℕ → Delivery) (attr : Bytes) (md : Metadata)
      → ((j : ℕ) → forward_stat format_int cfg rocks str_hash d (net j) path nodes ≡ returned attr)
      → parse cfg attr ≡ some md
      → is_link md ≡ true
      → get_target_path md ≡ some path
      → get_metadata format_int cfg rocks str_hash d fuel net path true nodes ≡ unfinished
  unfolding get_metadata
  get_metadata-cycle fuel net attr md stat e link target =
      rw (get_metadata, stat 0) (follow-cycle fuel net 1 attr md stat e link target)
