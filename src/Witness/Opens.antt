-- ===== src/Witness/Opens.antt =====
-- gkfs_open at concrete inputs, over a store in memory.
use gekko_fwd.Base.{ℕ, ◌≡◌, ◌+◌, refl, [], ◌∷◌, true, false, none, some, arith, length}
use gekko_fwd.Decimal.{Bytes, to_string}
use gekko_fwd.Metadata.{config, serialize, of_mode, of_link, is_link}
use gekko_fwd.Distributor.{Distributor, simple_hash, locate_file_metadata}
use gekko_fwd.DataPath.Forward as DataForward
use gekko_fwd.PathUtil.{is_absolute, has_trailing_slash}
use gekko_fwd.MetaStore.Db.{db_get, db_put, db_decrease_size, create_metadentry}
use gekko_fwd.MetaStore.Live.{Live-put}
use gekko_fwd.MetaStore.Rocks.{answer, same}
use gekko_fwd.MetaServer.{Node, srv_stat, srv_create, srv_mk_symlink, srv_decr_size}
use gekko_fwd.MetaServer.Laws.{stamped, shown}
use gekko_fwd.MetaClient.{
  answered, code, posted, forward_create, forward_mk_symlink, forward_stat, forward_decr_size,
  forward_get_metadentry_size,
}
use gekko_fwd.FileCalls.{
  value, fails, PathFlags, file, eexist, metadata_of, get_metadata, check_parent_dir, created_mode,
  gkfs_create, truncate_to,
}
use gekko_fwd.FileCalls.Laws.{metadata_of-Holds}
use gekko_fwd.FileCalls.Open.{
  Round, open_new, open_existing, gkfs_open, gkfs_mk_symlink, gkfs_readlink,
}
use gekko_fwd.FileCalls.Open.Truncation.{gkfs_open-forward_get_metadentry_size}
use gekko_fwd.FileCalls.Open.Creation.{new_file, gkfs_open-gkfs_open}
use gekko_fwd.FileCalls.Open.Links.{gkfs_mk_symlink-gkfs_readlink}
use gekko_fwd.Witness.Memory as Memory
use gekko_fwd.Witness.Memory.{memory, file-Fits}

abbrev path_a : Bytes
path_a = b'/' ∷ b'a' ∷ []

abbrev hash : Bytes → ℕ
hash s = length s

abbrev four_hosts : Distributor
four_hosts = simple_hash 0 4

abbrev empty_daemons : ℕ → Node to_string config memory
empty_daemons u = record { db = λ k. (none, []); chunks = λ p id. none }

abbrev file_daemons : ℕ → Node to_string config memory
file_daemons u = record {
  db = λ k. (some (serialize to_string config Memory.file), []);
  chunks = λ p id. some (record { size = 1; byte = λ i. 7 });
}

abbrev answering : Round to_string config memory hash four_hosts
answering = record {
  net = λ i. answered;
  later = λ i. answered;
  truncating = answered;
  time = 9;
  entries = none;
  truncate_data = λ old_size new_size. DataForward.transferred 0;
}

abbrev flags : PathFlags
flags = record {
  o_path = false;
  o_append = false;
  o_creat = true;
  o_directory = false;
  o_excl = false;
  o_nofollow = false;
  o_trunc = true;
  writes = true;
}

emptied_open :
    (gkfs_open to_string config memory hash four_hosts false
      (answering ∷ [])
      path_a
      0o644
      flags
      file_daemons).0
    ≡ value (file path_a flags)
unfolding gkfs_open is_link open_existing truncate_to forward_decr_size posted srv_decr_size
    db_decrease_size locate_file_metadata
emptied_open =
    rw
      (metadata_of-Holds to_string config memory hash four_hosts path_a file_daemons (λ n. refl)
        (λ i. answered) Memory.file 100
        (Live-put to_string config Memory.file (file-Fits 100 (omega arith)))
        (file-Fits 100 (omega arith)) (omega arith) refl)
      refl

gkfs_open-forward_get_metadentry_size_example :
    (file path_a flags ≡ file path_a flags)
    × (forward_get_metadentry_size to_string config memory hash four_hosts answered path_a
          (gkfs_open to_string config memory hash four_hosts false
            (answering ∷ [])
            path_a
            0o644
            flags
            file_daemons).1
        ≡ code 0 0)
gkfs_open-forward_get_metadentry_size_example =
    gkfs_open-forward_get_metadentry_size to_string config memory hash four_hosts path_a
      file_daemons (λ n. refl) false answering [] 0o644 flags Memory.file 100 (file path_a flags)
      (Live-put to_string config Memory.file (file-Fits 100 (omega arith)))
      (file-Fits 100 (omega arith)) (omega arith) refl
      (record { no_path = refl; no_append = refl; no_excl = refl; trunc = refl; writes = refl })
      refl refl emptied_open

abbrev exclusive : PathFlags
exclusive = record flags { o_excl = true }

created_open :
    (gkfs_open to_string config memory hash four_hosts false
      (answering ∷ [])
      path_a
      0o644
      flags
      empty_daemons).0
    ≡ value (file path_a flags)
unfolding gkfs_open open_new get_metadata forward_stat posted srv_stat db_get answer gkfs_create
    created_mode check_parent_dir forward_create srv_create create_metadentry db_put is_absolute
    same has_trailing_slash of_mode locate_file_metadata
created_open = refl

gkfs_open-gkfs_open_example :
    (file path_a flags ≡ file path_a flags)
    × (metadata_of to_string config memory hash four_hosts
          (λ i. answered)
          path_a
          (gkfs_open to_string config memory hash four_hosts false
            (answering ∷ [])
            path_a
            0o644
            flags
            empty_daemons).1
        ≡ value (shown config (stamped config 9 (new_file (0o644 + 32768))) 0))
    × (gkfs_open to_string config memory hash four_hosts false
          (answering ∷ [])
          path_a
          0o600
          exclusive
          (gkfs_open to_string config memory hash four_hosts false
            (answering ∷ [])
            path_a
            0o644
            flags
            empty_daemons).1
        ≡ (
          fails eexist,
          (gkfs_open to_string config memory hash four_hosts false
              (answering ∷ [])
              path_a
              0o644
              flags
              empty_daemons).1,
        ))
gkfs_open-gkfs_open_example =
    gkfs_open-gkfs_open to_string config memory hash four_hosts path_a empty_daemons (λ n. refl)
      false answering answering [] [] 0o644 0o600 flags exclusive (file path_a flags) (omega arith)
      (omega arith) refl
      (record { no_path = refl; no_append = refl; no_directory = refl; creat = refl }) refl refl
      refl refl refl refl created_open

abbrev target_b : Bytes
target_b = b'/' ∷ b'b' ∷ []

link_made :
    (gkfs_mk_symlink to_string config memory hash four_hosts false
      (λ i j. answered)
      9
      path_a
      target_b
      empty_daemons).0
    ≡ value 0
unfolding gkfs_mk_symlink get_metadata forward_stat posted srv_stat db_get answer check_parent_dir
    forward_mk_symlink srv_mk_symlink of_link create_metadentry db_put is_absolute same
    has_trailing_slash locate_file_metadata
link_made = refl

gkfs_mk_symlink-gkfs_readlink_example :
    gkfs_readlink to_string config memory hash four_hosts
      (λ i. answered)
      (b'/' ∷ b'm' ∷ [])
      path_a
      5
      (gkfs_mk_symlink to_string config memory hash four_hosts false
        (λ i j. answered)
        9
        path_a
        target_b
        empty_daemons).1
    ≡ value (4, b'/' ∷ b'm' ∷ target_b)
gkfs_mk_symlink-gkfs_readlink_example =
    gkfs_mk_symlink-gkfs_readlink to_string config memory hash four_hosts path_a empty_daemons
      (λ n. refl) false (λ i j. answered) (λ i. answered) 9 0 (b'b' ∷ []) (b'/' ∷ b'm' ∷ []) 5
      (omega arith) refl refl refl link_made
