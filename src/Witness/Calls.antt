-- ===== src/Witness/Calls.antt =====
-- Calls on paths at concrete inputs, over a store in memory.
use gekko_fwd.Base.{ℕ, ◌≤◌, ◌≡◌, refl, [], ◌∷◌, ◌/◌, true, false, none, some, arith, length}
use gekko_fwd.Decimal.{Bytes, to_string}
use gekko_fwd.Metadata.{Metadata, config, serialize, is_link, get_target_path}
use gekko_fwd.Metadata.RoundTrip.{Fits, parse-serialize}
use gekko_fwd.Distributor.{Distributor, simple_hash, locate_data, locate_file_metadata}
use gekko_fwd.DataPath.Targets.{chunksize}
use gekko_fwd.DataPath.Forward as DataForward
use gekko_fwd.MetaStore.Db.{db_get, db_decrease_size}
use gekko_fwd.MetaStore.Live.{Live-put}
use gekko_fwd.MetaStore.Rocks.{answer}
use gekko_fwd.MetaServer.{Node, srv_stat, srv_decr_size}
use gekko_fwd.MetaClient.{
  answered, returned, code, posted, forward_stat, forward_decr_size, forward_get_metadentry_size,
}
use gekko_fwd.MetaClient.Remove.{Cleared, OthersKept}
use gekko_fwd.FileCalls.{value, unfinished, get_metadata, truncate_to, gkfs_remove, gkfs_truncate}
use gekko_fwd.FileCalls.Laws.{gkfs_remove_lem, get_metadata-cycle}
use gekko_fwd.FileCalls.Truncate.{gkfs_truncate-forward_get_metadentry_size, get_metadata-Holds}
use gekko_fwd.Witness.Memory.{memory_delete, memory, file, file-Fits}

abbrev path_a : Bytes
path_a = b'/' ∷ b'a' ∷ []

abbrev hash : Bytes → ℕ
hash s = length s

abbrev four_hosts : Distributor
four_hosts = simple_hash 0 4

abbrev file_daemons : ℕ → Node to_string config memory
file_daemons u = record {
  db = λ k. (some (serialize to_string config file), []);
  chunks = λ p id. some (record { size = 1; byte = λ i. 7 });
}

gkfs_remove_lem_example :
    (last : ℕ → Node to_string config memory) × (gkfs_remove to_string config memory hash four_hosts
        (λ i. answered)
        (λ i. answered)
        (λ i. true)
        4
        path_a
        file_daemons
      ≡ (value 0, last))
    × Cleared to_string config memory path_a (last (locate_file_metadata hash four_hosts path_a))
    × ((k : ℕ)
        → k ≤ 100 / chunksize
        → Cleared to_string config memory path_a (last (locate_data hash four_hosts path_a k)))
    × ((u : ℕ) → OthersKept to_string config memory path_a (file_daemons u) (last u))
unfolding locate_data locate_file_metadata
gkfs_remove_lem_example =
    gkfs_remove_lem to_string config memory hash four_hosts path_a file_daemons (λ n. refl)
      (λ db k. (memory_delete db k, refl)) (λ i. answered) (λ i. answered) (λ i. true) (λ i. refl)
      (λ i. refl) (λ i. refl) 4 file 100
      (Live-put to_string config file (file-Fits 100 (omega arith))) (file-Fits 100 (omega arith))
      (omega arith) refl (omega arith) (omega arith) (λ k. omega arith)

file_is_no_link : is_link file ≡ false
unfolding is_link
file_is_no_link = refl

abbrev no_truncate : ℕ → ℕ → DataForward.Outcome
no_truncate old_size new_size = DataForward.transferred 0

truncated :
    (gkfs_truncate to_string config memory hash four_hosts 1
      (λ i. answered)
      answered
      no_truncate
      path_a
      40
      file_daemons).0
    ≡ value 0
unfolding gkfs_truncate truncate_to forward_decr_size posted srv_decr_size db_decrease_size
    locate_file_metadata
truncated =
    rw
      (get_metadata-Holds to_string config memory hash four_hosts path_a file_daemons (λ n. refl) 0
        (λ i. answered) file 100 (Live-put to_string config file (file-Fits 100 (omega arith)))
        (file-Fits 100 (omega arith)) (omega arith) file_is_no_link refl)
      refl

gkfs_truncate-forward_get_metadentry_size_example :
    forward_get_metadentry_size to_string config memory hash four_hosts answered path_a
      (gkfs_truncate to_string config memory hash four_hosts 1
        (λ i. answered)
        answered
        no_truncate
        path_a
        40
        file_daemons).1
    ≡ code 0 40
gkfs_truncate-forward_get_metadentry_size_example =
    gkfs_truncate-forward_get_metadentry_size to_string config memory hash four_hosts path_a
      file_daemons (λ n. refl) 0 (λ i. answered) no_truncate file 100 40
      (Live-put to_string config file (file-Fits 100 (omega arith))) (file-Fits 100 (omega arith))
      (omega arith) file_is_no_link refl (omega arith) truncated

-- A link to itself.
abbrev looped : Metadata
looped = record config.uninitialised { mode = 0o120777; size = 0; target_path = path_a }

abbrev link_daemons : ℕ → Node to_string config memory
link_daemons u = record {
  db = λ k. (some (serialize to_string config looped), []);
  chunks = λ p id. none;
}

link_seen :
    forward_stat to_string config memory hash four_hosts answered path_a link_daemons
    ≡ returned (serialize to_string config looped)
unfolding forward_stat posted srv_stat db_get answer
link_seen = refl

looped-Fits : Fits looped
looped-Fits = record {
  mode_fits = omega arith;
  size_fits = omega arith;
  atime_fits = omega arith;
  mtime_fits = omega arith;
  ctime_fits = omega arith;
  link_count_fits = omega arith;
  blocks_fits = omega arith;
  only_links = refl;
}

link_is_link : is_link looped ≡ true
unfolding is_link
link_is_link = refl

link_target : get_target_path looped ≡ some path_a
unfolding get_target_path
link_target = refl

get_metadata-cycle_example :
    get_metadata to_string config memory hash four_hosts 40 (λ i. answered) path_a true link_daemons
    ≡ unfinished
get_metadata-cycle_example =
    get_metadata-cycle to_string config memory hash four_hosts path_a link_daemons 40
      (λ i. answered) (serialize to_string config looped) looped (λ j. link_seen)
      (parse-serialize to_string (λ n. refl) config looped looped-Fits) link_is_link link_target
