-- ===== src/Witness/Store.antt =====
-- The metadata of daemons and the client's calls at concrete inputs, over a store in memory.
use gekko_fwd.Base.{ℕ, ◌≤◌, ◌≡◌, refl, List, [], ◌∷◌, ◌/◌, true, false, none, some, arith, length}
use gekko_fwd.Base.Words.{add64}
use gekko_fwd.Decimal.{Bytes, to_string}
use gekko_fwd.Metadata.{config, of_mode, serialize}
use gekko_fwd.Distributor.{Distributor, simple_hash, locate_data, locate_file_metadata}
use gekko_fwd.DataPath.Targets.{chunksize}
use gekko_fwd.Merge.{serialize_operand, increase_size}
use gekko_fwd.PathUtil.{is_absolute, has_trailing_slash}
use gekko_fwd.ClientCalls.{gkfs_lseek, seek_end, sought, seek_failed}
use gekko_fwd.MetaStore.Rocks.{same}
use gekko_fwd.MetaStore.Db.{
  done, db_get, read_answer, db_increase_size, db_put, create_metadentry, update_size,
}
use gekko_fwd.MetaStore.View.{absent, Request, put, grow, shrink, drop, view_answer}
use gekko_fwd.MetaStore.Run.{request_all, submit_all, submit_all-db_get}
use gekko_fwd.MetaServer.{Node, ebusy, minus_one, srv_create, srv_update_metadentry_size}
use gekko_fwd.MetaClient.{
  answered, request_lost, returned, errno, posted, removed, forward_create, forward_stat,
  forward_remove, forward_update_metadentry_size, forward_get_metadentry_size,
}
use gekko_fwd.Witness.Memory.{
  Memory, memory_merge, memory_delete, memory, file, new_file, file-Fits,
}
use gekko_fwd.MetaClient.Remove.{Cleared, OthersKept, forward_remove_lem}
use gekko_fwd.MetaClient.Laws.{size_reply, forward_create-absent_grown, gkfs_lseek-absent}

abbrev path_a : Bytes
path_a = b'/' ∷ b'a' ∷ []

abbrev path_b : Bytes
path_b = b'/' ∷ b'b' ∷ []

abbrev requests : List (Bytes × Request)
requests =
    (path_a, put file)
    ∷ (path_a, grow 300 false)
    ∷ (path_b, grow 5 false)
    ∷ (path_b, drop)
    ∷ (path_a, shrink 200)
    ∷ []

abbrev nothing : Memory
nothing k = (none, [])

submit_all-db_get_example :
    db_get to_string config memory (submit_all to_string config memory requests nothing).0 path_a
    ≡ read_answer (
        view_answer to_string config (
          request_all (submit_all to_string config memory requests nothing).1 (λ k. absent) path_a))
submit_all-db_get_example =
    submit_all-db_get to_string config memory (λ n. refl) requests nothing (λ k. absent) path_a
      (file-Fits 100 (omega arith), (omega arith, (omega arith, (tt, (omega arith, tt)))))
      (λ j. refl)

abbrev hash : Bytes → ℕ
hash s = length s

abbrev four_hosts : Distributor
four_hosts = simple_hash 0 4

abbrev empty_daemons : ℕ → Node to_string config memory
empty_daemons u = record { db = nothing; chunks = λ p id. none }

-- Every path has an entry and a chunk everywhere.
abbrev full_daemons : ℕ → Node to_string config memory
full_daemons u = record {
  db = λ k. (some [], []);
  chunks = λ p id. some (record { size = 1; byte = λ i. 7 });
}

forward_remove_lem_example :
    (last : ℕ → Node to_string config memory) × (forward_remove to_string config memory hash
        four_hosts
        (λ i. answered)
        (λ i. true)
        4
        path_a
        false
        1000000
        full_daemons
      ≡ (removed, last))
    × Cleared to_string config memory path_a (last (locate_file_metadata hash four_hosts path_a))
    × ((k : ℕ)
        → k ≤ 1000000 / chunksize
        → Cleared to_string config memory path_a (last (locate_data hash four_hosts path_a k)))
    × ((u : ℕ) → OthersKept to_string config memory path_a (full_daemons u) (last u))
unfolding locate_data locate_file_metadata
forward_remove_lem_example =
    forward_remove_lem to_string config memory path_a (λ db k. (memory_delete db k, refl)) hash
      four_hosts (λ i. answered) (λ i. true) (λ i. refl) (λ i. refl) 4 1000000 full_daemons
      (omega arith) (omega arith) (λ k. omega arith)

abbrev file_daemons : ℕ → Node to_string config memory
file_daemons u = record {
  db = λ k. (some (serialize to_string config file), []);
  chunks = λ p id. none;
}

file_made : of_mode 0o100644 ≡ some new_file
unfolding of_mode
file_made = refl

grown :
    (db : Memory) × (db_increase_size to_string config memory nothing path_a (add64 50 80) false
      ≡ done db)
unfolding db_increase_size
grown = (memory_merge nothing path_a (serialize_operand (increase_size (add64 50 80) false)), refl)

create_returned_later :
    (forward_create to_string config memory hash four_hosts answered 9 path_a 0o100644
      (forward_update_metadentry_size to_string config memory hash four_hosts answered path_a 50 80
        false empty_daemons).1).0
    ≡ returned 0
unfolding forward_create posted srv_create create_metadentry db_put is_absolute same
    has_trailing_slash of_mode locate_file_metadata forward_update_metadentry_size
    srv_update_metadentry_size update_size db_increase_size
create_returned_later = refl

forward_create-absent_grown_example :
    forward_stat to_string config memory hash four_hosts answered path_a
      (forward_create to_string config memory hash four_hosts answered 9 path_a 0o100644
        (forward_update_metadentry_size to_string config memory hash four_hosts answered path_a 50
          80 false empty_daemons).1).1
    ≡ errno ebusy
forward_create-absent_grown_example =
    forward_create-absent_grown to_string config memory (λ n. refl) hash four_hosts empty_daemons
      path_a 50 80 9 0o100644 false new_file file_made (file-Fits 0 (omega arith)) refl grown
      create_returned_later

gkfs_lseek-absent_example :
    (gkfs_lseek
        (size_reply (
          forward_get_metadentry_size to_string config memory hash four_hosts answered path_a
            empty_daemons))
        3
        40
        seek_end
      ≡ sought 40)
    × (gkfs_lseek
          (size_reply (
            forward_get_metadentry_size to_string config memory hash four_hosts request_lost path_a
              empty_daemons))
          3
          40
          seek_end
        ≡ seek_failed minus_one)
gkfs_lseek-absent_example =
    gkfs_lseek-absent to_string config memory hash four_hosts empty_daemons path_a 3 40 refl
      (omega arith)
