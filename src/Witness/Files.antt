-- ===== src/Witness/Files.antt =====
-- Writes and reads of files at concrete inputs.
use gekko_fwd.Base.{
  ℕ, ◌+◌, ◌%◌, ◌<◌, ◌≡◌, refl, true, false, none, some, arith, if◌then◌else◌, max, [], ◌∷◌, length,
}
use gekko_fwd.Base.Words.{add64}
use gekko_fwd.Decimal.{Bytes, to_string}
use gekko_fwd.Metadata.{config, serialize}
use gekko_fwd.Distributor.{Distributor, simple_hash, local_only, locate_data, locate_file_metadata}
use gekko_fwd.DataPath.Effect.{no_faults}
use gekko_fwd.DataPath.Forward.{Cluster, transferred, forward_write}
use gekko_fwd.DataPath.WriteView.{no_losses}
use gekko_fwd.DataPath.DiskRead.{read_cluster}
use gekko_fwd.DataPath.WriteRead.{forward_write-forward_read}
use gekko_fwd.DataPath.Holes.{forward_read_hole}
use gekko_fwd.OpenFileMap.Defs.{OpenFile, regular}
use gekko_fwd.MetaStore.Db.{db_increase_size, update_size}
use gekko_fwd.MetaStore.Live.{Live-put}
use gekko_fwd.MetaServer.{Node, get_chunks_dir, srv_update_metadentry_size}
use gekko_fwd.MetaClient.{
  answered, posted, returned, code, forward_update_metadentry_size, forward_get_metadentry_size,
}
use gekko_fwd.FileData.{gkfs_pwrite}
use gekko_fwd.FileData.RoundTrip.{gkfs_pwrite-gkfs_pread}
use gekko_fwd.FileData.Stages.{pread_all}
use gekko_fwd.FileData.Collision.{gkfs_pwrite-gkfs_pread_collision}
use gekko_fwd.Witness.Memory.{memory, file, file-Fits}

-- Chunks are spread over two hosts in turn, and there are none yet.
abbrev in_turn : ℕ → ℕ
in_turn id = id % 2

abbrev no_chunks : Cluster
no_chunks h id = none

forward_write-forward_read_example :
    (let w =
        forward_write no_losses
          (λ h. no_faults)
          in_turn
          2
          no_chunks
          (λ i. i)
          true
          1000000
          600000
          0 in
      let r = read_cluster in_turn 2 w.1 (λ i. 7) 1000000 600000 in
      (w.0 ≡ transferred 600000)
      × (r.0 ≡ transferred 600000)
      × ((j : ℕ) → (j < 600000) → r.1 j ≡ j))
forward_write-forward_read_example =
    forward_write-forward_read in_turn 2 1000000 600000 (omega arith) (omega arith) no_chunks
      (λ i. i) (λ i. 7) true 1000000 0 refl

forward_read_hole_example :
    read_cluster in_turn 2 no_chunks (λ i. 7) 1000000 600000 ≡ (transferred 0, λ i. 7)
forward_read_hole_example =
    forward_read_hole in_turn 2 1000000 600000 (omega arith) (omega arith) no_chunks
      (λ k low high. refl) (λ i. 7)

abbrev hash : Bytes → ℕ
hash s = length s

abbrev four_hosts : Distributor
four_hosts = simple_hash 0 4

abbrev path_a : Bytes
path_a = b'/' ∷ b'a' ∷ []

abbrev opened_file : OpenFile
opened_file = record {
  type_ = regular;
  path = path_a;
  flags = record {
    append = false;
    creat = false;
    trunc = false;
    rdonly = false;
    wronly = false;
    rdwr = true;
    cloexec = false;
  };
  pos = 0;
}

-- The file has 100 bytes, and no chunk.
abbrev file_daemons : ℕ → Node to_string config memory
file_daemons u = record {
  db = λ k. (some (serialize to_string config file), []);
  chunks = λ p id. none;
}

update_returned :
    (forward_update_metadentry_size to_string config memory hash four_hosts answered path_a 600000
      1000000 false file_daemons).0
    ≡ returned 1600000
unfolding forward_update_metadentry_size posted srv_update_metadentry_size update_size
    db_increase_size locate_file_metadata add64
update_returned = refl

gkfs_pwrite-gkfs_pread_example :
    (let w =
        gkfs_pwrite to_string config memory hash four_hosts no_losses
          (λ h. no_faults)
          4
          answered
          opened_file
          (λ i. i)
          600000
          1000000
          file_daemons in
      let r =
        pread_all to_string config memory hash four_hosts 4 opened_file
          (λ i. 7)
          600000
          1000000
          w.1 in
      (w.0 ≡ transferred 600000)
      × (r.0 ≡ transferred 600000)
      × ((j : ℕ) → (j < 600000) → r.1 j ≡ j)
      × (forward_get_metadentry_size to_string config memory hash four_hosts answered path_a w.1
          ≡ code 0 (
              if opened_file.flags.append
              then 100 + (1000000 + 600000)
              else max (1000000 + 600000) 100)))
gkfs_pwrite-gkfs_pread_example =
    gkfs_pwrite-gkfs_pread to_string config memory hash four_hosts 4 (λ n. refl) opened_file
      (λ i. i) (λ i. 7) 600000 1000000 100 1600000 file file_daemons refl
      (Live-put to_string config file (file-Fits 100 (omega arith))) (file-Fits 100 (omega arith))
      (omega arith) (omega arith) (omega arith) update_returned

-- All data of a node stays on it; /a/b and /a:b share a chunk directory.
abbrev one_node : Distributor
one_node = local_only 0

abbrev path_with_slash : Bytes
path_with_slash = b'/' ∷ b'a' ∷ b'/' ∷ b'b' ∷ []

abbrev path_with_colon : Bytes
path_with_colon = b'/' ∷ b'a' ∷ b':' ∷ b'b' ∷ []

nested_update_returned :
    (forward_update_metadentry_size to_string config memory hash one_node answered path_with_slash
      600000 1000000 false file_daemons).0
    ≡ returned 1600000
unfolding forward_update_metadentry_size posted srv_update_metadentry_size update_size
    db_increase_size locate_file_metadata add64
nested_update_returned = refl

same_dir : get_chunks_dir path_with_slash ≡ get_chunks_dir path_with_colon
unfolding get_chunks_dir
same_dir = refl

same_host :
    (k : ℕ)
    → locate_data hash one_node path_with_slash k ≡ locate_data hash one_node path_with_colon k
unfolding locate_data
same_host k = refl

gkfs_pwrite-gkfs_pread_collision_example :
    (let w =
        gkfs_pwrite to_string config memory hash one_node no_losses
          (λ h. no_faults)
          1
          answered
          (record opened_file { path = path_with_slash })
          (λ i. i)
          600000
          1000000
          file_daemons in
      let r =
        pread_all to_string config memory hash one_node 1
          (record opened_file { path = path_with_colon })
          (λ i. 7)
          600000
          1000000
          w.1 in
      (r.0 ≡ transferred 600000) × ((j : ℕ) → (j < 600000) → r.1 j ≡ j))
gkfs_pwrite-gkfs_pread_collision_example =
    gkfs_pwrite-gkfs_pread_collision to_string config memory hash one_node 1
      (record opened_file { path = path_with_slash })
      (record opened_file { path = path_with_colon }) (λ i. i) (λ i. 7) 600000 1000000 1600000
      file_daemons refl refl same_dir same_host (omega arith) (omega arith) nested_update_returned
