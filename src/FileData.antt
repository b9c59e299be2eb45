-- ===== src/FileData.antt =====
-- `gkfs_pwrite` and `gkfs_pread` of src/client/gkfs_functions.cpp, over the daemons that keep a file's
-- entry and its chunk files.
pub mod Stages
pub mod RoundTrip
pub mod Collision
use gekko_fwd.Base.{ℕ, Bool, true, false, ltb, if◌then◌else◌}
use gekko_fwd.Decimal.{Bytes}
use gekko_fwd.Metadata.{Config}
use gekko_fwd.Distributor.{Distributor, locate_data}
use gekko_fwd.DataPath.SrvWrite.{Env}
use gekko_fwd.DataPath.SrvRead.{ReadEnv}
use gekko_fwd.DataPath.Forward.{Network, Outcome, errno, Cluster, forward_write}
use gekko_fwd.DataPath.ForwardRead.{forward_read}
use gekko_fwd.OpenFileMap.Defs.{OpenFile, regular, directory}
use gekko_fwd.MetaStore.Rocks.{Rocks, same}
use gekko_fwd.MetaServer.{get_chunks_dir}
use gekko_fwd.MetaClient.{Daemons, Delivery, Reply, returned, forward_update_metadentry_size}
use gekko_fwd.MetaClient
use gekko_fwd.FileCalls.Open.{eisdir}

-- gkfs::config::io::zero_buffer_before_read, in include/config.hpp
abbrev pub zero_buffer_before_read : Bool
zero_buffer_before_read = false

-- The buffer that a read is given, as it goes to forward_read.
unfoldable pub buffer_before : Bool → (ℕ → ℕ) → ℕ → ℕ → ℕ
buffer_before zero_buffer buf count j =
    if zero_buffer then (if ltb j count then 0 else buf j) else buf j

-- `disk u` is what the read tasks of host u put into its buffer.
unfoldable pub gkfs_pread :
    Network
    → (ℕ → ReadEnv)
    → (ℕ → ℕ → ℕ)
    → (Bytes → ℕ)
    → Distributor
    → ℕ
    → OpenFile
    → (ℕ → ℕ)
    → ℕ
    → ℕ
    → Outcome × (ℕ → ℕ)
gkfs_pread net daemon disk str_hash d hosts file buf count offset = elim file.type_ [
  | directory ↦ (errno eisdir, buf)
  | regular ↦
      forward_read net daemon disk (locate_data str_hash d file.path) hosts
        (buffer_before zero_buffer_before_read buf count) offset count
]

module _ (format_int : ℕ → Bytes) (cfg : Config) (rocks : Rocks format_int cfg) where
  -- The chunk files of a path, on every host.
  abbrev pub chunk_files : Bytes → Daemons format_int cfg rocks → Cluster
  chunk_files path nodes u = (nodes u).chunks (get_chunks_dir path)

  unfoldable pub with_chunk_files :
      Bytes → Cluster → Daemons format_int cfg rocks → Daemons format_int cfg rocks
  with_chunk_files path cluster nodes u = record (nodes u) {
    chunks =
        λ dir id. if same (get_chunks_dir path) dir then cluster u id else (nodes u).chunks dir id;
  }

  module _ (str_hash : Bytes → ℕ) (d : Distributor) (net : Network) (faults : ℕ → Env)
      (hosts : ℕ) where
    -- The data goes out once the size is stored, with the size that the daemon answers.
    unfoldable pub write_data :
        OpenFile
        → (ℕ → ℕ)
        → ℕ
        → ℕ
        → Reply ℕ × Daemons format_int cfg rocks
        → Outcome × Daemons format_int cfg rocks
    write_data file buf count offset (MetaClient.errno e, nodes) = (errno e, nodes)
    write_data file buf count offset (returned updated_size, nodes) =
        let out =
          forward_write net faults (locate_data str_hash d file.path) hosts
            (chunk_files file.path nodes) buf file.flags.append offset count updated_size in
        (out.0, with_chunk_files file.path out.1 nodes)

    unfoldable pub gkfs_pwrite :
        Delivery
        → OpenFile
        → (ℕ → ℕ)
        → ℕ
        → ℕ
        → Daemons format_int cfg rocks
        → Outcome × Daemons format_int cfg rocks
    gkfs_pwrite meta file buf count offset nodes = elim file.type_ [
      | directory ↦ (errno eisdir, nodes)
      | regular ↦ write_data file buf count offset (
          forward_update_metadentry_size format_int cfg rocks str_hash d meta file.path count offset
            file.flags.append nodes)
    ]
