-- ===== src/FileData/Collision.antt =====
-- Paths that share a chunk directory.
use gekko_fwd.Base.{ℕ, ◌+◌, ◌≤◌, ◌<◌, ◌≡◌, ap, ◌∙◌}
use gekko_fwd.Base.Words.{add64}
use gekko_fwd.Decimal.{Bytes}
use gekko_fwd.Metadata.{Config}
use gekko_fwd.Distributor.{Distributor, locate_data}
use gekko_fwd.DataPath.Plan.{max_offset}
use gekko_fwd.DataPath.Effect.{no_faults}
use gekko_fwd.DataPath.Forward.{transferred, Outcome}
use gekko_fwd.DataPath.WriteView.{no_losses}
use gekko_fwd.DataPath.WriteRead.{forward_write-forward_read}
use gekko_fwd.OpenFileMap.Defs.{OpenFile, regular}
use gekko_fwd.MetaStore.Rocks.{Rocks}
use gekko_fwd.MetaServer.{get_chunks_dir}
use gekko_fwd.MetaClient.{Daemons, answered, returned, forward_update_metadentry_size}
use gekko_fwd.FileData.{chunk_files, gkfs_pwrite}
use gekko_fwd.FileData.Stages.{pread_all, read_other, write_offset, data_out, gkfs_pwrite_done}

module _ (format_int : ℕ → Bytes) (cfg : Config) (rocks : Rocks format_int cfg)
    (str_hash : Bytes → ℕ) (d : Distributor) (hosts : ℕ) where
  -- After a write to a regular file of a positive byte count that ends at or below 2 ^ 51, whose
  -- size update is answered with success, where no message is lost and no daemon meets a fault, a
  -- read of the same range of another regular file, with a path that has the same chunk directory
  -- and the same host for each chunk, returns the byte count and brings the bytes written to the
  -- first.
  pub gkfs_pwrite-gkfs_pread_collision :
      (file other : OpenFile) (buf into : ℕ → ℕ) (count offset ret_size : ℕ)
      (nodes : Daemons format_int cfg rocks)
      → file.type_ ≡ regular
      → other.type_ ≡ regular
      → get_chunks_dir file.path ≡ get_chunks_dir other.path
      → ((k : ℕ) → locate_data str_hash d file.path k ≡ locate_data str_hash d other.path k)
      → 0 < count
      → offset + count ≤ max_offset
      → (forward_update_metadentry_size format_int cfg rocks str_hash d answered file.path count
          offset file.flags.append nodes).0
        ≡ returned ret_size
      → (let w =
            gkfs_pwrite format_int cfg rocks str_hash d no_losses
              (λ h. no_faults)
              hosts
              answered
              file
              buf
              count
              offset
              nodes in
          let r = pread_all format_int cfg rocks str_hash d hosts other into count offset w.1 in
          (r.0 ≡ transferred count) × ((j : ℕ) → (j < count) → r.1 j ≡ buf j))
  gkfs_pwrite-gkfs_pread_collision file other buf into count offset ret_size nodes reg reg_other
        same_dir same_hosts pos room answer =
      let u =
        forward_update_metadentry_size format_int cfg rocks str_hash d answered file.path count
          offset file.flags.append nodes in
      let (wrote, read, bytes) =
        forward_write-forward_read (locate_data str_hash d file.path) hosts offset count pos room
          (chunk_files format_int cfg rocks file.path u.1) buf into file.flags.append offset
          (add64 count offset)
          (write_offset format_int cfg rocks str_hash d hosts file.flags.append offset count
            room) in
      let back =
        read_other format_int cfg rocks str_hash d hosts file.path other into count offset
          (data_out format_int cfg rocks str_hash d hosts file buf count offset nodes).1 u.1
          reg_other same_dir same_hosts in
      rw
        (gkfs_pwrite_done format_int cfg rocks str_hash d hosts file buf count offset ret_size nodes
          reg answer)
        (
          ap (λ (r : Outcome × (ℕ → ℕ)). r.0) back ∙ read,
          λ j inside. ap (λ (r : Outcome × (ℕ → ℕ)). r.1 j) back ∙ bytes j inside,
        )
