-- ===== src/FileData/Stages.antt =====
-- The steps of `gkfs_pwrite` and `gkfs_pread` where nothing fails.
use gekko_fwd.Base.{
  ℕ, ◌+◌, ◌==◌, ◌≤◌, ◌≡◌, refl, sym, fun_ext, ap, ◌∙◌, Bool, true, false, some, if◌then◌else◌,
  arith,
}
use gekko_fwd.Base.Words.{add64, sub64, add64_lem, sub64_lem}
use gekko_fwd.Decimal.{Bytes}
use gekko_fwd.Metadata.{Config}
use gekko_fwd.Distributor.{Distributor, locate_data, locate_file_metadata}
use gekko_fwd.DataPath.Targets.{request}
use gekko_fwd.DataPath.Plan.{max_offset}
use gekko_fwd.DataPath.Effect.{no_faults}
use gekko_fwd.DataPath.Forward.{forward_write, Outcome, Cluster}
use gekko_fwd.DataPath.WriteView.{no_losses}
use gekko_fwd.DataPath.DiskRead.{reading, bulk_buf, read_cluster}
use gekko_fwd.OpenFileMap.Defs.{OpenFile, regular}
use gekko_fwd.MetaStore.Rocks.{Rocks, same_self}
use gekko_fwd.MetaStore.Db as Stored
use gekko_fwd.MetaStore.Db.{done, thrown, not_found_exception, db_exception, assertion, update_size}
use gekko_fwd.MetaServer.{
  get_chunks_dir, size_reply, srv_update_metadentry_size, srv_get_metadentry_size,
}
use gekko_fwd.MetaClient.{
  Daemons, answered, posted, value_reply, returned, forward_update_metadentry_size,
  forward_get_metadentry_size,
}
use gekko_fwd.FileData.{
  chunk_files, with_chunk_files, write_data, gkfs_pwrite, gkfs_pread, buffer_before,
}

module _ (format_int : ℕ → Bytes) (cfg : Config) (rocks : Rocks format_int cfg) where
  -- The data of a path in the daemons' stores is read back.
  chunk_files-with_chunk_files :
      (path : Bytes) (cluster : Cluster) (nodes : Daemons format_int cfg rocks)
      → chunk_files format_int cfg rocks path
          (with_chunk_files format_int cfg rocks path cluster nodes)
        ≡ cluster
  unfolding with_chunk_files
  chunk_files-with_chunk_files path cluster nodes =
      fun_ext (λ u. fun_ext (λ id. rw (same_self (get_chunks_dir path)) refl))

  module _ (str_hash : Bytes → ℕ) (d : Distributor) (hosts : ℕ) where
    -- A read of a file where nothing fails.
    abbrev pub pread_all :
        OpenFile → (ℕ → ℕ) → ℕ → ℕ → Daemons format_int cfg rocks → Outcome × (ℕ → ℕ)
    pread_all file buf count offset nodes =
        let cluster = chunk_files format_int cfg rocks file.path nodes in
        let locate = locate_data str_hash d file.path in
        gkfs_pread no_losses (λ u. reading (cluster u))
          (λ u. bulk_buf (cluster u) (λ id. locate id == u) (request locate hosts offset count u))
          str_hash d hosts file buf count offset

    pread_all-read_cluster :
        (file : OpenFile) (buf : ℕ → ℕ) (count offset : ℕ) (nodes : Daemons format_int cfg rocks)
        → file.type_ ≡ regular
        → pread_all file buf count offset nodes
          ≡ read_cluster
              (locate_data str_hash d file.path)
              hosts
              (chunk_files format_int cfg rocks file.path nodes)
              buf
              offset
              count
    unfolding gkfs_pread buffer_before
    pread_all-read_cluster file buf count offset nodes e = rw (gkfs_pread, e) refl

    -- A file is read from the chunk directory of its path, whatever path that was written by.
    pub read_other :
        (path : Bytes) (other : OpenFile) (buf : ℕ → ℕ) (count offset : ℕ) (cluster : Cluster)
        (nodes : Daemons format_int cfg rocks)
        → other.type_ ≡ regular
        → get_chunks_dir path ≡ get_chunks_dir other.path
        → ((k : ℕ) → locate_data str_hash d path k ≡ locate_data str_hash d other.path k)
        → pread_all other buf count offset
            (with_chunk_files format_int cfg rocks path cluster nodes)
          ≡ read_cluster (locate_data str_hash d path) hosts cluster buf offset count
    read_other path other buf count offset cluster nodes e same_dir same_hosts =
        let after = with_chunk_files format_int cfg rocks path cluster nodes in
        let files : chunk_files format_int cfg rocks other.path after ≡ cluster =
          ap {B = Cluster} (λ dir u. (after u).chunks dir) (sym same_dir)
          ∙ chunk_files-with_chunk_files path cluster nodes in
        pread_all-read_cluster other buf count offset after e
        ∙ ap
            (λ (c : Cluster).
              read_cluster (locate_data str_hash d other.path) hosts c buf offset count)
            files
        ∙ ap (λ (l : ℕ → ℕ). read_cluster l hosts cluster buf offset count)
            (sym (fun_ext same_hosts))

    -- The size that an update answers.
    returned_size :
        (path : Bytes) (size offset ret_size : ℕ) (append : Bool)
        (nodes : Daemons format_int cfg rocks)
        → (forward_update_metadentry_size format_int cfg rocks str_hash d answered path size offset
            append nodes).0
          ≡ returned ret_size
        → ret_size ≡ add64 size offset
    unfolding forward_update_metadentry_size posted srv_update_metadentry_size
    returned_size path size offset ret_size append nodes h =
        by_outcome
          (update_size format_int cfg rocks (nodes (locate_file_metadata str_hash d path)).db path
            size offset append)
          h
      where
        by_outcome :
            (o : Stored.Outcome rocks.Db)
            → value_reply (
                some
                  (size_reply format_int cfg rocks size offset
                    (nodes (locate_file_metadata str_hash d path))
                    o).0)
              ≡ returned ret_size
            → ret_size ≡ add64 size offset
        by_outcome (done db) e = ground arith
        by_outcome (thrown not_found_exception) e = absurd (ground arith)
        by_outcome (thrown db_exception) e = absurd (ground arith)
        by_outcome (thrown assertion) e = absurd (ground arith)

    -- The sizes are kept apart from the data.
    pub size-with_chunk_files :
        (path : Bytes) (cluster : Cluster) (nodes : Daemons format_int cfg rocks)
        → forward_get_metadentry_size format_int cfg rocks str_hash d answered path
            (with_chunk_files format_int cfg rocks path cluster nodes)
          ≡ forward_get_metadentry_size format_int cfg rocks str_hash d answered path nodes
    unfolding with_chunk_files forward_get_metadentry_size srv_get_metadentry_size posted
    size-with_chunk_files path cluster nodes = refl

    -- The offset at which the data goes out, whether the descriptor appends or not.
    pub write_offset :
        (append : Bool) (offset count : ℕ)
        → offset + count ≤ max_offset
        → (if append then offset else sub64 (add64 count offset) count) ≡ offset
    write_offset true offset count h = refl
    write_offset false offset count h =
        rw
          (
            add64_lem count offset (omega arith),
            sub64_lem (count + offset) count (omega arith) (omega arith),
          )
          (omega arith)

    -- What a write to a file hands to the data path.
    abbrev pub data_out :
        OpenFile → (ℕ → ℕ) → ℕ → ℕ → Daemons format_int cfg rocks → Outcome × Cluster
    data_out file buf count offset nodes =
        forward_write no_losses (λ h. no_faults) (locate_data str_hash d file.path) hosts
          (chunk_files format_int cfg rocks file.path
            (forward_update_metadentry_size format_int cfg rocks str_hash d answered file.path count
              offset file.flags.append nodes).1)
          buf file.flags.append offset count (add64 count offset)

    pub gkfs_pwrite_done :
        (file : OpenFile) (buf : ℕ → ℕ) (count offset ret_size : ℕ)
        (nodes : Daemons format_int cfg rocks)
        → file.type_ ≡ regular
        → (forward_update_metadentry_size format_int cfg rocks str_hash d answered file.path count
            offset file.flags.append nodes).0
          ≡ returned ret_size
        → gkfs_pwrite format_int cfg rocks str_hash d no_losses
            (λ h. no_faults)
            hosts
            answered
            file
            buf
            count
            offset
            nodes
          ≡ (
            (data_out file buf count offset nodes).0,
            with_chunk_files format_int cfg rocks file.path
                (data_out file buf count offset nodes).1
                (forward_update_metadentry_size format_int cfg rocks str_hash d answered file.path
                  count offset file.flags.append nodes).1,
          )
    unfolding gkfs_pwrite write_data
    gkfs_pwrite_done file buf count offset ret_size nodes reg answer =
        rw
          (
            gkfs_pwrite,
            reg,
            answer,
            returned_size file.path count offset ret_size file.flags.append nodes answer,
          )
          refl
