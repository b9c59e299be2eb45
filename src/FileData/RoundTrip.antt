-- ===== src/FileData/RoundTrip.antt =====
-- What `gkfs_pwrite` stores and `gkfs_pread` brings back, over the daemons.
use gekko_fwd.Base.{
  ℕ, ◌+◌, ◌≤◌, ◌<◌, ◌≡◌, refl, ap, ◌∙◌, Bool, true, false, if◌then◌else◌, arith, max,
}
use gekko_fwd.Base.Words.{sign_bit, add64, add64_lem}
use gekko_fwd.Decimal.{Bytes, to_string}
use gekko_fwd.Metadata.{Metadata, Config}
use gekko_fwd.Metadata.RoundTrip.{Fits}
use gekko_fwd.Distributor.{Distributor, locate_data, locate_file_metadata}
use gekko_fwd.DataPath.Plan.{max_offset}
use gekko_fwd.DataPath.Effect.{no_faults}
use gekko_fwd.DataPath.Forward.{transferred, Outcome}
use gekko_fwd.DataPath.WriteView.{no_losses}
use gekko_fwd.DataPath.WriteRead.{forward_write-forward_read}
use gekko_fwd.OpenFileMap.Defs.{OpenFile, regular}
use gekko_fwd.MetaStore.Rocks.{Rocks}
use gekko_fwd.MetaStore.Refinement.{Holds}
use gekko_fwd.MetaClient.{
  Daemons, answered, returned, code, forward_update_metadentry_size, forward_get_metadentry_size,
}
use gekko_fwd.MetaClient.Laws.{forward_update_metadentry_size-forward_get_metadentry_size}
use gekko_fwd.FileData.{chunk_files, gkfs_pwrite}
use gekko_fwd.FileData.Stages.{
  pread_all, read_other, write_offset, size-with_chunk_files, data_out, gkfs_pwrite_done,
}

-- The size after a write, with no wrap-around.
module _ (n count offset : ℕ) (small : n < max_offset) (room : offset + count ≤ max_offset) where
  sum : add64 count offset ≡ offset + count
  sum = add64_lem count offset (omega arith) ∙ omega arith

  bounded :
      (append : Bool)
      → (if append then add64 n (add64 count offset) else max (add64 count offset) n) < sign_bit
  bounded true = rw (sum, add64_lem n (offset + count) (omega arith)) (omega arith)
  bounded false = rw sum (omega arith)

  grown :
      (append : Bool)
      → (if append then add64 n (add64 count offset) else max (add64 count offset) n)
        ≡ (if append then n + (offset + count) else max (offset + count) n)
  grown true = rw (sum, add64_lem n (offset + count) (omega arith)) refl
  grown false = rw sum refl

module _ (format_int : ℕ → Bytes) (cfg : Config) (rocks : Rocks format_int cfg) where
  module _ (str_hash : Bytes → ℕ) (d : Distributor) (hosts : ℕ) where
    -- With a decimal `format_int`: on a regular file whose entry has n bytes, n below 2 ^ 51, a
    -- write of a positive byte count that ends at or below 2 ^ 51, whose size update is answered
    -- with success, and then a read of the same range into any buffer, where no message is lost
    -- and no daemon meets a fault: both return the byte count, the reader's buffer then has the
    -- written bytes, also where the descriptor appends, and the size is the end of the write or
    -- n, whichever is larger, and where it appends n plus the end of the write.
    pub gkfs_pwrite-gkfs_pread :
        (decimal : (k : ℕ) → format_int k ≡ to_string k) (file : OpenFile) (buf into : ℕ → ℕ)
        (count offset n ret_size : ℕ) (md : Metadata) (nodes : Daemons format_int cfg rocks)
        → file.type_ ≡ regular
        → Holds format_int cfg rocks
            (nodes (locate_file_metadata str_hash d file.path)).db
            file.path
            md
            n
        → Fits md
        → n < max_offset
        → 0 < count
        → offset + count ≤ max_offset
        → (forward_update_metadentry_size format_int cfg rocks str_hash d answered file.path count
            offset file.flags.append nodes).0
          ≡ returned ret_size
        → (let w =
              gkfs_pwrite format_int cfg rocks str_hash d no_losses
                (λ h. no_faults)
                hosts
                answered
                file
                buf
                count
                offset
                nodes in
            let r = pread_all format_int cfg rocks str_hash d hosts file into count offset w.1 in
            (w.0 ≡ transferred count)
            × (r.0 ≡ transferred count)
            × ((j : ℕ) → (j < count) → r.1 j ≡ buf j)
            × (forward_get_metadentry_size format_int cfg rocks str_hash d answered file.path w.1
                ≡ code 0
                    (if file.flags.append then n + (offset + count) else max (offset + count) n)))
    gkfs_pwrite-gkfs_pread decimal file buf into count offset n ret_size md nodes reg h fits small
          pos room answer =
        let u =
          forward_update_metadentry_size format_int cfg rocks str_hash d answered file.path count
            offset file.flags.append nodes in
        let (wrote, read, bytes) =
          forward_write-forward_read (locate_data str_hash d file.path) hosts offset count pos room
            (chunk_files format_int cfg rocks file.path u.1) buf into file.flags.append offset
            (add64 count offset)
            (write_offset format_int cfg rocks str_hash d hosts file.flags.append offset count
              room) in
        let back =
          read_other format_int cfg rocks str_hash d hosts file.path file into count offset
            (data_out format_int cfg rocks str_hash d hosts file buf count offset nodes).1 u.1 reg
            refl (λ k. refl) in
        rw
          (gkfs_pwrite_done format_int cfg rocks str_hash d hosts file buf count offset ret_size
            nodes reg answer)
          (
            wrote,
            ap (λ (r : Outcome × (ℕ → ℕ)). r.0) back ∙ read,
            λ j inside. ap (λ (r : Outcome × (ℕ → ℕ)). r.1 j) back ∙ bytes j inside,
            size-with_chunk_files format_int cfg rocks str_hash d hosts file.path
                  (data_out format_int cfg rocks str_hash d hosts file buf count offset nodes).1 u.1
                ∙ forward_update_metadentry_size-forward_get_metadentry_size format_int cfg rocks
                    str_hash d nodes file.path decimal count offset file.flags.append md n ret_size
                    h fits (bounded n count offset small room file.flags.append) answer
                ∙ ap (code 0) (grown n count offset small room file.flags.append),
          )
