-- ===== src/DataPath/WriteRead.antt =====
-- A write, and a read of the same range, through the whole data path.
use gekko_fwd.Base.{
  ℕ, ◌+◌, ◌-◌, ◌*◌, ◌/◌, ◌%◌, ◌≤◌, ◌<◌, ◌≡◌, subst, ◌∙◌, Bool, true, ◌==◌, if◌then◌else◌, arith,
}
use gekko_fwd.Base.Words.{sub64}
use gekko_fwd.DataPath.Targets.{chunksize}
use gekko_fwd.DataPath.Plan.{max_offset}
use gekko_fwd.DataPath.Effect.{srv_write-planned, no_faults}
use gekko_fwd.DataPath.Forward.{Cluster, transferred, serve, written, forward_write}
use gekko_fwd.DataPath.Requests.{request_lem}
use gekko_fwd.DataPath.Shares.{range_targets, elem-targets}
use gekko_fwd.DataPath.WriteView.{
  no_losses, posted-all, all_posted-all, targets_lem, forward_write_view,
}
use gekko_fwd.DataPath.ReadPart.{there}
use gekko_fwd.DataPath.DiskRead.{read_cluster}
use gekko_fwd.DataPath.ReadView.{forward_read_view}
use gekko_fwd.DataPath.WrittenBytes.{there-run_tasks}

module _ (locate : ℕ → ℕ) (hosts offset size : ℕ) (pos : 0 < size)
    (fits : offset + size ≤ max_offset) where
  -- Every byte of the range is there when its host has served its request.
  serve-there :
      (cluster : Cluster) (buf : ℕ → ℕ) (k i : ℕ)
      → i < chunksize
      → offset ≤ k * chunksize + i
      → k * chunksize + i < offset + size
      → there
          (serve no_losses (λ h. no_faults) locate hosts cluster buf offset size (locate k)).1
          k
          i
        ≡ true
  unfolding serve
  serve-there cluster buf k i small low high =
      rw
        (
          request_lem locate offset size pos fits hosts (locate k),
          srv_write-planned offset size (locate k) hosts pos fits (λ id. locate id == locate k) buf
              (cluster (locate k)),
        )
        (there-run_tasks offset size (λ id. locate id == locate k) buf
          ((offset + size - 1) / chunksize + 1 - offset / chunksize) (offset / chunksize) 0 (λ j. 0)
          (cluster (locate k)) k i (omega arith) small (ground arith))

  forward_write-there :
      (cluster : Cluster) (buf : ℕ → ℕ) (append_flag : Bool) (in_offset updated k i : ℕ)
      → (if append_flag then in_offset else sub64 updated size) ≡ offset
      → i < chunksize
      → offset ≤ k * chunksize + i
      → k * chunksize + i < offset + size
      → there
          ((forward_write no_losses
              (λ h. no_faults)
              locate
              hosts
              cluster
              buf
              append_flag
              in_offset
              size
              updated).1
            (locate k))
          k
          i
        ≡ true
  unfolding forward_write written
  forward_write-there cluster buf append_flag in_offset updated k i e small low high =
      rw
        (
          e,
          targets_lem locate hosts offset size pos fits,
          all_posted-all (range_targets locate offset size pos fits),
          posted-all (range_targets locate offset size pos fits),
          elem-targets locate offset size pos fits k (omega arith) (omega arith),
        )
        (serve-there cluster buf k i small low high)

  by_place :
      (got wanted : ℕ → ℕ)
      → ((k i : ℕ)
          → i < chunksize
          → offset ≤ k * chunksize + i
          → k * chunksize + i < offset + size
          → got (k * chunksize + i - offset) ≡ wanted (k * chunksize + i - offset))
      → (j : ℕ) → j < size
      → got j ≡ wanted j
  by_place got wanted h j small =
      let place : (offset + j) / chunksize * chunksize + (offset + j) % chunksize - offset ≡ j =
        omega arith in
      subst (λ (x : ℕ). got x ≡ wanted x) place
        (h ((offset + j) / chunksize) ((offset + j) % chunksize) (omega arith) (omega arith)
          (omega arith))

  -- A write of a positive byte count, at the offset that the call takes by its append flag, that
  -- ends at or below 2 ^ 51, and then a read of the same range into any buffer, where every
  -- message arrives and no daemon meets a fault: both return the byte count, and the reader's
  -- buffer then has the written bytes.
  pub forward_write-forward_read :
      (cluster : Cluster) (buf into : ℕ → ℕ) (append_flag : Bool) (in_offset updated : ℕ)
      → (if append_flag then in_offset else sub64 updated size) ≡ offset
      → (let w =
            forward_write no_losses
              (λ h. no_faults)
              locate
              hosts
              cluster
              buf
              append_flag
              in_offset
              size
              updated in
          let r = read_cluster locate hosts w.1 into offset size in
          (w.0 ≡ transferred size)
          × (r.0 ≡ transferred size)
          × ((j : ℕ) → (j < size) → r.1 j ≡ buf j))
  forward_write-forward_read cluster buf into append_flag in_offset updated e =
      let w =
        forward_write no_losses (λ h. no_faults) locate hosts cluster buf append_flag in_offset size
          updated in
      let (counted, bytes) =
        forward_read_view locate hosts offset size pos fits w.1
          (λ k i small low high.
            forward_write-there cluster buf append_flag in_offset updated k i e small low high)
          into in
      (
        (forward_write_view locate hosts offset size pos fits cluster buf append_flag in_offset
            updated 0 0 e (omega arith)).0,
        counted,
        by_place (read_cluster locate hosts w.1 into offset size).1 buf (λ k i small low high.
            bytes k i small low high
            ∙ (forward_write_view locate hosts offset size pos fits cluster buf append_flag
                in_offset updated k i e small).1
            ∙ ground arith),
      )
