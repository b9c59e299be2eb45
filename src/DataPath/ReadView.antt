-- ===== src/DataPath/ReadView.antt =====
-- A read through the whole data path: the count that the client gets, and its buffer.
use gekko_fwd.Base.{
  ℕ, ◌+◌, ◌-◌, ◌*◌, ◌/◌, ◌≤◌, ◌<◌, ◌≡◌, refl, sym, ap, ◌∙◌, List, [], ◌∷◌, Bool, true, ◌&&◌, ltb,
  ◌==◌, if◌then◌else◌, arith,
}
use gekko_fwd.DataPath.Targets.{chunksize, request}
use gekko_fwd.DataPath.ChunkFile.{Chunks}
use gekko_fwd.DataPath.SrvRead.{ReadPlan, srv_read}
use gekko_fwd.DataPath.SrvWrite.{DataOut}
use gekko_fwd.DataPath.Plan.{parts_from, total_from, total-le, max_offset}
use gekko_fwd.DataPath.PlanLoop.{exact_request}
use gekko_fwd.DataPath.ReadPlan.{plan_read_complete}
use gekko_fwd.DataPath.Requests.{request_lem}
use gekko_fwd.DataPath.Effect.{byte_at}
use gekko_fwd.DataPath.Shares.{elem, range_targets, elem-targets, sum_over-targets}
use gekko_fwd.DataPath.Forward.{transferred, Cluster}
use gekko_fwd.DataPath.ForwardRead.{serve_read, filled, forward_read}
use gekko_fwd.DataPath.WriteView.{
  no_losses, posted-all, all_posted-all, gather-all, targets_lem, share,
}
use gekko_fwd.DataPath.DiskRead.{reading, created, run_reads, bulk_buf, read_cluster}
use gekko_fwd.DataPath.ReadPart.{there, Present}
use gekko_fwd.DataPath.ReadEffect.{collect_read-parts_from}

module _ (offset size host hosts : ℕ) (pos : 0 < size) (fits : offset + size ≤ max_offset)
    (mine : ℕ → Bool) (chunks : Chunks) (present : Present offset size pos mine chunks) where
  abbrev chunk_count : ℕ
  chunk_count = (offset + size - 1) / chunksize + 1 - offset / chunksize

  bulk_buf_lem :
      bulk_buf chunks mine (exact_request offset size host hosts pos fits mine)
      ≡ run_reads chunks (λ i. 0) (parts_from offset size mine chunk_count (offset / chunksize) 0)
  unfolding bulk_buf
  bulk_buf_lem =
      let (q, ends, tasks) = plan_read_complete offset size host hosts pos fits mine in
      ap (λ (p : ReadPlan). run_reads chunks (λ i. 0) (created p)) ends
      ∙ ap (run_reads chunks (λ i. 0)) tasks

  srv_read_effect :
      (client : ℕ → ℕ)
      → (let args = exact_request offset size host hosts pos fits mine in
          let r = srv_read (reading chunks) mine args (bulk_buf chunks mine args) client in
          (r.0 ≡ record {
            err = 0;
            io_size = total_from offset size mine chunk_count (offset / chunksize);
          })
          × ((k i : ℕ)
              → (i < chunksize)
              → (offset ≤ k * chunksize + i)
              → r.1 (k * chunksize + i - offset) ≡ (
                  if mine k && ltb (k * chunksize + i) (offset + size)
                  then byte_at chunks k i
                  else client (k * chunksize + i - offset))))
  unfolding srv_read
  srv_read_effect client =
      let (q, ends, tasks) = plan_read_complete offset size host hosts pos fits mine in
      let (counted, bytes) =
        collect_read-parts_from offset size pos mine chunks present chunk_count (offset / chunksize)
          0 0 0 (total_from offset size mine chunk_count (offset / chunksize)) (λ i. 0) client
          (omega arith) (omega arith) fits (omega arith)
          (omega (arith, total-le offset size mine chunk_count (offset / chunksize))) in
      rw (ends, tasks, bulk_buf_lem) (counted, λ k i small low. bytes k i small low ∙ ground arith)

module _ (locate : ℕ → ℕ) (hosts offset size : ℕ) (pos : 0 < size)
    (fits : offset + size ≤ max_offset) (cluster : Cluster)
    (present : (k i : ℕ)
      → i < chunksize
      → offset ≤ k * chunksize + i
      → k * chunksize + i < offset + size
      → there (cluster (locate k)) k i ≡ true) where
  -- A host's handler, and its disk, at the client's request.
  abbrev served : ℕ → (ℕ → ℕ) → DataOut × (ℕ → ℕ)
  served u buf =
      serve_read no_losses (λ h. reading (cluster h))
        (λ h. bulk_buf (cluster h) (λ id. locate id == h) (request locate hosts offset size h))
        locate hosts offset size u buf

  present_here : (u : ℕ) → Present offset size pos (λ id. locate id == u) (cluster u)
  present_here u k i small at low high =
      let same : locate k ≡ u = ground arith in
      ap (λ (h : ℕ). there (cluster h) k i) (sym same) ∙ present k i small low high

  served_lem :
      (u : ℕ) (buf : ℕ → ℕ)
      → ((served u buf).0 ≡ record { err = 0; io_size = share locate hosts offset size pos fits u })
        × ((k i : ℕ)
            → (i < chunksize)
            → (offset ≤ k * chunksize + i)
            → (served u buf).1 (k * chunksize + i - offset) ≡ (
                if locate k == u && ltb (k * chunksize + i) (offset + size)
                then byte_at (cluster u) k i
                else buf (k * chunksize + i - offset)))
  unfolding serve_read
  served_lem u buf = rw (request_lem locate offset size pos fits hosts u) (
      srv_read_effect offset size u hosts pos fits (λ id. locate id == u) (cluster u)
        (present_here u) buf)

  abbrev filled_by : List ℕ → (ℕ → ℕ) → ℕ → ℕ
  filled_by us buf =
      filled no_losses (λ h. reading (cluster h))
        (λ h. bulk_buf (cluster h) (λ id. locate id == h) (request locate hosts offset size h))
        locate hosts offset size us buf

  -- A host on the list has brought the bytes of its chunks.
  filled_lem :
      (us : List ℕ) (buf : ℕ → ℕ) (k i : ℕ)
      → i < chunksize
      → offset ≤ k * chunksize + i
      → k * chunksize + i < offset + size
      → filled_by us buf (k * chunksize + i - offset) ≡ (
          if elem (locate k) us
          then byte_at (cluster (locate k)) k i
          else buf (k * chunksize + i - offset))
  unfolding filled elem
  filled_lem [] buf k i small low high = refl
  filled_lem (u ∷ us) buf k i small low high =
      rw (filled_lem us (served u buf).1 k i small low high, (served_lem u buf).1 k i small low)
        (ground arith)

  pub forward_read_view :
      (buf : ℕ → ℕ)
      → (let r = read_cluster locate hosts cluster buf offset size in
          (r.0 ≡ transferred size)
          × ((k i : ℕ)
              → (i < chunksize)
              → (offset ≤ k * chunksize + i)
              → (k * chunksize + i < offset + size)
              → r.1 (k * chunksize + i - offset) ≡ byte_at (cluster (locate k)) k i))
  unfolding forward_read
  forward_read_view buf =
      rw
        (
          targets_lem locate hosts offset size pos fits,
          all_posted-all (range_targets locate offset size pos fits),
          posted-all (range_targets locate offset size pos fits),
        )
        (
          gather-all (λ u. (served u buf).0) (share locate hosts offset size pos fits)
                (range_targets locate offset size pos fits) 0 (λ u. (served_lem u buf).0)
                (rw (sum_over-targets locate offset size pos fits) (omega arith))
              ∙ ap transferred (rw (sum_over-targets locate offset size pos fits) (omega arith)),
          λ k i small low high.
              filled_lem (range_targets locate offset size pos fits) buf k i small low high
              ∙ rw (elem-targets locate offset size pos fits k (omega arith) (omega arith)) refl,
        )
