-- ===== src/DataPath/Holes.antt =====
-- A read of a byte range of which no chunk has been written.
use gekko_fwd.Base.{
  ℕ, zero, suc, ◌+◌, ◌-◌, ◌/◌, ◌≤◌, ◌<◌, ◌≡◌, refl, sym, ap, ◌∙◌, List, [], ◌∷◌, Bool, true, ◌==◌,
  none, arith, Bool-cases, ==→≡, inl, inr,
}
use gekko_fwd.DataPath.Targets.{chunksize, request}
use gekko_fwd.DataPath.ChunkFile.{Chunks, narrow, read_chunk}
use gekko_fwd.DataPath.SrvWrite.{Task, DataOut, rounds}
use gekko_fwd.DataPath.SrvRead.{enoent, collect_read, srv_read}
use gekko_fwd.DataPath.Plan.{part, part_size, parts_from, max_offset}
use gekko_fwd.DataPath.PlanLoop.{exact_request}
use gekko_fwd.DataPath.ReadPlan.{plan_read_complete}
use gekko_fwd.DataPath.Requests.{request_lem}
use gekko_fwd.DataPath.Shares.{sum_over, range_targets}
use gekko_fwd.DataPath.Forward.{transferred, Cluster}
use gekko_fwd.DataPath.ForwardRead.{serve_read, filled, forward_read}
use gekko_fwd.DataPath.WriteView.{no_losses, posted-all, all_posted-all, gather-all, targets_lem}
use gekko_fwd.DataPath.DiskRead.{read_file_abt, reading, bulk_buf, read_cluster}

read_file_abt-missing :
    (chunks : Chunks) (t : Task)
    → t.chnk_id < 4294967296
    → chunks t.chnk_id ≡ none
    → read_file_abt chunks t ≡ enoent
unfolding read_file_abt read_chunk
read_file_abt-missing chunks t small e =
    let same : narrow t.chnk_id ≡ t.chnk_id = omega arith in
    rw (read_file_abt, read_chunk, same, e) refl

module _ (offset size : ℕ) (pos : 0 < size) (fits : offset + size ≤ max_offset) (mine : ℕ → Bool)
    (chunks : Chunks) where
  -- None of this host's chunks of the range has a file.
  abbrev Missing : Type 0
  Missing =
      (k : ℕ)
      → mine k ≡ true
      → offset / chunksize ≤ k
      → k ≤ (offset + size - 1) / chunksize
      → chunks k ≡ none

  collect_read-missing :
      (hole : Missing) (rounds id here i : ℕ) (bulk client : ℕ → ℕ) (out : DataOut)
      → offset / chunksize ≤ id
      → id + rounds ≤ (offset + size - 1) / chunksize + 1
      → collect_read (reading chunks) bulk i (parts_from offset size mine rounds id here) out client
        ≡ (out, client)
  unfolding collect_read parts_from
  collect_read-missing hole zero id here i bulk client out low high = refl
  collect_read-missing hole (suc rounds) id here i bulk client out low high =
      elim (Bool-cases (mine id)) [
        | inl e ↦
            rw
              (
                e,
                collect_read,
                read_file_abt-missing chunks (part offset size id here) (omega arith)
                    (hole id e low (omega arith)),
              )
              (collect_read-missing hole rounds (suc id) (here + part_size offset size id) (suc i)
                bulk client out (omega arith) (omega arith))
        | inr e ↦ rw e (
            collect_read-missing hole rounds (suc id) here i bulk client out (omega arith)
              (omega arith))
      ]

  srv_read-missing :
      (hole : Missing) (host hosts : ℕ) (bulk client : ℕ → ℕ)
      → srv_read
          (reading chunks)
          mine
          (exact_request offset size host hosts pos fits mine)
          bulk
          client
        ≡ (record { err = 0; io_size = 0 }, client)
  unfolding srv_read
  srv_read-missing hole host hosts bulk client =
      let (q, ends, tasks) = plan_read_complete offset size host hosts pos fits mine in
      rw (ends, tasks)
        (collect_read-missing hole ((offset + size - 1) / chunksize + 1 - offset / chunksize)
          (offset / chunksize) 0 0 bulk client (record { err = 0; io_size = 0 }) (omega arith)
          (omega arith))

nothing_shared : (ts : List ℕ) → sum_over (λ u. 0) ts ≡ 0
unfolding sum_over
nothing_shared [] = refl
nothing_shared (t ∷ ts) = omega (arith, nothing_shared ts)

module _ (locate : ℕ → ℕ) (hosts offset size : ℕ) (pos : 0 < size)
    (fits : offset + size ≤ max_offset) (cluster : Cluster)
    (hole : (k : ℕ)
      → offset / chunksize ≤ k
      → k ≤ (offset + size - 1) / chunksize
      → cluster (locate k) k ≡ none) where
  abbrev disk : ℕ → ℕ → ℕ
  disk u = bulk_buf (cluster u) (λ id. locate id == u) (request locate hosts offset size u)

  serve_read-missing :
      (u : ℕ) (buf : ℕ → ℕ)
      → serve_read no_losses (λ h. reading (cluster h)) disk locate hosts offset size u buf
        ≡ (record { err = 0; io_size = 0 }, buf)
  unfolding serve_read
  serve_read-missing u buf = rw (request_lem locate offset size pos fits hosts u) (
      srv_read-missing offset size pos fits (λ id. locate id == u) (cluster u)
        (λ k at low high.
          ap (λ (h : ℕ). cluster h k) (sym (==→≡ (locate k) u at)) ∙ hole k low high)
        u hosts _ buf)

  filled-missing :
      (us : List ℕ) (buf : ℕ → ℕ)
      → filled no_losses (λ h. reading (cluster h)) disk locate hosts offset size us buf ≡ buf
  unfolding filled
  filled-missing [] buf = refl
  filled-missing (u ∷ us) buf = rw (serve_read-missing u buf) (filled-missing us buf)

  -- For a positive byte count that ends at or below 2 ^ 51, where no message is lost and no daemon
  -- meets a fault: a read of a range of which no chunk has a file returns 0 and leaves the buffer
  -- as it was.
  pub forward_read_hole :
      (buf : ℕ → ℕ) → read_cluster locate hosts cluster buf offset size ≡ (transferred 0, buf)
  unfolding forward_read
  forward_read_hole buf =
      rw
        (
          targets_lem locate hosts offset size pos fits,
          all_posted-all (range_targets locate offset size pos fits),
          posted-all (range_targets locate offset size pos fits),
          filled-missing (range_targets locate offset size pos fits) buf,
          gather-all
              (λ u.
                (serve_read no_losses (λ h. reading (cluster h)) disk locate hosts offset size u
                  buf).0)
              (λ u. 0) (range_targets locate offset size pos fits) 0
              (λ u. ap (λ (r : DataOut × (ℕ → ℕ)). r.0) (serve_read-missing u buf))
              (rw (nothing_shared (range_targets locate offset size pos fits)) (omega arith)),
          nothing_shared (range_targets locate offset size pos fits),
        )
        (ap (λ (n : ℕ). (transferred n, buf)) (omega arith))
