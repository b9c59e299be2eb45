-- ===== src/DataPath/ReadEffect.antt =====
-- What the tasks and transfers of a daemon's read put into the client's buffer, byte by byte.
use gekko_fwd.Base.{
  ℕ, zero, suc, ◌+◌, ◌-◌, ◌*◌, ◌/◌, ◌≤◌, ◌<◌, ◌≡◌, refl, Bool, true, false, ◌&&◌, ltb, leb, ◌==◌,
  List, ◌∷◌, if◌then◌else◌, arith, sym, ==→≡, Bool-cases, inl, inr, ap, ◌∙◌,
}
use gekko_fwd.Base.Words.{word, add64, add64_lem}
use gekko_fwd.DataPath.Targets.{chunksize}
use gekko_fwd.DataPath.ChunkFile.{Chunks}
use gekko_fwd.DataPath.SrvWrite.{Task, transfer}
use gekko_fwd.DataPath.SrvRead.{read_size, collect_read}
use gekko_fwd.DataPath.Plan.{part, part_size, parts_from, total_from, max_offset}
use gekko_fwd.DataPath.Effect.{byte_at}
use gekko_fwd.DataPath.DiskRead.{read_file_abt, read_into, run_reads, reading}
use gekko_fwd.DataPath.ReadPart.{Present, read_part}

collect_read-task :
    (chunks : Chunks) (bulk client : ℕ → ℕ) (i : ℕ) (t : Task) (ts : List Task) (io_size : ℕ)
    → read_file_abt chunks t ≡ read_size t.size
    → 0 < t.size
    → collect_read (reading chunks) bulk i (t ∷ ts) (record { err = 0; io_size = io_size }) client
      ≡ collect_read
          (reading chunks)
          bulk
          (suc i)
          ts
          (record { err = 0; io_size = add64 io_size t.size })
          (transfer bulk t.local_offset client t.origin_offset t.size)
unfolding collect_read
collect_read-task chunks bulk client i t ts io_size e some_bytes =
    let not_empty : t.size == 0 ≡ false = ground arith in rw (collect_read, e, not_empty) refl

module _ (offset size : ℕ) (pos : 0 < size) (mine : ℕ → Bool) (chunks : Chunks) where
  -- What a byte of the client's buffer is, at the place of byte i of chunk k, when the parts of
  -- `rounds` chunks from `id` on have been read.
  abbrev received : ℕ → ℕ → (ℕ → ℕ) → ℕ → ℕ → ℕ
  received rounds id client k i =
      if mine k && (leb id k && (ltb k (id + rounds) && ltb (k * chunksize + i) (offset + size)))
      then byte_at chunks k i
      else client (k * chunksize + i - offset)

  -- A part's transfer brings the client the bytes of the part's chunk, and no others.
  transfer_part :
      (id here : ℕ) (bulk client : ℕ → ℕ) (k i : ℕ)
      → ((x : ℕ)
          → (x < part_size offset size id)
          → bulk (here + x) ≡ byte_at chunks id (offset - id * chunksize + x))
      → i < chunksize
      → offset ≤ k * chunksize + i
      → transfer bulk here client
          (id * chunksize - offset)
          (part_size offset size id)
          (k * chunksize + i - offset)
        ≡ (if k == id && ltb (k * chunksize + i) (offset + size)
            then byte_at chunks k i
            else client (k * chunksize + i - offset))
  unfolding transfer
  transfer_part id here bulk client k i h small low =
      elim (Bool-cases (k == id && ltb (k * chunksize + i) (offset + size))) [
        | inl c ↦
            let at : k ≡ id = ground arith in
            let x = i - (offset - id * chunksize) in
            let inside : (leb (id * chunksize - offset) (k * chunksize + i - offset)
                  && ltb (k * chunksize + i - offset)
                      (id * chunksize - offset + part_size offset size id))
                ≡ true =
              ground arith in
            rw (transfer, inside, c)
              (ap (λ (y : ℕ). bulk (here + y)) (omega arith)
                ∙ h x (ground arith)
                ∙ ap (λ (y : ℕ). byte_at chunks y (offset - id * chunksize + x)) (sym at)
                ∙ ap (byte_at chunks k) (ground arith))
        | inr c ↦
            let outside : (leb (id * chunksize - offset) (k * chunksize + i - offset)
                  && ltb (k * chunksize + i - offset)
                      (id * chunksize - offset + part_size offset size id))
                ≡ false =
              ground arith in
            rw (transfer, outside, c) refl
      ]

  -- After the part of chunk `id`, if it is this host's, there are those of the chunks behind it.
  received-serve :
      (rounds id k i : ℕ) (client pushed : ℕ → ℕ)
      → mine id ≡ true
      → pushed (k * chunksize + i - offset) ≡ (
          if k == id && ltb (k * chunksize + i) (offset + size)
          then byte_at chunks k i
          else client (k * chunksize + i - offset))
      → received rounds (suc id) pushed k i ≡ received (suc rounds) id client k i
  received-serve rounds id k i client pushed at e = rw e (elim (Bool-cases (k == id)) [
    | inl f ↦ let same : mine k ≡ true = ap mine (==→≡ k id f) ∙ at in rw (f, same) (ground arith)
    | inr f ↦ rw f (ground arith)
  ])

  received-skip :
      (rounds id k i : ℕ) (client : ℕ → ℕ)
      → mine id ≡ false
      → received rounds (suc id) client k i ≡ received (suc rounds) id client k i
  received-skip rounds id k i client at = elim (Bool-cases (k == id)) [
    | inl f ↦ let other : mine k ≡ false = ap mine (==→≡ k id f) ∙ at in rw other refl
    | inr f ↦ ground arith
  ]

  pub collect_read-parts_from :
      (present : Present offset size pos mine chunks) (rounds id here i io_size total : ℕ)
      (bulk client : ℕ → ℕ)
      → offset / chunksize ≤ id
      → id + rounds ≤ (offset + size - 1) / chunksize + 1
      → offset + size ≤ max_offset
      → io_size + total_from offset size mine rounds id ≡ total
      → total < word
      → (let r =
            collect_read
              (reading chunks)
              (run_reads chunks bulk (parts_from offset size mine rounds id here))
              i
              (parts_from offset size mine rounds id here)
              (record { err = 0; io_size = io_size })
              client in
          (r.0 ≡ record { err = 0; io_size = total })
          × ((k j : ℕ)
              → (j < chunksize)
              → (offset ≤ k * chunksize + j)
              → r.1 (k * chunksize + j - offset) ≡ received rounds id client k j))
  unfolding collect_read run_reads parts_from total_from
  collect_read-parts_from present zero id here i io_size total bulk client low high fits e h = (
    ap (λ (n : ℕ). record { err = 0; io_size = n }) (omega arith),
    λ k j small from. ground arith,
  )
  collect_read-parts_from present (suc rounds) id here i io_size total bulk client low high fits e
        h =
      elim (Bool-cases (mine id)) [
        | inl c ↦
            let ps = part_size offset size id in
            let (whole, bytes) =
              read_part offset size pos mine chunks present id (omega arith) c (omega arith)
                (omega arith) rounds here bulk in
            let pushed =
              transfer
                (run_reads chunks (read_into chunks bulk (part offset size id here))
                  (parts_from offset size mine rounds (suc id) (here + ps)))
                here client (id * chunksize - offset) ps in
            let (counted, rest) =
              collect_read-parts_from present rounds (suc id) (here + ps) (suc i) (io_size + ps)
                total (read_into chunks bulk (part offset size id here)) pushed (omega arith)
                (omega arith) fits (ground arith) h in
            rw
              (
                c,
                collect_read-task chunks _ client i (part offset size id here) _ io_size whole
                    (omega arith),
                add64_lem io_size ps (ground arith),
              )
              (
                counted,
                λ k j small from.
                    rest k j small from
                    ∙ received-serve rounds id k j client pushed c
                        (transfer_part id here _ client k j bytes small from),
              )
        | inr c ↦
            let (counted, rest) =
              collect_read-parts_from present rounds (suc id) here i io_size total bulk client
                (omega arith) (omega arith) fits (ground arith) h in
            rw c (
              counted,
              λ k j small from. rest k j small from ∙ received-skip rounds id k j client c,
            )
      ]
