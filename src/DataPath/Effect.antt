-- ===== src/DataPath/Effect.antt =====
-- What a daemon's tasks leave in its chunk files, byte by byte.
use gekko_fwd.Base.{
  ℕ, zero, suc, ◌+◌, ◌-◌, ◌*◌, ◌/◌, map, ◌≤◌, ◌<◌, ◌≡◌, refl, Bool, true, false, ◌&&◌, ltb, leb,
  ◌==◌, if◌then◌else◌, arith, Bool-cases, inl, inr, Option, none, some, Option-cases, ap,
}
use gekko_fwd.Base.Words.{word, add64_lem}
use gekko_fwd.DataPath.Targets.{chunksize, DataIn}
use gekko_fwd.DataPath.ChunkFile.{
  ChunkFile, Chunks, IoResult, moved, narrow, opened, update, pwrite, write_chunk,
}
use gekko_fwd.DataPath.SrvWrite.{
  Task, Env, started, DataOut, collect, finish, srv_write, transfer, run_tasks,
}
use gekko_fwd.DataPath.Plan.{part, part_size, parts_from, total_from, total-le, max_offset}
use gekko_fwd.DataPath.PlanLoop.{span, exact_request, plan_complete}

-- A byte of a chunk; 0 where there is no file, or past its end.
unfoldable pub byte_at : Chunks → ℕ → ℕ → ℕ
byte_at chunks id i = elim (chunks id) [ none ↦ 0 | some f ↦ if ltb i f.size then f.byte i else 0 ]

unfoldable pub byte_of : ChunkFile → ℕ → ℕ
byte_of f i = if ltb i f.size then f.byte i else 0

byte_of-pwrite :
    (n : ℕ) (f : ChunkFile) (buf : ℕ → ℕ) (off i : ℕ)
    → byte_of (pwrite f buf n off) i
      ≡ (if leb off i && ltb i (off + n) then buf (i - off) else byte_of f i)
unfolding byte_of pwrite
byte_of-pwrite n f buf off i = ground arith

pub byte_at-some :
    (chunks : Chunks) (k i : ℕ) (f : ChunkFile)
    → chunks k ≡ some f
    → byte_at chunks k i ≡ byte_of f i
unfolding byte_at byte_of
byte_at-some chunks k i f e = rw (e, byte_at, byte_of) refl

pub byte_at-cong :
    (chunks others : Chunks) (k i : ℕ)
    → chunks k ≡ others k
    → byte_at chunks k i ≡ byte_at others k i
unfolding byte_at
byte_at-cong chunks others k i e = rw (e, byte_at) refl

pub update-same :
    (chunks : Chunks) (id k : ℕ) (file : Option ChunkFile)
    → k == id ≡ true
    → update chunks id file k ≡ file
unfolding update
update-same chunks id k file e = rw e refl

pub update-other :
    (chunks : Chunks) (id k : ℕ) (file : Option ChunkFile)
    → k == id ≡ false
    → update chunks id file k ≡ chunks k
unfolding update
update-other chunks id k file e = rw e refl

pub byte_at-update :
    (chunks : Chunks) (id k i : ℕ) (f : ChunkFile)
    → byte_at (update chunks id (some f)) k i
      ≡ (if k == id then byte_of f i else byte_at chunks k i)
byte_at-update chunks id k i f = elim (Bool-cases (k == id)) [
  | inl e ↦
      rw e (byte_at-some (update chunks id (some f)) k i f (update-same chunks id k (some f) e))
  | inr e ↦
      rw e
        (byte_at-cong (update chunks id (some f)) chunks k i (update-other chunks id k (some f) e))
]

byte_of-none : (i : ℕ) → byte_of (opened none) i ≡ 0
unfolding byte_of
byte_of-none i = ground arith

pub byte_at-none : (chunks : Chunks) (k i : ℕ) → chunks k ≡ none → byte_at chunks k i ≡ 0
unfolding byte_at
byte_at-none chunks k i e = rw (e, byte_at) refl

byte_of-opened : (chunks : Chunks) (id i : ℕ) → byte_of (opened (chunks id)) i ≡ byte_at chunks id i
byte_of-opened chunks id i = elim (Option-cases (chunks id)) [
  | inl e ↦ rw (byte_at-none chunks id i e, e) (byte_of-none i)
  | inr (f, e) ↦ rw (byte_at-some chunks id i f e, e) refl
]

byte_at-write_chunk :
    (n : ℕ) (chunks : Chunks) (id : ℕ) (buf : ℕ → ℕ) (off k i : ℕ)
    → id < 4294967296
    → byte_at (write_chunk (moved n) chunks id buf off) k i
      ≡ (if k == id && (leb off i && ltb i (off + n)) then buf (i - off) else byte_at chunks k i)
unfolding write_chunk
byte_at-write_chunk n chunks id buf off k i h =
    let same : narrow id ≡ id = omega arith in
    rw
      (
        same,
        byte_at-update chunks id k i (pwrite (opened (chunks id)) buf n off),
        byte_of-pwrite n (opened (chunks id)) buf off i,
        byte_of-opened chunks id i,
      )
      (elim (Bool-cases (k == id)) [
        | inl e ↦ let here : k ≡ id = ground arith in rw (e, here)
        | inr e ↦ rw e
      ])

-- Every task writes all of its bytes.
abbrev pub full_io : Task → IoResult
full_io t = moved t.size

module _ (offset size : ℕ) (mine : ℕ → Bool) (client : ℕ → ℕ) where
  -- Byte i of chunk k is in the range, and the chunk is this host's.
  abbrev pub covered : ℕ → ℕ → Bool
  covered k i =
      mine k && (leb offset (k * chunksize + i) && ltb (k * chunksize + i) (offset + size))

  -- The task of chunk k touches byte i of it exactly if the range does.
  pub part_covers :
      (k i here : ℕ)
      → i < chunksize
      → (let t = part offset size k here in leb t.off i && ltb i (t.off + t.size))
        ≡ (leb offset (k * chunksize + i) && ltb (k * chunksize + i) (offset + size))
  part_covers k i here h = ground arith

  part_transfers :
      (bulk : ℕ → ℕ) (k i here : ℕ)
      → i < chunksize
      → (leb offset (k * chunksize + i) && ltb (k * chunksize + i) (offset + size)) ≡ true
      → (let t = part offset size k here in
          transfer client t.origin_offset bulk t.local_offset t.size (t.buf + (i - t.off)))
        ≡ client (k * chunksize + i - offset)
  unfolding transfer
  part_transfers bulk k i here h e =
      let inside : (leb here (here + (i - (offset - k * chunksize)))
            && ltb (here + (i - (offset - k * chunksize))) (here + part_size offset size k))
          ≡ true =
        ground arith in
      rw inside (ap client (ground arith))

  same_chunk :
      (rounds id here : ℕ) (bulk : ℕ → ℕ) (k i old : ℕ)
      → i < chunksize
      → k ≡ id
      → mine id ≡ true
      → (let t = part offset size id here in
          if leb (suc id) k && ltb k (suc id + rounds) && covered k i
          then client (k * chunksize + i - offset)
          else if k == id
              && (leb offset (id * chunksize + i) && ltb (id * chunksize + i) (offset + size))
          then transfer client t.origin_offset bulk t.local_offset t.size (here + (i - t.off))
          else old)
        ≡ (if leb id k && ltb k (id + suc rounds) && covered k i
            then client (k * chunksize + i - offset)
            else old)
  same_chunk rounds id here bulk k i old h at e =
      rw at
        (elim (Bool-cases
          (leb offset (id * chunksize + i) && ltb (id * chunksize + i) (offset + size))) [
            | inl c ↦ rw (part_transfers bulk id i here h c) (ground arith)
            | inr c ↦ ground arith
          ])

  -- The tasks of `rounds` chunks from `id` on write the covered bytes of those chunks, and no others.
  run_tasks-parts_from :
      (rounds id here : ℕ) (bulk : ℕ → ℕ) (chunks : Chunks) (k i : ℕ)
      → id + rounds ≤ 4294967296
      → i < chunksize
      → byte_at
          (run_tasks full_io client bulk chunks (parts_from offset size mine rounds id here))
          k
          i
        ≡ (if (leb id k && ltb k (id + rounds)) && covered k i
            then client (k * chunksize + i - offset)
            else byte_at chunks k i)
  unfolding run_tasks parts_from
  run_tasks-parts_from zero id here bulk chunks k i fits h = ground arith
  run_tasks-parts_from (suc rounds) id here bulk chunks k i fits h = elim (Bool-cases (mine id)) [
    | inl e ↦
        let t = part offset size id here in
        let filled = transfer client t.origin_offset bulk t.local_offset t.size in
        rw
          (
            e,
            run_tasks-parts_from rounds (suc id) (here + part_size offset size id) filled
                (write_chunk (moved t.size) chunks id (λ i. filled (here + i)) t.off) k i
                (omega arith) h,
            byte_at-write_chunk t.size chunks id (λ i. filled (here + i)) t.off k i (omega arith),
            part_covers id i here h,
          )
          (elim (Bool-cases (k == id)) [
            | inl f ↦ same_chunk rounds id here bulk k i (byte_at chunks k i) h (ground arith) e
            | inr f ↦ rw f (ground arith)
          ])
    | inr e ↦
        rw (e, run_tasks-parts_from rounds (suc id) here bulk chunks k i (omega arith) h)
          (ground arith)
  ]

-- No fault of the network, of the tasks or of the disk.
abbrev pub no_faults : Env
no_faults = record { setup = true; start = λ id. started; io = full_io; wait = λ i. true }

collect-parts_from :
    (offset size : ℕ) (mine : ℕ → Bool) (rounds id here i io_size total : ℕ)
    → io_size + total_from offset size mine rounds id ≡ total
    → total < word
    → collect (λ j. true) i (map full_io (parts_from offset size mine rounds id here)) io_size
      ≡ record { err = 0; io_size = total }
unfolding collect total_from parts_from
collect-parts_from offset size mine zero id here i io_size total e h = ground arith
collect-parts_from offset size mine (suc rounds) id here i io_size total e h =
    elim (Bool-cases (mine id)) [
      | inl c ↦
          rw
            (
              c,
              add64_lem io_size (part_size offset size id) (ground arith),
              collect-parts_from offset size mine rounds (suc id) (here + part_size offset size id)
                  (suc i) (io_size + part_size offset size id) total (ground arith) h,
            )
            refl
      | inr c ↦
          rw
            (
              c,
              collect-parts_from offset size mine rounds (suc id) here i io_size total
                  (ground arith) h,
            )
            refl
    ]

module _ (offset size host hosts : ℕ) (pos : 0 < size) (fits : offset + size ≤ max_offset)
    (mine : ℕ → Bool) (client : ℕ → ℕ) (chunks : Chunks) where
  abbrev request_here : DataIn
  request_here = exact_request offset size host hosts pos fits mine

  abbrev pub reply : DataOut × Chunks
  reply = srv_write no_faults mine request_here client chunks

  pub srv_write-planned : reply ≡ (
    record {
      err = 0;
      io_size =
          total_from offset size mine
            (span offset size host hosts pos fits mine)
            (offset / chunksize);
    },
    run_tasks full_io client
        (λ i. 0)
        chunks
        (parts_from offset size mine
          (span offset size host hosts pos fits mine)
          (offset / chunksize)
          0),
  )
  unfolding srv_write finish
  srv_write-planned =
      let (q, ends, tasks, none_left, all) = plan_complete offset size host hosts pos fits mine in
      rw
        (
          ends,
          tasks,
          collect-parts_from offset size mine (span offset size host hosts pos fits mine)
              (offset / chunksize) 0 0 0
              (total_from offset size mine (span offset size host hosts pos fits mine)
                (offset / chunksize))
              (omega arith)
              (omega (
                arith,
                total-le offset size mine (span offset size host hosts pos fits mine)
                    (offset / chunksize),
              )),
        )
        refl

  -- For a positive byte count that ends at or below 2 ^ 51: a daemon that gets the request that
  -- counts its chunks and bytes, and meets no fault, replies that it wrote all of its bytes;
  -- byte i of chunk k is then the client's byte for that place if the range covers it and the
  -- chunk is the daemon's, and what it was before otherwise.
  pub srv_write_effect :
      (k i : ℕ)
      → i < chunksize
      → (reply.0 ≡ record {
        err = 0;
        io_size =
            total_from offset size mine
              ((offset + size - 1) / chunksize + 1 - offset / chunksize)
              (offset / chunksize);
      })
        × (byte_at reply.1 k i ≡ (
            if covered offset size mine client k i
            then client (k * chunksize + i - offset)
            else byte_at chunks k i))
  srv_write_effect k i h = rw srv_write-planned (
    refl,
    rw
        (run_tasks-parts_from offset size mine client (span offset size host hosts pos fits mine)
          (offset / chunksize) 0 (λ j. 0) chunks k i (omega arith) h)
        (ground arith),
  )
