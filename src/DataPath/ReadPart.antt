-- ===== src/DataPath/ReadPart.antt =====
-- A read task on a part of the byte range, and the daemon's buffer when all tasks have run.
use gekko_fwd.Base.{
  ℕ, zero, suc, ◌+◌, ◌-◌, ◌*◌, ◌≤◌, ◌<◌, ◌≡◌, refl, Bool, true, false, ◌&&◌, ltb, leb, arith, sym,
  Bool-cases, inl, inr, none, some, Option-cases, ap, ◌∙◌, min,
}
use gekko_fwd.DataPath.Targets.{chunksize}
use gekko_fwd.DataPath.ChunkFile.{ChunkFile, Chunks, narrow, read_chunk}
use gekko_fwd.DataPath.SrvWrite.{Task, transfer}
use gekko_fwd.DataPath.SrvRead.{read_size}
use gekko_fwd.DataPath.Plan.{part, part_size, parts_from}
use gekko_fwd.DataPath.Effect.{byte_at, byte_at-some, byte_of}
use gekko_fwd.DataPath.DiskRead.{read_file_abt, read_into, run_reads}

-- There is a byte at a place of a chunk.
unfoldable pub there : Chunks → ℕ → ℕ → Bool
there chunks id i = elim (chunks id) [ none ↦ false | some f ↦ ltb i f.size ]

there-none : (chunks : Chunks) (id i : ℕ) → chunks id ≡ none → there chunks id i ≡ false
unfolding there
there-none chunks id i e = rw (e, there) refl

pub there-file :
    (chunks : Chunks) (id i : ℕ) (f : ChunkFile)
    → chunks id ≡ some f
    → there chunks id i ≡ ltb i f.size
unfolding there
there-file chunks id i f e = rw (e, there) refl

pub there-some :
    (chunks : Chunks) (id i : ℕ)
    → there chunks id i ≡ true
    → (f : ChunkFile) × (chunks id ≡ some f) × (i < f.size)
there-some chunks id i h = elim (Option-cases (chunks id)) [
  | inl e ↦ ground (arith, there-none chunks id i e, h)
  | inr (f, e) ↦ (f, e, ground (arith, there-file chunks id i f e, h))
]

module _ (chunks : Chunks) (f : ChunkFile) where
  read_chunk-some :
      (id n off : ℕ)
      → chunks id ≡ some f
      → id < 4294967296
      → off + n ≤ f.size
      → read_chunk chunks id n off ≡ some n
  unfolding read_chunk
  read_chunk-some id n off e small long =
      let same : narrow id ≡ id = omega arith in
      let whole : min n (f.size - off) ≡ n = omega arith in rw (read_chunk, same, e, whole) refl

  read_file_abt-some :
      (t : Task)
      → chunks t.chnk_id ≡ some f
      → t.chnk_id < 4294967296
      → t.off + t.size ≤ f.size
      → read_file_abt chunks t ≡ read_size t.size
  unfolding read_file_abt
  read_file_abt-some t e small long =
      rw (read_file_abt, read_chunk-some t.chnk_id t.size t.off e small long) refl

  read_into-some :
      (bulk : ℕ → ℕ) (t : Task)
      → chunks t.chnk_id ≡ some f
      → t.chnk_id < 4294967296
      → t.off + t.size ≤ f.size
      → read_into chunks bulk t ≡ transfer f.byte t.off bulk t.buf t.size
  unfolding read_into
  read_into-some bulk t e small long =
      let same : narrow t.chnk_id ≡ t.chnk_id = omega arith in
      rw (read_into, same, e, read_chunk-some t.chnk_id t.size t.off e small long) refl

byte_of-inside : (f : ChunkFile) (i : ℕ) → i < f.size → byte_of f i ≡ f.byte i
unfolding byte_of
byte_of-inside f i h = ground arith

read_into-below :
    (chunks : Chunks) (bulk : ℕ → ℕ) (t : Task) (x : ℕ)
    → x < t.buf
    → read_into chunks bulk t x ≡ bulk x
unfolding read_into read_chunk transfer
read_into-below chunks bulk t x h = elim (Option-cases (chunks (narrow t.chnk_id))) [
  | inl e ↦ rw (read_into, e) refl
  | inr (f, e) ↦ rw (read_into, e, read_chunk, e) (ground arith)
]

transfer-inside :
    (from into : ℕ → ℕ) (origin here size x : ℕ)
    → x < size
    → transfer from origin into here size (here + x) ≡ from (origin + x)
unfolding transfer
transfer-inside from into origin here size x h =
    let inside : (leb here (here + x) && ltb (here + x) (here + size)) ≡ true = ground arith in
    rw inside (ap from (omega arith))

module _ (offset size : ℕ) (pos : 0 < size) (mine : ℕ → Bool) (chunks : Chunks) where
  -- The parts that are still to be read go behind those that have been.
  run_reads-below :
      (rounds id here : ℕ) (bulk : ℕ → ℕ) (x : ℕ)
      → x < here
      → run_reads chunks bulk (parts_from offset size mine rounds id here) x ≡ bulk x
  unfolding run_reads parts_from
  run_reads-below zero id here bulk x h = refl
  run_reads-below (suc rounds) id here bulk x h = elim (Bool-cases (mine id)) [
    | inl e ↦ rw e (
        run_reads-below rounds (suc id) (here + part_size offset size id)
          (read_into chunks bulk (part offset size id here)) x (omega arith)
        ∙ read_into-below chunks bulk (part offset size id here) x h)
    | inr e ↦ rw e (run_reads-below rounds (suc id) here bulk x h)
  ]

  -- Every byte of the range in this host's chunks is there.
  abbrev pub Present : Type 0
  Present =
      (k i : ℕ)
      → i < chunksize
      → mine k ≡ true
      → offset ≤ k * chunksize + i
      → k * chunksize + i < offset + size
      → there chunks k i ≡ true

  module _ (present : Present) (id : ℕ) (small : id < 4294967296) (here? : mine id ≡ true)
      (first : offset < suc id * chunksize) (last : id * chunksize < offset + size) where
    part_file :
        (f : ChunkFile) × (chunks id ≡ some f)
        × (offset - id * chunksize + part_size offset size id ≤ f.size)
    part_file =
        let (f, e, long) =
          there-some chunks id (offset - id * chunksize + part_size offset size id - 1) (
            present id (offset - id * chunksize + part_size offset size id - 1) (omega arith) here?
              (omega arith) (omega arith)) in
        (f, e, omega arith)

    -- A part is read as a whole, and its bytes stand in the daemon's buffer when all have been.
    pub read_part :
        (rounds here : ℕ) (bulk : ℕ → ℕ)
        → (read_file_abt chunks (part offset size id here) ≡ read_size (part_size offset size id))
          × ((x : ℕ)
              → (x < part_size offset size id)
              → run_reads chunks
                  (read_into chunks bulk (part offset size id here))
                  (parts_from offset size mine rounds (suc id) (here + part_size offset size id))
                  (here + x)
                ≡ byte_at chunks id (offset - id * chunksize + x))
    read_part rounds here bulk =
        let (f, e, long) = part_file in
        (
          read_file_abt-some chunks f (part offset size id here) e small long,
          λ x h.
              run_reads-below rounds (suc id) (here + part_size offset size id)
                (read_into chunks bulk (part offset size id here)) (here + x) (omega arith)
              ∙ ap (λ (b : ℕ → ℕ). b (here + x))
                  (read_into-some chunks f bulk (part offset size id here) e small long)
              ∙ transfer-inside f.byte bulk (offset - id * chunksize) here
                  (part_size offset size id) x h
              ∙ sym (
                  byte_at-some chunks id (offset - id * chunksize + x) f e
                  ∙ byte_of-inside f (offset - id * chunksize + x) (omega arith)),
        )
