-- ===== src/DataPath/Plan.antt =====
-- The loop of `rpc_srv_write` against an independent description: the part of the byte range that
-- lies in each chunk of this host, one after the other in the daemon's buffer.
use gekko_fwd.Base.{
  ℕ, zero, suc, ◌+◌, ◌-◌, ◌*◌, ◌/◌, ◌%◌, ◌≤◌, ◌<◌, ◌≡◌, refl, ◌⊎◌, inl, inr, List, [], ◌∷◌, ◌++◌,
  Bool, true, false, ◌&&◌, ltb, ◌==◌, if◌then◌else◌, min, max, arith, Bool-cases,
}
use gekko_fwd.Base.Words.{word, add64, sub64, mul64, sub64_lem}
use gekko_fwd.DataPath.Targets.{chunksize, DataIn}
use gekko_fwd.DataPath.SrvWrite.{Task, Progress, offset_chunk, whole_chunk, origin_of, plan_chunk}

module _ (offset size : ℕ) where
  -- How many bytes of the range lie in a chunk.
  abbrev pub part_size : ℕ → ℕ
  part_size id = min (offset + size) (suc id * chunksize) - max offset (id * chunksize)

  abbrev pub part : ℕ → ℕ → Task
  part id here = record {
    chnk_id = id;
    size = part_size id;
    off = offset - id * chunksize;
    buf = here;
    origin_offset = id * chunksize - offset;
    local_offset = here;
  }

  module _ (mine : ℕ → Bool) where
    unfoldable pub count_from : ℕ → ℕ → ℕ
    count_from zero id = 0
    count_from (suc rounds) id = (if mine id then 1 else 0) + count_from rounds (suc id)

    unfoldable pub total_from : ℕ → ℕ → ℕ
    total_from zero id = 0
    total_from (suc rounds) id = (if mine id then part_size id else 0) + total_from rounds (suc id)

    unfoldable pub parts_from : ℕ → ℕ → ℕ → List Task
    parts_from zero id here = []
    parts_from (suc rounds) id here =
        if mine id
        then part id here ∷ parts_from rounds (suc id) (here + part_size id)
        else parts_from rounds (suc id) here

    pub total-count : (rounds id : ℕ) → count_from rounds id ≡ 0 → total_from rounds id ≡ 0
    unfolding count_from total_from
    total-count zero id h = refl
    total-count (suc rounds) id h = ground (arith, total-count rounds (suc id))

    -- The parts of different chunks do not overlap, so together they are at most the rest of the range.
    pub total-le :
        (rounds id : ℕ) → total_from rounds id ≤ offset + size - max offset (id * chunksize)
    unfolding total_from
    total-le zero id = omega arith
    total-le (suc rounds) id = ground (arith, total-le rounds (suc id))

    pub count-le : (rounds id : ℕ) → count_from rounds id ≤ rounds
    unfolding count_from
    count-le zero id = omega arith
    count-le (suc rounds) id = ground (arith, count-le rounds (suc id))

-- A request for `size` bytes at `offset` that announces n chunks of t bytes for this host.
abbrev pub request_of : ℕ → ℕ → ℕ → ℕ → ℕ → ℕ → DataIn
request_of offset size host hosts n t = record {
  offset = offset % chunksize;
  host_id = host;
  host_size = hosts;
  chunk_n = n;
  chunk_start = offset / chunksize;
  chunk_end = (offset + size - 1) / chunksize;
  total_chunk_size = t;
  bulk_size = size;
}

-- Offsets below 2 ^ 51: the storage's chunk ids have 32 bits.
abbrev pub max_offset : ℕ
max_offset = 2251799813685248

module _ (offset size host hosts n t : ℕ) (pos : 0 < size) (fits : offset + size ≤ max_offset)
    (t_fits : t < word) (n_fits : n < word) where
  abbrev args : DataIn
  args = request_of offset size host hosts n t

  -- The origin of every chunk but an unaligned first one.
  origin_of_lem :
      (id : ℕ)
      → offset / chunksize ≤ id
      → id ≤ (offset + size - 1) / chunksize
      → offset ≤ id * chunksize
      → origin_of args id ≡ id * chunksize - offset
  unfolding origin_of add64 sub64 mul64
  origin_of_lem id low high aligned = ground arith

  offset_chunk_lem :
      (p : Progress)
      → 0 < offset % chunksize
      → part_size offset size (offset / chunksize) ≤ p.chnk_size_left_host
      → p.chnk_size_left_host < word
      → p.chnk_ptr ≡ 0
      → offset_chunk args (offset / chunksize) p ≡ record p {
        chnk_id_curr = suc p.chnk_id_curr;
        chnk_size_left_host = p.chnk_size_left_host - part_size offset size (offset / chunksize);
        chnk_ptr = p.chnk_ptr + part_size offset size (offset / chunksize);
        tasks = p.tasks ++ part offset size (offset / chunksize) p.chnk_ptr ∷ [];
      }
  unfolding offset_chunk add64 sub64
  offset_chunk_lem p unaligned room small start = ground arith

  -- What the loop knows when it comes to chunk `id` with `more` chunks of this host behind it.
  pub record Before (id more : ℕ) (p : Progress) : Type 0 where
    pub low : offset / chunksize ≤ id
    pub high : id ≤ (offset + size - 1) / chunksize
    pub counted : p.chnk_id_curr + suc more ≡ n
    pub room : part_size offset size id ≤ p.chnk_size_left_host
    pub within : p.chnk_size_left_host ≤ t
    pub pointer : p.chnk_ptr + p.chnk_size_left_host ≡ t
    pub last :
        ((more ≡ 0) × (p.chnk_size_left_host ≡ part_size offset size id))
        ⊎ ((0 < more) × (id < (offset + size - 1) / chunksize))
    pub transfers : p.transfer_size ≡ min size chunksize
    pub first : (id ≡ offset / chunksize) → p.chnk_ptr ≡ 0

  module _ {id more : ℕ} {p : Progress} (b : Before id more p) where
    -- The last chunk takes what is left, any other a whole transfer: each time the chunk's part.
    transfer_choice :
        offset ≤ id * chunksize
        → (if p.chnk_id_curr == sub64 n 1 then p.chnk_size_left_host else p.transfer_size)
          ≡ part_size offset size id
    transfer_choice aligned = rw (sub64_lem n 1 (omega arith) n_fits) (ground arith)

    whole_chunk_lem :
        offset ≤ id * chunksize
        → whole_chunk args id p ≡ record {
          chnk_id_curr = suc p.chnk_id_curr;
          chnk_size_left_host = p.chnk_size_left_host - part_size offset size id;
          chnk_ptr = p.chnk_ptr + part_size offset size id;
          transfer_size = part_size offset size id;
          tasks = p.tasks ++ part offset size id p.chnk_ptr ∷ [];
        }
    unfolding whole_chunk
    whole_chunk_lem aligned =
        rw
          (
            transfer_choice aligned,
            origin_of_lem id b.low b.high aligned,
            sub64_lem p.chnk_size_left_host (part_size offset size id) b.room (omega arith),
            sub64_lem t p.chnk_size_left_host b.within t_fits,
          )
          (ground arith)

    -- Each round serves the part of the range that lies in its chunk.
    pub plan_chunk_lem :
        (u : ℕ) × (plan_chunk args id p ≡ record {
          chnk_id_curr = suc p.chnk_id_curr;
          chnk_size_left_host = p.chnk_size_left_host - part_size offset size id;
          chnk_ptr = p.chnk_ptr + part_size offset size id;
          transfer_size = u;
          tasks = p.tasks ++ part offset size id p.chnk_ptr ∷ [];
        })
        × ((more ≡ 0) ⊎ (u ≡ min size chunksize))
    unfolding plan_chunk
    plan_chunk_lem = elim (Bool-cases (id == args.chunk_start && ltb 0 args.offset)) [
      | inl e ↦
          let here : id ≡ offset / chunksize = ground arith in
          (
            p.transfer_size,
            rw (e, here)
                (offset_chunk_lem p (ground arith) (rw here at b.room) (omega arith)
                  (b.first here)),
            inr b.transfers,
          )
      | inr e ↦
          let aligned : offset ≤ id * chunksize = ground arith in
          (part_size offset size id, rw e (whole_chunk_lem aligned), ground arith)
    ]

  module _ (mine : ℕ → Bool) where
    -- At chunk `id`, with `rounds` chunks of the file left to look at.
    pub record Ahead (rounds id : ℕ) (p : Progress) : Type 0 where
      pub low : offset / chunksize ≤ id
      pub ends : id + rounds ≡ (offset + size - 1) / chunksize + 1
      pub counted : p.chnk_id_curr + count_from offset size mine rounds id ≡ n
      pub left : p.chnk_size_left_host ≡ total_from offset size mine rounds id
      pub pointer : p.chnk_ptr + p.chnk_size_left_host ≡ t
      pub transfers :
          (count_from offset size mine rounds id ≡ 0) ⊎ (p.transfer_size ≡ min size chunksize)
      pub first : (id ≡ offset / chunksize) → p.chnk_ptr ≡ 0

    module _ {rounds id : ℕ} {p : Progress} (a : Ahead (suc rounds) id p) where
      pub Ahead-Before : mine id ≡ true → Before id (count_from offset size mine rounds (suc id)) p
      unfolding count_from total_from
      Ahead-Before e = record {
        low = a.low;
        high = ground arith;
        counted = ground arith;
        room = ground arith;
        within = ground arith;
        pointer = a.pointer;
        last = ground (
          arith,
          total-count offset size mine rounds (suc id),
          count-le offset size mine rounds (suc id),
        );
        transfers = ground arith;
        first = a.first;
      }

      pub Ahead-skip : mine id ≡ false → Ahead rounds (suc id) p
      unfolding count_from total_from
      Ahead-skip e = ground arith

      pub Ahead-serve :
          (u : ℕ)
          → mine id ≡ true
          → (count_from offset size mine rounds (suc id) ≡ 0) ⊎ (u ≡ min size chunksize)
          → Ahead rounds (suc id) (record {
            chnk_id_curr = suc p.chnk_id_curr;
            chnk_size_left_host = p.chnk_size_left_host - part_size offset size id;
            chnk_ptr = p.chnk_ptr + part_size offset size id;
            transfer_size = u;
            tasks = p.tasks ++ part offset size id p.chnk_ptr ∷ [];
          })
      unfolding count_from total_from
      Ahead-serve u e d = ground arith
