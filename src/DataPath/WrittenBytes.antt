-- ===== src/DataPath/WrittenBytes.antt =====
-- After a write, every byte of its range is in a chunk file.
use gekko_fwd.Base.{
  ℕ, zero, suc, ◌+◌, ◌*◌, ◌≤◌, ◌<◌, ◌≡◌, refl, ap, ◌∙◌, Bool, true, false, ◌&&◌, ltb, leb, ◌==◌,
  if◌then◌else◌, some, arith, Bool-cases, ==→≡, ◌⊎◌, inl, inr,
}
use gekko_fwd.DataPath.Targets.{chunksize}
use gekko_fwd.DataPath.ChunkFile.{Chunks, moved, narrow, opened, pwrite, write_chunk}
use gekko_fwd.DataPath.SrvWrite.{transfer, run_tasks}
use gekko_fwd.DataPath.Plan.{part, part_size, parts_from}
use gekko_fwd.DataPath.Effect.{full_io, covered, part_covers, update-same, update-other}
use gekko_fwd.DataPath.ReadPart.{there, there-some, there-file}

there-cong :
    (chunks others : Chunks) (k i : ℕ) → chunks k ≡ others k → there chunks k i ≡ there others k i
unfolding there
there-cong chunks others k i e = rw (e, there) refl

-- A write leaves the bytes there that were, and puts those there that it writes.
there-pwrite :
    (chunks : Chunks) (id n : ℕ) (buf : ℕ → ℕ) (off i : ℕ)
    → (if leb off i && ltb i (off + n) then true else there chunks id i) ≡ true
    → ltb i (pwrite (opened (chunks id)) buf n off).size ≡ true
unfolding pwrite
there-pwrite chunks id n buf off i h = elim (Bool-cases (leb off i && ltb i (off + n))) [
  | inl e ↦ ground arith
  | inr e ↦
      let before : there chunks id i ≡ true = rw e at h in
      let (f, at, long) = there-some chunks id i before in rw at (ground arith)
]

there-write_chunk :
    (n : ℕ) (chunks : Chunks) (id : ℕ) (buf : ℕ → ℕ) (off k i : ℕ)
    → id < 4294967296
    → (if k == id && (leb off i && ltb i (off + n)) then true else there chunks k i) ≡ true
    → there (write_chunk (moved n) chunks id buf off) k i ≡ true
unfolding write_chunk
there-write_chunk n chunks id buf off k i small h =
    let same : narrow id ≡ id = omega arith in
    rw same (elim (Bool-cases (k == id)) [
      | inl e ↦
          let at : k ≡ id = ground arith in
          there-file _ k i (pwrite (opened (chunks id)) buf n off)
            (update-same chunks id k (some (pwrite (opened (chunks id)) buf n off)) e)
          ∙ there-pwrite chunks id n buf off i (rw (e, at) at h)
      | inr e ↦
          there-cong _ chunks k i
            (update-other chunks id k (some (pwrite (opened (chunks id)) buf n off)) e)
          ∙ (rw e at h)
    ])

later : {a b : Bool} → (a ≡ true) ⊎ ((a ≡ false) × (b ≡ true)) → (if a then true else b) ≡ true
later (inl e) = rw e refl
later (inr (e, f)) = rw e f

module _ (offset size : ℕ) (mine : ℕ → Bool) (client : ℕ → ℕ) where
  now_or_before :
      (rounds id k i : ℕ) (chunks : Chunks)
      → ((leb (suc id) k && ltb k (suc id + rounds)) && covered offset size mine client k i) ≡ false
      → (if (leb id k && ltb k (id + suc rounds)) && covered offset size mine client k i
          then true
          else there chunks k i)
        ≡ true
      → (if k == id && (leb offset (id * chunksize + i) && ltb (id * chunksize + i) (offset + size))
          then true
          else there chunks k i)
        ≡ true
  now_or_before rounds id k i chunks c h = elim (Bool-cases (k == id)) [
    | inl f ↦ let at : k ≡ id = ==→≡ k id f in rw (← at) (ground arith)
    | inr f ↦ rw f (ground arith)
  ]

  not_mine :
      (rounds id k i : ℕ) (chunks : Chunks)
      → mine id ≡ false
      → (if (leb id k && ltb k (id + suc rounds)) && covered offset size mine client k i
          then true
          else there chunks k i)
        ≡ true
      → (if (leb (suc id) k && ltb k (suc id + rounds)) && covered offset size mine client k i
          then true
          else there chunks k i)
        ≡ true
  not_mine rounds id k i chunks e h = elim (Bool-cases (k == id)) [
    | inl f ↦ let other : mine k ≡ false = ap mine (==→≡ k id f) ∙ e in ground arith
    | inr f ↦ ground arith
  ]

  pub there-run_tasks :
      (rounds id here : ℕ) (bulk : ℕ → ℕ) (chunks : Chunks) (k i : ℕ)
      → id + rounds ≤ 4294967296
      → i < chunksize
      → (if (leb id k && ltb k (id + rounds)) && covered offset size mine client k i
          then true
          else there chunks k i)
        ≡ true
      → there
          (run_tasks full_io client bulk chunks (parts_from offset size mine rounds id here))
          k
          i
        ≡ true
  unfolding run_tasks parts_from
  there-run_tasks zero id here bulk chunks k i fits small h = ground arith
  there-run_tasks (suc rounds) id here bulk chunks k i fits small h = elim (Bool-cases (mine id)) [
    | inl e ↦
        let t = part offset size id here in
        let filled = transfer client t.origin_offset bulk t.local_offset t.size in
        rw e (
          there-run_tasks rounds (suc id) (here + part_size offset size id) filled
            (write_chunk (moved t.size) chunks id (λ i. filled (here + i)) t.off) k i (omega arith)
            small
            (later
              (elim (Bool-cases (
                (leb (suc id) k && ltb k (suc id + rounds))
                && covered offset size mine client k i)) [
                  | inl c ↦ inl c
                  | inr c ↦ inr (
                    c,
                    there-write_chunk t.size chunks id (λ i. filled (here + i)) t.off k i
                        (omega arith)
                        (rw (part_covers offset size mine client id i here small)
                          (now_or_before rounds id k i chunks c h)),
                  )
                ])))
    | inr e ↦ rw e (
        there-run_tasks rounds (suc id) here bulk chunks k i (omega arith) small
          (not_mine rounds id k i chunks e h))
  ]
