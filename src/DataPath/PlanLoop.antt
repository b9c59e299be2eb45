-- ===== src/DataPath/PlanLoop.antt =====
-- The whole loop of `rpc_srv_write`: it ends, within the arrays, with the parts of all chunks of
-- this host.
use gekko_fwd.Base.{
  ℕ, zero, suc, ◌+◌, ◌-◌, ◌/◌, ◌≤◌, ◌<◌, ◌≡◌, refl, [], ◌∷◌, ◌++◌, Bool, true, false, ltb, leb,
  arith, Bool-cases, inl, inr, append_assoc, append-nil, sym, ◌∙◌, ◌||◌,
}
use gekko_fwd.Base.Words.{word}
use gekko_fwd.DataPath.Targets.{chunksize, DataIn}
use gekko_fwd.DataPath.SrvWrite.{
  Progress, Start, started, Planned, planned, plan, first_progress, rounds,
}
use gekko_fwd.DataPath.Plan.{
  part, count_from, total_from, parts_from, request_of, max_offset, Ahead, Ahead-Before, Ahead-skip,
  Ahead-serve, plan_chunk_lem, count-le, total-count, total-le,
}

module _ (offset size host hosts n t : ℕ) (pos : 0 < size) (fits : offset + size ≤ max_offset)
    (t_fits : t < word) (n_fits : n < word) (mine : ℕ → Bool) where
  abbrev start_all : ℕ → Start
  start_all id = started

  -- The loop's result from chunk `id` on.
  abbrev Finished : Progress → ℕ → ℕ → Planned → Type 0
  Finished p rounds id r =
      (q : Progress) × (r ≡ planned q)
      × (q.tasks ≡ p.tasks ++ parts_from offset size mine rounds id p.chnk_ptr)
      × (q.chnk_size_left_host ≡ 0)
      × (q.chnk_id_curr ≡ n)

  plan_from :
      (left id fuel : ℕ) (p : Progress)
      → left < fuel
      → Ahead offset size host hosts n t pos fits t_fits n_fits mine left id p
      → Finished p left id (plan (request_of offset size host hosts n t) start_all mine fuel id p)
  unfolding plan parts_from count_from total_from
  plan_from left id zero p h a = elim h [ ]
  plan_from zero id (suc fuel) p h a =
      (p, ground arith, sym (append-nil p.tasks), omega arith, omega arith)
  plan_from (suc left) id (suc fuel) p h a = elim (Bool-cases (mine id)) [
    | inl e ↦
        let (u, step, d) =
          plan_chunk_lem offset size host hosts n t pos fits t_fits n_fits
            (Ahead-Before offset size host hosts n t pos fits t_fits n_fits mine a e) in
        let busy : (ltb id ((offset + size - 1) / chunksize) || ltb p.chnk_id_curr n) ≡ true =
          ground arith in
        let inside : leb n p.chnk_id_curr ≡ false = ground arith in
        let (q, ends, tasks, none_left, all) =
          plan_from left (suc id) fuel _ (omega arith)
            (Ahead-serve offset size host hosts n t pos fits t_fits n_fits mine a u e d) in
        (
          q,
          rw (busy, e, inside, step) ends,
          rw e (tasks ∙ append_assoc p.tasks (part offset size id p.chnk_ptr ∷ []) _),
          none_left,
          all,
        )
    | inr e ↦ elim (Bool-cases (ltb id ((offset + size - 1) / chunksize) || ltb p.chnk_id_curr n)) [
      | inl busy ↦
          let (q, ends, tasks, none_left, all) =
            plan_from left (suc id) fuel p (omega arith)
              (Ahead-skip offset size host hosts n t pos fits t_fits n_fits mine a e) in
          (q, rw (busy, e) ends, rw e tasks, none_left, all)
      | inr idle ↦
          let over : left ≡ 0 = ground arith in
          let none_mine : count_from offset size mine left (suc id) ≡ 0 =
            omega (arith, count-le offset size mine left (suc id)) in
          (
            p,
            rw idle,
            rw (e, over) (sym (append-nil p.tasks)),
            ground (arith, total-count offset size mine left (suc id) none_mine),
            ground arith,
          )
    ]
  ]

module _ (offset size host hosts : ℕ) (pos : 0 < size) (fits : offset + size ≤ max_offset)
    (mine : ℕ → Bool) where
  -- The chunks of the range.
  abbrev pub span : ℕ
  span = (offset + size - 1) / chunksize + 1 - offset / chunksize

  -- The request that counts this host's chunks and bytes.
  abbrev pub exact_request : DataIn
  exact_request =
      request_of offset size host hosts (count_from offset size mine span (offset / chunksize))
        (total_from offset size mine span (offset / chunksize))

  -- For a positive byte count that ends at or below 2 ^ 51: given the request that counts this
  -- host's chunks and bytes, and transfers and tasks that can all be started, the loop ends,
  -- within its fuel, with a task for exactly the part of the range in each chunk of this host,
  -- in order and end to end in the daemon's buffer, with every counted chunk served and no bytes
  -- left over.
  pub plan_complete :
      (q : Progress) × (plan exact_request
          (λ id. started)
          mine
          (rounds exact_request)
          (offset / chunksize)
          (first_progress exact_request)
        ≡ planned q)
      × (q.tasks ≡ parts_from offset size mine span (offset / chunksize) 0)
      × (q.chnk_size_left_host ≡ 0)
      × (q.chnk_id_curr ≡ count_from offset size mine span (offset / chunksize))
  plan_complete =
      plan_from offset size host hosts (count_from offset size mine span (offset / chunksize))
        (total_from offset size mine span (offset / chunksize)) pos fits
        (omega (arith, total-le offset size mine span (offset / chunksize)))
        (omega (arith, count-le offset size mine span (offset / chunksize))) mine span
        (offset / chunksize) (rounds exact_request) (first_progress exact_request) (omega arith)
        (record {
          low = omega arith;
          ends = omega arith;
          counted = omega arith;
          left = refl;
          pointer = omega arith;
          transfers = inr (ground arith);
          first = λ _. refl;
        })
