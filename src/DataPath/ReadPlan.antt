-- ===== src/DataPath/ReadPlan.antt =====
-- The loop of `rpc_srv_read` against that of `rpc_srv_write`.
use gekko_fwd.Base.{
  ℕ, zero, suc, ◌+◌, ◌-◌, ◌/◌, ◌≤◌, ◌<◌, ◌≡◌, refl, inl, inr, Bool, true, ◌||◌, ltb, leb,
  if◌then◌else◌, Bool-cases, ap, ◌∙◌,
}
use gekko_fwd.DataPath.Targets.{chunksize, DataIn}
use gekko_fwd.DataPath.SrvWrite.{
  Start, started, task_failed, Progress, Planned, planned, aborted, out_of_bounds, out_of_fuel,
  plan, plan_chunk, first_progress, rounds,
}
use gekko_fwd.DataPath.Plan.{max_offset, parts_from}
use gekko_fwd.DataPath.PlanLoop.{exact_request, plan_complete}
use gekko_fwd.DataPath.SrvRead.{
  ReadPlan, read_planned, read_aborted, read_out_of_bounds, read_out_of_fuel, plan_read,
}

-- How the loop of a read ends, in the words of that of a write.
abbrev pub as_read : Planned → ReadPlan
as_read (planned p) = read_planned p
as_read (aborted n p) = read_aborted n
as_read out_of_bounds = read_out_of_bounds
as_read out_of_fuel = read_out_of_fuel

abbrev pub starts : (ℕ → Bool) → ℕ → Start
starts create id = if create id then started else task_failed

module _ (args : DataIn) (create mine : ℕ → Bool) where
  -- The loop of a read ends as that of a write does in which all transfers succeed: with the same
  -- tasks, the same number of tasks to cancel where one cannot be created, or out of bounds.
  pub plan_read-plan :
      (fuel id : ℕ) (p : Progress)
      → plan_read args create mine fuel id p ≡ as_read (plan args (starts create) mine fuel id p)
  unfolding plan plan_read
  plan_read-plan zero id p = refl
  plan_read-plan (suc fuel) id p =
      elim (Bool-cases (ltb id args.chunk_end || ltb p.chnk_id_curr args.chunk_n)) [
        | inr idle ↦ rw idle refl
        | inl busy ↦ elim (Bool-cases (mine id)) [
          | inr other ↦ rw (busy, other) (plan_read-plan fuel (suc id) p)
          | inl here ↦ elim (Bool-cases (leb args.chunk_n p.chnk_id_curr)) [
            | inl past ↦ rw (busy, here, past) refl
            | inr inside ↦ elim (Bool-cases (create id)) [
              | inl made ↦
                  rw (busy, here, inside, made)
                    (plan_read-plan fuel (suc id) (plan_chunk args id p))
              | inr failed ↦ rw (busy, here, inside, failed) refl
            ]
          ]
        ]
      ]

-- For a positive byte count that ends at or below 2 ^ 51: given the request that counts this
-- host's chunks and bytes, and tasks that can all be created, the loop of a read ends, within
-- its fuel, with a task for exactly the part of the range in each chunk of this host, in order
-- and end to end in the daemon's buffer.
pub plan_read_complete :
    (offset size host hosts : ℕ) (pos : 0 < size) (fits : offset + size ≤ max_offset)
    (mine : ℕ → Bool)
    → (let args = exact_request offset size host hosts pos fits mine in
        (q : Progress) × (plan_read args
            (λ id. true)
            mine
            (rounds args)
            (offset / chunksize)
            (first_progress args)
          ≡ read_planned q)
        × (q.tasks
            ≡ parts_from offset size mine
                ((offset + size - 1) / chunksize + 1 - offset / chunksize)
                (offset / chunksize)
                0))
plan_read_complete offset size host hosts pos fits mine =
    let args = exact_request offset size host hosts pos fits mine in
    let (q, ends, tasks, none_left, all) = plan_complete offset size host hosts pos fits mine in
    (
      q,
      plan_read-plan args (λ id. true) mine (rounds args) (offset / chunksize) (first_progress args)
          ∙ ap as_read ends,
      tasks,
    )
