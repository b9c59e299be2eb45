-- ===== src/DataPath/SrvRead.antt =====
-- `rpc_srv_read` of src/daemon/handler/srv_data.cpp: one daemon's part of a read. Its loop over the
-- chunks computes what `rpc_srv_write` computes, by the same statements, but for the bulk transfer.
use gekko_fwd.Base.{ℕ, zero, suc, List, [], ◌∷◌, Bool, ◌||◌, ltb, leb, ◌==◌, if◌then◌else◌}
use gekko_fwd.Base.Words.{add64}
use gekko_fwd.DataPath.Targets.{DataIn}
use gekko_fwd.DataPath.SrvWrite.{
  Task, Progress, first_progress, plan_chunk, DataOut, eio, error_reply, rounds, transfer,
}

-- What a read task puts into its eventual.
pub data ReadResult : Type 0 where
  read_size : ℕ → ReadResult
  enoent : ReadResult
  read_failed : ℕ → ReadResult

pub record ReadEnv : Type 0 where
  -- margo_get_input, margo_bulk_create and margo_bulk_access succeed
  pub setup : Bool
  -- ABT_task_create succeeds for a chunk
  pub create : ℕ → Bool
  pub io : Task → ReadResult
  -- ABT_eventual_wait succeeds
  pub wait : ℕ → Bool
  -- the bulk transfer to the client succeeds
  pub push : ℕ → Bool

pub data ReadPlan : Type 0 where
  read_planned : Progress → ReadPlan
  read_aborted : ℕ → ReadPlan
  read_out_of_bounds : ReadPlan
  read_out_of_fuel : ReadPlan

module _ (args : DataIn) (create mine : ℕ → Bool) where
  -- The loop over the file's chunks.
  unfoldable pub plan_read : ℕ → ℕ → Progress → ReadPlan
  plan_read zero chnk_id_file p = read_out_of_fuel
  plan_read (suc fuel) chnk_id_file p =
      let skip = plan_read fuel (suc chnk_id_file) p in
      let next = plan_read fuel (suc chnk_id_file) (plan_chunk args chnk_id_file p) in
      let serve =
        if leb args.chunk_n p.chnk_id_curr
        then read_out_of_bounds
        else if create chnk_id_file
        then next
        else read_aborted (suc p.chnk_id_curr) in
      if ltb chnk_id_file args.chunk_end || ltb p.chnk_id_curr args.chunk_n
      then (if mine chnk_id_file then serve else skip)
      else read_planned p

-- The loop over the tasks: the reply, and the client's buffer after the transfers. A chunk that
-- does not exist, or of which nothing was read, is passed over.
unfoldable pub collect_read :
    ReadEnv → (ℕ → ℕ) → ℕ → List Task → DataOut → (ℕ → ℕ) → DataOut × (ℕ → ℕ)
collect_read env bulk i [] out client = (out, client)
collect_read env bulk i (t ∷ ts) out client = elim (env.io t) [
  | read_size n ↦
      let pushed = transfer bulk t.local_offset client t.origin_offset n in
      let next = collect_read env bulk (suc i) ts out client in
      let more =
        collect_read env bulk (suc i) ts (record out { io_size = add64 out.io_size n }) pushed in
      if env.wait i
      then (if n == 0
          then next
          else if env.push i
          then more
          else (record out { err = eio }, client))
      else (record out { err = eio }, client)
  | enoent ↦
      let next = collect_read env bulk (suc i) ts out client in
      if env.wait i then next else (record out { err = eio }, client)
  | read_failed e ↦ (record out { err = if env.wait i then e else eio }, client)
]

-- `bulk` is the daemon's buffer, as the read tasks fill it.
unfoldable pub srv_read : ReadEnv → (ℕ → Bool) → DataIn → (ℕ → ℕ) → (ℕ → ℕ) → DataOut × (ℕ → ℕ)
srv_read env mine args bulk client =
    if env.setup
    then (elim (plan_read args env.create mine (rounds args) args.chunk_start
        (first_progress args)) [
          | read_planned p ↦
              collect_read env bulk 0 p.tasks (record { err = 0; io_size = 0 }) client
          | read_aborted n ↦ (error_reply, client)
          | read_out_of_bounds ↦ (error_reply, client)
          | read_out_of_fuel ↦ (error_reply, client)
        ])
    else (error_reply, client)
