-- ===== src/DataPath/DiskRead.antt =====
-- The read tasks of src/daemon/handler/srv_data.cpp on the chunk files: `read_file_abt` and the bytes
-- that `ChunkStorage::read_chunk` puts into the daemon's buffer. The tasks have parts of the buffer of
-- their own, so that their order makes no difference; here they run in the order of the loop.
use gekko_fwd.Base.{ℕ, List, [], ◌∷◌, ◌==◌, Bool, true, none, some}
use gekko_fwd.DataPath.Targets.{DataIn, request}
use gekko_fwd.DataPath.ChunkFile.{Chunks, narrow, read_chunk}
use gekko_fwd.DataPath.SrvWrite.{Task, first_progress, rounds, transfer}
use gekko_fwd.DataPath.SrvRead.{
  ReadResult, read_size, enoent, ReadEnv, ReadPlan, read_planned, read_aborted, read_out_of_bounds,
  read_out_of_fuel, plan_read,
}
use gekko_fwd.DataPath.Forward.{Outcome, Cluster}
use gekko_fwd.DataPath.ForwardRead.{forward_read}
use gekko_fwd.DataPath.WriteView.{no_losses}

-- What a task puts into its eventual, where no system call fails but for a missing file.
unfoldable pub read_file_abt : Chunks → Task → ReadResult
read_file_abt chunks t = elim (read_chunk chunks t.chnk_id t.size t.off) [
  | none ↦ enoent
  | some n ↦ read_size n
]

-- The daemon's buffer after a task: the bytes read are where its pointer stands.
unfoldable pub read_into : Chunks → (ℕ → ℕ) → Task → ℕ → ℕ
read_into chunks bulk t = elim (chunks (narrow t.chnk_id)) [
  | none ↦ bulk
  | some f ↦ elim (read_chunk chunks t.chnk_id t.size t.off) [
    | none ↦ bulk
    | some n ↦ transfer f.byte t.off bulk t.buf n
  ]
]

unfoldable pub run_reads : Chunks → (ℕ → ℕ) → List Task → ℕ → ℕ
run_reads chunks bulk [] = bulk
run_reads chunks bulk (t ∷ ts) = run_reads chunks (read_into chunks bulk t) ts

-- The tasks that the loop over the chunks has created.
abbrev pub created : ReadPlan → List Task
created (read_planned p) = p.tasks
created (read_aborted n) = []
created read_out_of_bounds = []
created read_out_of_fuel = []

-- The daemon's buffer when all tasks have run.
unfoldable pub bulk_buf : Chunks → (ℕ → Bool) → DataIn → ℕ → ℕ
bulk_buf chunks mine args =
    run_reads chunks (λ i. 0)
      (created
        (plan_read args (λ id. true) mine (rounds args) args.chunk_start (first_progress args)))

-- A daemon on which nothing fails.
abbrev pub reading : Chunks → ReadEnv
reading chunks = record {
  setup = true;
  create = λ id. true;
  io = read_file_abt chunks;
  wait = λ i. true;
  push = λ i. true;
}

-- A read from the chunk files of every host, with no fault of the network, of a task or of a disk.
abbrev pub read_cluster : (ℕ → ℕ) → ℕ → Cluster → (ℕ → ℕ) → ℕ → ℕ → Outcome × (ℕ → ℕ)
read_cluster locate hosts cluster buf offset size =
    forward_read no_losses (λ u. reading (cluster u))
      (λ u. bulk_buf (cluster u) (λ id. locate id == u) (request locate hosts offset size u)) locate
      hosts buf offset size
