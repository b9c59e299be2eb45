-- ===== src/DataPath/SrvWrite.antt =====
-- `rpc_srv_write` of src/daemon/handler/srv_data.cpp: one daemon's part of a write. Margo, Argobots
-- and the disk enter through `Env`; buffers are functions from positions to bytes.
use gekko_fwd.Base.{
  ℕ, zero, suc, ◌+◌, ◌-◌, List, [], ◌∷◌, ◌++◌, map, Bool, ◌&&◌, ◌||◌, ltb, leb, ◌==◌, if◌then◌else◌,
}
use gekko_fwd.Base.Words.{add64, sub64, mul64}
use gekko_fwd.DataPath.Targets.{chunksize, DataIn}
use gekko_fwd.DataPath.ChunkFile.{Chunks, IoResult, moved, open_failed, io_failed, write_chunk}

-- One chunk of this host: what is transferred between the client's buffer, at `origin_offset`, and
-- the daemon's, at `local_offset`, and the I/O task's arguments; `buf` is where its pointer stands.
pub record Task : Type 0 where
  pub chnk_id : ℕ
  pub size : ℕ
  pub off : ℕ
  pub buf : ℕ
  pub origin_offset : ℕ
  pub local_offset : ℕ

-- The variables of the loop over the chunks.
pub record Progress : Type 0 where
  pub chnk_id_curr : ℕ
  pub chnk_size_left_host : ℕ
  pub chnk_ptr : ℕ
  pub transfer_size : ℕ
  pub tasks : List Task

-- How a chunk's bulk transfer and the creation of its task turn out.
pub data Start : Type 0 where
  started transfer_failed task_failed : Start

pub record Env : Type 0 where
  -- margo_get_input, margo_bulk_create and margo_bulk_access succeed
  pub setup : Bool
  pub start : ℕ → Start
  pub io : Task → IoResult
  -- ABT_eventual_wait succeeds
  pub wait : ℕ → Bool

-- How the loop ends. An abort keeps the number of tasks that are cancelled.
pub data Planned : Type 0 where
  planned : Progress → Planned
  aborted : ℕ → Progress → Planned
  out_of_bounds : Planned
  out_of_fuel : Planned

module _ (args : DataIn) where
  abbrev pub first_progress : Progress
  first_progress = record {
    chnk_id_curr = 0;
    chnk_size_left_host = args.total_chunk_size;
    chnk_ptr = 0;
    transfer_size = if leb args.bulk_size chunksize then args.bulk_size else chunksize;
    tasks = [];
  }

  -- The first chunk of an unaligned write.
  unfoldable pub offset_chunk : ℕ → Progress → Progress
  offset_chunk chnk_id_file p =
      let offset_transfer_size =
        if leb (add64 args.offset args.bulk_size) chunksize
        then args.bulk_size
        else sub64 chunksize args.offset in
      record p {
        chnk_id_curr = suc p.chnk_id_curr;
        chnk_size_left_host = sub64 p.chnk_size_left_host offset_transfer_size;
        chnk_ptr = p.chnk_ptr + offset_transfer_size;
        tasks =
            p.tasks
            ++ record {
              chnk_id = chnk_id_file;
              size = offset_transfer_size;
              off = args.offset;
              buf = p.chnk_ptr;
              origin_offset = 0;
              local_offset = 0;
            }
              ∷ [];
      }

  -- Where a chunk's bytes begin in the client's buffer.
  unfoldable pub origin_of : ℕ → ℕ
  origin_of chnk_id_file =
      if ltb 0 args.offset
      then add64 (sub64 chunksize args.offset)
          (mul64 (sub64 (sub64 chnk_id_file args.chunk_start) 1) chunksize)
      else mul64 (sub64 chnk_id_file args.chunk_start) chunksize

  -- Any other chunk; this host's last one takes what is left.
  unfoldable pub whole_chunk : ℕ → Progress → Progress
  whole_chunk chnk_id_file p =
      let transfer_size =
        if p.chnk_id_curr == sub64 args.chunk_n 1 then p.chnk_size_left_host else p.transfer_size in
      record {
        chnk_id_curr = suc p.chnk_id_curr;
        chnk_size_left_host = sub64 p.chnk_size_left_host transfer_size;
        chnk_ptr = p.chnk_ptr + transfer_size;
        transfer_size = transfer_size;
        tasks =
            p.tasks
            ++ record {
              chnk_id = chnk_id_file;
              size = transfer_size;
              off = if chnk_id_file == args.chunk_start then args.offset else 0;
              buf = p.chnk_ptr;
              origin_offset = origin_of chnk_id_file;
              local_offset = sub64 args.total_chunk_size p.chnk_size_left_host;
            }
              ∷ [];
      }

  unfoldable pub plan_chunk : ℕ → Progress → Progress
  plan_chunk chnk_id_file p =
      if chnk_id_file == args.chunk_start && ltb 0 args.offset
      then offset_chunk chnk_id_file p
      else whole_chunk chnk_id_file p

  module _ (start : ℕ → Start) (mine : ℕ → Bool) where
    -- The loop over the file's chunks; `mine` is the test of the distributor. A chunk past the
    -- announced number would be written behind the arrays' end.
    unfoldable pub plan : ℕ → ℕ → Progress → Planned
    plan zero chnk_id_file p = out_of_fuel
    plan (suc fuel) chnk_id_file p =
        let skip = plan fuel (suc chnk_id_file) p in
        let next = plan fuel (suc chnk_id_file) (plan_chunk chnk_id_file p) in
        let serve =
          if leb args.chunk_n p.chnk_id_curr then out_of_bounds else elim (start chnk_id_file) [
            | started ↦ next
            | transfer_failed ↦ aborted p.chnk_id_curr p
            | task_failed ↦ aborted (suc p.chnk_id_curr) (plan_chunk chnk_id_file p)
          ] in
        if ltb chnk_id_file args.chunk_end || ltb p.chnk_id_curr args.chunk_n
        then (if mine chnk_id_file then serve else skip)
        else planned p

-- rpc_data_out_t
pub record DataOut : Type 0 where
  pub err : ℕ
  pub io_size : ℕ

-- EIO
abbrev pub eio : ℕ
eio = 5

-- The loop that waits for the tasks and adds up what they wrote.
unfoldable pub collect : (ℕ → Bool) → ℕ → List IoResult → ℕ → DataOut
collect wait i [] io_size = record { err = 0; io_size = io_size }
collect wait i (moved n ∷ rs) io_size =
    let more = collect wait (suc i) rs (add64 io_size n) in
    if wait i then more else record { err = eio; io_size = io_size }
collect wait i (open_failed e ∷ rs) io_size = record {
  err = if wait i then e else eio;
  io_size = io_size;
}
collect wait i (io_failed e ∷ rs) io_size = record {
  err = if wait i then e else eio;
  io_size = io_size;
}

-- margo_bulk_transfer(HG_BULK_PULL): `size` bytes from the client's buffer into the daemon's.
unfoldable pub transfer : (ℕ → ℕ) → ℕ → (ℕ → ℕ) → ℕ → ℕ → ℕ → ℕ
transfer from origin into here size i =
    if leb here i && ltb i (here + size) then from (origin + (i - here)) else into i

-- The transfer and the task of each chunk, in the order of the loop.
unfoldable pub run_tasks : (Task → IoResult) → (ℕ → ℕ) → (ℕ → ℕ) → Chunks → List Task → Chunks
run_tasks io client bulk chunks [] = chunks
run_tasks io client bulk chunks (t ∷ ts) =
    let filled = transfer client t.origin_offset bulk t.local_offset t.size in
    run_tasks io client filled (write_chunk (io t) chunks t.chnk_id (λ i. filled (t.buf + i)) t.off)
      ts

abbrev pub error_reply : DataOut
error_reply = record { err = eio; io_size = 0 }

-- Tasks that were started before an abort may have run: here they all have.
unfoldable pub finish : Env → (ℕ → ℕ) → Chunks → Planned → DataOut × Chunks
finish env client chunks (planned p) =
    (collect env.wait 0 (map env.io p.tasks) 0, run_tasks env.io client (λ i. 0) chunks p.tasks)
finish env client chunks (aborted cancelled p) =
    (error_reply, run_tasks env.io client (λ i. 0) chunks p.tasks)
finish env client chunks out_of_bounds = (error_reply, chunks)
finish env client chunks out_of_fuel = (error_reply, chunks)

-- The loop makes at most one round for each chunk of the file's range and one to stop, when the
-- request counts this host's chunks.
abbrev pub rounds : DataIn → ℕ
rounds args = args.chunk_end + 2 - args.chunk_start

unfoldable pub srv_write : Env → (ℕ → Bool) → DataIn → (ℕ → ℕ) → Chunks → DataOut × Chunks
srv_write env mine args client chunks =
    if env.setup
    then finish env client chunks
        (plan args env.start mine (rounds args) args.chunk_start (first_progress args))
    else (error_reply, chunks)
