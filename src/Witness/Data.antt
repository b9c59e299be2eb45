-- ===== src/Witness/Data.antt =====
-- The data path, the distributor and the descriptor table at concrete inputs.
use gekko_fwd.Base.{
  ℕ, ◌+◌, ◌-◌, ◌*◌, ◌/◌, ◌%◌, ◌≡◌, refl, [], Bool, true, ◌&&◌, ltb, leb, ◌==◌, if◌then◌else◌, none,
  some, arith,
}
use gekko_fwd.DataPath.Targets.{chunksize, request}
use gekko_fwd.DataPath.ChunkFile.{Chunks}
use gekko_fwd.DataPath.SrvWrite.{Progress, started, first_progress, plan, planned, rounds}
use gekko_fwd.DataPath.SrvRead.{plan_read, read_planned}
use gekko_fwd.DataPath.Plan.{parts_from, count_from}
use gekko_fwd.DataPath.PlanLoop.{exact_request, plan_complete, span}
use gekko_fwd.DataPath.Requests.{request_lem}
use gekko_fwd.DataPath.Effect.{byte_at, no_faults}
use gekko_fwd.DataPath.Truncate.{srv_truncate, srv_truncate_missing}
use gekko_fwd.DataPath.Forward.{transferred, forward_write, truncate_hosts, forward_truncate}
use gekko_fwd.DataPath.TruncateHosts.{forward_truncate_none}
use gekko_fwd.DataPath.WriteView.{no_losses, forward_write_view}
use gekko_fwd.DataPath.ReadPlan.{plan_read_complete}

-- Chunks are spread over two hosts in turn.
abbrev in_turn : ℕ → ℕ
in_turn id = id % 2

abbrev on_first : ℕ → Bool
on_first id = id % 2 == 0

-- A chunk of three bytes.
abbrev three_bytes : Chunks
three_bytes id = if id == 1 then some (record { size = 3; byte = λ i. 7 }) else none

abbrev nothing : Chunks
nothing id = none

plan_complete_example :
    (let args = exact_request 1000000 600000 0 2 (omega arith) (omega arith) on_first in
      (q : Progress) × (plan args
          (λ id. started)
          on_first
          (rounds args)
          (1000000 / chunksize)
          (first_progress args)
        ≡ planned q)
      × (q.tasks
          ≡ parts_from 1000000 600000 on_first
              (span 1000000 600000 0 2 (omega arith) (omega arith) on_first)
              (1000000 / chunksize)
              0)
      × (q.chnk_size_left_host ≡ 0)
      × (q.chnk_id_curr
          ≡ count_from 1000000 600000 on_first
              (span 1000000 600000 0 2 (omega arith) (omega arith) on_first)
              (1000000 / chunksize)))
plan_complete_example = plan_complete 1000000 600000 0 2 (omega arith) (omega arith) on_first

plan_read_complete_example :
    (let args = exact_request 1000000 600000 0 2 (omega arith) (omega arith) on_first in
      (q : Progress) × (plan_read args
          (λ id. true)
          on_first
          (rounds args)
          (1000000 / chunksize)
          (first_progress args)
        ≡ read_planned q)
      × (q.tasks
          ≡ parts_from 1000000 600000 on_first
              ((1000000 + 600000 - 1) / chunksize + 1 - 1000000 / chunksize)
              (1000000 / chunksize)
              0))
plan_read_complete_example =
    plan_read_complete 1000000 600000 0 2 (omega arith) (omega arith) on_first

request_lem_example :
    request in_turn 2 1000000 600000 0
    ≡ exact_request 1000000 600000 0 2 (omega arith) (omega arith) (λ id. in_turn id == 0)
request_lem_example = request_lem in_turn 1000000 600000 (omega arith) (omega arith) 2 0

forward_write_view_example :
    (let r =
        forward_write no_losses
          (λ h. no_faults)
          in_turn
          2
          (λ h. nothing)
          (λ i. i)
          true
          1000000
          600000
          0 in
      (r.0 ≡ transferred 600000)
      × (byte_at (r.1 (in_turn 2)) 2 5 ≡ (
          if leb 1000000 (2 * chunksize + 5) && ltb (2 * chunksize + 5) (1000000 + 600000)
          then 2 * chunksize + 5 - 1000000
          else byte_at nothing 2 5)))
forward_write_view_example =
    forward_write_view in_turn 2 1000000 600000 (omega arith) (omega arith) (λ h. nothing) (λ i. i)
      true 1000000 0 2 5 refl (omega arith)

-- Every chunk has a byte.
abbrev everywhere : Chunks
everywhere id = some (record { size = 1; byte = λ i. 7 })

srv_truncate_missing_example : srv_truncate true 1048577 three_bytes ≡ none
srv_truncate_missing_example =
    srv_truncate_missing 1048577 (omega arith) true three_bytes (omega arith) refl

forward_truncate_none_example :
    (truncate_hosts in_turn 10485760 9961472 ≡ some [])
    × (forward_truncate no_losses (λ u. 0) in_turn 10485760 9961472 ≡ some (transferred 0))
forward_truncate_none_example =
    forward_truncate_none no_losses (λ u. 0) in_turn 10485760 9961472 (omega arith) (omega arith)
      (omega arith)
