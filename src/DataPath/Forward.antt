-- ===== src/DataPath/Forward.antt =====
-- `forward_write`, `forward_read` and `forward_truncate` of src/client/rpc/forward_data.cpp: the
-- client sends its requests, waits for every reply and adds up what the daemons did. Hermes enters
-- through `Network`, and the daemons answer by their own handlers.
use gekko_fwd.Base.{
  ℕ, zero, suc, ◌-◌, List, [], ◌∷◌, Bool, true, false, ◌==◌, if◌then◌else◌, Option, none, some,
}
use gekko_fwd.Base.Words.{add64, sub64}
use gekko_fwd.ChunkCalc.Defs.{chnk_id_for_offset}
use gekko_fwd.DataPath.Targets.{chunksize, spread, request}
use gekko_fwd.DataPath.ChunkFile.{Chunks, narrow}
use gekko_fwd.DataPath.SrvWrite.{DataOut, Env, eio, srv_write}
use gekko_fwd.DataPath.Shares.{elem}

pub record Network : Type 0 where
  -- expose of the buffer succeeds
  pub expose : Bool
  -- post to a target succeeds
  pub post : ℕ → Bool
  -- the reply of a target arrives
  pub delivers : ℕ → Bool

-- What the caller gets: a count, or -1 with `errno`.
pub data Outcome : Type 0 where
  transferred : ℕ → Outcome
  errno : ℕ → Outcome

-- EBUSY
abbrev pub ebusy : ℕ
ebusy = 16

-- The targets whose requests are sent: up to the first that fails.
unfoldable pub posted : Network → List ℕ → List ℕ
posted net [] = []
posted net (t ∷ ts) = let rest = posted net ts in if net.post t then t ∷ rest else []

unfoldable pub all_posted : Network → List ℕ → Bool
all_posted net [] = true
all_posted net (t ∷ ts) = let rest = all_posted net ts in if net.post t then rest else false

-- The loop over the handles. Every reply is waited for; the last error is kept.
unfoldable pub gather : List (Option DataOut) → Option ℕ → ℕ → Outcome
gather [] none out_size = transferred out_size
gather [] (some e) out_size = errno e
gather (none ∷ outs) failed out_size = gather outs (some eio) out_size
gather (some out ∷ outs) failed out_size =
    gather outs (if out.err == 0 then failed else some out.err) (add64 out_size out.io_size)

unfoldable pub replies : Network → (ℕ → DataOut) → List ℕ → List (Option DataOut)
replies net out [] = []
replies net out (t ∷ ts) = (if net.delivers t then some (out t) else none) ∷ replies net out ts

-- The targets of a byte range, in the order of their first chunks.
unfoldable pub targets_of : (ℕ → ℕ) → ℕ → ℕ → List ℕ
targets_of locate offset size =
    (spread locate (chnk_id_for_offset offset chunksize)
      (chnk_id_for_offset (sub64 (add64 offset size) 1) chunksize)).targets

-- The chunk files of one path on every host.
abbrev pub Cluster : Type 0
Cluster = ℕ → Chunks

module _ (net : Network) (daemon : ℕ → Env) (locate : ℕ → ℕ) (hosts : ℕ) where
  -- What a host's handler makes of its request.
  unfoldable pub serve : Cluster → (ℕ → ℕ) → ℕ → ℕ → ℕ → DataOut × Chunks
  serve cluster buf offset write_size u =
      srv_write (daemon u) (λ id. locate id == u) (request locate hosts offset write_size u) buf
        (cluster u)

  -- The hosts in the list have served their requests.
  unfoldable pub written : Cluster → (ℕ → ℕ) → ℕ → ℕ → List ℕ → Cluster
  written cluster buf offset write_size sent u =
      if elem u sent then (serve cluster buf offset write_size u).1 else cluster u

  unfoldable pub forward_write : Cluster → (ℕ → ℕ) → Bool → ℕ → ℕ → ℕ → Outcome × Cluster
  forward_write cluster buf append_flag in_offset write_size updated_metadentry_size =
      let offset = if append_flag then in_offset else sub64 updated_metadentry_size write_size in
      let targets = targets_of locate offset write_size in
      if net.expose
      then (if all_posted net targets
          then (
            gather (replies net (λ u. (serve cluster buf offset write_size u).0) targets) none 0,
            written cluster buf offset write_size (posted net targets),
          )
          else (errno ebusy, written cluster buf offset write_size (posted net targets)))
      else (errno ebusy, cluster)

-- The hosts that `forward_truncate` contacts, those of the chunks from `chunk_id` on.
unfoldable pub hosts_from : (ℕ → ℕ) → ℕ → ℕ → List ℕ
hosts_from locate zero chunk_id = []
hosts_from locate (suc rounds) chunk_id =
    let rest = hosts_from locate rounds (suc chunk_id) in
    if elem (locate chunk_id) rest then rest else locate chunk_id ∷ rest

-- Chunk ids are `unsigned int`: up to the last of them the loop has no end, which is `none`.
unfoldable pub truncate_hosts : (ℕ → ℕ) → ℕ → ℕ → Option (List ℕ)
truncate_hosts locate current_size new_size =
    let chunk_start = narrow (chnk_id_for_offset new_size chunksize) in
    let chunk_end = narrow (chnk_id_for_offset (sub64 (sub64 current_size new_size) 1) chunksize) in
    if chunk_end == 4294967295
    then none
    else some (hosts_from locate (suc chunk_end - chunk_start) chunk_start)

-- Any failure to send or to get a reply, and any error reply, is EIO.
unfoldable pub gather_truncate : List (Option ℕ) → Bool → Outcome
gather_truncate [] failed = if failed then errno eio else transferred 0
gather_truncate (none ∷ outs) failed = gather_truncate outs true
gather_truncate (some err ∷ outs) failed = gather_truncate outs (if err == 0 then failed else true)

truncate_replies : Network → (ℕ → ℕ) → List ℕ → List (Option ℕ)
truncate_replies net err [] = []
truncate_replies net err (t ∷ ts) =
    (if net.delivers t then some (err t) else none) ∷ truncate_replies net err ts

-- `none` where the call does not return.
unfoldable pub forward_truncate : Network → (ℕ → ℕ) → (ℕ → ℕ) → ℕ → ℕ → Option Outcome
unfolding truncate_replies
forward_truncate net err locate current_size new_size =
    elim (truncate_hosts locate current_size new_size) [
      | none ↦ none
      | some contacted ↦ some (
          if all_posted net contacted
          then gather_truncate (truncate_replies net err contacted) false
          else errno eio)
    ]
