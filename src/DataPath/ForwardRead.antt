-- ===== src/DataPath/ForwardRead.antt =====
-- `forward_read` of src/client/rpc/forward_data.cpp. `disk` is what the read tasks of a host put into
-- the daemon's buffer; the replies come in the order of the targets.
use gekko_fwd.Base.{ℕ, List, [], ◌∷◌, ◌==◌, if◌then◌else◌, none}
use gekko_fwd.DataPath.Targets.{request}
use gekko_fwd.DataPath.SrvWrite.{DataOut}
use gekko_fwd.DataPath.SrvRead.{ReadEnv, srv_read}
use gekko_fwd.DataPath.Forward.{
  Network, Outcome, errno, ebusy, posted, all_posted, gather, replies, targets_of,
}

module _ (net : Network) (daemon : ℕ → ReadEnv) (disk : ℕ → ℕ → ℕ) (locate : ℕ → ℕ)
    (hosts : ℕ) where
  -- A host's handler on its request, with the client's buffer before it.
  unfoldable pub serve_read : ℕ → ℕ → ℕ → (ℕ → ℕ) → DataOut × (ℕ → ℕ)
  serve_read offset read_size u buf =
      srv_read (daemon u) (λ id. locate id == u) (request locate hosts offset read_size u) (disk u)
        buf

  -- The client's buffer after the hosts in a list have served their requests.
  unfoldable pub filled : ℕ → ℕ → List ℕ → (ℕ → ℕ) → ℕ → ℕ
  filled offset read_size [] buf = buf
  filled offset read_size (u ∷ us) buf =
      filled offset read_size us (serve_read offset read_size u buf).1

  unfoldable pub forward_read : (ℕ → ℕ) → ℕ → ℕ → Outcome × (ℕ → ℕ)
  forward_read buf offset read_size =
      let targets = targets_of locate offset read_size in
      let buf_after = filled offset read_size (posted net targets) buf in
      if net.expose
      then (if all_posted net targets
          then (
            gather (replies net (λ u. (serve_read offset read_size u buf).0) targets) none 0,
            buf_after,
          )
          else (errno ebusy, buf_after))
      else (errno ebusy, buf)
