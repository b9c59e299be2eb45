-- ===== src/DataPath/WriteView.antt =====
-- A write through the whole data path: what the client is told, and what the file then reads as.
use gekko_fwd.Base.{
  ℕ, ◌+◌, ◌-◌, ◌*◌, ◌/◌, ◌≤◌, ◌<◌, ◌≡◌, refl, ap, ◌∙◌, List, [], ◌∷◌, Bool, true, false, ◌&&◌, ltb,
  leb, ◌==◌, if◌then◌else◌, none, arith,
}
use gekko_fwd.Base.Words.{word, add64, sub64, add64_lem, sub64_lem}
use gekko_fwd.ChunkCalc.Defs.{chnk_id_for_offset}
use gekko_fwd.ChunkCalc.Align.{chnk_id_for_offset-div}
use gekko_fwd.DataPath.Targets.{chunksize, spread}
use gekko_fwd.DataPath.SrvWrite.{DataOut}
use gekko_fwd.DataPath.Plan.{total_from, max_offset}
use gekko_fwd.DataPath.Requests.{request_lem}
use gekko_fwd.DataPath.Effect.{byte_at, no_faults, srv_write_effect}
use gekko_fwd.DataPath.Shares.{elem, sum_over, range_targets, elem-targets, sum_over-targets}
use gekko_fwd.DataPath.Forward.{
  Network, transferred, written, posted, all_posted, gather, replies, targets_of, Cluster, serve,
  forward_write,
}

-- Every message arrives.
abbrev pub no_losses : Network
no_losses = record { expose = true; post = λ t. true; delivers = λ t. true }

pub posted-all : (ts : List ℕ) → posted no_losses ts ≡ ts
unfolding posted
posted-all [] = refl
posted-all (t ∷ ts) = ap (◌∷◌ t) (posted-all ts)

pub all_posted-all : (ts : List ℕ) → all_posted no_losses ts ≡ true
unfolding all_posted
all_posted-all [] = refl
all_posted-all (t ∷ ts) = all_posted-all ts

pub gather-all :
    (out : ℕ → DataOut) (share : ℕ → ℕ) (ts : List ℕ) (out_size : ℕ)
    → ((u : ℕ) → out u ≡ record { err = 0; io_size = share u })
    → out_size + sum_over share ts < word
    → gather (replies no_losses out ts) none out_size ≡ transferred (out_size + sum_over share ts)
unfolding gather replies sum_over
gather-all out share [] out_size h small = ap transferred (omega arith)
gather-all out share (t ∷ ts) out_size h small =
    rw (h t, add64_lem out_size (share t) (omega arith))
      (gather-all out share ts (out_size + share t) h (omega arith) ∙ ap transferred (omega arith))

module _ (locate : ℕ → ℕ) (hosts offset size : ℕ) (pos : 0 < size)
    (fits : offset + size ≤ max_offset) where
  pub targets_lem : targets_of locate offset size ≡ range_targets locate offset size pos fits
  unfolding targets_of
  targets_lem =
      let first : chnk_id_for_offset offset chunksize ≡ offset / chunksize =
        chnk_id_for_offset-div offset 19 (omega arith) (omega arith) in
      let last : chnk_id_for_offset (sub64 (add64 offset size) 1) chunksize
          ≡ (offset + size - 1) / chunksize =
        rw
          (
            add64_lem offset size (omega arith),
            sub64_lem (offset + size) 1 (omega arith) (omega arith),
          )
          (chnk_id_for_offset-div (offset + size - 1) 19 (omega arith) (omega arith)) in
      ap
        (λ (a : ℕ).
          (spread locate a (chnk_id_for_offset (sub64 (add64 offset size) 1) chunksize)).targets)
        first
      ∙ ap (λ (b : ℕ). (spread locate (offset / chunksize) b).targets) last

  abbrev pub share : ℕ → ℕ
  share u =
      total_from offset size (λ j. locate j == u)
        ((offset + size - 1) / chunksize + 1 - offset / chunksize) (offset / chunksize)

  pub serve_lem :
      (cluster : Cluster) (buf : ℕ → ℕ) (u k i : ℕ)
      → i < chunksize
      → ((serve no_losses (λ h. no_faults) locate hosts cluster buf offset size u).0
          ≡ record { err = 0; io_size = share u })
        × (byte_at (serve no_losses (λ h. no_faults) locate hosts cluster buf offset size u).1 k i
            ≡ (if (locate k == u)
                  && (leb offset (k * chunksize + i) && ltb (k * chunksize + i) (offset + size))
                then buf (k * chunksize + i - offset)
                else byte_at (cluster u) k i))
  unfolding serve
  serve_lem cluster buf u k i h =
      rw (request_lem locate offset size pos fits hosts u)
        (srv_write_effect offset size u hosts pos fits (λ id. locate id == u) buf (cluster u) k i h)

  -- What the bytes are after the hosts in a list that has every target have served.
  reads :
      (cluster : Cluster) (buf : ℕ → ℕ) (k i : ℕ) (there : Bool)
      → elem (locate k) (range_targets locate offset size pos fits) ≡ there
      → i < chunksize
      → byte_at
          (if there
            then (serve no_losses
                (λ h. no_faults)
                locate
                hosts
                cluster
                buf
                offset
                size
                (locate k)).1
            else cluster (locate k))
          k
          i
        ≡ (if leb offset (k * chunksize + i) && ltb (k * chunksize + i) (offset + size)
            then buf (k * chunksize + i - offset)
            else byte_at (cluster (locate k)) k i)
  reads cluster buf k i true e h = (serve_lem cluster buf (locate k) k i h).1 ∙ ground arith
  reads cluster buf k i false e h = ground (arith, elem-targets locate offset size pos fits k, e)

  -- A write of a positive byte count, at the offset that the call takes by its append flag, that
  -- ends at or below 2 ^ 51, where every message arrives and no daemon meets a fault, returns
  -- the byte count; afterwards byte i of chunk k, on the host that the distributor names for it,
  -- is the buffer's byte for that place if the range covers it, and what it was before
  -- otherwise.
  pub forward_write_view :
      (cluster : Cluster) (buf : ℕ → ℕ) (append_flag : Bool) (in_offset updated k i : ℕ)
      → (if append_flag then in_offset else sub64 updated size) ≡ offset
      → i < chunksize
      → (let r =
            forward_write no_losses
              (λ h. no_faults)
              locate
              hosts
              cluster
              buf
              append_flag
              in_offset
              size
              updated in
          (r.0 ≡ transferred size)
          × (byte_at (r.1 (locate k)) k i ≡ (
              if leb offset (k * chunksize + i) && ltb (k * chunksize + i) (offset + size)
              then buf (k * chunksize + i - offset)
              else byte_at (cluster (locate k)) k i)))
  unfolding forward_write written
  forward_write_view cluster buf append_flag in_offset updated k i e h =
      rw
        (
          e,
          targets_lem,
          all_posted-all (range_targets locate offset size pos fits),
          posted-all (range_targets locate offset size pos fits),
        )
        (
          gather-all
                (λ u. (serve no_losses (λ h. no_faults) locate hosts cluster buf offset size u).0)
                share (range_targets locate offset size pos fits) 0
                (λ u. (serve_lem cluster buf u k i h).0)
                (rw (sum_over-targets locate offset size pos fits) (omega arith))
              ∙ ap transferred (rw (sum_over-targets locate offset size pos fits) (omega arith)),
          reads cluster buf k i (elem (locate k) (range_targets locate offset size pos fits)) refl
              h,
        )
