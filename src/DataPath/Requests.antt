-- ===== src/DataPath/Requests.antt =====
-- The client's requests (src/client/rpc/forward_data.cpp) announce exactly the chunks and bytes
-- that the daemon's loop will find.
use gekko_fwd.Base.{
  ℕ, zero, suc, ◌+◌, ◌-◌, ◌*◌, ◌/◌, ◌%◌, ◌≤◌, ◌<◌, ◌≡◌, refl, [], ◌∷◌, ◌++◌, Bool, true, false,
  ◌==◌, if◌then◌else◌, arith, length, Bool-cases, inl, inr, append-nil, ◌∙◌, sym, length-append,
}
use gekko_fwd.Base.Words.{word, add64, sub64, mul64, add64_lem, sub64_lem, mul64_lem}
use gekko_fwd.ChunkCalc.Defs.{chnk_lpad, chnk_rpad, chnk_id_for_offset}
use gekko_fwd.ChunkCalc.Align.{chnk_id_for_offset-div}
use gekko_fwd.DataPath.Targets.{
  chunksize, ChunkMap, has_target, chunks_of, add_chunk, Spread, no_targets, spread_chunk,
  spread_from, spread, total_chunk_size, request,
}
use gekko_fwd.DataPath.Plan.{count_from, total_from, count-le, max_offset}
use gekko_fwd.DataPath.PlanLoop.{exact_request, span}

chunks_of-append :
    (m : ChunkMap) (t id u : ℕ)
    → has_target m t ≡ false
    → chunks_of (m ++ (t, id ∷ []) ∷ []) u ≡ chunks_of m u ++ (if t == u then id ∷ [] else [])
unfolding has_target chunks_of
chunks_of-append [] t id u h = ground arith
chunks_of-append ((s, ids) ∷ m) t id u h = elim (Bool-cases (s == u)) [
  | inl e ↦ let other : (t == u) ≡ false = ground arith in rw (e, other) (sym (append-nil ids))
  | inr e ↦ rw e (chunks_of-append m t id u (ground arith))
]

chunks_of-add_chunk :
    (m : ChunkMap) (t id u : ℕ)
    → has_target m t ≡ true
    → chunks_of (add_chunk m t id) u ≡ chunks_of m u ++ (if t == u then id ∷ [] else [])
unfolding has_target chunks_of add_chunk
chunks_of-add_chunk [] t id u h = ground arith
chunks_of-add_chunk ((s, ids) ∷ m) t id u h = elim (Bool-cases (s == t)) [
  | inl e ↦
      let same : s ≡ t = ground arith in rw (e, same) (ground (arith, append-nil (chunks_of m u)))
  | inr e ↦ rw e (elim (Bool-cases (s == u)) [
    | inl f ↦ let other : (t == u) ≡ false = ground arith in rw (f, other) (sym (append-nil ids))
    | inr f ↦ rw f (chunks_of-add_chunk m t id u (ground arith))
  ])
]

-- With `left` more chunks behind chunk `id`, up to the last one: the parts are whole chunks but for
-- the padding at either end.
total-pads :
    (offset size : ℕ) (mine : ℕ → Bool) (left id last : ℕ)
    → 0 < size
    → offset / chunksize ≤ id
    → id + left ≡ last
    → last ≡ (offset + size - 1) / chunksize
    → total_from offset size mine (suc left) id
        + (if mine id then offset - id * chunksize else 0)
        + (if mine last then suc last * chunksize - (offset + size) else 0)
      ≡ count_from offset size mine (suc left) id * chunksize
unfolding total_from count_from
total-pads offset size mine zero id last pos low e f =
    let same : id ≡ last = omega arith in rw (← same) (ground arith)
total-pads offset size mine (suc left) id last pos low e f =
    ground (arith, total-pads offset size mine left (suc id) last pos (omega arith) (omega arith) f)

module _ (locate : ℕ → ℕ) (first last : ℕ) where
  chunks_of-spread_chunk :
      (id : ℕ) (s : Spread) (u : ℕ)
      → chunks_of (spread_chunk locate first last id s).target_chnks u
        ≡ chunks_of s.target_chnks u ++ (if locate id == u then id ∷ [] else [])
  unfolding spread_chunk
  chunks_of-spread_chunk id s u = elim (Bool-cases (has_target s.target_chnks (locate id))) [
    | inl e ↦ rw e (chunks_of-add_chunk s.target_chnks (locate id) id u e)
    | inr e ↦ rw e (chunks_of-append s.target_chnks (locate id) id u e)
  ]

  length-spread_from :
      (offset size rounds id : ℕ) (s : Spread) (u : ℕ)
      → length (chunks_of (spread_from locate first last rounds id s).target_chnks u)
        ≡ length (chunks_of s.target_chnks u)
          + count_from offset size (λ id. locate id == u) rounds id
  unfolding spread_from count_from
  length-spread_from offset size zero id s u = omega arith
  length-spread_from offset size (suc rounds) id s u =
      rw
        (
          length-spread_from offset size rounds (suc id) (spread_chunk locate first last id s) u,
          chunks_of-spread_chunk id s u,
          length-append (chunks_of s.target_chnks u) (if locate id == u then id ∷ [] else []),
        )
        (ground arith)

  start_target-spread_from :
      (rounds id : ℕ) (s : Spread)
      → first < id
      → (spread_from locate first last rounds id s).chnk_start_target ≡ s.chnk_start_target
  unfolding spread_from spread_chunk
  start_target-spread_from zero id s h = refl
  start_target-spread_from (suc rounds) id s h =
      start_target-spread_from rounds (suc id) (spread_chunk locate first last id s) (omega arith)
      ∙ ground arith

  end_target-spread_from :
      (rounds id : ℕ) (s : Spread)
      → id + rounds ≡ last
      → (spread_from locate first last (suc rounds) id s).chnk_end_target ≡ locate last
  unfolding spread_from spread_chunk
  end_target-spread_from zero id s h = ground arith
  end_target-spread_from (suc rounds) id s h =
      end_target-spread_from rounds (suc id) (spread_chunk locate first last id s) (omega arith)

module _ (locate : ℕ → ℕ) (offset size : ℕ) (pos : 0 < size)
    (fits : offset + size ≤ max_offset) where
  abbrev first_chunk : ℕ
  first_chunk = offset / chunksize

  abbrev last_chunk : ℕ
  last_chunk = (offset + size - 1) / chunksize

  abbrev here : ℕ → ℕ → Bool
  here u id = locate id == u

  start_target_lem : (spread locate first_chunk last_chunk).chnk_start_target ≡ locate first_chunk
  unfolding spread
  start_target_lem =
      let some_rounds : last_chunk + 1 - first_chunk ≡ suc (last_chunk - first_chunk) =
        omega arith in
      rw some_rounds (first_round (last_chunk - first_chunk))
    where
      first_round :
          (left : ℕ)
          → (spread_from locate first_chunk last_chunk
              (suc left)
              first_chunk
              no_targets).chnk_start_target
            ≡ locate first_chunk
      first_round left =
          start_target-spread_from locate first_chunk last_chunk left (suc first_chunk) _
            (omega arith)
          ∙ ground arith

  end_target_lem : (spread locate first_chunk last_chunk).chnk_end_target ≡ locate last_chunk
  unfolding spread
  end_target_lem =
      let some_rounds : last_chunk + 1 - first_chunk ≡ suc (last_chunk - first_chunk) =
        omega arith in
      rw some_rounds (
        end_target-spread_from locate first_chunk last_chunk (last_chunk - first_chunk) first_chunk
          no_targets (omega arith))

  length-chunks_of :
      (u : ℕ)
      → length (chunks_of (spread locate first_chunk last_chunk).target_chnks u)
        ≡ count_from offset size (here u) (span offset size 0 0 pos fits (here u)) first_chunk
  unfolding spread chunks_of
  length-chunks_of u =
      length-spread_from locate first_chunk last_chunk offset size (last_chunk + 1 - first_chunk)
        first_chunk no_targets u
      ∙ ground arith

  rpad_lem : chnk_rpad (add64 offset size) chunksize ≡ suc last_chunk * chunksize - (offset + size)
  unfolding chnk_rpad add64 sub64
  rpad_lem = omega arith

  -- `suc (last - first)` chunks, as in `total-pads`.
  span_lem : (u : ℕ) → span offset size 0 0 pos fits (here u) ≡ suc (last_chunk - first_chunk)
  span_lem u = omega arith

  subtract_pads :
      (a b whole total lpad rpad : ℕ) (first? last? : Bool)
      → total + (if first? then lpad else 0) + (if last? then rpad else 0) ≡ whole
      → whole < word
      → (let tail = if first? then sub64 whole lpad else whole in
          if last? then sub64 tail rpad else tail)
        ≡ total
  unfolding sub64
  subtract_pads a b whole total lpad rpad first? last? e h = ground arith

  total_chunk_size_lem :
      (u : ℕ)
      → total_chunk_size (spread locate first_chunk last_chunk) offset size u
        ≡ total_from offset size (here u) (span offset size 0 0 pos fits (here u)) first_chunk
  unfolding total_chunk_size chnk_lpad
  total_chunk_size_lem u =
      rw
        (
          length-chunks_of u,
          start_target_lem,
          end_target_lem,
          rpad_lem,
          span_lem u,
          flip u (locate first_chunk),
          flip u (locate last_chunk),
          whole,
        )
        (subtract_pads 0 0 _ _ _ _ (here u first_chunk) (here u last_chunk) pads small)
    where
      flip : (a b : ℕ) → (a == b) ≡ (b == a)
      flip a b = ground arith

      pads :
          total_from offset size (here u) (suc (last_chunk - first_chunk)) first_chunk
            + (if here u first_chunk then offset % chunksize else 0)
            + (if here u last_chunk then suc last_chunk * chunksize - (offset + size) else 0)
          ≡ count_from offset size (here u) (suc (last_chunk - first_chunk)) first_chunk * chunksize
      pads = ground (
        arith,
        total-pads offset size (here u) (last_chunk - first_chunk) first_chunk last_chunk pos
            (omega arith) (omega arith) refl,
      )

      small :
          count_from offset size (here u) (suc (last_chunk - first_chunk)) first_chunk * chunksize
          < word
      small =
          omega (arith, count-le offset size (here u) (suc (last_chunk - first_chunk)) first_chunk)

      whole :
          mul64
            (count_from offset size (here u) (suc (last_chunk - first_chunk)) first_chunk)
            chunksize
          ≡ count_from offset size (here u) (suc (last_chunk - first_chunk)) first_chunk * chunksize
      whole = mul64_lem _ _ small

  -- For a positive byte count that ends at or below 2 ^ 51, the request that the client computes
  -- for a host, by its maps, bit masks and paddings, is the one that announces exactly the
  -- number of chunks of the range that the distributor puts on the host, and exactly the bytes
  -- of the range in them.
  pub request_lem :
      (hosts u : ℕ)
      → request locate hosts offset size u ≡ exact_request offset size u hosts pos fits (here u)
  unfolding request chnk_lpad
  request_lem hosts u =
      let s : chnk_id_for_offset offset chunksize ≡ first_chunk =
        chnk_id_for_offset-div offset 19 (omega arith) (omega arith) in
      let e : chnk_id_for_offset (sub64 (add64 offset size) 1) chunksize ≡ last_chunk =
        rw
          (
            add64_lem offset size (omega arith),
            sub64_lem (offset + size) 1 (omega arith) (omega arith),
          )
          (chnk_id_for_offset-div (offset + size - 1) 19 (omega arith) (omega arith)) in
      rw (s, e, length-chunks_of u, total_chunk_size_lem u)
