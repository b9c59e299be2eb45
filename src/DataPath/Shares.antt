-- ===== src/DataPath/Shares.antt =====
-- The targets of a write or a read share its bytes out among them.
use gekko_fwd.Base.{
  ℕ, zero, suc, ◌+◌, ◌-◌, ◌*◌, ◌/◌, ◌≤◌, ◌<◌, ◌≡◌, refl, ◌∙◌, List, [], ◌∷◌, ◌++◌, Bool, true,
  false, ◌==◌, if◌then◌else◌, max, arith, Bool-cases, inl, inr,
}
use gekko_fwd.DataPath.Targets.{
  chunksize, ChunkMap, has_target, add_chunk, Spread, no_targets, spread_chunk, spread_from, spread,
}
use gekko_fwd.DataPath.Plan.{part_size, total_from, max_offset}

unfoldable pub elem : ℕ → List ℕ → Bool
elem u [] = false
elem u (t ∷ ts) = if t == u then true else elem u ts

times : ℕ → List ℕ → ℕ
times u [] = 0
times u (t ∷ ts) = (if t == u then 1 else 0) + times u ts

unfoldable pub sum_over : (ℕ → ℕ) → List ℕ → ℕ
sum_over f [] = 0
sum_over f (t ∷ ts) = f t + sum_over f ts

times-append :
    (u t : ℕ) (ts : List ℕ) → times u (ts ++ t ∷ []) ≡ times u ts + (if t == u then 1 else 0)
unfolding times
times-append u t [] = ground arith
times-append u t (s ∷ ts) = rw (times-append u t ts) (ground arith)

times-elem : (u : ℕ) (ts : List ℕ) → 0 < times u ts → elem u ts ≡ true
unfolding times elem
times-elem u [] h = ground arith
times-elem u (t ∷ ts) h = ground (arith, times-elem u ts)

has_target-append :
    (m : ChunkMap) (t u : ℕ) (ids : List ℕ)
    → has_target (m ++ (t, ids) ∷ []) u ≡ (if has_target m u then true else t == u)
unfolding has_target
has_target-append [] t u ids = ground arith
has_target-append ((s, js) ∷ m) t u ids = rw (has_target-append m t u ids) (ground arith)

has_target-add_chunk :
    (m : ChunkMap) (t id u : ℕ) → has_target (add_chunk m t id) u ≡ has_target m u
unfolding has_target add_chunk
has_target-add_chunk [] t id u = refl
has_target-add_chunk ((s, ids) ∷ m) t id u = elim (Bool-cases (s == t)) [
  | inl e ↦ rw e refl
  | inr e ↦ rw (e, has_target-add_chunk m t id u) refl
]

known :
    (m : ChunkMap) (t u : ℕ)
    → has_target m t ≡ true
    → has_target m u ≡ (if has_target m u then true else t == u)
known m t u e = elim (Bool-cases (t == u)) [
  | inl same ↦ let at : t ≡ u = ground arith in rw (← at, e) refl
  | inr other ↦ rw other (ground arith)
]

-- A key that is not there yet is counted once more.
counted :
    (m : ChunkMap) (t u : ℕ)
    → has_target m t ≡ false
    → (if has_target m u then 1 else 0) + (if t == u then 1 else 0)
      ≡ (if (if has_target m u then true else t == u) then 1 else 0)
counted m t u e = elim (Bool-cases (t == u)) [
  | inl same ↦ let at : t ≡ u = ground arith in rw (← at, e) (ground arith)
  | inr other ↦ rw other (ground arith)
]

-- Every key of the map is a target, once.
abbrev Keyed : Spread → Type 0
Keyed s = (u : ℕ) → times u s.targets ≡ (if has_target s.target_chnks u then 1 else 0)

module _ (locate : ℕ → ℕ) (first last : ℕ) where
  has_target-spread_chunk :
      (id u : ℕ) (s : Spread)
      → has_target (spread_chunk locate first last id s).target_chnks u
        ≡ (if has_target s.target_chnks u then true else locate id == u)
  unfolding spread_chunk
  has_target-spread_chunk id u s = elim (Bool-cases (has_target s.target_chnks (locate id))) [
    | inl e ↦
        rw (e, has_target-add_chunk s.target_chnks (locate id) id u)
          (known s.target_chnks (locate id) u e)
    | inr e ↦ rw (e, has_target-append s.target_chnks (locate id) u (id ∷ [])) refl
  ]

  Keyed-spread_chunk : (id : ℕ) (s : Spread) → Keyed s → Keyed (spread_chunk locate first last id s)
  unfolding spread_chunk
  Keyed-spread_chunk id s k u =
      rw (has_target-spread_chunk id u s)
        (elim (Bool-cases (has_target s.target_chnks (locate id))) [
          | inl e ↦ rw (e, ← known s.target_chnks (locate id) u e) (k u)
          | inr e ↦
              rw (e, times-append u (locate id) s.targets, k u)
                (counted s.target_chnks (locate id) u e)
        ])

  Keyed-spread_from :
      (rounds id : ℕ) (s : Spread) → Keyed s → Keyed (spread_from locate first last rounds id s)
  unfolding spread_from
  Keyed-spread_from zero id s k = k
  Keyed-spread_from (suc rounds) id s k =
      Keyed-spread_from rounds (suc id) (spread_chunk locate first last id s)
        (Keyed-spread_chunk id s k)

  has_target-kept :
      (rounds id u : ℕ) (s : Spread)
      → has_target s.target_chnks u ≡ true
      → has_target (spread_from locate first last rounds id s).target_chnks u ≡ true
  unfolding spread_from
  has_target-kept zero id u s h = h
  has_target-kept (suc rounds) id u s h =
      has_target-kept rounds (suc id) u (spread_chunk locate first last id s)
        (has_target-spread_chunk id u s ∙ rw h refl)

  has_target-located :
      (rounds id j : ℕ) (s : Spread)
      → id ≤ j
      → j < id + rounds
      → has_target (spread_from locate first last rounds id s).target_chnks (locate j) ≡ true
  unfolding spread_from
  has_target-located zero id j s low high = absurd (omega arith)
  has_target-located (suc rounds) id j s low high = elim (Bool-cases (id == j)) [
    | inl e ↦
        let at : id ≡ j = ground arith in
        has_target-kept rounds (suc id) (locate j) (spread_chunk locate first last id s)
          (has_target-spread_chunk id (locate j) s ∙ rw at (ground arith))
    | inr e ↦
        has_target-located rounds (suc id) j (spread_chunk locate first last id s) (ground arith)
          (omega arith)
  ]

-- The bytes of the range in `rounds` chunks, whoever has them.
span_size : ℕ → ℕ → ℕ → ℕ → ℕ
span_size offset size zero id = 0
span_size offset size (suc rounds) id =
    part_size offset size id + span_size offset size rounds (suc id)

span_size_lem :
    (offset size rounds id : ℕ)
    → 0 < size
    → offset / chunksize ≤ id
    → id + rounds ≡ (offset + size - 1) / chunksize + 1
    → span_size offset size rounds id ≡ offset + size - max offset (id * chunksize)
unfolding span_size
span_size_lem offset size zero id pos low e = omega arith
span_size_lem offset size (suc rounds) id pos low e =
    rw (span_size_lem offset size rounds (suc id) pos (omega arith) (omega arith)) (omega arith)

sum_over-share :
    (x w : ℕ) (f : ℕ → ℕ) (ts : List ℕ)
    → sum_over (λ u. (if x == u then w else 0) + f u) ts ≡ times x ts * w + sum_over f ts
unfolding sum_over times
sum_over-share x w f [] = omega arith
sum_over-share x w f (t ∷ ts) = rw (sum_over-share x w f ts) (ground arith)

sum_over-zero : (ts : List ℕ) → sum_over (λ u. 0) ts ≡ 0
unfolding sum_over
sum_over-zero [] = refl
sum_over-zero (t ∷ ts) = omega (arith, sum_over-zero ts)

sum_over-total :
    (locate : ℕ → ℕ) (offset size rounds id : ℕ) (ts : List ℕ)
    → ((j : ℕ) → id ≤ j → j < id + rounds → times (locate j) ts ≡ 1)
    → sum_over (λ u. total_from offset size (λ j. locate j == u) rounds id) ts
      ≡ span_size offset size rounds id
unfolding total_from span_size
sum_over-total locate offset size zero id ts h = sum_over-zero ts
sum_over-total locate offset size (suc rounds) id ts h =
    sum_over-share (locate id) (part_size offset size id)
      (λ u. total_from offset size (λ j. locate j == u) rounds (suc id)) ts
    ∙ rw
        (
          h id (omega arith) (omega arith),
          sum_over-total locate offset size rounds (suc id) ts
              (λ j low high. h j (omega arith) (omega arith)),
        )
        (omega arith)

no_keys : Keyed no_targets
unfolding times has_target
no_keys u = refl

module _ (locate : ℕ → ℕ) (offset size : ℕ) (pos : 0 < size)
    (fits : offset + size ≤ max_offset) where
  abbrev pub range_targets : List ℕ
  range_targets = (spread locate (offset / chunksize) ((offset + size - 1) / chunksize)).targets

  times-targets :
      (j : ℕ)
      → offset / chunksize ≤ j
      → j ≤ (offset + size - 1) / chunksize
      → times (locate j) range_targets ≡ 1
  unfolding spread
  times-targets j low high =
      let first = offset / chunksize in
      let last = (offset + size - 1) / chunksize in
      Keyed-spread_from locate first last (last + 1 - first) first no_targets no_keys (locate j)
      ∙ rw
          (has_target-located locate first last (last + 1 - first) first j no_targets low
            (omega arith))
          refl

  -- The host of every chunk of the range is a target.
  pub elem-targets :
      (j : ℕ)
      → offset / chunksize ≤ j
      → j ≤ (offset + size - 1) / chunksize
      → elem (locate j) range_targets ≡ true
  elem-targets j low high =
      times-elem (locate j) range_targets (rw (times-targets j low high) (omega arith))

  -- For a positive byte count that ends at or below 2 ^ 51: summed over the targets that the
  -- client's loop collects, the bytes of the range in the chunks of each add up to the byte
  -- count.
  pub sum_over-targets :
      sum_over
        (λ u.
          total_from offset size
            (λ j. locate j == u)
            ((offset + size - 1) / chunksize + 1 - offset / chunksize)
            (offset / chunksize))
        range_targets
      ≡ size
  sum_over-targets =
      sum_over-total locate offset size ((offset + size - 1) / chunksize + 1 - offset / chunksize)
        (offset / chunksize) range_targets (λ j low high. times-targets j low (omega arith))
      ∙ span_size_lem offset size ((offset + size - 1) / chunksize + 1 - offset / chunksize)
          (offset / chunksize) pos (omega arith) (omega arith)
      ∙ omega arith
