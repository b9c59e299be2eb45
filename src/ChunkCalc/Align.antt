-- ===== src/ChunkCalc/Align.antt =====
-- What the bit arithmetic of include/global/chunk_calc_util.hpp computes when the chunk size is a
-- power of two: division, remainders and counts.
use native.Mathlib.Nat.{
  div-lt_iff_lt-mul, one-le-pow, suc-mul, mul-div_cancel, div-mul-le_self, div-le_self, mod-lt,
  div-add-mod', add-mod-mod, mul-mod_left, add-div_right,
}
use native.Mathlib.Numerals.{add-one}
use gekko_fwd.Base.{
  ℕ, zero, suc, ◌+◌, ◌-◌, ◌*◌, ◌/◌, ◌%◌, ◌^◌, ◌≤◌, ◌<◌, ◌≡◌, refl, sym, arith, true, ◌⊎◌, inl, inr,
  lt→ltb, ◌==◌, ==_iff,
}
use gekko_fwd.Base.Words.{word, sign_bit, add64, sub64, add64_lem, sub64_lem}
use gekko_fwd.Base.Bits.{every_below, every_below-at, bit_and_high_ones, two_pow_add}
use gekko_fwd.ChunkCalc.Defs.{
  log2, sar64, chnk_lalign, chnk_ralign, chnk_lpad, chnk_rpad, chnk_id_for_offset,
  chnk_count_for_offset,
}

log2_table_check : every_below (λ k. log2 (2 ^ k) == k) 64 ≡ true
unfolding every_below log2
log2_table_check = refl

-- The table gives the exponent of every power of two that fits 64 bits.
pub log2-pow : (k : ℕ) → k < 64 → log2 (2 ^ k) ≡ k
log2-pow k h = (==_iff _ k).0 (every_below-at _ 64 k h log2_table_check)

-- 2 ^ 64 as a multiple of 2 ^ k.
word_split : (k : ℕ) → k ≤ 64 → word ≡ 2 ^ (64 - k) * 2 ^ k
word_split k h =
    let e : 64 - k + k ≡ 64 = omega arith in
    let whole : 2 ^ (64 - k + k) ≡ word = rw e in rw (← whole) (two_pow_add (64 - k) k)

mask_arith : (p q : ℕ) → 0 < p → 0 < q → q * p ≡ word → word - 1 - (p - 1) ≡ (q - 1) * p
mask_arith p zero hp hq e = elim hq [ ]
mask_arith p (suc q) hp hq e =
    let less : suc q - 1 ≡ q = omega arith in
    let one_more : suc q * p ≡ q * p + p = suc-mul q p in rw less (omega arith)

pow_le_word : (k : ℕ) → k < 64 → 2 ^ k < word
pow_le_word k h = grind (
  arith,
  word_split k,
  one-le-pow (64 - k - 1) 2 (omega arith),
  one-le-pow k 2 (omega arith),
  two_pow_add 1 (64 - k - 1),
)

mask : (k : ℕ) → k < 64 → word - 1 - sub64 (2 ^ k) 1 ≡ (2 ^ (64 - k) - 1) * 2 ^ k
mask k h = rw (sub64_lem (2 ^ k) 1 (one-le-pow k 2 (omega arith)) (pow_le_word k h)) (
    mask_arith (2 ^ k) (2 ^ (64 - k)) (one-le-pow k 2 (omega arith))
      (one-le-pow (64 - k) 2 (omega arith)) (sym (word_split k (omega arith))))

quotient_fits : (offset k : ℕ) → offset < word → k < 64 → offset / 2 ^ k < 2 ^ (64 - k)
quotient_fits offset k h hk =
    (div-lt_iff_lt-mul (one-le-pow k 2 (omega arith))).1 (rw (← word_split k (omega arith)) h)

-- For an offset below 2 ^ 64 and a power of two below 2 ^ 64 as chunk size, masking with the
-- complement of `chnk_size - 1` rounds the offset down to a multiple of the size.
pub chnk_lalign-div :
    (offset k : ℕ) → offset < word → k < 64 → chnk_lalign offset (2 ^ k) ≡ offset / 2 ^ k * 2 ^ k
unfolding chnk_lalign
chnk_lalign-div offset k h hk =
    rw (mask k hk) (bit_and_high_ones (64 - k) k offset (quotient_fits offset k h hk))

sar64_multiple : (q k : ℕ) → q * 2 ^ k < sign_bit → sar64 (q * 2 ^ k) k ≡ q
sar64_multiple q k h = rw (lt→ltb _ _ h) (mul-div_cancel q (one-le-pow k 2 (omega arith)))

aligned_fits : (offset k : ℕ) → offset < sign_bit → offset / 2 ^ k * 2 ^ k < sign_bit
aligned_fits offset k h = omega (arith, div-mul-le_self offset (2 ^ k))

sar64-chnk_lalign :
    (offset k : ℕ)
    → offset < sign_bit
    → k < 64
    → sar64 (chnk_lalign offset (2 ^ k)) (log2 (2 ^ k)) ≡ offset / 2 ^ k
sar64-chnk_lalign offset k h hk =
    rw (log2-pow k hk, chnk_lalign-div offset k (omega arith) hk)
      (sar64_multiple (offset / 2 ^ k) k (aligned_fits offset k h))

-- For every offset that an `off64_t` holds and every power of two below 2 ^ 64 as chunk size, the
-- mask, the table and the shift together compute the quotient of the offset by the chunk size.
pub chnk_id_for_offset-div :
    (offset k : ℕ) → offset < sign_bit → k < 64 → chnk_id_for_offset offset (2 ^ k) ≡ offset / 2 ^ k
unfolding chnk_id_for_offset
chnk_id_for_offset-div = sar64-chnk_lalign

div_mono : (a b p : ℕ) → 0 < p → a ≤ b → a / p ≤ b / p
div_mono a b p hp h = grind arith

count_arith : (a b : ℕ) → a ≤ b → b < sign_bit → add64 (sub64 b a) 1 + a ≡ b + 1
count_arith a b h k =
    rw (sub64_lem b a h (omega arith), add64_lem (b - a) 1 (omega arith)) (omega arith)

-- For a positive byte count that ends within the range of an `off64_t`, and a chunk size that is a
-- power of two, the count is that of the chunks from the first byte's to the last byte's.
pub chnk_count_for_offset_lem :
    (offset count k : ℕ)
    → 0 < count
    → offset + count < sign_bit
    → k < 64
    → chnk_count_for_offset offset count (2 ^ k) + offset / 2 ^ k ≡ (offset + count - 1) / 2 ^ k + 1
unfolding chnk_count_for_offset
chnk_count_for_offset_lem offset count k pos fits hk =
    let last : sub64 (add64 offset count) 1 ≡ offset + count - 1 =
      rw (add64_lem offset count (omega arith))
        (sub64_lem (offset + count) 1 (omega arith) (omega arith)) in
    let order : offset / 2 ^ k ≤ (offset + count - 1) / 2 ^ k =
      div_mono offset (offset + count - 1) (2 ^ k) (one-le-pow k 2 (omega arith)) (omega arith) in
    let bound : (offset + count - 1) / 2 ^ k < sign_bit =
      omega (arith, div-le_self (offset + count - 1) (2 ^ k)) in
    rw
      (
        last,
        sar64-chnk_lalign offset k (omega arith) hk,
        sar64-chnk_lalign (offset + count - 1) k (omega arith) hk,
      )
      (count_arith (offset / 2 ^ k) ((offset + count - 1) / 2 ^ k) order bound)

-- For an offset below 2 ^ 64 and a power of two below 2 ^ 64 as chunk size, the left padding is
-- what lies between the aligned offset and the offset, and is shorter than a chunk.
pub chnk_lalign-chnk_lpad :
    (offset k : ℕ)
    → offset < word
    → k < 64
    → (chnk_lalign offset (2 ^ k) + chnk_lpad offset (2 ^ k) ≡ offset)
      × (chnk_lpad offset (2 ^ k) < 2 ^ k)
unfolding chnk_lpad
chnk_lalign-chnk_lpad offset k h hk =
    rw (chnk_lalign-div offset k h hk)
      (div-add-mod' offset (2 ^ k), mod-lt offset (one-le-pow k 2 (omega arith)))

negated :
    (offset : ℕ) → offset < word → (offset + sub64 0 offset ≡ 0) ⊎ (offset + sub64 0 offset ≡ word)
unfolding sub64
negated zero h = inl refl
negated (suc n) h = inr (omega arith)

-- For an offset below 2 ^ 64 and a power of two below 2 ^ 64 as chunk size, the right padding
-- leads from the offset to a chunk boundary, and is shorter than a chunk.
pub chnk_rpad_boundary :
    (offset k : ℕ)
    → offset < word
    → k < 64
    → ((offset + chnk_rpad offset (2 ^ k)) % 2 ^ k ≡ 0) × (chnk_rpad offset (2 ^ k) < 2 ^ k)
unfolding chnk_rpad
chnk_rpad_boundary offset k h hk = (
  rw (add-mod-mod offset (sub64 0 offset) (2 ^ k)) boundary,
  mod-lt _ (one-le-pow k 2 (omega arith)),
)
  where
    boundary : (offset + sub64 0 offset) % 2 ^ k ≡ 0
    boundary = elim (negated offset h) [
      | inl e ↦ rw e (omega arith)
      | inr e ↦ rw (e, word_split k (omega arith)) (mul-mod_left (2 ^ (64 - k)) (2 ^ k))
    ]

-- For a power of two below 2 ^ 64 as chunk size, and an offset that it can be added to without
-- overflow, aligning to the right gives the end of the chunk that holds the offset: an offset on
-- a boundary goes up a whole chunk.
pub chnk_ralign-div :
    (offset k : ℕ)
    → offset + 2 ^ k < word
    → k < 64
    → chnk_ralign offset (2 ^ k) ≡ offset / 2 ^ k * 2 ^ k + 2 ^ k
unfolding chnk_ralign
chnk_ralign-div offset k h hk =
    let pos : 0 < 2 ^ k = one-le-pow k 2 (omega arith) in
    rw
      (
        add64_lem offset (2 ^ k) h,
        chnk_lalign-div (offset + 2 ^ k) k h hk,
        add-div_right offset pos,
      )
      (rw (add-one (offset / 2 ^ k)) (suc-mul (offset / 2 ^ k) (2 ^ k)))
