-- ===== src/ChunkCalc/Defs.antt =====
-- The functions of include/global/chunk_calc_util.hpp. An `off64_t` stands for its 64-bit two's
-- complement pattern, so a non-negative one is below `sign_bit`.
use gekko_fwd.Base.{
  ℕ, ◌-◌, ◌/◌, ◌%◌, ◌^◌, ◌≡◌, refl, List, [], ◌∷◌, bit_and, bit_or, ltb, if◌then◌else◌, get_or,
}
use gekko_fwd.Base.Words.{word, sign_bit, add64, sub64, mul64}

abbrev log2_table : List ℕ
log2_table =
    0 ∷ 58 ∷ 1 ∷ 59 ∷ 47 ∷ 53 ∷ 2 ∷ 60 ∷ 39 ∷ 48 ∷ 27 ∷ 54 ∷ 33 ∷ 42 ∷ 3 ∷ 61 ∷ 51 ∷ 37 ∷ 40 ∷ 49
    ∷ 18 ∷ 28 ∷ 20 ∷ 55 ∷ 30 ∷ 34 ∷ 11 ∷ 43 ∷ 14 ∷ 22 ∷ 4 ∷ 62 ∷ 57 ∷ 46 ∷ 52 ∷ 38 ∷ 26 ∷ 32 ∷ 41
    ∷ 50 ∷ 36 ∷ 17 ∷ 19 ∷ 29 ∷ 10 ∷ 13 ∷ 21 ∷ 56 ∷ 45 ∷ 25 ∷ 31 ∷ 35 ∷ 16 ∷ 9 ∷ 12 ∷ 44 ∷ 24 ∷ 15
    ∷ 8 ∷ 23 ∷ 7 ∷ 6 ∷ 5 ∷ 63 ∷ []

-- n |= n >> s
abbrev smear : ℕ → ℕ → ℕ
smear s n = bit_or n (n / 2 ^ s)

unfoldable pub log2 : ℕ → ℕ
unfolding mul64
log2 n =
    let filled = smear 32 (smear 16 (smear 8 (smear 4 (smear 2 (smear 1 n))))) in
    get_or log2_table (mul64 filled 0x03f6eaf2cd271461 / 2 ^ 58) 0

-- ~x
abbrev pub not64 : ℕ → ℕ
not64 x = word - 1 - x

-- x >> s on a signed word: copies of the sign bit come in from the left.
abbrev pub sar64 : ℕ → ℕ → ℕ
sar64 x s = if ltb x sign_bit then x / 2 ^ s else not64 (not64 x / 2 ^ s)

unfoldable pub chnk_lalign : ℕ → ℕ → ℕ
unfolding sub64
chnk_lalign offset chnk_size = bit_and offset (not64 (sub64 chnk_size 1))

unfoldable pub chnk_ralign : ℕ → ℕ → ℕ
unfolding add64
chnk_ralign offset chnk_size = chnk_lalign (add64 offset chnk_size) chnk_size

unfoldable pub chnk_lpad : ℕ → ℕ → ℕ
chnk_lpad offset chnk_size = offset % chnk_size

unfoldable pub chnk_rpad : ℕ → ℕ → ℕ
unfolding sub64
chnk_rpad offset chnk_size = sub64 0 offset % chnk_size

unfoldable pub chnk_id_for_offset : ℕ → ℕ → ℕ
chnk_id_for_offset offset chnk_size = sar64 (chnk_lalign offset chnk_size) (log2 chnk_size)

unfoldable pub chnk_count_for_offset : ℕ → ℕ → ℕ → ℕ
unfolding add64 sub64
chnk_count_for_offset offset count chnk_size =
    let chnk_start = chnk_lalign offset chnk_size in
    let chnk_end = chnk_lalign (sub64 (add64 offset count) 1) chnk_size in
    add64 (sub64 (sar64 chnk_end (log2 chnk_size)) (sar64 chnk_start (log2 chnk_size))) 1

-- The examples of the comment above `chnk_id_for_offset` in the source.
documented_examples :
    (chnk_id_for_offset 8 4 ≡ 2)
    × (chnk_id_for_offset 7 4 ≡ 1)
    × (chnk_id_for_offset 2 4 ≡ 0)
    × (chnk_id_for_offset 0 4 ≡ 0)
unfolding chnk_id_for_offset chnk_lalign log2
documented_examples = (refl, refl, refl, refl)
