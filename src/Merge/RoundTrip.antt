-- ===== src/Merge/RoundTrip.antt =====
-- Each kind of operand is applied as it was queued: the parsers of
-- src/daemon/backend/metadata/merge.cpp undo the serializers.
use gekko_fwd.Base.{
  ℕ, max, ◌<◌, ◌≡◌, refl, [], ◌∷◌, Bool, true, false, some, ltb, if◌then◌else◌, append-nil, length,
}
use gekko_fwd.Base.Words.{word, add64}
use gekko_fwd.Decimal.{to_string, stoul}
use gekko_fwd.Decimal.RoundTrip.{stoul-to_string}
use gekko_fwd.Merge.{
  Operand, increase_size, decrease_size, create, serialize_params, serialize_operand, Result, ok,
  err, malformed, get_id, get_params, parse_increase, parse_decrease, merge_operand,
}

-- Sizes are 64-bit words.
abbrev pub OperandFits : Operand → Type 0
OperandFits (increase_size size append) = size < word
OperandFits (decrease_size size) = size < word
OperandFits (create metadata) = Unit {0}

-- What an operand does to a file size; shrinking to a size that is not smaller is refused.
unfoldable pub resize : Operand → ℕ → Result ℕ
resize (increase_size size append) fsize = ok (if append then add64 fsize size else max size fsize)
resize (decrease_size size) fsize = if ltb size fsize then ok size else err malformed
resize (create metadata) fsize = ok fsize

parse_increase-params :
    (size : ℕ) (append : Bool)
    → size < word
    → parse_increase (serialize_params (increase_size size append)) ≡ ok (size, append)
unfolding parse_increase serialize_params
parse_increase-params size true h = rw (stoul-to_string size (b',' ∷ b't' ∷ []) h refl)
parse_increase-params size false h = rw (stoul-to_string size (b',' ∷ b'f' ∷ []) h refl)

parse_decrease-params :
    (size : ℕ) → size < word → parse_decrease (serialize_params (decrease_size size)) ≡ ok size
unfolding parse_decrease serialize_params
parse_decrease-params size h =
    let e : stoul (to_string size)
        ≡ some (record { value = size; read = length (to_string size); rest = [] }) =
      rw append-nil at (stoul-to_string size [] h tt) in
    rw e

-- The merge reads a serialized operand of any kind, with a size below 2 ^ 64, as the operand
-- that was serialized.
pub merge_operand-serialize :
    (op : Operand) (fsize : ℕ)
    → OperandFits op
    → merge_operand (serialize_operand op) fsize ≡ resize op fsize
unfolding merge_operand serialize_operand get_id get_params resize
merge_operand-serialize (increase_size size append) fsize h =
    rw (parse_increase-params size append h)
merge_operand-serialize (decrease_size size) fsize h = rw (parse_decrease-params size h)
merge_operand-serialize (create metadata) fsize h = refl
