-- ===== src/Merge.antt =====
-- src/daemon/backend/metadata/merge.cpp and include/daemon/backend/metadata/merge.hpp: the operands
-- that are queued on a metadata entry, their text form, and the merge that applies them. Assertions
-- are taken as compiled in: one that fails ends the merge like an exception.
pub mod RoundTrip
pub mod Refinement
pub mod Order
use gekko_fwd.Base.{
  ℕ, ◌≡◌, refl, max, List, [], ◌∷◌, ◌++◌, Bool, true, false, not, ◌||◌, Option, none, some, ltb,
  ◌==◌, if◌then◌else◌,
}
use gekko_fwd.Base.Words.{add64}
use gekko_fwd.Decimal.{Bytes, to_string, stoul}
use gekko_fwd.Metadata.{Metadata, Config, parse, serialize}

-- The subclasses of `MergeOperand`.
pub data Operand : Type 0 where
  increase_size : ℕ → Bool → Operand
  decrease_size : ℕ → Operand
  create : Bytes → Operand

-- enum class OperandID : char
unfoldable pub id : Operand → ℕ
id (increase_size size append) = b'i'
id (decrease_size size) = b'd'
id (create metadata) = b'c'

-- operand_id_suffix
abbrev pub suffix : ℕ
suffix = b':'

unfoldable pub serialize_params : Operand → Bytes
serialize_params (increase_size size append) =
    to_string size ++ b',' ∷ (if append then b't' else b'f') ∷ []
serialize_params (decrease_size size) = to_string size
serialize_params (create metadata) = metadata

unfoldable pub serialize_operand : Operand → Bytes
unfolding id serialize_params
serialize_operand op = id op ∷ suffix ∷ serialize_params op

pub data MergeError : Type 0 where
  not_a_creation unrecognized_operand malformed : MergeError

pub data Result (A : Type 0) : Type 0 where
  ok : A → Result A
  err : MergeError → Result A

infixl 5 ◌>>=◌
abbrev pub ◌>>=◌ : {A B : Type 0} → Result A → (A → Result B) → Result B
ok a >>= f = f a
err e >>= f = err e

pub >>=-cong :
    {A B : Type 0} (r : Result A) (f g : A → Result B)
    → ((a : A) → f a ≡ g a)
    → (r >>= f) ≡ (r >>= g)
>>=-cong (ok a) f g h = h a
>>=-cong (err e) f g h = refl

pub >>=-assoc :
    {A B C : Type 0} (r : Result A) (f : A → Result B) (g : B → Result C)
    → ((r >>= f) >>= g) ≡ (r >>= λ a. f a >>= g)
>>=-assoc (ok a) f g = refl
>>=-assoc (err e) f g = refl

abbrev pub or_malformed : {A : Type 0} → Option A → Result A
or_malformed none = err malformed
or_malformed (some a) = ok a

-- `get_id`, and `get_params` with its assertion; an operand has two characters at least.
unfoldable pub get_id : Bytes → Result ℕ
get_id [] = err malformed
get_id (c ∷ s) = ok c

unfoldable pub get_params : Bytes → Result Bytes
get_params [] = err malformed
get_params (c ∷ []) = err malformed
get_params (c ∷ d ∷ s) = if d == suffix then ok s else err malformed

-- What is left behind the number: the separator, the flag and nothing else.
append_flag : Bytes → Option Bool
append_flag [] = none
append_flag (s ∷ []) = none
append_flag (s ∷ c ∷ []) =
    if s == b','
    then (if c == b'f' then some false else if c == b't' then some true else none)
    else none
append_flag (s ∷ c ∷ d ∷ more) = none

-- IncreaseSizeOperand(const rdb::Slice&): the size and the append flag.
unfoldable pub parse_increase : Bytes → Result (ℕ × Bool)
unfolding append_flag
parse_increase s = do
  p ← or_malformed (stoul s)
  append ← or_malformed (append_flag p.rest)
  ok (p.value, append)

consumed : Bytes → Bool
consumed [] = true
consumed (c ∷ s) = false

-- DecreaseSizeOperand(const rdb::Slice&)
unfoldable pub parse_decrease : Bytes → Result ℕ
unfolding consumed
parse_decrease s = do
  p ← or_malformed (stoul s)
  if consumed p.rest then ok p.value else err malformed

-- One round of the loop of FullMergeV2: the file size after the operand.
unfoldable pub merge_operand : Bytes → ℕ → Result ℕ
merge_operand serialized_op fsize = do
  operand_id ← get_id serialized_op
  parameters ← get_params serialized_op
  let increase =
      parse_increase parameters >>= λ op. ok (if op.1 then add64 fsize op.0 else max op.0 fsize)
  let decrease =
      parse_decrease parameters >>= λ size. if ltb size fsize then ok size else err malformed
  if operand_id == b'i'
      then increase
      else if operand_id == b'd'
      then decrease
      else if operand_id == b'c'
      then ok fsize
      else err unrecognized_operand

unfoldable pub merge_operands : List Bytes → ℕ → Result ℕ
merge_operands [] fsize = ok fsize
merge_operands (op ∷ ops) fsize = merge_operand op fsize >>= merge_operands ops

-- The value to start from, and the operands that are left to apply.
unfoldable pub first_value : Option Bytes → List Bytes → Result (Bytes × List Bytes)
first_value (some existing) ops = ok (existing, ops)
first_value none [] = err malformed
first_value none (op ∷ ops) = do
  operand_id ← get_id op
  if operand_id == b'c' then (get_params op >>= λ value. ok (value, ops)) else err not_a_creation

unfoldable pub full_merge : (ℕ → Bytes) → Config → Option Bytes → List Bytes → Result Bytes
full_merge format_int cfg existing_value operand_list = do
  start ← first_value existing_value operand_list
  md ← or_malformed (parse cfg start.0)
  fsize ← merge_operands start.1 md.size
  ok (serialize format_int cfg (record md { size = fsize }))
