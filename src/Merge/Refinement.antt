-- ===== src/Merge/Refinement.antt =====
-- FullMergeV2 of src/daemon/backend/metadata/merge.cpp against an abstract fold over the operands.
use gekko_fwd.Base.{
  ℕ, ◌<◌, ◌≡◌, refl, ap, List, [], ◌∷◌, ◌++◌, map, none, some, arith, All, All-append, ◌∙◌, sym,
}
use gekko_fwd.Base.Words.{sign_bit}
use gekko_fwd.Decimal.{Bytes, to_string}
use gekko_fwd.Metadata.{Metadata, Config, serialize}
use gekko_fwd.Metadata.RoundTrip.{
  Fits, kept, read_back, stored_idem, serialize-read_back, parse-serialize,
}
use gekko_fwd.Merge
use gekko_fwd.Merge.{
  Operand, create, serialize_operand, Result, ok, err, not_a_creation, ◌>>=◌, >>=-cong, >>=-assoc,
  get_id, merge_operand, merge_operands, first_value, full_merge,
}
use gekko_fwd.Merge.RoundTrip.{OperandFits, resize, merge_operand-serialize}

-- The size that a sequence of operands leaves.
unfoldable pub resize_all : List Operand → ℕ → Result ℕ
resize_all [] fsize = ok fsize
resize_all (op ∷ ops) fsize = resize op fsize >>= resize_all ops

abbrev pub queued : List Operand → List Bytes
queued = map serialize_operand

pub merge_operands-queued :
    (ops : List Operand) (fsize : ℕ)
    → All OperandFits ops
    → merge_operands (queued ops) fsize ≡ resize_all ops fsize
unfolding merge_operands resize_all
merge_operands-queued [] fsize h = refl
merge_operands-queued (op ∷ ops) fsize (h, hs) =
    rw (merge_operand-serialize op fsize h)
      (>>=-cong (resize op fsize) _ _ (λ n. merge_operands-queued ops n hs))

pub resize_all-append :
    (ops more : List Operand) (fsize : ℕ)
    → resize_all (ops ++ more) fsize ≡ (resize_all ops fsize >>= resize_all more)
unfolding resize_all
resize_all-append [] more fsize = refl
resize_all-append (op ∷ ops) more fsize =
    >>=-cong (resize op fsize) _ _ (resize_all-append ops more)
    ∙ sym (>>=-assoc (resize op fsize) (resize_all ops) (resize_all more))

module _ (format_int : ℕ → Bytes) (cfg : Config) where
  -- The stored form of the metadata with another size.
  abbrev pub resized : Metadata → ℕ → Result Bytes
  resized md n = ok (serialize format_int cfg (record (kept cfg md) { size = n }))

  resized-Fits :
      (md : Metadata) (n : ℕ) → Fits md → n < sign_bit → Fits (record (kept cfg md) { size = n })
  resized-Fits md n fits small = ground arith

  resized_again :
      (md : Metadata) (n k : ℕ) → resized (record (kept cfg md) { size = n }) k ≡ resized md k
  resized_again md n k = simp stored_idem

  -- The members that a parser leaves uninitialised do not come into the merged value.
  resized-read_back :
      (md : Metadata) (sizes : Result ℕ)
      → (sizes >>= λ n. ok (serialize format_int cfg (record (read_back cfg md) { size = n })))
        ≡ (sizes >>= resized md)
  resized-read_back md sizes =
      >>=-cong sizes _ _ (λ n. ap ok (serialize-read_back format_int cfg md n))

  module _ (decimal : (n : ℕ) → format_int n ≡ to_string n) where
    -- With a decimal `format_int`: on a stored entry whose members are in the ranges of `Fits`,
    -- the merge is the fold of the queued operands, with sizes below 2 ^ 64, over the stored
    -- size: the same new value if they all apply, and the same failure if one does not.
    pub full_merge-queued :
        (md : Metadata) (ops : List Operand)
        → Fits md
        → All OperandFits ops
        → full_merge format_int cfg (some (serialize format_int cfg md)) (queued ops)
          ≡ (resize_all ops md.size >>= resized md)
    unfolding full_merge first_value
    full_merge-queued md ops fits hs =
        rw (parse-serialize format_int decimal cfg md fits, merge_operands-queued ops md.size hs)
          (resized-read_back md (resize_all ops md.size))

    -- With a decimal `format_int`: on a new key whose first operand creates an entry with
    -- members in the ranges of `Fits`, the merge is the fold of the other operands, with sizes
    -- below 2 ^ 64, over that entry's size.
    pub full_merge-created :
        (md : Metadata) (ops : List Operand)
        → Fits md
        → All OperandFits ops
        → full_merge format_int cfg none (queued (create (serialize format_int cfg md) ∷ ops))
          ≡ (resize_all ops md.size >>= resized md)
    unfolding full_merge first_value serialize_operand Merge.get_id Merge.get_params
    full_merge-created md ops fits hs =
        rw (parse-serialize format_int decimal cfg md fits, merge_operands-queued ops md.size hs)
          (resized-read_back md (resize_all ops md.size))

    -- With a decimal `format_int`, members in the ranges of `Fits` and sizes below 2 ^ 64:
    -- merging a queue in two steps leaves what merging it at once leaves, as the store does when
    -- it compacts in between, if the first part applies and leaves a size below 2 ^ 63.
    pub full_merge-append :
        (md : Metadata) (ops more : List Operand) (n : ℕ)
        → Fits md
        → All OperandFits ops
        → All OperandFits more
        → resize_all ops md.size ≡ ok n
        → n < sign_bit
        → (full_merge format_int cfg (some (serialize format_int cfg md)) (queued ops) >>= λ value.
            full_merge format_int cfg (some value) (queued more))
          ≡ full_merge format_int cfg (some (serialize format_int cfg md)) (queued (ops ++ more))
    full_merge-append md ops more n fits hs ks e small =
        rw
          (
            full_merge-queued md ops fits hs,
            e,
            full_merge-queued (record (kept cfg md) { size = n }) more
                (resized-Fits md n fits small) ks,
            full_merge-queued md (ops ++ more) fits (All-append OperandFits ops more hs ks),
            resize_all-append ops more md.size,
            e,
          )
          (>>=-cong (resize_all more n) _ _ (resized_again md n))
