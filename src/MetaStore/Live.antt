-- ===== src/MetaStore/Live.antt =====
-- What a key's value and its pending operands stand for: metadata and the file's size.
use gekko_fwd.Base.{
  ℕ, ◌≡◌, refl, ap, ◌∙◌, ◌⊎◌, inl, inr, List, [], ◌∷◌, ◌++◌, Bool, true, false, none, some, All,
  All-append,
}
use gekko_fwd.Decimal.{Bytes, to_string}
use gekko_fwd.Metadata.{Metadata, Config, print_optional, serialize}
use gekko_fwd.Metadata.RoundTrip.{Fits, kept, stored}
use gekko_fwd.Merge.{Operand, create, serialize_operand, ok, full_merge}
use gekko_fwd.Merge.RoundTrip.{OperandFits, resize}
use gekko_fwd.Merge.Refinement.{
  resize_all, queued, full_merge-queued, full_merge-created, resize_all-append,
}
use gekko_fwd.MetaStore.Rocks.{Entry, found, merged, answer}

print_optional-stored :
    (format_int : ℕ → Bytes) (used : Bool) (n : ℕ) (rest : Bytes)
    → print_optional format_int used (stored used n) rest ≡ print_optional format_int used n rest
unfolding print_optional
print_optional-stored format_int true n rest = refl
print_optional-stored format_int false n rest = refl

module _ (format_int : ℕ → Bytes) (cfg : Config) where
  -- The value of an entry whose file has size n.
  abbrev pub value_of : Metadata → ℕ → Bytes
  value_of md n = serialize format_int cfg (record (kept cfg md) { size = n })

  serialize-kept : (md : Metadata) → serialize format_int cfg md ≡ value_of md md.size
  unfolding serialize
  serialize-kept md =
      rw
        (
          print_optional-stored format_int cfg.use_blocks md.blocks,
          print_optional-stored format_int cfg.use_link_cnt md.link_count,
          print_optional-stored format_int cfg.use_ctime md.ctime,
          print_optional-stored format_int cfg.use_mtime md.mtime,
          print_optional-stored format_int cfg.use_atime md.atime,
        )
        refl

  -- An entry that was created as `md`, or put as such, and whose operands make n of its size.
  pub record Live (e : Entry) (md : Metadata) (n : ℕ) : Type 0 where
    pub ops : List Operand
    pub shape :
        (e ≡ (some (serialize format_int cfg md), queued ops))
        ⊎ (e ≡ (none, queued (create (serialize format_int cfg md) ∷ ops)))
    pub fits : Fits md
    pub each : All OperandFits ops
    pub sized : resize_all ops md.size ≡ ok n

  pub queued-append : (ops more : List Operand) → queued (ops ++ more) ≡ queued ops ++ queued more
  queued-append [] more = refl
  queued-append (op ∷ ops) more = ap (◌∷◌ (serialize_operand op)) (queued-append ops more)

  -- One more operand.
  pub Live-operand :
      (e : Entry) (md : Metadata) (n m : ℕ) (op : Operand)
      → Live e md n
      → OperandFits op
      → resize op n ≡ ok m
      → Live (e.0, e.1 ++ serialize_operand op ∷ []) md m
  unfolding resize_all
  Live-operand e md n m op l op_fits r = record {
    ops = l.ops ++ op ∷ [];
    shape = elim l.shape [
      | inl q ↦ inl (rw (q, queued-append l.ops (op ∷ [])) refl)
      | inr q ↦ inr (rw (q, queued-append l.ops (op ∷ [])) refl)
    ];
    fits = l.fits;
    each = All-append OperandFits l.ops (op ∷ []) l.each (op_fits, tt);
    sized = resize_all-append l.ops (op ∷ []) md.size ∙ rw (l.sized, r) refl;
  }

  pub Live-created :
      (md : Metadata)
      → Fits md
      → Live (none, serialize_operand (create (serialize format_int cfg md)) ∷ []) md md.size
  unfolding resize_all
  Live-created md fits = record { ops = []; shape = inr refl; fits = fits; each = tt; sized = refl }

  pub Live-put :
      (md : Metadata) → Fits md → Live (some (serialize format_int cfg md), []) md md.size
  unfolding resize_all
  Live-put md fits = record { ops = []; shape = inl refl; fits = fits; each = tt; sized = refl }

  module _ (decimal : (n : ℕ) → format_int n ≡ to_string n) where
    merge-based :
        (md : Metadata) (n : ℕ) (ops : List Operand)
        → Fits md
        → All OperandFits ops
        → resize_all ops md.size ≡ ok n
        → full_merge format_int cfg (some (serialize format_int cfg md)) (queued ops)
          ≡ ok (value_of md n)
    merge-based md n ops fits each sized =
        full_merge-queued format_int cfg decimal md ops fits each ∙ rw sized refl

    merge-created :
        (md : Metadata) (n : ℕ) (ops : List Operand)
        → Fits md
        → All OperandFits ops
        → resize_all ops md.size ≡ ok n
        → full_merge format_int cfg none (queued (create (serialize format_int cfg md) ∷ ops))
          ≡ ok (value_of md n)
    merge-created md n ops fits each sized =
        full_merge-created format_int cfg decimal md ops fits each ∙ rw sized refl

    answer-based :
        (md : Metadata) (n : ℕ) (ops : List Operand)
        → Fits md
        → All OperandFits ops
        → resize_all ops md.size ≡ ok n
        → answer format_int cfg (some (serialize format_int cfg md), queued ops)
          ≡ found (value_of md n)
    unfolding answer resize_all
    answer-based md n [] fits each sized =
        let same_size : md.size ≡ n = cc sized in
        ap found (serialize-kept md ∙ ap (value_of md) same_size)
    answer-based md n (op ∷ ops) fits each sized =
        ap merged (merge-based md n (op ∷ ops) fits each sized)

    -- A live entry reads as its metadata with its size.
    pub answer-Live :
        (e : Entry) (md : Metadata) (n : ℕ)
        → Live e md n
        → answer format_int cfg e ≡ found (value_of md n)
    unfolding answer
    answer-Live e md n l = elim l.shape [
      | inl q ↦ rw q (answer-based md n l.ops l.fits l.each l.sized)
      | inr q ↦ rw q (ap merged (merge-created md n l.ops l.fits l.each l.sized))
    ]
