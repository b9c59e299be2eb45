-- ===== src/MetaStore/View.antt =====
-- What a key's entry stands for, an entry that no longer merges included, and how each request on
-- src/daemon/backend/metadata/db.cpp changes it.
use gekko_fwd.Base.{
  ℕ, ◌<◌, ◌≡◌, ◌≢◌, refl, ap, ◌∙◌, inl, inr, List, [], ◌∷◌, ◌++◌, Bool, Option, none, some,
  if◌then◌else◌, All, All-append, max, ltb, Bool-cases, append_assoc, append-nil,
}
use gekko_fwd.Base.Words.{word, add64}
use gekko_fwd.Decimal.{Bytes, to_string}
use gekko_fwd.Metadata.{Metadata, Config, serialize}
use gekko_fwd.Metadata.RoundTrip.{Fits}
use gekko_fwd.Merge.{
  Operand, create, increase_size, decrease_size, serialize_operand, MergeError, not_a_creation,
  malformed, ok, err, get_id, first_value, full_merge,
}
use gekko_fwd.Merge.RoundTrip.{OperandFits, resize}
use gekko_fwd.Merge.Refinement.{
  resize_all, queued, full_merge-queued, full_merge-created, resize_all-append,
}
use gekko_fwd.MetaStore.Rocks.{Entry, Answer, failed, not_found, found, merged, answer}
use gekko_fwd.MetaStore.Live.{
  Live, Live-operand, Live-created, value_of, answer-Live, queued-append,
}

-- `broken`: operands are queued that the merge refuses.
pub data View : Type 0 where
  absent broken : View
  live : Metadata → ℕ → View

pub data Request : Type 0 where
  put replace : Metadata → Request
  grow : ℕ → Bool → Request
  shrink : ℕ → Request
  drop : Request

abbrev pub RequestFits : Request → Type 0
RequestFits (put md) = Fits md
RequestFits (replace md) = Fits md
RequestFits (grow size append) = size < word
RequestFits (shrink size) = size < word
RequestFits drop = Unit {0}

abbrev pub requested : Request → View → View
requested (put md) absent = live md md.size
requested (put md) broken = broken
requested (put md) (live old n) = live old n
requested (replace md) v = live md md.size
requested (grow size append) absent = broken
requested (grow size append) broken = broken
requested (grow size append) (live md n) = live md (if append then add64 n size else max size n)
requested (shrink size) absent = broken
requested (shrink size) broken = broken
requested (shrink size) (live md n) = if ltb size n then live md size else broken
requested drop v = absent

append-ne-nil : (ops : List Operand) (op : Operand) → ops ++ op ∷ [] ≢ []
append-ne-nil [] op e = cc
append-ne-nil (o ∷ ops) op e = cc

module _ (format_int : ℕ → Bytes) (cfg : Config) where
  -- The merge refuses the queue, and goes on doing so whatever is queued behind it.
  pub record IsBroken (e : Entry) : Type 0 where
    pub base : Option Bytes
    pub ops : List Operand
    pub shape : e ≡ (base, queued ops)
    pub pending : ops ≢ []
    pub refused :
        (more : List Operand)
        → All OperandFits more
        → (why : MergeError) × (full_merge format_int cfg base (queued (ops ++ more)) ≡ err why)

  abbrev pub Represents : Entry → View → Type 0
  Represents e absent = e ≡ (none, [])
  Represents e (live md n) = Live format_int cfg e md n
  Represents e broken = IsBroken e

  abbrev pub view_answer : View → Answer
  view_answer absent = not_found
  view_answer (live md n) = found (value_of format_int cfg md n)
  view_answer broken = failed

  pub IsBroken-operand :
      (e : Entry) (op : Operand)
      → IsBroken e
      → OperandFits op
      → IsBroken (e.0, e.1 ++ serialize_operand op ∷ [])
  IsBroken-operand e op b fits = record {
    base = b.base;
    ops = b.ops ++ op ∷ [];
    shape = rw (b.shape, queued-append format_int cfg b.ops (op ∷ [])) refl;
    pending = append-ne-nil b.ops op;
    refused =
        λ more each. rw (append_assoc b.ops (op ∷ []) more) (b.refused (op ∷ more) (fits, each));
  }

  -- An operand other than a creation on a key that is not there.
  pub IsBroken-orphan :
      (op : Operand)
      → ((ops : List Bytes) → first_value none (serialize_operand op ∷ ops) ≡ err not_a_creation)
      → IsBroken (none, serialize_operand op ∷ [])
  unfolding full_merge
  IsBroken-orphan op orphan = record {
    base = none;
    ops = op ∷ [];
    pending = λ e. cc;
    shape = refl;
    refused = λ more each. (not_a_creation, rw (orphan (queued more)) refl);
  }

  refused_sizes :
      (ops more : List Operand) (op : Operand) (size n : ℕ)
      → resize_all ops size ≡ ok n
      → resize op n ≡ err malformed
      → resize_all ((ops ++ op ∷ []) ++ more) size ≡ err malformed
  unfolding resize_all
  refused_sizes ops more op size n fine bad =
      rw
        (
          resize_all-append (ops ++ op ∷ []) more size,
          resize_all-append ops (op ∷ []) size,
          fine,
          bad,
        )
        refl

  module _ (decimal : (n : ℕ) → format_int n ≡ to_string n) where
    -- An operand that does not apply to the file's size.
    pub IsBroken-refused :
        (e : Entry) (md : Metadata) (n : ℕ) (op : Operand)
        → Live format_int cfg e md n
        → OperandFits op
        → resize op n ≡ err malformed
        → IsBroken (e.0, e.1 ++ serialize_operand op ∷ [])
    IsBroken-refused e md n op l op_fits bad = elim l.shape [
      | inl q ↦ record {
        base = some (serialize format_int cfg md);
        ops = l.ops ++ op ∷ [];
        shape = rw (q, queued-append format_int cfg l.ops (op ∷ [])) refl;
        pending = append-ne-nil l.ops op;
        refused = λ more each. (
          malformed,
          full_merge-queued format_int cfg decimal md ((l.ops ++ op ∷ []) ++ more) l.fits
                (fit more each)
              ∙ rw (refused_sizes l.ops more op md.size n l.sized bad) refl,
        );
      }
      | inr q ↦ record {
        base = none;
        ops = create (serialize format_int cfg md) ∷ l.ops ++ op ∷ [];
        shape = rw (q, queued-append format_int cfg l.ops (op ∷ [])) refl;
        pending = λ empty. cc;
        refused = λ more each. (
          malformed,
          full_merge-created format_int cfg decimal md ((l.ops ++ op ∷ []) ++ more) l.fits
                (fit more each)
              ∙ rw (refused_sizes l.ops more op md.size n l.sized bad) refl,
        );
      }
    ]
      where
        fit :
            (more : List Operand)
            → All OperandFits more
            → All OperandFits ((l.ops ++ op ∷ []) ++ more)
        fit more each =
            All-append OperandFits (l.ops ++ op ∷ []) more
              (All-append OperandFits l.ops (op ∷ []) l.each (op_fits, tt)) each

    answer-refused :
        (base : Option Bytes) (ops : List Operand) (why : MergeError)
        → ops ≢ []
        → full_merge format_int cfg base (queued ops) ≡ err why
        → answer format_int cfg (base, queued ops) ≡ failed
    unfolding answer
    answer-refused base [] why pending e = absurd (pending refl)
    answer-refused none (op ∷ ops) why pending e = ap merged e
    answer-refused (some v) (op ∷ ops) why pending e = ap merged e

    -- A read gives what the entry stands for.
    pub answer-Represents :
        (e : Entry) (v : View) → Represents e v → answer format_int cfg e ≡ view_answer v
    unfolding answer
    answer-Represents e absent h = rw h refl
    answer-Represents e (live md n) h = answer-Live format_int cfg decimal e md n h
    answer-Represents e broken h =
        let (why, r) = h.refused [] tt in
        rw h.shape (answer-refused h.base h.ops why h.pending (rw append-nil at r))

    -- What a request that merges an operand does to an entry.
    pub Represents-put :
        (e : Entry) (v : View) (md : Metadata)
        → Fits md
        → Represents e v
        → Represents
            (e.0, e.1 ++ serialize_operand (create (serialize format_int cfg md)) ∷ [])
            (requested (put md) v)
    unfolding resize
    Represents-put e absent md fits h = rw h (Live-created format_int cfg md fits)
    Represents-put e broken md fits h =
        IsBroken-operand e (create (serialize format_int cfg md)) h tt
    Represents-put e (live old n) md fits h =
        Live-operand format_int cfg e old n n (create (serialize format_int cfg md)) h tt refl

    pub Represents-grow :
        (e : Entry) (v : View) (size : ℕ) (append : Bool)
        → size < word
        → Represents e v
        → Represents
            (e.0, e.1 ++ serialize_operand (increase_size size append) ∷ [])
            (requested (grow size append) v)
    unfolding resize first_value serialize_operand get_id
    Represents-grow e absent size append fits h =
        rw h (IsBroken-orphan (increase_size size append) (λ ops. refl))
    Represents-grow e broken size append fits h =
        IsBroken-operand e (increase_size size append) h fits
    Represents-grow e (live md n) size append fits h =
        Live-operand format_int cfg e md n (if append then add64 n size else max size n)
          (increase_size size append) h fits refl

    pub Represents-shrink :
        (e : Entry) (v : View) (size : ℕ)
        → size < word
        → Represents e v
        → Represents
            (e.0, e.1 ++ serialize_operand (decrease_size size) ∷ [])
            (requested (shrink size) v)
    unfolding resize first_value serialize_operand get_id
    Represents-shrink e absent size fits h =
        rw h (IsBroken-orphan (decrease_size size) (λ ops. refl))
    Represents-shrink e broken size fits h = IsBroken-operand e (decrease_size size) h fits
    Represents-shrink e (live md n) size fits h = elim (Bool-cases (ltb size n)) [
      | inl smaller ↦
          rw smaller
            (Live-operand format_int cfg e md n size (decrease_size size) h fits (rw smaller refl))
      | inr other ↦ rw other (IsBroken-refused e md n (decrease_size size) h fits (rw other refl))
    ]
