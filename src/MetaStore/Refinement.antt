-- ===== src/MetaStore/Refinement.antt =====
-- The operations of `MetadataDB` on what its entries stand for.
use gekko_fwd.Base.{
  ℕ, ◌<◌, ◌≡◌, refl, ap, ◌∙◌, inl, inr, [], ◌∷◌, ◌++◌, Bool, true, false, not, ◌&&◌, ◌||◌, Option,
  none, some, if◌then◌else◌, arith, max, Bool-cases,
}
use gekko_fwd.Base.Words.{word, add64}
use gekko_fwd.Decimal.{Bytes, to_string}
use gekko_fwd.Metadata.{Metadata, Config, serialize}
use gekko_fwd.Metadata.RoundTrip.{Fits}
use gekko_fwd.Merge.{Operand, create, increase_size, decrease_size, serialize_operand, ok}
use gekko_fwd.Merge.RoundTrip.{OperandFits, resize}
use gekko_fwd.PathUtil.{is_absolute, has_trailing_slash}
use gekko_fwd.MetaStore.Rocks.{Rocks, not_found, answer, same, same_self}
use gekko_fwd.MetaStore.Db.{
  done, thrown, not_found_exception, written, read_answer, exists_answer, db_get, db_put, db_remove,
  db_exists, db_update, db_increase_size, db_decrease_size,
}
use gekko_fwd.MetaStore.Live.{Live, Live-operand, Live-created, Live-put, value_of, answer-Live}

module _ (format_int : ℕ → Bytes) (cfg : Config) (rocks : Rocks format_int cfg) where
  open rocks use {Db, entry}

  -- The abstract state of a key.
  abbrev pub Holds : Db → Bytes → Metadata → ℕ → Type 0
  Holds db k md n = Live format_int cfg (entry db k) md n

  abbrev pub IsAbsent : Db → Bytes → Type 0
  IsAbsent db k = entry db k ≡ (none, [])

  -- Every other key keeps its entry.
  abbrev pub SameElsewhere : Db → Db → Bytes → Type 0
  SameElsewhere db next k = (j : Bytes) → same k j ≡ false → entry next j ≡ entry db j

  pub from_written : (o : Option Db) (next : Db) → written o ≡ done next → o ≡ some next
  from_written none next e = cc
  from_written (some db) next e = cc

  merge_self :
      (db next : Db) (k op : Bytes)
      → rocks.merge db k op ≡ some next
      → entry next k ≡ ((entry db k).0, (entry db k).1 ++ op ∷ [])
  merge_self db next k op e = rocks.merge_law db next k op k e ∙ rw (same_self k) refl

  merge-elsewhere :
      (db next : Db) (k op : Bytes) → rocks.merge db k op ≡ some next → SameElsewhere db next k
  merge-elsewhere db next k op e j other = rocks.merge_law db next k op j e ∙ rw other refl

  Holds-merge :
      (db next : Db) (k : Bytes) (md : Metadata) (n m : ℕ) (op : Operand)
      → Holds db k md n
      → OperandFits op
      → resize op n ≡ ok m
      → rocks.merge db k (serialize_operand op) ≡ some next
      → Holds next k md m
  Holds-merge db next k md n m op h op_fits r e =
      rw (merge_self db next k (serialize_operand op) e)
        (Live-operand format_int cfg (entry db k) md n m op h op_fits r)

  pub db_put-written :
      (db next : Db) (k val : Bytes)
      → db_put format_int cfg rocks db k val ≡ done next
      → rocks.merge db k (serialize_operand (create val)) ≡ some next
  unfolding db_put
  db_put-written db next k val e =
      elim (Bool-cases (is_absolute k && (same k (b'/' ∷ []) || not (has_trailing_slash k)))) [
        | inl good ↦
            from_written (rocks.merge db k (serialize_operand (create val))) next (rw good at e)
        | inr bad ↦ cc (rw bad at e)
      ]

  module _ (db next : Db) (k : Bytes) (md : Metadata) (n : ℕ) where
    -- Creating a key that is there changes neither its metadata nor its size; no other key changes.
    pub db_put-existing :
        (val : Bytes)
        → Holds db k md n
        → db_put format_int cfg rocks db k val ≡ done next
        → Holds next k md n × SameElsewhere db next k
    unfolding db_put resize
    db_put-existing val h e =
        let m = db_put-written db next k val e in
        (
          Holds-merge db next k md n n (create val) h tt refl m,
          merge-elsewhere db next k (serialize_operand (create val)) m,
        )

    pub db_put-absent :
        IsAbsent db k
        → Fits md
        → db_put format_int cfg rocks db k (serialize format_int cfg md) ≡ done next
        → Holds next k md md.size × SameElsewhere db next k
    unfolding db_put
    db_put-absent gone fits e =
        let val = serialize format_int cfg md in
        let m = db_put-written db next k val e in
        (
          rw (merge_self db next k (serialize_operand (create val)) m, gone)
              (Live-created format_int cfg md fits),
          merge-elsewhere db next k (serialize_operand (create val)) m,
        )

    -- A write that ends at `size` makes the file at least that long; an append makes it longer by it.
    pub db_increase_size_lem :
        (size : ℕ) (append : Bool)
        → Holds db k md n
        → size < word
        → db_increase_size format_int cfg rocks db k size append ≡ done next
        → Holds next k md (if append then add64 n size else max size n) × SameElsewhere db next k
    unfolding db_increase_size resize
    db_increase_size_lem size append h fits e =
        let op = increase_size size append in
        let m = from_written (rocks.merge db k (serialize_operand op)) next e in
        (
          Holds-merge db next k md n (if append then add64 n size else max size n) op h fits refl m,
          merge-elsewhere db next k (serialize_operand op) m,
        )

    pub db_decrease_size_lem :
        (size : ℕ)
        → Holds db k md n
        → size < n
        → size < word
        → db_decrease_size format_int cfg rocks db k size ≡ done next
        → Holds next k md size × SameElsewhere db next k
    unfolding db_decrease_size resize
    db_decrease_size_lem size h smaller fits e =
        let op = decrease_size size in
        let m = from_written (rocks.merge db k (serialize_operand op)) next e in
        (
          Holds-merge db next k md n size op h fits (ground arith) m,
          merge-elsewhere db next k (serialize_operand op) m,
        )

    pub db_remove_lem :
        db_remove format_int cfg rocks db k ≡ done next → IsAbsent next k × SameElsewhere db next k
    unfolding db_remove
    db_remove_lem e =
        let m = from_written (rocks.delete db k) next e in
        (
          rocks.delete_law db next k k m ∙ rw (same_self k) refl,
          λ j other. rocks.delete_law db next k j m ∙ rw other refl,
        )

    pub db_update_lem :
        Fits md
        → db_update format_int cfg rocks db k k (serialize format_int cfg md) ≡ done next
        → Holds next k md md.size × SameElsewhere db next k
    unfolding db_update
    db_update_lem fits e =
        let val = serialize format_int cfg md in
        let m = from_written (rocks.rewrite db k k val) next e in
        let law = rocks.rewrite_law db next k k val in
        (
          rw (law k m, same_self k) (Live-put format_int cfg md fits),
          λ j other. law j m ∙ rw other refl,
        )

  module _ (decimal : (n : ℕ) → format_int n ≡ to_string n) (db : Db) (k : Bytes) where
    pub db_get-Holds :
        (md : Metadata) (n : ℕ)
        → Holds db k md n
        → (db_get format_int cfg rocks db k ≡ done (value_of format_int cfg md n))
          × (db_exists format_int cfg rocks db k ≡ done true)
    unfolding db_get db_exists
    db_get-Holds md n h =
        let e = rocks.get_law db k ∙ answer-Live format_int cfg decimal (entry db k) md n h in
        (ap read_answer e, ap exists_answer e)

  pub db_get-IsAbsent :
      (db : Db) (k : Bytes)
      → IsAbsent db k
      → (db_get format_int cfg rocks db k ≡ thrown not_found_exception)
        × (db_exists format_int cfg rocks db k ≡ done false)
  unfolding db_get db_exists answer
  db_get-IsAbsent db k gone =
      let e : rocks.get db k ≡ not_found = rocks.get_law db k ∙ rw gone refl in
      (ap read_answer e, ap exists_answer e)
