-- ===== src/MetaStore/Run.antt =====
-- A sequence of requests on the metadata of src/daemon/backend/metadata/db.cpp, for any keys.
use gekko_fwd.Base.{
  ℕ, ◌≡◌, refl, ap, ◌∙◌, inl, inr, List, [], ◌∷◌, ◌++◌, some, if◌then◌else◌, All, Bool-cases,
}
use gekko_fwd.Decimal.{Bytes, to_string}
use gekko_fwd.Metadata.{Config, serialize}
use gekko_fwd.Merge.{create, increase_size, decrease_size, serialize_operand}
use gekko_fwd.MetaStore.Rocks.{Rocks, same}
use gekko_fwd.MetaStore.Db.{
  Outcome, done, thrown, read_answer, db_get, db_put, db_remove, db_update, db_increase_size,
  db_decrease_size,
}
use gekko_fwd.MetaStore.Live.{Live-put}
use gekko_fwd.MetaStore.Refinement.{from_written, db_put-written}
use gekko_fwd.MetaStore.View.{
  View, Request, put, replace, grow, shrink, drop, RequestFits, requested, Represents, view_answer,
  answer-Represents, Represents-put, Represents-grow, Represents-shrink,
}

-- The abstract store: what each key stands for.
abbrev pub request_at : Bytes → Request → (Bytes → View) → Bytes → View
request_at k r view j = if same k j then requested r (view j) else view j

abbrev pub request_all : List (Bytes × Request) → (Bytes → View) → Bytes → View
request_all [] view = view
request_all ((k, r) ∷ rs) view = request_all rs (request_at k r view)

module _ (format_int : ℕ → Bytes) (cfg : Config) (rocks : Rocks format_int cfg) where
  open rocks use {Db, entry}

  unfoldable pub submit : Db → Bytes → Request → Outcome Db
  submit db k (put md) = db_put format_int cfg rocks db k (serialize format_int cfg md)
  submit db k (replace md) = db_update format_int cfg rocks db k k (serialize format_int cfg md)
  submit db k (grow size append) = db_increase_size format_int cfg rocks db k size append
  submit db k (shrink size) = db_decrease_size format_int cfg rocks db k size
  submit db k drop = db_remove format_int cfg rocks db k

  -- The store and the requests that were carried out; one that throws leaves the store as it was.
  abbrev pub settle :
      Db
      → Bytes × Request
      → Outcome Db
      → (Db → Db × List (Bytes × Request))
      → Db × List (Bytes × Request)
  settle db r (thrown e) rest = rest db
  settle db r (done next) rest = let (final, accepted) = rest next in (final, r ∷ accepted)

  unfoldable pub submit_all : List (Bytes × Request) → Db → Db × List (Bytes × Request)
  submit_all [] db = (db, [])
  submit_all ((k, r) ∷ rs) db = settle db (k, r) (submit db k r) (submit_all rs)

  abbrev pub StoreIs : Db → (Bytes → View) → Type 0
  StoreIs db view = (j : Bytes) → Represents format_int cfg (entry db j) (view j)

  module _ (decimal : (n : ℕ) → format_int n ≡ to_string n) where
    at_merge :
        (db next : Db) (k op : Bytes) (r : Request) (view : Bytes → View)
        → ((j : Bytes)
            → Represents format_int cfg
                ((entry db j).0, (entry db j).1 ++ op ∷ [])
                (requested r (view j)))
        → StoreIs db view
        → rocks.merge db k op ≡ some next
        → StoreIs next (request_at k r view)
    at_merge db next k op r view step h e j = elim (Bool-cases (same k j)) [
      | inl eq ↦ simp (rocks.merge_law db next k op j e, eq) (step j)
      | inr ne ↦ simp (rocks.merge_law db next k op j e, ne) (h j)
    ]

    submit-StoreIs :
        (db next : Db) (k : Bytes) (r : Request) (view : Bytes → View)
        → RequestFits r
        → StoreIs db view
        → submit db k r ≡ done next
        → StoreIs next (request_at k r view)
    unfolding submit db_update db_increase_size db_decrease_size db_remove
    submit-StoreIs db next k (put md) view fits h e j =
        let val = serialize format_int cfg md in
        at_merge db next k (serialize_operand (create val)) (put md) view
          (λ j. Represents-put format_int cfg decimal (entry db j) (view j) md fits (h j)) h
          (db_put-written format_int cfg rocks db next k val e) j
    submit-StoreIs db next k (replace md) view fits h e j =
        let val = serialize format_int cfg md in
        let law =
          rocks.rewrite_law db next k k val j
            (from_written format_int cfg rocks (rocks.rewrite db k k val) next e) in
        elim (Bool-cases (same k j)) [
          | inl eq ↦ simp (law, eq) (Live-put format_int cfg md fits)
          | inr ne ↦ simp (law, ne) (h j)
        ]
    submit-StoreIs db next k (grow size append) view fits h e j =
        at_merge db next k (serialize_operand (increase_size size append)) (grow size append) view
          (λ j. Represents-grow format_int cfg decimal (entry db j) (view j) size append fits (h j))
          h
          (from_written format_int cfg rocks
            (rocks.merge db k (serialize_operand (increase_size size append))) next e)
          j
    submit-StoreIs db next k (shrink size) view fits h e j =
        at_merge db next k (serialize_operand (decrease_size size)) (shrink size) view
          (λ j. Represents-shrink format_int cfg decimal (entry db j) (view j) size fits (h j)) h
          (from_written format_int cfg rocks
            (rocks.merge db k (serialize_operand (decrease_size size))) next e)
          j
    submit-StoreIs db next k drop view fits h e j =
        let law =
          rocks.delete_law db next k j
            (from_written format_int cfg rocks (rocks.delete db k) next e) in
        elim (Bool-cases (same k j)) [
          | inl eq ↦ simp (law, eq) refl
          | inr ne ↦ simp (law, ne) (h j)
        ]

    settle-StoreIs :
        (db : Db) (k : Bytes) (r : Request) (view : Bytes → View) (o : Outcome Db)
        (rest : Db → Db × List (Bytes × Request))
        → ((next : Db) (after : Bytes → View)
            → StoreIs next after
            → StoreIs (rest next).0 (request_all (rest next).1 after))
        → StoreIs db view
        → ((next : Db) → o ≡ done next → StoreIs next (request_at k r view))
        → StoreIs (settle db (k, r) o rest).0 (request_all (settle db (k, r) o rest).1 view)
    settle-StoreIs db k r view (thrown e) rest ih h step = ih db view h
    settle-StoreIs db k r view (done next) rest ih h step =
        ih next (request_at k r view) (step next refl)

    submit_all-StoreIs :
        (rs : List (Bytes × Request)) (db : Db) (view : Bytes → View)
        → All (λ (q : Bytes × Request). RequestFits q.1) rs
        → StoreIs db view
        → StoreIs (submit_all rs db).0 (request_all (submit_all rs db).1 view)
    unfolding submit_all
    submit_all-StoreIs [] db view fits h = h
    submit_all-StoreIs ((k, r) ∷ rs) db view (f, fs) h =
        settle-StoreIs db k r view (submit db k r) (submit_all rs)
          (λ next after. submit_all-StoreIs rs next after fs) h
          (λ next. submit-StoreIs db next k r view f h)

    -- With a decimal `format_int` and requests of sizes below 2 ^ 64 and metadata in the ranges of
    -- `Fits`: after any sequence of creations, updates, size changes and removals, from a store
    -- that stands for `view`, a read of any key answers what the requests that did not throw make
    -- of `view`: metadata and a size, no key, or a failure where the merge refuses an operand.
    pub submit_all-db_get :
        (rs : List (Bytes × Request)) (db : Db) (view : Bytes → View) (k : Bytes)
        → All (λ (q : Bytes × Request). RequestFits q.1) rs
        → StoreIs db view
        → db_get format_int cfg rocks (submit_all rs db).0 k
          ≡ read_answer (view_answer format_int cfg (request_all (submit_all rs db).1 view k))
    unfolding db_get
    submit_all-db_get rs db view k fits h =
        let final = (submit_all rs db).0 in
        ap read_answer (
          rocks.get_law final k
          ∙ answer-Represents format_int cfg decimal (entry final k)
              (request_all (submit_all rs db).1 view k) (submit_all-StoreIs rs db view fits h k))
