-- ===== src/MetaStore/Rocks.antt =====
-- RocksDB as src/daemon/backend/metadata/db.cpp uses it: an interface of operations, and what its
-- documentation says of them. A key has a value, if one was put, and the operands merged since.
use gekko_fwd.Base.{
  ℕ, ◌≡◌, refl, List, [], ◌∷◌, ◌++◌, Bool, true, false, ◌&&◌, Option, none, some, ◌==◌,
  if◌then◌else◌, arith,
}
use gekko_fwd.Decimal.{Bytes}
use gekko_fwd.Metadata.{Config}
use gekko_fwd.Merge.{Result, ok, err, full_merge}

-- std::string's operator==
unfoldable pub same : Bytes → Bytes → Bool
same [] [] = true
same [] (d ∷ t) = false
same (c ∷ s) [] = false
same (c ∷ s) (d ∷ t) = c == d && same s t

pub same_self : (s : Bytes) → same s s ≡ true
unfolding same
same_self [] = refl
same_self (c ∷ s) = ground (arith, same_self s)

pub same-eq : (s t : Bytes) → same s t ≡ true → s ≡ t
unfolding same
same-eq [] [] h = refl
same-eq [] (d ∷ t) h = ground arith
same-eq (c ∷ s) [] h = ground arith
same-eq (c ∷ s) (d ∷ t) h = ground (arith, same-eq s t)

-- rocksdb::Status and the value of a Get
pub data Answer : Type 0 where
  found : Bytes → Answer
  not_found : Answer
  failed : Answer

abbrev pub Entry : Type 0
Entry = Option Bytes × List Bytes

abbrev pub merged : Result Bytes → Answer
merged (ok v) = found v
merged (err e) = failed

module _ (format_int : ℕ → Bytes) (cfg : Config) where
  -- A key without operands is read as it is; otherwise the merge operator is called.
  unfoldable pub answer : Entry → Answer
  answer (none, []) = not_found
  answer (some v, []) = found v
  answer (base, op ∷ ops) = merged (full_merge format_int cfg base (op ∷ ops))

  -- An operation that fails is `none`, and has written nothing.
  pub record Rocks : Type 1 where
    pub Db : Type 0
    pub get : Db → Bytes → Answer
    pub merge : Db → Bytes → Bytes → Option Db
    pub delete : Db → Bytes → Option Db
    -- WriteBatch: Delete(old_key), Put(new_key, val)
    pub rewrite : Db → Bytes → Bytes → Bytes → Option Db
    pub entry : Db → Bytes → Entry
    pub get_law : (db : Db) (k : Bytes) → get db k ≡ answer (entry db k)
    pub merge_law :
        (db next : Db) (k op j : Bytes)
        → merge db k op ≡ some next
        → entry next j
          ≡ (if same k j then ((entry db j).0, (entry db j).1 ++ op ∷ []) else entry db j)
    pub delete_law :
        (db next : Db) (k j : Bytes)
        → delete db k ≡ some next
        → entry next j ≡ (if same k j then (none, []) else entry db j)
    pub rewrite_law :
        (db next : Db) (old_key new_key val j : Bytes)
        → rewrite db old_key new_key val ≡ some next
        → entry next j ≡ (
            if same new_key j
            then (some val, [])
            else if same old_key j
            then (none, [])
            else entry db j)
