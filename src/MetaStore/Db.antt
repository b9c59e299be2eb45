-- ===== src/MetaStore/Db.antt =====
-- `MetadataDB` of src/daemon/backend/metadata/db.cpp, and src/daemon/ops/metadentry.cpp above it.
use gekko_fwd.Base.{
  ℕ, [], ◌∷◌, Bool, true, false, not, ◌&&◌, ◌||◌, Option, none, some, if◌then◌else◌,
}
use gekko_fwd.Base.Words.{add64}
use gekko_fwd.Decimal.{Bytes}
use gekko_fwd.Metadata.{Metadata, Config, parse, serialize}
use gekko_fwd.Merge.{create, increase_size, decrease_size, serialize_operand}
use gekko_fwd.PathUtil.{is_absolute, has_trailing_slash}
use gekko_fwd.MetaStore.Rocks.{Rocks, Answer, found, not_found, failed, same}

-- NotFoundException, DBException, and an assertion that fails.
pub data Fault : Type 0 where
  not_found_exception db_exception assertion : Fault

pub data Outcome {ℓ} (A : Type ℓ) : Type ℓ where
  done : A → Outcome A
  thrown : Fault → Outcome A

-- if (!s.ok()) throw_rdb_status_excpt(s)
abbrev pub written {ℓ} : {A : Type ℓ} → Option A → Outcome A
written none = thrown db_exception
written (some db) = done db

abbrev pub read_answer : Answer → Outcome Bytes
read_answer (found v) = done v
read_answer not_found = thrown not_found_exception
read_answer failed = thrown db_exception

abbrev pub exists_answer : Answer → Outcome Bool
exists_answer (found v) = done true
exists_answer not_found = done false
exists_answer failed = thrown db_exception

-- What is read must parse.
abbrev pub parsed : Option Metadata → Outcome Metadata
parsed none = thrown assertion
parsed (some md) = done md

infixl 5 ◌>>=◌
abbrev pub ◌>>=◌ {ℓ κ} : {A : Type ℓ} {B : Type κ} → Outcome A → (A → Outcome B) → Outcome B
done a >>= f = f a
thrown e >>= f = thrown e

module _ (format_int : ℕ → Bytes) (cfg : Config) (rocks : Rocks format_int cfg) where
  open rocks use {Db}

  unfoldable pub db_get : Db → Bytes → Outcome Bytes
  db_get db key = read_answer (rocks.get db key)

  unfoldable pub db_put : Db → Bytes → Bytes → Outcome Db
  db_put db key val =
      if is_absolute key && (same key (b'/' ∷ []) || not (has_trailing_slash key))
      then written (rocks.merge db key (serialize_operand (create val)))
      else thrown assertion

  unfoldable pub db_remove : Db → Bytes → Outcome Db
  db_remove db key = written (rocks.delete db key)

  unfoldable pub db_exists : Db → Bytes → Outcome Bool
  db_exists db key = exists_answer (rocks.get db key)

  unfoldable pub db_update : Db → Bytes → Bytes → Bytes → Outcome Db
  db_update db old_key new_key val = written (rocks.rewrite db old_key new_key val)

  unfoldable pub db_increase_size : Db → Bytes → ℕ → Bool → Outcome Db
  db_increase_size db key size append =
      written (rocks.merge db key (serialize_operand (increase_size size append)))

  unfoldable pub db_decrease_size : Db → Bytes → ℕ → Outcome Db
  db_decrease_size db key size =
      written (rocks.merge db key (serialize_operand (decrease_size size)))

  -- metadata::get
  unfoldable pub get_metadentry : Db → Bytes → Outcome Metadata
  get_metadentry db path = db_get db path >>= λ v. parsed (parse cfg v)

  unfoldable pub get_size : Db → Bytes → Outcome ℕ
  get_size db path = get_metadentry db path >>= λ md. done md.size

  -- metadata::create, at a time of the clock, with the times that the configuration wants.
  unfoldable pub create_metadentry : ℕ → Db → Bytes → Metadata → Outcome Db
  create_metadentry time db path md =
      let stamped = record md {
        atime = if cfg.use_atime then time else md.atime;
        mtime = if cfg.use_mtime then time else md.mtime;
        ctime = if cfg.use_ctime then time else md.ctime;
      } in
      db_put db path (serialize format_int cfg stamped)

  -- metadata::update
  unfoldable pub update_metadentry : Db → Bytes → Metadata → Outcome Db
  update_metadentry db path md = db_update db path path (serialize format_int cfg md)

  -- metadata::update_size
  unfoldable pub update_size : Db → Bytes → ℕ → ℕ → Bool → Outcome Db
  update_size db path io_size offset append = db_increase_size db path (add64 io_size offset) append
