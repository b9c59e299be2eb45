-- ===== src/MetaServer.antt =====
-- The metadata handlers of a daemon: src/daemon/handler/srv_metadata.cpp. A failing assertion is
-- taken as an exception; a request whose handler ends with one that nothing catches has no reply,
-- which is `none`. Margo and the RPC structures are left out.
pub mod Laws
use gekko_fwd.Base.{
  ℕ, ◌+◌, List, [], ◌∷◌, Bool, true, false, Option, none, some, ◌==◌, if◌then◌else◌,
}
use gekko_fwd.Base.Words.{add64}
use gekko_fwd.Decimal.{Bytes}
use gekko_fwd.Metadata.{Metadata, Config, of_mode, of_link, link_mode}
use gekko_fwd.PathUtil.{separator}
use gekko_fwd.DataPath.ChunkFile.{Chunks}
use gekko_fwd.MetaStore.Rocks.{Rocks, same}
use gekko_fwd.MetaStore.Db.{
  Outcome, done, thrown, Fault, not_found_exception, db_exception, assertion, ◌>>=◌, db_get,
  db_remove, db_decrease_size, get_metadentry, get_size, create_metadentry, update_metadentry,
  update_size,
}

-- errno values, and -1 as a 32-bit word.
abbrev pub enoent : ℕ
enoent = 2

abbrev pub eio : ℕ
eio = 5

abbrev pub ebusy : ℕ
ebusy = 16

abbrev pub minus_one : ℕ
minus_one = 4294967295

-- What the handlers of stat and of get_metadentry_size make of an exception.
abbrev pub read_error : Fault → ℕ
read_error not_found_exception = enoent
read_error db_exception = ebusy
read_error assertion = ebusy

-- rpc_update_metadentry_in_t, the members that the handler reads: `none` where the flag is not set.
pub record Changes : Type 0 where
  pub blocks : Option ℕ
  pub nlink : Option ℕ
  pub size : Option ℕ
  pub atime : Option ℕ
  pub mtime : Option ℕ
  pub ctime : Option ℕ

abbrev pub or_else {ℓ} : {A : Type ℓ} → Option A → A → A
or_else none a = a
or_else (some b) a = b

unfoldable pub changed : Changes → Metadata → Metadata
changed c md = record md {
  blocks = or_else c.blocks md.blocks;
  link_count = or_else c.nlink md.link_count;
  size = or_else c.size md.size;
  atime = or_else c.atime md.atime;
  mtime = or_else c.mtime md.mtime;
  ctime = or_else c.ctime md.ctime;
}

-- get_chunks_dir of src/daemon/backend/data/chunk_storage.cpp: the path behind its first character,
-- with ':' for each separator.
unfoldable pub colons : Bytes → Bytes
colons [] = []
colons (c ∷ s) = (if c == separator then b':' else c) ∷ colons s

unfoldable pub get_chunks_dir : Bytes → Bytes
unfolding colons
get_chunks_dir [] = []
get_chunks_dir (c ∷ s) = colons s

module _ (format_int : ℕ → Bytes) (cfg : Config) (rocks : Rocks format_int cfg) where
  open rocks use {Db}

  -- A daemon: its metadata, and the chunk files in each chunk directory.
  pub record Node : Type 0 where
    pub db : Db
    pub chunks : Bytes → Chunks

  -- The reply's error code, and the daemon afterwards.
  abbrev pub after : Node → ℕ → Outcome Db → ℕ × Node
  after node code (done db) = (0, record node { db = db })
  after node code (thrown e) = (code, node)

  unfoldable pub srv_create : ℕ → Bytes → ℕ → Node → Option (ℕ × Node)
  srv_create time path mode node = elim (of_mode mode) [
    | none ↦ none
    | some md ↦
        some (after node minus_one (create_metadentry format_int cfg rocks time node.db path md))
  ]

  abbrev pub stat_reply : Outcome Bytes → ℕ × Bytes
  stat_reply (done v) = (0, v)
  stat_reply (thrown e) = (read_error e, [])

  unfoldable pub srv_stat : Bytes → Node → ℕ × Bytes
  srv_stat path node = stat_reply (db_get format_int cfg rocks node.db path)

  unfoldable pub srv_decr_size : Bytes → ℕ → Node → ℕ × Node
  srv_decr_size path length node =
      after node eio (db_decrease_size format_int cfg rocks node.db path length)

  -- destroy_chunk_space; a failure is only logged, and then leaves the chunks.
  unfoldable pub destroy_chunk_space : Bool → Bytes → (Bytes → Chunks) → Bytes → Chunks
  destroy_chunk_space removed path chunks dir id =
      if removed
      then (if same (get_chunks_dir path) dir then none else chunks dir id)
      else chunks dir id

  unfoldable pub srv_remove : Bool → Bytes → Node → ℕ × Node
  srv_remove removed path node = elim (db_remove format_int cfg rocks node.db path) [
    | done db ↦ (0, record { db = db; chunks = destroy_chunk_space removed path node.chunks })
    | thrown e ↦
        (elim e [ not_found_exception ↦ 0 | db_exception ↦ ebusy | assertion ↦ ebusy ], node)
  ]

  unfoldable pub srv_update_metadentry : Bytes → Changes → Node → ℕ × Node
  srv_update_metadentry path c node = after node 1 (
      get_metadentry format_int cfg rocks node.db path >>= λ md.
      update_metadentry format_int cfg rocks node.db path (changed c md))

  abbrev pub size_reply : ℕ → ℕ → Node → Outcome Db → (ℕ × ℕ) × Node
  size_reply in_size in_offset node (done db) =
      ((0, add64 in_size in_offset), record node { db = db })
  size_reply in_size in_offset node (thrown e) = ((read_error e, 0), node)

  -- The error code and ret_size; ret_size is what the request asked for, not what is stored.
  unfoldable pub srv_update_metadentry_size : Bytes → ℕ → ℕ → Bool → Node → (ℕ × ℕ) × Node
  srv_update_metadentry_size path in_size in_offset append node =
      size_reply in_size in_offset node
        (update_size format_int cfg rocks node.db path in_size in_offset append)

  abbrev pub get_size_reply : Outcome ℕ → ℕ × ℕ
  get_size_reply (done n) = (0, n)
  get_size_reply (thrown e) = (read_error e, 0)

  unfoldable pub srv_get_metadentry_size : Bytes → Node → ℕ × ℕ
  srv_get_metadentry_size path node = get_size_reply (get_size format_int cfg rocks node.db path)

  unfoldable pub srv_mk_symlink : ℕ → Bytes → Bytes → Node → ℕ × Node
  srv_mk_symlink time path target_path node = elim (of_link link_mode target_path) [
    | none ↦ (minus_one, node)
    | some md ↦ after node minus_one (create_metadentry format_int cfg rocks time node.db path md)
  ]
