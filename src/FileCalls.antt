-- ===== src/FileCalls.antt =====
-- Calls on paths: src/client/gkfs_functions.cpp and get_metadata of src/client/preload_util.cpp, over
-- the metadata calls of the client. HAS_SYMLINKS is on. `net i` is what becomes of the i-th request.
pub mod Laws
pub mod Truncate
pub mod Open
use gekko_fwd.Base.{
  ℕ, zero, suc, ◌+◌, ◌≤◌, List, [], ◌∷◌, Bool, true, false, not, ◌&&◌, ◌||◌, Option, none, some,
  ◌==◌, if◌then◌else◌, ltb, leb, length,
}
use gekko_fwd.Base.Words.{sign_bit}
use gekko_fwd.Decimal.{Bytes}
use gekko_fwd.Metadata.{
  Metadata, Config, parse, is_link, is_dir, is_reg, is_lnk, s_ifmt, get_target_path,
}
use gekko_fwd.PathUtil.{dirname}
use gekko_fwd.Distributor.{Distributor}
use gekko_fwd.DataPath.Forward as DataForward
use gekko_fwd.MetaStore.Rocks.{Rocks}
use gekko_fwd.MetaServer.{Node, enoent}
use gekko_fwd.MetaClient.{
  Delivery, Reply, returned, errno, Removal, removed, remove_errno, remove_thrown, forward_create,
  forward_stat, forward_remove, forward_decr_size, forward_mk_symlink,
}
use gekko_fwd.Dirents.{DirEntry}

-- What a call comes to: a value, -1 with `errno`, an exception or a failing assertion, or no end.
pub data Call {ℓ} (A : Type ℓ) : Type ℓ where
  value : A → Call A
  fails : ℕ → Call A
  throws : Call A
  unfinished : Call A

infixl 5 ◌>>=◌
abbrev pub ◌>>=◌ {ℓ κ} : {A : Type ℓ} {B : Type κ} → Call A → (A → Call B) → Call B
value a >>= f = f a
fails e >>= f = fails e
throws >>= f = throws
unfinished >>= f = unfinished

abbrev pub of_reply {ℓ} : {A : Type ℓ} → Reply A → Call A
of_reply (returned a) = value a
of_reply (errno e) = fails e

abbrev pub or_throws {ℓ} : {A : Type ℓ} → Option A → Call A
or_throws none = throws
or_throws (some a) = value a

abbrev pub of_removal : Removal → Call ℕ
of_removal removed = value 0
of_removal (remove_errno e) = fails e
of_removal remove_thrown = throws

-- errno values
abbrev pub eexist : ℕ
eexist = 17

abbrev pub enotdir : ℕ
enotdir = 20

abbrev pub einval : ℕ
einval = 22

abbrev pub enametoolong : ℕ
enametoolong = 36

abbrev pub enotempty : ℕ
enotempty = 39

abbrev pub eloop : ℕ
eloop = 40

abbrev pub enotsup : ℕ
enotsup = 95

-- The flags of open that the code looks at; O_RDWR and O_WRONLY as one.
pub record PathFlags : Type 0 where
  pub o_path : Bool
  pub o_append : Bool
  pub o_creat : Bool
  pub o_directory : Bool
  pub o_excl : Bool
  pub o_nofollow : Bool
  pub o_trunc : Bool
  pub writes : Bool

-- What is added to the open file map.
pub data Opened : Type 0 where
  file : Bytes → PathFlags → Opened
  dir : Bytes → List DirEntry → Opened

-- The file type of the mode of a creation: with none, a regular file.
unfoldable pub created_mode : ℕ → Call ℕ
created_mode mode =
    let type = s_ifmt mode in
    if type == 0
    then value (mode + 0o100000)
    else if type == 8 || type == 4
    then value mode
    else if type == 2 || type == 6 || type == 1 || type == 12
    then fails enotsup
    else fails einval

abbrev pub of_outcome : DataForward.Outcome → Call ℕ
of_outcome (DataForward.transferred n) = value n
of_outcome (DataForward.errno e) = fails e

module _ (format_int : ℕ → Bytes) (cfg : Config) (rocks : Rocks format_int cfg)
    (str_hash : Bytes → ℕ) (d : Distributor) where
  abbrev pub Daemons : Type 0
  Daemons = ℕ → Node format_int cfg rocks

  abbrev pub stat_at : (ℕ → Delivery) → ℕ → Bytes → Daemons → Call Bytes
  stat_at net i path nodes =
      of_reply (forward_stat format_int cfg rocks str_hash d (net i) path nodes)

  -- while (md.is_link()), on the value that was read last.
  unfoldable pub follow : ℕ → (ℕ → Delivery) → ℕ → Bytes → Daemons → Call Metadata
  follow zero net i attr nodes = unfinished
  follow (suc fuel) net i attr nodes = elim (parse cfg attr) [
    | none ↦ throws
    | some md ↦ elim (is_link md) [
      | false ↦ value md
      | true ↦ elim (or_throws (get_target_path md) >>= λ target. stat_at net i target nodes) [
        | value next ↦ follow fuel net (suc i) next nodes
        | fails e ↦ fails e
        | throws ↦ throws
        | unfinished ↦ unfinished
      ]
    ]
  ]

  unfoldable pub get_metadata : ℕ → (ℕ → Delivery) → Bytes → Bool → Daemons → Call Metadata
  unfolding follow
  get_metadata fuel net path follow_links nodes = stat_at net 0 path nodes >>= λ attr.
      if follow_links then follow fuel net 1 attr nodes else or_throws (parse cfg attr)

  -- get_metadata with follow_links as false.
  abbrev pub metadata_of : (ℕ → Delivery) → Bytes → Daemons → Call Metadata
  metadata_of net path nodes = get_metadata 0 net path false nodes

  unfoldable pub check_parent_dir : Bool → (ℕ → Delivery) → Bytes → Daemons → Call ℕ
  unfolding get_metadata
  check_parent_dir create_check_parents net path nodes =
      if create_check_parents
      then (or_throws (dirname path) >>= λ p_comp.
          metadata_of net p_comp nodes >>= λ md. if is_dir md.mode then value 0 else fails enotdir)
      else value 0

  abbrev pub with_reply : Daemons → Call (Reply ℕ × Daemons) → Call ℕ × Daemons
  with_reply nodes (value (r, next)) = (of_reply r, next)
  with_reply nodes (fails e) = (fails e, nodes)
  with_reply nodes throws = (throws, nodes)
  with_reply nodes unfinished = (unfinished, nodes)

  unfoldable pub gkfs_create : Bool → (ℕ → Delivery) → ℕ → Bytes → ℕ → Daemons → Call ℕ × Daemons
  unfolding created_mode check_parent_dir
  gkfs_create create_check_parents net time path mode nodes = with_reply nodes (
      created_mode mode >>= λ typed. check_parent_dir create_check_parents net path nodes >>= λ _.
      value (forward_create format_int cfg rocks str_hash d (net 1) time path typed nodes))

  abbrev pub with_removal : Daemons → Call (Removal × Daemons) → Call ℕ × Daemons
  with_removal nodes (value (r, next)) = (of_removal r, next)
  with_removal nodes (fails e) = (fails e, nodes)
  with_removal nodes throws = (throws, nodes)
  with_removal nodes unfinished = (unfinished, nodes)

  -- `later` is what becomes of the requests of forward_remove.
  unfoldable pub gkfs_remove :
      (ℕ → Delivery) → (ℕ → Delivery) → (ℕ → Bool) → ℕ → Bytes → Daemons → Call ℕ × Daemons
  unfolding get_metadata
  gkfs_remove net later destroyed hosts path nodes = with_removal nodes (
      metadata_of net path nodes >>= λ md.
      let has_data = is_reg md.mode && not (md.size == 0) in
      value (
        forward_remove format_int cfg rocks str_hash d later destroyed hosts path (not has_data)
          md.size nodes))

  -- Every error of get_metadata is ENOENT to these two.
  abbrev pub as_enoent {ℓ} : {A : Type ℓ} → Call A → Call A
  as_enoent (value a) = value a
  as_enoent (fails e) = fails enoent
  as_enoent throws = throws
  as_enoent unfinished = unfinished

  unfoldable pub gkfs_access : ℕ → (ℕ → Delivery) → Bytes → Bool → Daemons → Call ℕ
  unfolding get_metadata
  gkfs_access fuel net path follow_links nodes =
      as_enoent (get_metadata fuel net path follow_links nodes) >>= λ md. value 0

  -- `entries` is what forward_get_dirents lists, if it does not throw.
  unfoldable pub gkfs_rmdir :
      (ℕ → Delivery)
      → (ℕ → Delivery)
      → (ℕ → Bool)
      → ℕ
      → Option (List DirEntry)
      → Bytes
      → Daemons
      → Call ℕ × Daemons
  unfolding get_metadata
  gkfs_rmdir net later destroyed hosts entries path nodes = with_removal nodes (
      as_enoent (metadata_of net path nodes) >>= λ md.
      if is_dir md.mode
      then (or_throws entries >>= λ listed.
          if length listed == 0
          then value (
              forward_remove format_int cfg rocks str_hash d later destroyed hosts path true 0
                nodes)
          else fails enotempty)
      else fails enotdir)

  unfoldable pub gkfs_opendir :
      (ℕ → Delivery) → Option (List DirEntry) → Bytes → Daemons → Call Opened
  unfolding get_metadata
  gkfs_opendir net entries path nodes = metadata_of net path nodes >>= λ md.
      if is_dir md.mode
      then (or_throws entries >>= λ listed. value (dir path listed))
      else fails enotdir

  -- gkfs_truncate(path, old_size, new_size), of sizes that are not negative. `truncate_data` is
  -- forward_truncate for the two sizes.
  unfoldable pub truncate_to :
      Delivery → (ℕ → ℕ → DataForward.Outcome) → Bytes → ℕ → ℕ → Daemons → Call ℕ × Daemons
  truncate_to net truncate_data path old_size new_size nodes =
      let out = forward_decr_size format_int cfg rocks str_hash d net path new_size nodes in
      if leb new_size old_size
      then (if new_size == old_size then (value 0, nodes) else (
        of_reply out.0 >>= λ _. of_outcome (truncate_data old_size new_size) >>= λ _. value 0,
        out.1,
      ))
      else (throws, nodes)

  unfoldable pub gkfs_truncate :
      ℕ
      → (ℕ → Delivery)
      → Delivery
      → (ℕ → ℕ → DataForward.Outcome)
      → Bytes
      → ℕ
      → Daemons
      → Call ℕ × Daemons
  unfolding get_metadata truncate_to
  gkfs_truncate fuel net later truncate_data path len nodes =
      if leb sign_bit len
      then (fails einval, nodes)
      else elim (get_metadata fuel net path true nodes) [
        | value md ↦
            if ltb md.size len
            then (fails einval, nodes)
            else truncate_to later truncate_data path md.size len nodes
        | fails e ↦ (fails e, nodes)
        | throws ↦ (throws, nodes)
        | unfinished ↦ (unfinished, nodes)
      ]
