-- ===== src/FileCalls/Open.antt =====
-- gkfs_open, gkfs_mk_symlink and gkfs_readlink of src/client/gkfs_functions.cpp.
pub mod Truncation
pub mod Creation
pub mod Links
use gekko_fwd.Base.{
  ℕ, ◌+◌, ◌/◌, ◌%◌, List, [], ◌∷◌, ◌++◌, Bool, true, false, not, ◌&&◌, ◌||◌, Option, none, some,
  ◌==◌, if◌then◌else◌, leb, length,
}
use gekko_fwd.Decimal.{Bytes}
use gekko_fwd.Metadata.{Metadata, Config, is_link, is_dir, is_reg, is_lnk, get_target_path}
use gekko_fwd.Distributor.{Distributor}
use gekko_fwd.DataPath.Forward as DataForward
use gekko_fwd.OpenFileMap.Defs.{FileType, regular, directory}
use gekko_fwd.MetaStore.Rocks.{Rocks}
use gekko_fwd.MetaServer.{enoent}
use gekko_fwd.MetaClient.{Delivery, Reply, forward_mk_symlink, forward_update_metadentry_size}
use gekko_fwd.Dirents.{DirEntry}
use gekko_fwd.FileCalls.{
  Call, value, fails, throws, unfinished, ◌>>=◌, of_reply, or_throws, of_outcome, eexist, einval,
  enametoolong, eloop, enotsup, PathFlags, Opened, file, Daemons, metadata_of, check_parent_dir,
  gkfs_create, gkfs_opendir, truncate_to,
}

-- EISDIR
abbrev pub eisdir : ℕ
eisdir = 21

-- mode | S_IFREG
abbrev pub regular_mode : ℕ → ℕ
regular_mode mode = if mode / 32768 % 2 == 1 then mode else mode + 32768

-- A target that is a directory is refused; one that is not there is not.
abbrev pub target_refused : Call Metadata → Call Bool
target_refused (value md) =
    if is_reg md.mode || is_lnk md.mode
    then value false
    else if is_dir md.mode
    then value true
    else throws
target_refused (fails e) = value false
target_refused throws = throws
target_refused unfinished = unfinished

abbrev pub link_exists : Call Metadata → Call Bool
link_exists (value md) = value true
link_exists (fails e) = value false
link_exists throws = throws
link_exists unfinished = unfinished

module _ (format_int : ℕ → Bytes) (cfg : Config) (rocks : Rocks format_int cfg)
    (str_hash : Bytes → ℕ) (d : Distributor) where
  -- The environment of one round: what becomes of its requests, the clock, what forward_get_dirents
  -- lists of the path, and forward_truncate of the path.
  pub record Round : Type 0 where
    pub net : ℕ → Delivery
    pub later : ℕ → Delivery
    pub truncating : Delivery
    pub time : ℕ
    pub entries : Option (List DirEntry)
    pub truncate_data : ℕ → ℕ → DataForward.Outcome

  abbrev pub opened :
      Bytes
      → PathFlags
      → Call ℕ × Daemons format_int cfg rocks str_hash d
      → Call Opened × Daemons format_int cfg rocks str_hash d
  opened path flags (r, nodes) = (r >>= λ _. value (file path flags), nodes)

  -- The path is not there.
  unfoldable pub open_new :
      Bool
      → Round
      → Bytes
      → ℕ
      → PathFlags
      → Daemons format_int cfg rocks str_hash d
      → Call Opened × Daemons format_int cfg rocks str_hash d
  open_new create_check_parents round path mode flags nodes =
      if not flags.o_creat
      then (fails enoent, nodes)
      else if flags.o_directory
      then (fails enotsup, nodes)
      else opened path flags (
          gkfs_create format_int cfg rocks str_hash d create_check_parents round.later round.time
            path mode nodes)

  -- The path is there and no link.
  unfoldable pub open_existing :
      Round
      → Bytes
      → Metadata
      → PathFlags
      → Daemons format_int cfg rocks str_hash d
      → Call Opened × Daemons format_int cfg rocks str_hash d
  open_existing round path md flags nodes =
      if is_dir md.mode
      then (
        gkfs_opendir format_int cfg rocks str_hash d round.later round.entries path nodes,
        nodes,
      )
      else if not (is_reg md.mode)
      then (throws, nodes)
      else if flags.o_trunc && flags.writes
      then opened path flags (
          truncate_to format_int cfg rocks str_hash d round.truncating round.truncate_data path
            md.size 0 nodes)
      else (value (file path flags), nodes)

  -- `rounds`: one for the path and one for each link that is followed.
  unfoldable pub gkfs_open :
      Bool
      → List Round
      → Bytes
      → ℕ
      → PathFlags
      → Daemons format_int cfg rocks str_hash d
      → Call Opened × Daemons format_int cfg rocks str_hash d
  unfolding open_new open_existing
  gkfs_open create_check_parents [] path mode flags nodes = (unfinished, nodes)
  gkfs_open create_check_parents (round ∷ rounds) path mode flags nodes =
      if flags.o_path || flags.o_append
      then (fails enotsup, nodes)
      else elim (metadata_of format_int cfg rocks str_hash d round.net path nodes) [
        | fails e ↦
            if e == enoent
            then open_new create_check_parents round path (regular_mode mode) flags nodes
            else (fails e, nodes)
        | throws ↦ (throws, nodes)
        | unfinished ↦ (unfinished, nodes)
        | value md ↦ elim flags.o_excl [
          | true ↦ (fails eexist, nodes)
          | false ↦ elim (is_link md) [
            | false ↦ open_existing round path md flags nodes
            | true ↦ elim flags.o_nofollow [
              | true ↦ (fails eloop, nodes)
              | false ↦ elim (get_target_path md) [
                | none ↦ (throws, nodes)
                | some target ↦ gkfs_open create_check_parents rounds target mode flags nodes
              ]
            ]
          ]
        ]
      ]

  abbrev pub with_link :
      Daemons format_int cfg rocks str_hash d
      → Call (Reply ℕ × Daemons format_int cfg rocks str_hash d)
      → Call ℕ × Daemons format_int cfg rocks str_hash d
  with_link nodes (value (r, next)) = (of_reply r, next)
  with_link nodes (fails e) = (fails e, nodes)
  with_link nodes throws = (throws, nodes)
  with_link nodes unfinished = (unfinished, nodes)

  -- The requests for the target, the parent, the link and the creation meet `net` each.
  unfoldable pub gkfs_mk_symlink :
      Bool
      → (ℕ → ℕ → Delivery)
      → ℕ
      → Bytes
      → Bytes
      → Daemons format_int cfg rocks str_hash d
      → Call ℕ × Daemons format_int cfg rocks str_hash d
  gkfs_mk_symlink create_check_parents net time path target_path nodes = with_link nodes (
      target_refused (metadata_of format_int cfg rocks str_hash d (net 0) target_path nodes)
      >>= λ refused.
          if refused
          then fails enotsup
          else (check_parent_dir format_int cfg rocks str_hash d create_check_parents (net 1) path
                nodes
              >>= λ _.
                  link_exists (metadata_of format_int cfg rocks str_hash d (net 2) path nodes)
                  >>= λ exists.
                      if exists
                      then fails eexist
                      else value (
                          forward_mk_symlink format_int cfg rocks str_hash d (net 3 0) time path
                            target_path nodes)))

  -- The length that is returned and what is in the buffer. For sizes below 2 ^ 31.
  unfoldable pub gkfs_readlink :
      (ℕ → Delivery)
      → Bytes
      → Bytes
      → ℕ
      → Daemons format_int cfg rocks str_hash d
      → Call (ℕ × Bytes)
  gkfs_readlink net mountdir path bufsize nodes =
      metadata_of format_int cfg rocks str_hash d net path nodes >>= λ md.
      if not (is_link md)
      then fails einval
      else (or_throws (get_target_path md) >>= λ target.
          let path_size = length target + length mountdir in
          if leb bufsize path_size
          then fails enametoolong
          else value (path_size, mountdir ++ target))
