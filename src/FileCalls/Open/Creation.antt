-- ===== src/FileCalls/Open/Creation.antt =====
-- What gkfs_open of src/client/gkfs_functions.cpp with O_CREAT leaves of a path that is not there.
use gekko_fwd.Base.{
  ℕ, ◌+◌, ◌/◌, ◌%◌, ◌<◌, ◌≡◌, refl, sym, ap, ◌∙◌, Bool, true, false, some, Option, none, List, [],
  ◌∷◌, arith,
}
use gekko_fwd.Base.Words.{sign_bit}
use gekko_fwd.Decimal.{Bytes, to_string}
use gekko_fwd.Metadata.{Metadata, Config, of_mode, parse}
use gekko_fwd.Metadata.RoundTrip.{Fits}
use gekko_fwd.Distributor.{Distributor, locate_file_metadata}
use gekko_fwd.MetaStore.Rocks.{Rocks}
use gekko_fwd.MetaStore.Refinement.{IsAbsent, db_get-IsAbsent}
use gekko_fwd.MetaServer.{Node, srv_create, srv_stat, enoent}
use gekko_fwd.MetaServer.Laws.{stamped, shown}
use gekko_fwd.MetaClient.{
  Delivery, answered, joined, or_silent, Reply, returned, errno, code_reply, posted, forward_create,
  forward_stat,
}
use gekko_fwd.MetaClient.Laws.{forward_create-forward_stat}
use gekko_fwd.FileCalls.{
  Call, value, fails, throws, unfinished, ◌>>=◌, PathFlags, Opened, file, eexist, with_reply,
  get_metadata, metadata_of, check_parent_dir, created_mode, gkfs_create, Daemons,
}
use gekko_fwd.FileCalls.Open.{Round, opened, open_new, regular_mode, gkfs_open}

-- The flags of an open that may create a file.
pub record Creates (flags : PathFlags) : Type 0 where
  pub no_path : flags.o_path ≡ false
  pub no_append : flags.o_append ≡ false
  pub no_directory : flags.o_directory ≡ false
  pub creat : flags.o_creat ≡ true

regular_mode_lem : (mode : ℕ) → mode < 4096 → regular_mode mode ≡ mode + 32768
regular_mode_lem mode small = ground arith

created_mode_lem : (mode : ℕ) → mode < 4096 → created_mode (mode + 32768) ≡ value (mode + 32768)
unfolding created_mode
created_mode_lem mode small =
    let type : (mode + 32768) / 4096 % 16 ≡ 8 = omega arith in rw type refl

abbrev pub new_file : ℕ → Metadata
new_file mode = record {
  atime = 0;
  mtime = 0;
  ctime = 0;
  mode = mode;
  link_count = 0;
  size = 0;
  blocks = 0;
  target_path = [];
}

of_mode_lem : (mode : ℕ) → mode < 4096 → of_mode (mode + 32768) ≡ some (new_file (mode + 32768))
unfolding of_mode
of_mode_lem mode small = let type : (mode + 32768) / 4096 % 16 ≡ 8 = omega arith in rw type refl

stamped-Fits :
    (cfg : Config) (time mode : ℕ)
    → mode < 4096
    → time < sign_bit
    → Fits (stamped cfg time (new_file (mode + 32768)))
stamped-Fits cfg time mode small clock = record {
  mode_fits = omega arith;
  size_fits = omega arith;
  atime_fits = ground arith;
  mtime_fits = ground arith;
  ctime_fits = ground arith;
  link_count_fits = omega arith;
  blocks_fits = omega arith;
  only_links = refl;
}

module _ (format_int : ℕ → Bytes) (cfg : Config) (rocks : Rocks format_int cfg)
    (str_hash : Bytes → ℕ) (d : Distributor) (path : Bytes)
    (nodes : ℕ → Node format_int cfg rocks) where
  -- An open that creates and succeeds got through the check of the parent and the creation.
  created_first :
      (flags : PathFlags) (check : Call ℕ) (r : Reply ℕ)
      (next : Daemons format_int cfg rocks str_hash d) (o : Opened)
      → (opened format_int cfg rocks str_hash d path flags
          (with_reply format_int cfg rocks str_hash d nodes (check >>= λ _. value (r, next)))).0
        ≡ value o
      → ((v : ℕ) × (r ≡ returned v))
        × ((opened format_int cfg rocks str_hash d path flags
              (with_reply format_int cfg rocks str_hash d nodes (check >>= λ _. value (r, next)))).1
            ≡ next)
        × (o ≡ file path flags)
  created_first flags (value c) (returned v) next o e = ((v, refl), refl, cc)
  created_first flags (value c) (errno x) next o e = cc
  created_first flags (fails x) r next o e = cc
  created_first flags throws r next o e = cc
  created_first flags unfinished r next o e = cc

  returned_zero :
      (err : Option ℕ) (v : ℕ) → code_reply err ≡ returned v → code_reply err ≡ returned 0
  returned_zero none v e = cc
  returned_zero (some err) v e = ground arith

  metadata_of-IsAbsent :
      (net : ℕ → Delivery)
      → IsAbsent format_int cfg rocks (nodes (locate_file_metadata str_hash d path)).db path
      → net 0 ≡ answered
      → metadata_of format_int cfg rocks str_hash d net path nodes ≡ fails enoent
  unfolding get_metadata forward_stat posted srv_stat
  metadata_of-IsAbsent net gone reply =
      rw
        (
          get_metadata,
          reply,
          forward_stat,
          posted,
          srv_stat,
          (db_get-IsAbsent format_int cfg rocks (nodes (locate_file_metadata str_hash d path)).db
              path gone).0,
        )
        refl

  forward_create-zero :
      (time mode v : ℕ)
      → (forward_create format_int cfg rocks str_hash d answered time path mode nodes).0
        ≡ returned v
      → (forward_create format_int cfg rocks str_hash d answered time path mode nodes).0
        ≡ returned 0
  unfolding forward_create
  forward_create-zero time mode v e =
      returned_zero
        (joined format_int cfg rocks
          (posted format_int cfg rocks answered (locate_file_metadata str_hash d path)
            (λ node.
              or_silent format_int cfg rocks node
                (srv_create format_int cfg rocks time path mode node))
            nodes).0)
        v e

  pub metadata_of-stat :
      (net : ℕ → Delivery) (next : Daemons format_int cfg rocks str_hash d) (v : Bytes)
      (md : Metadata)
      → net 0 ≡ answered
      → forward_stat format_int cfg rocks str_hash d answered path next ≡ returned v
      → parse cfg v ≡ some md
      → metadata_of format_int cfg rocks str_hash d net path next ≡ value md
  unfolding get_metadata
  metadata_of-stat net next v md reply stat meaning = rw (get_metadata, reply, stat, meaning) refl

  gkfs_open-excl :
      (create_check_parents : Bool) (again : Round format_int cfg rocks str_hash d)
      (more : List (Round format_int cfg rocks str_hash d)) (mode : ℕ) (flags : PathFlags)
      (next : Daemons format_int cfg rocks str_hash d) (md : Metadata)
      → flags.o_path ≡ false
      → flags.o_append ≡ false
      → flags.o_excl ≡ true
      → metadata_of format_int cfg rocks str_hash d again.net path next ≡ value md
      → gkfs_open format_int cfg rocks str_hash d create_check_parents
          (again ∷ more)
          path
          mode
          flags
          next
        ≡ (fails eexist, next)
  unfolding gkfs_open
  gkfs_open-excl create_check_parents again more mode flags next md no_path no_append excl seen =
      simp (gkfs_open, no_path, no_append, seen, excl)

  gkfs_open-creation :
      (create_check_parents : Bool) (round : Round format_int cfg rocks str_hash d)
      (rounds : List (Round format_int cfg rocks str_hash d)) (mode : ℕ) (flags : PathFlags)
      → mode < 4096
      → IsAbsent format_int cfg rocks (nodes (locate_file_metadata str_hash d path)).db path
      → Creates flags
      → round.net 0 ≡ answered
      → round.later 1 ≡ answered
      → gkfs_open format_int cfg rocks str_hash d create_check_parents
          (round ∷ rounds)
          path
          mode
          flags
          nodes
        ≡ opened format_int cfg rocks str_hash d path flags (
            with_reply format_int cfg rocks str_hash d nodes (
              check_parent_dir format_int cfg rocks str_hash d create_check_parents round.later path
                nodes
              >>= λ _. value (
                  forward_create format_int cfg rocks str_hash d answered round.time path
                    (mode + 32768)
                    nodes)))
  unfolding gkfs_open open_new gkfs_create
  gkfs_open-creation create_check_parents round rounds mode flags small gone how reply created =
      simp (
        gkfs_open,
        how.no_path,
        how.no_append,
        metadata_of-IsAbsent round.net gone reply,
        open_new,
        how.creat,
        how.no_directory,
        gkfs_create,
        regular_mode_lem mode small,
        created_mode_lem mode small,
        created,
      )

  module _ (decimal : (n : ℕ) → format_int n ≡ to_string n) where
    -- With a decimal `format_int`, permission bits below 0o10000, a clock below 2 ^ 63 and a path
    -- that has no entry, where the requests for its metadata and its creation are answered: if an
    -- open with O_CREAT and without O_DIRECTORY, O_PATH and O_APPEND succeeds, it opens the path as
    -- a file; the path's metadata are then those of an empty regular file with the permission bits
    -- and the time in the members that the configuration keeps; and an open with O_EXCL, without
    -- O_PATH and O_APPEND, fails with EEXIST and changes nothing.
    pub gkfs_open-gkfs_open :
        (create_check_parents : Bool) (round again : Round format_int cfg rocks str_hash d)
        (rounds more : List (Round format_int cfg rocks str_hash d)) (mode other_mode : ℕ)
        (flags other : PathFlags) (o : Opened)
        → mode < 4096
        → round.time < sign_bit
        → IsAbsent format_int cfg rocks (nodes (locate_file_metadata str_hash d path)).db path
        → Creates flags
        → other.o_path ≡ false
        → other.o_append ≡ false
        → other.o_excl ≡ true
        → round.net 0 ≡ answered
        → round.later 1 ≡ answered
        → again.net 0 ≡ answered
        → (gkfs_open format_int cfg rocks str_hash d create_check_parents
            (round ∷ rounds)
            path
            mode
            flags
            nodes).0
          ≡ value o
        → (o ≡ file path flags)
          × (metadata_of format_int cfg rocks str_hash d again.net path
                (gkfs_open format_int cfg rocks str_hash d create_check_parents
                  (round ∷ rounds)
                  path
                  mode
                  flags
                  nodes).1
              ≡ value (shown cfg (stamped cfg round.time (new_file (mode + 32768))) 0))
          × (gkfs_open format_int cfg rocks str_hash d create_check_parents
                (again ∷ more)
                path
                other_mode
                other
                (gkfs_open format_int cfg rocks str_hash d create_check_parents
                  (round ∷ rounds)
                  path
                  mode
                  flags
                  nodes).1
              ≡ (
                fails eexist,
                (gkfs_open format_int cfg rocks str_hash d create_check_parents
                    (round ∷ rounds)
                    path
                    mode
                    flags
                    nodes).1,
              ))
    gkfs_open-gkfs_open create_check_parents round again rounds more mode other_mode flags other o
          small clock gone how no_path no_append excl reply created reply_again ok =
        let make =
          forward_create format_int cfg rocks str_hash d answered round.time path (mode + 32768)
            nodes in
        let check =
          check_parent_dir format_int cfg rocks str_hash d create_check_parents round.later path
            nodes in
        let run =
          gkfs_open-creation create_check_parents round rounds mode flags small gone how reply
            created in
        let ((v, first), after, same) = created_first flags check make.0 make.1 o (
          sym (ap (λ (p : Call Opened × Daemons format_int cfg rocks str_hash d). p.0) run) ∙ ok) in
        let (bytes, stat, meaning) =
          forward_create-forward_stat format_int cfg rocks str_hash d nodes path decimal round.time
            (mode + 32768) (new_file (mode + 32768)) (of_mode_lem mode small)
            (stamped-Fits cfg round.time mode small clock) gone
            (forward_create-zero round.time (mode + 32768) v first) in
        let next =
          ap (λ (p : Call Opened × Daemons format_int cfg rocks str_hash d). p.1) run ∙ after in
        let seen =
          metadata_of-stat again.net make.1 bytes
            (shown cfg (stamped cfg round.time (new_file (mode + 32768))) 0) reply_again stat
            meaning in
        rw next (
          same,
          seen,
          gkfs_open-excl create_check_parents again more other_mode other make.1
              (shown cfg (stamped cfg round.time (new_file (mode + 32768))) 0) no_path no_append
              excl seen,
        )
