-- ===== src/FileCalls/Open/Links.antt =====
-- gkfs_mk_symlink and gkfs_readlink of src/client/gkfs_functions.cpp, one after the other.
use gekko_fwd.Base.{
  ℕ, ◌+◌, ◌<◌, ◌≡◌, refl, sym, ap, ◌∙◌, Bool, true, false, some, ◌∷◌, ◌++◌, if◌then◌else◌, arith,
  leb, length,
}
use gekko_fwd.Base.Words.{sign_bit}
use gekko_fwd.Decimal.{Bytes, to_string}
use gekko_fwd.Metadata.{Metadata, Config, link_mode, of_link, is_link, get_target_path}
use gekko_fwd.Metadata.RoundTrip.{Fits}
use gekko_fwd.Distributor.{Distributor, locate_file_metadata}
use gekko_fwd.MetaStore.Rocks.{Rocks}
use gekko_fwd.MetaStore.Refinement.{IsAbsent}
use gekko_fwd.MetaStore.Live.{value_of}
use gekko_fwd.MetaServer.{Node, srv_mk_symlink}
use gekko_fwd.MetaServer.Laws.{
  stamped, shown, parse-value_of, srv_stat-Holds, srv_mk_symlink-absent,
}
use gekko_fwd.MetaClient.{
  Delivery, answered, Reply, returned, errno, at_host, code_reply, posted, forward_mk_symlink,
}
use gekko_fwd.MetaClient.Laws.{forward_stat-home}
use gekko_fwd.FileCalls.{
  Call, value, fails, throws, unfinished, ◌>>=◌, eexist, enotsup, enametoolong, Daemons,
  check_parent_dir, metadata_of,
}
use gekko_fwd.FileCalls.Open.{
  target_refused, link_exists, with_link, gkfs_mk_symlink, gkfs_readlink,
}
use gekko_fwd.FileCalls.Open.Creation.{metadata_of-stat}

abbrev new_link : Bytes → Metadata
new_link target_path = record {
  atime = 0;
  mtime = 0;
  ctime = 0;
  mode = link_mode;
  link_count = 0;
  size = 0;
  blocks = 0;
  target_path = target_path;
}

of_link_lem : (s : Bytes) → of_link link_mode (b'/' ∷ s) ≡ some (new_link (b'/' ∷ s))
unfolding of_link
of_link_lem s = refl

new_link-Fits :
    (cfg : Config) (time : ℕ) (s : Bytes)
    → time < sign_bit
    → Fits (stamped cfg time (new_link (b'/' ∷ s)))
new_link-Fits cfg time s clock = record {
  mode_fits = omega arith;
  size_fits = omega arith;
  atime_fits = ground arith;
  mtime_fits = ground arith;
  ctime_fits = ground arith;
  link_count_fits = omega arith;
  blocks_fits = omega arith;
  only_links = refl;
}

zero_code : (err v : ℕ) → code_reply (some err) ≡ returned v → err ≡ 0
zero_code err v e = ground arith

link_shown :
    (cfg : Config) (time : ℕ) (s : Bytes)
    → is_link (shown cfg (stamped cfg time (new_link (b'/' ∷ s))) 0) ≡ true
unfolding is_link
link_shown cfg time s = refl

target_shown :
    (cfg : Config) (time : ℕ) (s : Bytes)
    → get_target_path (shown cfg (stamped cfg time (new_link (b'/' ∷ s))) 0) ≡ some (b'/' ∷ s)
unfolding get_target_path
target_shown cfg time s = refl

module _ (format_int : ℕ → Bytes) (cfg : Config) (rocks : Rocks format_int cfg)
    (str_hash : Bytes → ℕ) (d : Distributor) (path : Bytes)
    (nodes : ℕ → Node format_int cfg rocks) where
  -- A link that is made got through the checks of the target, the parent and the path.
  link_first :
      (target check : Call Bool) (parent : Call ℕ) (r : Reply ℕ)
      (next : Daemons format_int cfg rocks str_hash d) (v : ℕ)
      → (with_link format_int cfg rocks str_hash d nodes (
          target >>= λ refused.
          if refused
          then fails enotsup
          else (parent >>= λ _.
              check >>= λ exists. if exists then fails eexist else value (r, next)))).0
        ≡ value v
      → (r ≡ returned v)
        × ((with_link format_int cfg rocks str_hash d nodes (
              target >>= λ refused.
              if refused
              then fails enotsup
              else (parent >>= λ _.
                  check >>= λ exists. if exists then fails eexist else value (r, next)))).1
            ≡ next)
  link_first (value false) (value false) (value p) (returned w) next v e = (cc, refl)
  link_first (value false) (value false) (value p) (errno x) next v e = cc
  link_first (value false) (value true) (value p) r next v e = cc
  link_first (value false) (fails x) (value p) r next v e = cc
  link_first (value false) throws (value p) r next v e = cc
  link_first (value false) unfinished (value p) r next v e = cc
  link_first (value false) check (fails x) r next v e = cc
  link_first (value false) check throws r next v e = cc
  link_first (value false) check unfinished r next v e = cc
  link_first (value true) check parent r next v e = cc
  link_first (fails x) check parent r next v e = cc
  link_first throws check parent r next v e = cc
  link_first unfinished check parent r next v e = cc

  gkfs_readlink-link :
      (net : ℕ → Delivery) (next : Daemons format_int cfg rocks str_hash d) (md : Metadata)
      (target mountdir : Bytes) (bufsize : ℕ)
      → is_link md ≡ true
      → get_target_path md ≡ some target
      → metadata_of format_int cfg rocks str_hash d net path next ≡ value md
      → gkfs_readlink format_int cfg rocks str_hash d net mountdir path bufsize next ≡ (
          if leb bufsize (length target + length mountdir)
          then fails enametoolong
          else value (length target + length mountdir, mountdir ++ target))
  unfolding gkfs_readlink
  gkfs_readlink-link net next md target mountdir bufsize link points seen =
      rw (gkfs_readlink, seen, link, points) refl

  module _ (decimal : (n : ℕ) → format_int n ≡ to_string n) where
    -- The metadata of a link that a request made.
    metadata_of-forward_mk_symlink :
        (net : ℕ → Delivery) (time v : ℕ) (s : Bytes)
        → time < sign_bit
        → IsAbsent format_int cfg rocks (nodes (locate_file_metadata str_hash d path)).db path
        → net 0 ≡ answered
        → (forward_mk_symlink format_int cfg rocks str_hash d answered time path (b'/' ∷ s) nodes).0
          ≡ returned v
        → metadata_of format_int cfg rocks str_hash d net path
            (forward_mk_symlink format_int cfg rocks str_hash d answered time path
              (b'/' ∷ s)
              nodes).1
          ≡ value (shown cfg (stamped cfg time (new_link (b'/' ∷ s))) 0)
    unfolding forward_mk_symlink posted
    metadata_of-forward_mk_symlink net time v s clock gone reply e =
        let home = nodes (locate_file_metadata str_hash d path) in
        let link = stamped cfg time (new_link (b'/' ∷ s)) in
        let fits = new_link-Fits cfg time s clock in
        let out = srv_mk_symlink format_int cfg rocks time path (b'/' ∷ s) home in
        let held =
          srv_mk_symlink-absent format_int cfg rocks decimal time path (b'/' ∷ s)
            (new_link (b'/' ∷ s)) home out.1 (of_link_lem s) fits gone
            (ap (λ (err : ℕ). (err, out.1)) (zero_code out.0 v e)) in
        metadata_of-stat format_int cfg rocks str_hash d path nodes net
          (at_host format_int cfg rocks nodes (locate_file_metadata str_hash d path) out.1)
          (value_of format_int cfg link 0) (shown cfg link 0) reply
          (forward_stat-home format_int cfg rocks str_hash d nodes path out.1
            ∙ rw (srv_stat-Holds format_int cfg rocks decimal path out.1 link 0 held) refl)
          (parse-value_of format_int cfg rocks decimal link 0 fits (omega arith))

    -- With a decimal `format_int`, a clock below 2 ^ 63, a path that has no entry and a target that
    -- starts with a separator, where the requests for the creation of the link and for its metadata
    -- are answered: after a gkfs_mk_symlink that succeeds, gkfs_readlink gives the mount directory
    -- followed by the target, and its length, if that is below the size of the buffer, and fails
    -- with ENAMETOOLONG if not.
    pub gkfs_mk_symlink-gkfs_readlink :
        (create_check_parents : Bool) (net : ℕ → ℕ → Delivery) (reading : ℕ → Delivery) (time v : ℕ)
        (s mountdir : Bytes) (bufsize : ℕ)
        → time < sign_bit
        → IsAbsent format_int cfg rocks (nodes (locate_file_metadata str_hash d path)).db path
        → net 3 0 ≡ answered
        → reading 0 ≡ answered
        → (gkfs_mk_symlink format_int cfg rocks str_hash d create_check_parents net time path
            (b'/' ∷ s)
            nodes).0
          ≡ value v
        → gkfs_readlink format_int cfg rocks str_hash d reading mountdir path bufsize
            (gkfs_mk_symlink format_int cfg rocks str_hash d create_check_parents net time path
              (b'/' ∷ s)
              nodes).1
          ≡ (if leb bufsize (length (b'/' ∷ s) + length mountdir)
              then fails enametoolong
              else value (length (b'/' ∷ s) + length mountdir, mountdir ++ b'/' ∷ s))
    unfolding gkfs_mk_symlink
    gkfs_mk_symlink-gkfs_readlink create_check_parents net reading time v s mountdir bufsize clock
          gone reply reply_reading ok =
        let make =
          forward_mk_symlink format_int cfg rocks str_hash d (net 3 0) time path (b'/' ∷ s) nodes in
        let (first, after) =
          link_first
            (target_refused (metadata_of format_int cfg rocks str_hash d (net 0) (b'/' ∷ s) nodes))
            (link_exists (metadata_of format_int cfg rocks str_hash d (net 2) path nodes))
            (check_parent_dir format_int cfg rocks str_hash d create_check_parents (net 1) path
              nodes)
            make.0 make.1 v ok in
        let sent : make
            ≡ forward_mk_symlink format_int cfg rocks str_hash d answered time path (b'/' ∷ s)
                nodes =
          rw reply refl in
        let seen = metadata_of-forward_mk_symlink reading time v s clock gone reply_reading (
          ap (λ (p : Reply ℕ × Daemons format_int cfg rocks str_hash d). p.0) (sym sent) ∙ first) in
        rw (after, sent)
          (gkfs_readlink-link reading
            (forward_mk_symlink format_int cfg rocks str_hash d answered time path (b'/' ∷ s)
              nodes).1
            (shown cfg (stamped cfg time (new_link (b'/' ∷ s))) 0) (b'/' ∷ s) mountdir bufsize
            (link_shown cfg time s) (target_shown cfg time s) seen)
