-- ===== src/MetaServer/Laws.antt =====
-- The handlers of src/daemon/handler/srv_metadata.cpp on what the entries of the store stand for.
use gekko_fwd.Base.{ℕ, ◌<◌, ◌≡◌, refl, ◌∙◌, [], Bool, some, if◌then◌else◌, arith, max, subst}
use gekko_fwd.Base.Words.{word, sign_bit, add64}
use gekko_fwd.Decimal.{Bytes, to_string}
use gekko_fwd.Metadata.{Metadata, Config, link_mode, of_mode, of_link, parse, serialize}
use gekko_fwd.Metadata.RoundTrip.{Fits, kept, read_back, read_member-stored, parse-serialize}
use gekko_fwd.Merge.{increase_size, create, serialize_operand}
use gekko_fwd.MetaStore.Rocks.{Rocks, same_self}
use gekko_fwd.MetaStore.Db.{
  Outcome, done, thrown, not_found_exception, db_exception, assertion, db_get, db_increase_size,
  db_decrease_size, get_metadentry, get_size, create_metadentry, update_size,
}
use gekko_fwd.MetaStore.Live.{value_of}
use gekko_fwd.MetaStore.Refinement.{
  Holds, IsAbsent, db_put-absent, db_increase_size_lem, db_decrease_size_lem, db_get-Holds,
  db_put-written, from_written,
}
use gekko_fwd.MetaStore.View.{
  absent, broken, Represents, answer-Represents, Represents-grow, Represents-put,
}
use gekko_fwd.MetaServer.{
  Node, after, minus_one, srv_mk_symlink, srv_decr_size, size_reply, ebusy, srv_create, srv_stat,
  srv_update_metadentry_size, srv_get_metadentry_size,
}

-- The metadata that metadata::create writes at a time of the clock.
abbrev pub stamped : Config → ℕ → Metadata → Metadata
stamped cfg time md = record md {
  atime = if cfg.use_atime then time else md.atime;
  mtime = if cfg.use_mtime then time else md.mtime;
  ctime = if cfg.use_ctime then time else md.ctime;
}

-- What a client reads back of stored metadata whose size has become n.
abbrev pub shown : Config → Metadata → ℕ → Metadata
shown cfg md n = record (read_back cfg md) { size = n }

module _ (format_int : ℕ → Bytes) (cfg : Config) (rocks : Rocks format_int cfg) where
  open rocks use {Db, entry}

  module _ (decimal : (n : ℕ) → format_int n ≡ to_string n) where
    pub parse-value_of :
        (md : Metadata) (n : ℕ)
        → Fits md
        → n < sign_bit
        → parse cfg (value_of format_int cfg md n) ≡ some (shown cfg md n)
    parse-value_of md n fits small =
        parse-serialize format_int decimal cfg (record (kept cfg md) { size = n }) (ground arith)
        ∙ simp read_member-stored

    pub srv_stat-Holds :
        (path : Bytes) (node : Node format_int cfg rocks) (md : Metadata) (n : ℕ)
        → Holds format_int cfg rocks node.db path md n
        → srv_stat format_int cfg rocks path node ≡ (0, value_of format_int cfg md n)
    unfolding srv_stat
    srv_stat-Holds path node md n h =
        rw (db_get-Holds format_int cfg rocks decimal node.db path md n h).0 refl

    pub srv_get_metadentry_size-Holds :
        (path : Bytes) (node : Node format_int cfg rocks) (md : Metadata) (n : ℕ)
        → Holds format_int cfg rocks node.db path md n
        → Fits md
        → n < sign_bit
        → srv_get_metadentry_size format_int cfg rocks path node ≡ (0, n)
    unfolding srv_get_metadentry_size get_size get_metadentry
    srv_get_metadentry_size-Holds path node md n h fits small =
        rw
          (
            (db_get-Holds format_int cfg rocks decimal node.db path md n h).0,
            parse-value_of md n fits small,
          )
          refl

    -- An entry that is written with code 0 for a path that has none.
    create_metadentry-absent :
        (time : ℕ) (path : Bytes) (md : Metadata) (node next : Node format_int cfg rocks)
        → Fits (stamped cfg time md)
        → IsAbsent format_int cfg rocks node.db path
        → after format_int cfg rocks node minus_one
            (create_metadentry format_int cfg rocks time node.db path md)
          ≡ (0, next)
        → Holds format_int cfg rocks next.db path (stamped cfg time md) md.size
    unfolding create_metadentry
    create_metadentry-absent time path md node next fits gone h =
        by_outcome (create_metadentry format_int cfg rocks time node.db path md) refl h
      where
        by_outcome :
            (o : Outcome Db)
            → create_metadentry format_int cfg rocks time node.db path md ≡ o
            → after format_int cfg rocks node minus_one o ≡ (0, next)
            → Holds format_int cfg rocks next.db path (stamped cfg time md) md.size
        by_outcome (thrown why) q r = absurd (ground arith)
        by_outcome (done db) q r =
            let same_db : db ≡ next.db = ground arith in
            subst (λ b. Holds format_int cfg rocks b path (stamped cfg time md) md.size) same_db
              (db_put-absent format_int cfg rocks node.db db path (stamped cfg time md) md.size gone
                fits q).0

    -- A creation that is answered with 0, of a path that has no entry.
    pub srv_create-absent :
        (time : ℕ) (path : Bytes) (mode : ℕ) (md : Metadata) (node next : Node format_int cfg rocks)
        → of_mode mode ≡ some md
        → Fits (stamped cfg time md)
        → IsAbsent format_int cfg rocks node.db path
        → srv_create format_int cfg rocks time path mode node ≡ some (0, next)
        → Holds format_int cfg rocks next.db path (stamped cfg time md) md.size
    unfolding srv_create
    srv_create-absent time path mode md node next e fits gone h =
        let answer = rw (e, srv_create) at h in
        create_metadentry-absent time path md node next fits gone cc

    -- The same for a link.
    pub srv_mk_symlink-absent :
        (time : ℕ) (path target_path : Bytes) (md : Metadata)
        (node next : Node format_int cfg rocks)
        → of_link link_mode target_path ≡ some md
        → Fits (stamped cfg time md)
        → IsAbsent format_int cfg rocks node.db path
        → srv_mk_symlink format_int cfg rocks time path target_path node ≡ (0, next)
        → Holds format_int cfg rocks next.db path (stamped cfg time md) md.size
    unfolding srv_mk_symlink
    srv_mk_symlink-absent time path target_path md node next e fits gone h =
        create_metadentry-absent time path md node next fits gone (rw (e, srv_mk_symlink) at h)

    pub srv_update_metadentry_size-Holds :
        (path : Bytes) (size offset : ℕ) (append : Bool) (node next : Node format_int cfg rocks)
        (md : Metadata) (n ret_size : ℕ)
        → Holds format_int cfg rocks node.db path md n
        → srv_update_metadentry_size format_int cfg rocks path size offset append node
          ≡ ((0, ret_size), next)
        → Holds format_int cfg rocks next.db path md
            (if append then add64 n (add64 size offset) else max (add64 size offset) n)
    unfolding srv_update_metadentry_size update_size add64
    srv_update_metadentry_size-Holds path size offset append node next md n ret_size h r =
        by_outcome (db_increase_size format_int cfg rocks node.db path (add64 size offset) append)
          refl r
      where
        by_outcome :
            (o : Outcome Db)
            → db_increase_size format_int cfg rocks node.db path (add64 size offset) append ≡ o
            → size_reply format_int cfg rocks size offset node o ≡ ((0, ret_size), next)
            → Holds format_int cfg rocks next.db path md
                (if append then add64 n (add64 size offset) else max (add64 size offset) n)
        by_outcome (thrown not_found_exception) q e = absurd (ground arith)
        by_outcome (thrown db_exception) q e = absurd (ground arith)
        by_outcome (thrown assertion) q e = absurd (ground arith)
        by_outcome (done db) q e =
            let same_db : db ≡ next.db = ground arith in
            subst
              (λ b.
                Holds format_int cfg rocks b path md
                  (if append then add64 n (add64 size offset) else max (add64 size offset) n))
              same_db
              (db_increase_size_lem format_int cfg rocks node.db db path md n (add64 size offset)
                append h (omega arith) q).0

    -- A size update of a path without an entry that the store carries out.
    pub srv_update_metadentry_size-absent :
        (path : Bytes) (size offset : ℕ) (append : Bool) (node : Node format_int cfg rocks)
        (db : Db)
        → IsAbsent format_int cfg rocks node.db path
        → db_increase_size format_int cfg rocks node.db path (add64 size offset) append ≡ done db
        → (srv_update_metadentry_size format_int cfg rocks path size offset append node
            ≡ ((0, add64 size offset), record node { db = db }))
          × Represents format_int cfg (entry db path) broken
    unfolding srv_update_metadentry_size update_size db_increase_size add64
    srv_update_metadentry_size-absent path size offset append node db gone e =
        let op = increase_size (add64 size offset) append in
        let m =
          from_written format_int cfg rocks (rocks.merge node.db path (serialize_operand op)) db
            e in
        (
          rw e refl,
          rw (rocks.merge_law node.db db path (serialize_operand op) path m, same_self path)
              (Represents-grow format_int cfg decimal (entry node.db path) absent
                (add64 size offset) append (omega arith) gone),
        )

    pub srv_stat-broken :
        (path : Bytes) (node : Node format_int cfg rocks)
        → Represents format_int cfg (entry node.db path) broken
        → srv_stat format_int cfg rocks path node ≡ (ebusy, [])
    unfolding srv_stat db_get
    srv_stat-broken path node h =
        rw
          (
            rocks.get_law node.db path,
            answer-Represents format_int cfg decimal (entry node.db path) broken h,
          )
          refl

    -- A creation that is answered with 0 leaves such an entry as it is.
    pub srv_create-broken :
        (time : ℕ) (path : Bytes) (mode : ℕ) (md : Metadata) (node next : Node format_int cfg rocks)
        → of_mode mode ≡ some md
        → Fits (stamped cfg time md)
        → Represents format_int cfg (entry node.db path) broken
        → srv_create format_int cfg rocks time path mode node ≡ some (0, next)
        → Represents format_int cfg (entry next.db path) broken
    unfolding srv_create create_metadentry
    srv_create-broken time path mode md node next e fits bad h =
        by_outcome (create_metadentry format_int cfg rocks time node.db path md) refl
          (rw (e, srv_create) at h)
      where
        by_outcome :
            (o : Outcome Db)
            → create_metadentry format_int cfg rocks time node.db path md ≡ o
            → some (after format_int cfg rocks node 4294967295 o) ≡ some (0, next)
            → Represents format_int cfg (entry next.db path) broken
        by_outcome (thrown why) q r = absurd (ground arith)
        by_outcome (done db) q r =
            let same_db : db ≡ next.db = ground arith in
            let val = serialize format_int cfg (stamped cfg time md) in
            let m = db_put-written format_int cfg rocks node.db db path val q in
            subst (λ b. Represents format_int cfg (entry b path) broken) same_db
              (rw
                (
                  rocks.merge_law node.db db path (serialize_operand (create val)) path m,
                  same_self path,
                )
                (Represents-put format_int cfg decimal (entry node.db path) broken
                  (stamped cfg time md) fits bad))

  -- A shrinking that is answered with 0, to a size below that of the file.
  pub srv_decr_size-Holds :
      (path : Bytes) (len : ℕ) (node next : Node format_int cfg rocks) (md : Metadata) (n : ℕ)
      → Holds format_int cfg rocks node.db path md n
      → len < n
      → len < word
      → srv_decr_size format_int cfg rocks path len node ≡ (0, next)
      → Holds format_int cfg rocks next.db path md len
  unfolding srv_decr_size
  srv_decr_size-Holds path len node next md n h less fits r =
      by_outcome (db_decrease_size format_int cfg rocks node.db path len) refl r
    where
      by_outcome :
          (o : Outcome Db)
          → db_decrease_size format_int cfg rocks node.db path len ≡ o
          → after format_int cfg rocks node 5 o ≡ (0, next)
          → Holds format_int cfg rocks next.db path md len
      by_outcome (thrown why) q e = absurd (ground arith)
      by_outcome (done db) q e =
          let same_db : db ≡ next.db = ground arith in
          subst (λ b. Holds format_int cfg rocks b path md len) same_db
            (db_decrease_size_lem format_int cfg rocks node.db db path md n len h less fits q).0
