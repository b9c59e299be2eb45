-- ===== src/MetaClient/Laws.antt =====
-- Calls of src/client/rpc/forward_metadata.cpp one after the other, over the daemons that serve them.
use gekko_fwd.Base.{
  ℕ, ◌<◌, ◌≡◌, refl, sym, subst, ◌∙◌, Bool, true, false, Option, none, some, ◌==◌, if◌then◌else◌,
  arith, max,
}
use gekko_fwd.Base.Words.{sign_bit, add64, add64_lem}
use gekko_fwd.Decimal.{Bytes, to_string}
use gekko_fwd.Metadata.{Metadata, Config, of_mode, parse}
use gekko_fwd.Metadata.RoundTrip.{Fits}
use gekko_fwd.Distributor.{Distributor, locate_file_metadata}
use gekko_fwd.ClientCalls.{SizeReply, gkfs_lseek, seek_end, sought, seek_failed}
use gekko_fwd.MetaStore.View.{broken, Represents}
use gekko_fwd.MetaStore.Rocks.{Rocks}
use gekko_fwd.MetaStore.Db.{done, db_increase_size, get_size, get_metadentry}
use gekko_fwd.MetaStore.Live.{value_of}
use gekko_fwd.MetaStore.Refinement.{Holds, IsAbsent, db_get-IsAbsent}
use gekko_fwd.MetaServer.{
  Node, ebusy, minus_one, srv_create, srv_stat, srv_update_metadentry_size, srv_get_metadentry_size,
}
use gekko_fwd.MetaServer.Laws.{
  stamped, shown, parse-value_of, srv_stat-Holds, srv_get_metadentry_size-Holds, srv_create-absent,
  srv_create-broken, srv_update_metadentry_size-Holds, srv_update_metadentry_size-absent,
  srv_stat-broken,
}
use gekko_fwd.MetaClient.{
  answered, request_lost, unknown, returned, errno, code, SizeCode, size_code, at_host, or_silent,
  joined, code_reply, value_reply, posted, forward_create, forward_stat,
  forward_update_metadentry_size, forward_get_metadentry_size,
}

-- What gkfs_lseek takes from the call: `errno` is set to the negative result, -1.
abbrev pub size_reply : SizeCode → SizeReply
size_reply (code err n) = record { negative = false; code = err; file_size = n }
size_reply unknown = record { negative = true; code = minus_one; file_size = 0 }

==-self : (n : ℕ) → (n == n) ≡ true
==-self n = ground arith

module _ (format_int : ℕ → Bytes) (cfg : Config) (rocks : Rocks format_int cfg) where
  open rocks use {entry}

  module _ (str_hash : Bytes → ℕ) (d : Distributor) (nodes : ℕ → Node format_int cfg rocks)
      (path : Bytes) where
    -- The daemon that has the path's entry.
    abbrev pub home : Node format_int cfg rocks
    home = nodes (locate_file_metadata str_hash d path)

    home_itself :
        (next : Node format_int cfg rocks)
        → at_host format_int cfg rocks nodes
            (locate_file_metadata str_hash d path)
            next
            (locate_file_metadata str_hash d path)
          ≡ next
    home_itself next = rw (==-self (locate_file_metadata str_hash d path)) refl

    returned-srv_create :
        (r : Option (ℕ × Node format_int cfg rocks))
        → code_reply (joined format_int cfg rocks (some (or_silent format_int cfg rocks home r).0))
          ≡ returned 0
        → r ≡ some (0, (or_silent format_int cfg rocks home r).1)
    returned-srv_create none h = cc
    returned-srv_create (some (err, next)) h = ground arith

    -- What the entry's daemon answers once it has become `next`.
    pub forward_stat-home :
        (next : Node format_int cfg rocks)
        → forward_stat format_int cfg rocks str_hash d answered path
            (at_host format_int cfg rocks nodes (locate_file_metadata str_hash d path) next)
          ≡ value_reply (some (srv_stat format_int cfg rocks path next))
    unfolding forward_stat posted
    forward_stat-home next = rw (home_itself next) refl

    pub forward_get_metadentry_size-home :
        (next : Node format_int cfg rocks)
        → forward_get_metadentry_size format_int cfg rocks str_hash d answered path
            (at_host format_int cfg rocks nodes (locate_file_metadata str_hash d path) next)
          ≡ size_code (some (srv_get_metadentry_size format_int cfg rocks path next))
    unfolding forward_get_metadentry_size posted
    forward_get_metadentry_size-home next = rw (home_itself next) refl

    module _ (decimal : (n : ℕ) → format_int n ≡ to_string n) where
      -- With a decimal `format_int` and metadata in the ranges of `Fits`: after a creation that is
      -- answered with success, of a path that has no entry, a stat returns a value that parses as
      -- the new metadata with its times, in the members that the configuration keeps.
      pub forward_create-forward_stat :
          (time mode : ℕ) (md : Metadata)
          → of_mode mode ≡ some md
          → Fits (stamped cfg time md)
          → IsAbsent format_int cfg rocks home.db path
          → (forward_create format_int cfg rocks str_hash d answered time path mode nodes).0
            ≡ returned 0
          → (v : Bytes) × (forward_stat format_int cfg rocks str_hash d answered path
                (forward_create format_int cfg rocks str_hash d answered time path mode nodes).1
              ≡ returned v)
            × (parse cfg v ≡ some (shown cfg (stamped cfg time md) md.size))
      unfolding forward_create posted
      forward_create-forward_stat time mode md e fits gone h =
          let next =
            (or_silent format_int cfg rocks home
              (srv_create format_int cfg rocks time path mode home)).1 in
          let held =
            srv_create-absent format_int cfg rocks decimal time path mode md home next e fits gone
              (returned-srv_create (srv_create format_int cfg rocks time path mode home) h) in
          (
            value_of format_int cfg (stamped cfg time md) md.size,
            forward_stat-home next
                ∙ rw
                    (srv_stat-Holds format_int cfg rocks decimal path next (stamped cfg time md)
                      md.size held)
                    refl,
            parse-value_of format_int cfg rocks decimal (stamped cfg time md) md.size fits
                fits.size_fits,
          )

      -- With a decimal `format_int`: after a size update that is answered with success, of a path
      -- that has an entry with n bytes, a query of the size answers the end of the write or n,
      -- whichever is larger, and after an append the sum, if that is below 2 ^ 63.
      pub forward_update_metadentry_size-forward_get_metadentry_size :
          (size offset : ℕ) (append : Bool) (md : Metadata) (n ret_size : ℕ)
          → Holds format_int cfg rocks home.db path md n
          → Fits md
          → (if append then add64 n (add64 size offset) else max (add64 size offset) n) < sign_bit
          → (forward_update_metadentry_size format_int cfg rocks str_hash d answered path size
              offset append nodes).0
            ≡ returned ret_size
          → forward_get_metadentry_size format_int cfg rocks str_hash d answered path
              (forward_update_metadentry_size format_int cfg rocks str_hash d answered path size
                offset append nodes).1
            ≡ code 0 (if append then add64 n (add64 size offset) else max (add64 size offset) n)
      unfolding forward_update_metadentry_size posted
      forward_update_metadentry_size-forward_get_metadentry_size size offset append md n ret_size h
            fits small r =
          let out = srv_update_metadentry_size format_int cfg rocks path size offset append home in
          let held =
            srv_update_metadentry_size-Holds format_int cfg rocks decimal path size offset append
              home out.1 md n ret_size h (zero_code out ret_size r) in
          forward_get_metadentry_size-home out.1
          ∙ rw
              (srv_get_metadentry_size-Holds format_int cfg rocks decimal path out.1 md
                (if append then add64 n (add64 size offset) else max (add64 size offset) n) held
                fits small)
              refl
        where
          zero_code :
              (out : (ℕ × ℕ) × Node format_int cfg rocks) (v : ℕ)
              → value_reply (some out.0) ≡ returned v
              → out ≡ ((0, v), out.1)
          zero_code out v e = ground arith

      -- With a decimal `format_int`: a size update of a path that has no entry, which the store
      -- carries out, is answered with success, and from then on a stat of the path fails with
      -- EBUSY.
      pub forward_update_metadentry_size-absent :
          (size offset : ℕ) (append : Bool)
          → IsAbsent format_int cfg rocks home.db path
          → (db : rocks.Db) × (db_increase_size format_int cfg rocks home.db path
                (add64 size offset)
                append
              ≡ done db)
          → ((forward_update_metadentry_size format_int cfg rocks str_hash d answered path size
                offset append nodes).0
              ≡ returned (add64 size offset))
            × (forward_stat format_int cfg rocks str_hash d answered path
                  (forward_update_metadentry_size format_int cfg rocks str_hash d answered path size
                    offset append nodes).1
                ≡ errno ebusy)
      unfolding forward_update_metadentry_size posted
      forward_update_metadentry_size-absent size offset append gone (db, works) =
          let (r, bad) =
            srv_update_metadentry_size-absent format_int cfg rocks decimal path size offset append
              home db gone works in
          rw r (
            refl,
            forward_stat-home (record home { db = db })
                ∙ rw
                    (srv_stat-broken format_int cfg rocks decimal path (record home { db = db })
                      bad)
                    refl,
          )

  -- With a decimal `format_int` and metadata in the ranges of `Fits`: after a size update of a path
  -- that has no entry, which the store carries out, and a creation of the path that is answered
  -- with success, a stat of the path fails with EBUSY.
  pub forward_create-absent_grown :
      (decimal : (n : ℕ) → format_int n ≡ to_string n) (str_hash : Bytes → ℕ) (d : Distributor)
      (nodes : ℕ → Node format_int cfg rocks) (path : Bytes) (size offset time mode : ℕ)
      (append : Bool) (md : Metadata)
      → of_mode mode ≡ some md
      → Fits (stamped cfg time md)
      → IsAbsent format_int cfg rocks (home str_hash d nodes path).db path
      → (db : rocks.Db) × (db_increase_size format_int cfg rocks
            (home str_hash d nodes path).db
            path
            (add64 size offset)
            append
          ≡ done db)
      → (forward_create format_int cfg rocks str_hash d answered time path mode
          (forward_update_metadentry_size format_int cfg rocks str_hash d answered path size offset
            append nodes).1).0
        ≡ returned 0
      → forward_stat format_int cfg rocks str_hash d answered path
          (forward_create format_int cfg rocks str_hash d answered time path mode
            (forward_update_metadentry_size format_int cfg rocks str_hash d answered path size
              offset append nodes).1).1
        ≡ errno ebusy
  unfolding forward_create forward_update_metadentry_size posted
  forward_create-absent_grown decimal str_hash d nodes path size offset time mode append md e fits
        gone (db, works) h =
      let grown =
        (forward_update_metadentry_size format_int cfg rocks str_hash d answered path size offset
          append nodes).1 in
      let there = home str_hash d grown path in
      let (r, bad) =
        srv_update_metadentry_size-absent format_int cfg rocks decimal path size offset append
          (home str_hash d nodes path) db gone works in
      let now : there ≡ record (home str_hash d nodes path) { db = db } =
        home_itself str_hash d nodes path
          (srv_update_metadentry_size format_int cfg rocks path size offset append
            (home str_hash d nodes path)).1
        ∙ rw r refl in
      let last =
        (or_silent format_int cfg rocks there
          (srv_create format_int cfg rocks time path mode there)).1 in
      forward_stat-home str_hash d grown path last
      ∙ rw
          (srv_stat-broken format_int cfg rocks decimal path last (
            srv_create-broken format_int cfg rocks decimal time path mode md there last e fits
              (subst
                (λ (node : Node format_int cfg rocks).
                  Represents format_int cfg (entry node.db path) broken)
                (sym now) bad)
              (returned-srv_create str_hash d grown path
                (srv_create format_int cfg rocks time path mode there) h)))
          refl

  -- For a path that has no entry: a seek from the end by an offset that is not negative succeeds,
  -- and gives the offset, if the query of the size is answered; without an answer it fails.
  pub gkfs_lseek-absent :
      (str_hash : Bytes → ℕ) (d : Distributor) (nodes : ℕ → Node format_int cfg rocks)
      (path : Bytes) (pos offset : ℕ)
      → IsAbsent format_int cfg rocks (home str_hash d nodes path).db path
      → offset < sign_bit
      → (gkfs_lseek
            (size_reply
              (forward_get_metadentry_size format_int cfg rocks str_hash d answered path nodes))
            pos
            offset
            seek_end
          ≡ sought offset)
        × (gkfs_lseek
              (size_reply (
                forward_get_metadentry_size format_int cfg rocks str_hash d request_lost path
                  nodes))
              pos
              offset
              seek_end
            ≡ seek_failed minus_one)
  unfolding gkfs_lseek forward_get_metadentry_size posted srv_get_metadentry_size get_size
      get_metadentry
  gkfs_lseek-absent str_hash d nodes path pos offset gone small = (
    rw
        (
          forward_get_metadentry_size,
          posted,
          srv_get_metadentry_size,
          get_size,
          get_metadentry,
          (db_get-IsAbsent format_int cfg rocks (home str_hash d nodes path).db path gone).0,
        )
        (ground (arith, add64_lem 0 offset)),
    refl,
  )
