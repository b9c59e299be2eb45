-- ===== src/FileCalls/Open/Truncation.antt =====
-- What gkfs_open of src/client/gkfs_functions.cpp with O_TRUNC leaves of a file that is there.
use gekko_fwd.Base.{ℕ, zero, suc, ◌<◌, ◌≡◌, refl, sym, ap, ◌∙◌, Bool, true, false, List, ◌∷◌, arith}
use gekko_fwd.Base.Words.{sign_bit}
use gekko_fwd.Decimal.{Bytes, to_string}
use gekko_fwd.Metadata.{Metadata, Config, is_reg, is_dir, is_link}
use gekko_fwd.Metadata.RoundTrip.{Fits}
use gekko_fwd.Distributor.{Distributor, locate_file_metadata}
use gekko_fwd.DataPath.Forward as DataForward
use gekko_fwd.MetaStore.Rocks.{Rocks}
use gekko_fwd.MetaStore.Refinement.{Holds}
use gekko_fwd.MetaServer.{Node}
use gekko_fwd.MetaServer.Laws.{shown, srv_get_metadentry_size-Holds}
use gekko_fwd.MetaClient.{answered, code, posted, forward_get_metadentry_size}
use gekko_fwd.FileCalls.{
  Call, value, fails, throws, unfinished, ◌>>=◌, PathFlags, Opened, file, truncate_to,
}
use gekko_fwd.FileCalls.Laws.{metadata_of-Holds}
use gekko_fwd.FileCalls.Truncate.{truncate_to-forward_get_metadentry_size}
use gekko_fwd.FileCalls.Open.{Round, opened, open_existing, gkfs_open}

-- The flags of an open that empties a file that is there.
pub record Truncates (flags : PathFlags) : Type 0 where
  pub no_path : flags.o_path ≡ false
  pub no_append : flags.o_append ≡ false
  pub no_excl : flags.o_excl ≡ false
  pub trunc : flags.o_trunc ≡ true
  pub writes : flags.writes ≡ true

is_reg-is_link : (md : Metadata) → is_reg md.mode ≡ true → is_link md ≡ false
unfolding is_link
is_reg-is_link md e = ground arith

is_reg-is_dir : (mode : ℕ) → is_reg mode ≡ true → is_dir mode ≡ false
is_reg-is_dir mode e = ground arith

-- An open that succeeds did the call before it.
opened_first :
    (r : Call ℕ) (f o : Opened)
    → (r >>= λ _. value f) ≡ value o
    → ((v : ℕ) × (r ≡ value v)) × (o ≡ f)
opened_first (value v) f o e = ((v, refl), cc)
opened_first (fails x) f o e = cc
opened_first throws f o e = cc
opened_first unfinished f o e = cc

module _ (format_int : ℕ → Bytes) (cfg : Config) (rocks : Rocks format_int cfg)
    (str_hash : Bytes → ℕ) (d : Distributor) (path : Bytes) (nodes : ℕ → Node format_int cfg rocks)
    (decimal : (n : ℕ) → format_int n ≡ to_string n) where
  module _ (truncate_data : ℕ → ℕ → DataForward.Outcome) where
    truncate_to-emptied :
        (md : Metadata) (n v : ℕ)
        → Holds format_int cfg rocks (nodes (locate_file_metadata str_hash d path)).db path md n
        → Fits md
        → n < sign_bit
        → (truncate_to format_int cfg rocks str_hash d answered truncate_data path n 0 nodes).0
          ≡ value v
        → forward_get_metadentry_size format_int cfg rocks str_hash d answered path
            (truncate_to format_int cfg rocks str_hash d answered truncate_data path n 0 nodes).1
          ≡ code 0 0
    unfolding truncate_to forward_get_metadentry_size posted
    truncate_to-emptied md zero v h fits small ok =
        rw
          (srv_get_metadentry_size-Holds format_int cfg rocks decimal path
            (nodes (locate_file_metadata str_hash d path)) md 0 h fits small)
          refl
    truncate_to-emptied md (suc n) v h fits small ok =
        truncate_to-forward_get_metadentry_size format_int cfg rocks str_hash d path nodes decimal
          truncate_data md (suc n) 0 v h fits small (omega arith) ok

  -- With a decimal `format_int`, for a regular file of n bytes, n below 2 ^ 63, where the requests
  -- for its metadata and its size are answered: if an open for writing with O_TRUNC and without
  -- O_EXCL, O_PATH and O_APPEND succeeds, it opens the path as a file, and a query of the size then
  -- answers 0.
  pub gkfs_open-forward_get_metadentry_size :
      (create_check_parents : Bool) (round : Round format_int cfg rocks str_hash d)
      (rounds : List (Round format_int cfg rocks str_hash d)) (mode : ℕ) (flags : PathFlags)
      (md : Metadata) (n : ℕ) (o : Opened)
      → Holds format_int cfg rocks (nodes (locate_file_metadata str_hash d path)).db path md n
      → Fits md
      → n < sign_bit
      → is_reg md.mode ≡ true
      → Truncates flags
      → round.net 0 ≡ answered
      → round.truncating ≡ answered
      → (gkfs_open format_int cfg rocks str_hash d create_check_parents
          (round ∷ rounds)
          path
          mode
          flags
          nodes).0
        ≡ value o
      → (o ≡ file path flags)
        × (forward_get_metadentry_size format_int cfg rocks str_hash d answered path
              (gkfs_open format_int cfg rocks str_hash d create_check_parents
                (round ∷ rounds)
                path
                mode
                flags
                nodes).1
            ≡ code 0 0)
  unfolding gkfs_open open_existing
  gkfs_open-forward_get_metadentry_size create_check_parents round rounds mode flags md n o h fits
        small regular how reply reply_size ok =
      let seen =
        metadata_of-Holds format_int cfg rocks str_hash d path nodes decimal round.net md n h fits
          small reply in
      let cut =
        truncate_to format_int cfg rocks str_hash d answered round.truncate_data path n 0 nodes in
      let run : gkfs_open format_int cfg rocks str_hash d create_check_parents (round ∷ rounds) path
            mode flags nodes
          ≡ opened format_int cfg rocks str_hash d path flags cut =
        simp (
          gkfs_open,
          how.no_path,
          how.no_append,
          seen,
          how.no_excl,
          is_reg-is_link (shown cfg md n) regular,
          open_existing,
          is_reg-is_dir md.mode regular,
          regular,
          how.trunc,
          how.writes,
          reply_size,
        ) in
      let ((v, first), same) =
        opened_first cut.0 (file path flags) o
          (sym (ap (λ (p : Call Opened × (ℕ → Node format_int cfg rocks)). p.0) run) ∙ ok) in
      (same, rw run (truncate_to-emptied round.truncate_data md n v h fits small first))
