-- ===== src/FileCalls/Truncate.antt =====
-- gkfs_truncate of src/client/gkfs_functions.cpp, from the length it is given to the size of the file.
use gekko_fwd.Base.{ℕ, suc, ◌<◌, ◌≡◌, refl, sym, ap, ◌∙◌, true, false, some, ◌==◌, arith, ltb, leb}
use gekko_fwd.Base.Words.{sign_bit}
use gekko_fwd.Decimal.{Bytes, to_string}
use gekko_fwd.Metadata.{Metadata, Config, is_link}
use gekko_fwd.Metadata.RoundTrip.{Fits}
use gekko_fwd.Distributor.{Distributor, locate_file_metadata}
use gekko_fwd.DataPath.Forward as DataForward
use gekko_fwd.MetaStore.Rocks.{Rocks}
use gekko_fwd.MetaStore.Refinement.{Holds}
use gekko_fwd.MetaServer.{Node, srv_decr_size}
use gekko_fwd.MetaServer.Laws.{
  shown, parse-value_of, srv_stat-Holds, srv_decr_size-Holds, srv_get_metadentry_size-Holds,
}
use gekko_fwd.MetaClient.{
  Delivery, answered, Reply, returned, errno, code, code_reply, at_host, posted, forward_stat,
  forward_decr_size, forward_get_metadentry_size,
}
use gekko_fwd.MetaClient.Laws.{forward_get_metadentry_size-home}
use gekko_fwd.FileCalls.{
  Call, value, ◌>>=◌, of_reply, of_outcome, get_metadata, follow, truncate_to, gkfs_truncate,
}

module _ (format_int : ℕ → Bytes) (cfg : Config) (rocks : Rocks format_int cfg)
    (str_hash : Bytes → ℕ) (d : Distributor) (path : Bytes) (nodes : ℕ → Node format_int cfg rocks)
    (decimal : (n : ℕ) → format_int n ≡ to_string n) where
  home : Node format_int cfg rocks
  home = nodes (locate_file_metadata str_hash d path)

  pub get_metadata-Holds :
      (fuel : ℕ) (net : ℕ → Delivery) (md : Metadata) (n : ℕ)
      → Holds format_int cfg rocks (nodes (locate_file_metadata str_hash d path)).db path md n
      → Fits md
      → n < sign_bit
      → is_link md ≡ false
      → net 0 ≡ answered
      → get_metadata format_int cfg rocks str_hash d (suc fuel) net path true nodes
        ≡ value (shown cfg md n)
  unfolding get_metadata follow forward_stat posted is_link
  get_metadata-Holds fuel net md n h fits small plain reply =
      rw
        (
          get_metadata,
          reply,
          forward_stat,
          posted,
          srv_stat-Holds format_int cfg rocks decimal path
              (nodes (locate_file_metadata str_hash d path)) md n h,
          follow,
          parse-value_of format_int cfg rocks decimal md n fits small,
          plain,
        )
        refl

  returned_first :
      (r : Reply ℕ) (rest : Call ℕ) (v : ℕ)
      → (of_reply r >>= λ _. rest) ≡ value v
      → (m : ℕ) × (r ≡ returned m)
  returned_first (returned m) rest v e = (m, refl)
  returned_first (errno x) rest v e = cc

  zero_code : (err m : ℕ) → code_reply (some err) ≡ returned m → err ≡ 0
  zero_code err m e = ground arith

  -- With a decimal `format_int`, for a file of n bytes, n below 2 ^ 63, where the request for the
  -- size is answered: if cutting it to len < n bytes returns a value, a query of the size answers len.
  pub truncate_to-forward_get_metadentry_size :
      (truncate_data : ℕ → ℕ → DataForward.Outcome) (md : Metadata) (n len v : ℕ)
      → Holds format_int cfg rocks (nodes (locate_file_metadata str_hash d path)).db path md n
      → Fits md
      → n < sign_bit
      → len < n
      → (truncate_to format_int cfg rocks str_hash d answered truncate_data path n len nodes).0
        ≡ value v
      → forward_get_metadentry_size format_int cfg rocks str_hash d answered path
          (truncate_to format_int cfg rocks str_hash d answered truncate_data path n len nodes).1
        ≡ code 0 len
  unfolding truncate_to forward_decr_size posted home
  truncate_to-forward_get_metadentry_size truncate_data md n len v h fits small less ok =
      let out = srv_decr_size format_int cfg rocks path len home in
      let within : leb len n ≡ true = ground arith in
      let other : (len == n) ≡ false = ground arith in
      let run : truncate_to format_int cfg rocks str_hash d answered truncate_data path n len nodes
          ≡ (
            of_reply (code_reply (some out.0)) >>= λ _.
                of_outcome (truncate_data n len) >>= λ _. value 0,
            at_host format_int cfg rocks nodes (locate_file_metadata str_hash d path) out.1,
          ) =
        rw (truncate_to, within, other, forward_decr_size, posted) refl in
      let (m, first) =
        returned_first (code_reply (some out.0)) (of_outcome (truncate_data n len) >>= λ _. value 0)
          v (sym (ap (λ (p : Call ℕ × (ℕ → Node format_int cfg rocks)). p.0) run) ∙ ok) in
      let zero_err = zero_code out.0 m first in
      let held =
        srv_decr_size-Holds format_int cfg rocks path len home out.1 md n h less (omega arith)
          (ap (λ (e : ℕ). (e, out.1)) zero_err) in
      rw run (
        forward_get_metadentry_size-home format_int cfg rocks str_hash d nodes path out.1
        ∙ rw
            (srv_get_metadentry_size-Holds format_int cfg rocks decimal path out.1 md len held fits
              (omega arith))
            refl)

  -- With a decimal `format_int`, for a file of n bytes that is no link, n below 2 ^ 63, where the
  -- requests for its metadata and its size are answered: if truncating it to fewer bytes returns 0, a
  -- query of its size then answers that length.
  pub gkfs_truncate-forward_get_metadentry_size :
      (fuel : ℕ) (net : ℕ → Delivery) (truncate_data : ℕ → ℕ → DataForward.Outcome) (md : Metadata)
      (n len : ℕ)
      → Holds format_int cfg rocks (nodes (locate_file_metadata str_hash d path)).db path md n
      → Fits md
      → n < sign_bit
      → is_link md ≡ false
      → net 0 ≡ answered
      → len < n
      → (gkfs_truncate format_int cfg rocks str_hash d
          (suc fuel)
          net
          answered
          truncate_data
          path
          len
          nodes).0
        ≡ value 0
      → forward_get_metadentry_size format_int cfg rocks str_hash d answered path
          (gkfs_truncate format_int cfg rocks str_hash d
            (suc fuel)
            net
            answered
            truncate_data
            path
            len
            nodes).1
        ≡ code 0 len
  unfolding gkfs_truncate
  gkfs_truncate-forward_get_metadentry_size fuel net truncate_data md n len h fits small plain reply
        less ok =
      let seen = get_metadata-Holds fuel net md n h fits small plain reply in
      let low : leb sign_bit len ≡ false = ground arith in
      let not_over : ltb n len ≡ false = ground arith in
      let run : gkfs_truncate format_int cfg rocks str_hash d (suc fuel) net answered truncate_data
            path len nodes
          ≡ truncate_to format_int cfg rocks str_hash d answered truncate_data path n len nodes =
        rw (gkfs_truncate, low, seen, not_over) refl in
      rw run (
        truncate_to-forward_get_metadentry_size truncate_data md n len 0 h fits small less
          (sym (ap (λ (p : Call ℕ × (ℕ → Node format_int cfg rocks)). p.0) run) ∙ ok))
