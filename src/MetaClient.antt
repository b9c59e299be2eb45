-- ===== src/MetaClient.antt =====
-- The metadata calls of a client: src/client/rpc/forward_metadata.cpp, with the daemons' handlers at
-- the other end. Hermes enters as what becomes of each request; `CTX->hosts()` is a pool of hosts.
pub mod Remove
pub mod Laws
use gekko_fwd.Base.{
  ℕ, suc, ◌+◌, ◌-◌, ◌/◌, List, [], ◌∷◌, map, range, Bool, true, false, Option, none, some, ◌==◌,
  if◌then◌else◌, ltb,
}
use mathlib.Core.Option
use gekko_fwd.Base.Words.{word, sign_bit, sub64}
use gekko_fwd.Decimal.{Bytes}
use gekko_fwd.Metadata.{Metadata, Config}
use gekko_fwd.Distributor.{Distributor, locate_data, locate_file_metadata}
use gekko_fwd.DataPath.Targets.{chunksize}
use gekko_fwd.MetaStore.Rocks.{Rocks}
use gekko_fwd.MetaServer.{
  Node, Changes, ebusy, srv_create, srv_stat, srv_decr_size, srv_remove, srv_update_metadentry,
  srv_update_metadentry_size, srv_get_metadentry_size, srv_mk_symlink,
}

-- What becomes of a request: it is answered, its reply is lost, it is lost, or sending it fails.
pub data Delivery : Type 0 where
  answered reply_lost request_lost not_posted : Delivery

-- What a caller gets: a value, or -1 with `errno`.
pub data Reply {ℓ} (A : Type ℓ) : Type ℓ where
  returned : A → Reply A
  errno : ℕ → Reply A

-- The members of MetadentryUpdateFlags that a request carries.
pub record UpdateFlags : Type 0 where
  pub atime : Bool
  pub mtime : Bool
  pub ctime : Bool
  pub link_count : Bool
  pub size : Bool
  pub blocks : Bool

abbrev pub flagged : Bool → ℕ → Option ℕ
flagged flag n = if flag then some n else none

-- The request of forward_update_metadentry, as the handler reads it.
unfoldable pub update_request : Metadata → UpdateFlags → Changes
update_request md flags = record {
  blocks = flagged flags.blocks md.blocks;
  nlink = flagged flags.link_count md.link_count;
  size = flagged flags.size md.size;
  atime = flagged flags.atime md.atime;
  mtime = flagged flags.mtime md.mtime;
  ctime = flagged flags.ctime md.ctime;
}

-- Division of the signed 64-bit word `size` rounds towards zero.
unfoldable pub chunks_before : ℕ → ℕ
chunks_before size =
    if ltb size sign_bit then size / chunksize else sub64 0 ((word - size) / chunksize)

-- An error code other than 0 is passed on as `errno`; no reply is EBUSY.
abbrev pub code_reply : Option ℕ → Reply ℕ
code_reply none = errno ebusy
code_reply (some err) = if err == 0 then returned 0 else errno err

abbrev pub value_reply {ℓ} : {A : Type ℓ} → Option (ℕ × A) → Reply A
value_reply none = errno ebusy
value_reply (some (err, v)) = if err == 0 then returned v else errno err

-- The code and `ret_size`: the code is not looked at, and no reply is EUNKNOWN, -1.
pub data SizeCode : Type 0 where
  code : ℕ → ℕ → SizeCode
  unknown : SizeCode

abbrev pub size_code : Option (ℕ × ℕ) → SizeCode
size_code none = unknown
size_code (some (err, ret_size)) = code err ret_size

-- forward_remove: 0, -1 with `errno`, or an exception.
pub data Removal : Type 0 where
  removed : Removal
  remove_errno : ℕ → Removal
  remove_thrown : Removal

abbrev pub as_removal : Reply ℕ → Removal
as_removal (returned n) = removed
as_removal (errno e) = remove_errno e

-- The loop over the handles: the last error is kept.
unfoldable pub gather_removals : List (Option ℕ) → Option ℕ → Removal
gather_removals [] none = removed
gather_removals [] (some e) = remove_errno e
gather_removals (none ∷ outs) failed = gather_removals outs (some ebusy)
gather_removals (some err ∷ outs) failed =
    gather_removals outs (if err == 0 then failed else some err)

-- The targets of forward_remove for a file with data: of a small file, the entry's host and the
-- hosts of its chunks; otherwise every host.
unfoldable pub remove_targets : (Bytes → ℕ) → Distributor → ℕ → Bytes → ℕ → List ℕ
remove_targets str_hash d hosts path size =
    let chnk_end = chunks_before size in
    if ltb chnk_end hosts
    then locate_file_metadata str_hash d path
      ∷ map (locate_data str_hash d path) (range 0 (suc chnk_end))
    else range 0 hosts

module _ (format_int : ℕ → Bytes) (cfg : Config) (rocks : Rocks format_int cfg) where
  -- The daemons, by host.
  abbrev pub Daemons : Type 0
  Daemons = ℕ → Node format_int cfg rocks

  abbrev pub at_host : Daemons → ℕ → Node format_int cfg rocks → Daemons
  at_host nodes host node u = if host == u then node else nodes u

  -- One request to one host: the reply that arrives, and the daemons afterwards.
  unfoldable pub posted {ℓ} :
      {A : Type ℓ}
      → Delivery
      → ℕ
      → (Node format_int cfg rocks → A × Node format_int cfg rocks)
      → Daemons
      → Option A × Daemons
  posted answered host handler nodes =
      let out = handler (nodes host) in (some out.0, at_host nodes host out.1)
  posted reply_lost host handler nodes =
      let out = handler (nodes host) in (none, at_host nodes host out.1)
  posted request_lost host handler nodes = (none, nodes)
  posted not_posted host handler nodes = (none, nodes)

  -- A handler that ends without a reply.
  abbrev pub or_silent :
      Node format_int cfg rocks
      → Option (ℕ × Node format_int cfg rocks)
      → Option ℕ × Node format_int cfg rocks
  or_silent node none = (none, node)
  or_silent node (some (err, next)) = (some err, next)

  abbrev pub joined {ℓ} : {A : Type ℓ} → Option (Option A) → Option A
  joined none = none
  joined (some r) = r

  module _ (str_hash : Bytes → ℕ) (d : Distributor) where
    unfoldable pub forward_create : Delivery → ℕ → Bytes → ℕ → Daemons → Reply ℕ × Daemons
    forward_create net time path mode nodes =
        let out =
          posted net (locate_file_metadata str_hash d path)
            (λ node. or_silent node (srv_create format_int cfg rocks time path mode node)) nodes in
        (code_reply (joined out.0), out.1)

    unfoldable pub forward_stat : Delivery → Bytes → Daemons → Reply Bytes
    forward_stat net path nodes =
        value_reply
          (posted net (locate_file_metadata str_hash d path)
            (λ node. (srv_stat format_int cfg rocks path node, node)) nodes).0

    unfoldable pub forward_decr_size : Delivery → Bytes → ℕ → Daemons → Reply ℕ × Daemons
    forward_decr_size net path length nodes =
        let out =
          posted net (locate_file_metadata str_hash d path)
            (srv_decr_size format_int cfg rocks path length) nodes in
        (code_reply out.0, out.1)

    unfoldable pub forward_update_metadentry :
        Delivery → Bytes → Metadata → UpdateFlags → Daemons → Reply ℕ × Daemons
    forward_update_metadentry net path md flags nodes =
        let out =
          posted net (locate_file_metadata str_hash d path)
            (srv_update_metadentry format_int cfg rocks path (update_request md flags)) nodes in
        (code_reply out.0, out.1)

    -- No reply is EUNKNOWN with `errno` EBUSY.
    unfoldable pub forward_update_metadentry_size :
        Delivery → Bytes → ℕ → ℕ → Bool → Daemons → Reply ℕ × Daemons
    forward_update_metadentry_size net path size offset append_flag nodes =
        let out =
          posted net (locate_file_metadata str_hash d path)
            (srv_update_metadentry_size format_int cfg rocks path size offset append_flag) nodes in
        (value_reply out.0, out.1)

    unfoldable pub forward_get_metadentry_size : Delivery → Bytes → Daemons → SizeCode
    forward_get_metadentry_size net path nodes =
        size_code
          (posted net (locate_file_metadata str_hash d path)
            (λ node. (srv_get_metadentry_size format_int cfg rocks path node, node)) nodes).0

    unfoldable pub forward_mk_symlink : Delivery → ℕ → Bytes → Bytes → Daemons → Reply ℕ × Daemons
    forward_mk_symlink net time path target_path nodes =
        let out =
          posted net (locate_file_metadata str_hash d path)
            (srv_mk_symlink format_int cfg rocks time path target_path) nodes in
        (code_reply out.0, out.1)

    -- The requests are sent in turn, the i-th meets `net i`, and the chunk directory at its host is
    -- deleted if `destroyed i`. `none` where sending one fails: no more are sent.
    unfoldable pub remove_all :
        (ℕ → Delivery)
        → (ℕ → Bool)
        → Bytes
        → ℕ
        → List ℕ
        → Daemons
        → Option (List (Option ℕ)) × Daemons
    remove_all net destroyed path i [] nodes = (some [], nodes)
    remove_all net destroyed path i (host ∷ hosts) nodes = elim (net i) [
      | not_posted ↦ (none, nodes)
      | d ↦
          let out = posted d host (srv_remove format_int cfg rocks (destroyed i) path) nodes in
          let rest = remove_all net destroyed path (suc i) hosts out.1 in
          (Option.map (λ outs. out.0 ∷ outs) rest.0, rest.1)
    ]

    abbrev pub removals : Option (List (Option ℕ)) → Removal
    removals none = remove_thrown
    removals (some outs) = gather_removals outs none

    unfoldable pub forward_remove :
        (ℕ → Delivery) → (ℕ → Bool) → ℕ → Bytes → Bool → ℕ → Daemons → Removal × Daemons
    forward_remove net destroyed hosts path remove_metadentry_only size nodes =
        let alone =
          posted (net 0) (locate_file_metadata str_hash d path)
            (srv_remove format_int cfg rocks (destroyed 0) path) nodes in
        let all =
          remove_all net destroyed path 0 (remove_targets str_hash d hosts path size) nodes in
        if remove_metadentry_only
        then (as_removal (code_reply alone.0), alone.1)
        else (removals all.0, all.1)
