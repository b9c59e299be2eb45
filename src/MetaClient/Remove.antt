-- ===== src/MetaClient/Remove.antt =====
-- What `forward_remove` of src/client/rpc/forward_metadata.cpp leaves on the daemons.
use gekko_fwd.Base.{
  ℕ, zero, suc, ◌+◌, ◌/◌, ◌≤◌, ◌<◌, ◌≡◌, refl, ◌∙◌, ◌⊎◌, inl, inr, List, [], ◌∷◌, map, range, Bool,
  true, false, Option, none, some, ◌==◌, if◌then◌else◌, ltb, arith, Bool-cases, subst,
}
use gekko_fwd.Base.Words.{sign_bit}
use gekko_fwd.Decimal.{Bytes}
use gekko_fwd.Metadata.{Config}
use gekko_fwd.Distributor.{Distributor, locate_data, locate_file_metadata}
use gekko_fwd.DataPath.Targets.{chunksize}
use gekko_fwd.DataPath.Shares.{elem}
use gekko_fwd.MetaStore.Rocks.{Rocks, same, same_self}
use gekko_fwd.MetaStore.Db.{db_remove}
use gekko_fwd.MetaServer.{Node, srv_remove, destroy_chunk_space, get_chunks_dir}
use gekko_fwd.MetaClient.{
  Delivery, answered, removed, chunks_before, gather_removals, remove_targets, posted, remove_all,
  forward_remove,
}

elem-map-range :
    (f : ℕ → ℕ) (first n k : ℕ)
    → first ≤ k
    → k < first + n
    → elem (f k) (map f (range first n)) ≡ true
unfolding elem
elem-map-range f first zero k low high = absurd (omega arith)
elem-map-range f first (suc n) k low high =
    let later : suc first ≤ k → elem (f k) (map f (range (suc first) n)) ≡ true =
      λ more. elem-map-range f (suc first) n k more (omega arith) in
    elim (Bool-cases (first == k)) [
      | inl here ↦ let e : first ≡ k = ground arith in rw e (ground arith)
      | inr ne ↦ ground (arith, later)
    ]

elem-range : (first n u : ℕ) → first ≤ u → u < first + n → elem u (range first n) ≡ true
unfolding elem
elem-range first zero u low high = absurd (omega arith)
elem-range first (suc n) u low high = ground (arith, elem-range (suc first) n u)

-- Every host that the removal is to reach is among the targets.
remove_targets-entry :
    (str_hash : Bytes → ℕ) (d : Distributor) (hosts : ℕ) (path : Bytes) (size : ℕ)
    → locate_file_metadata str_hash d path < hosts
    → elem (locate_file_metadata str_hash d path) (remove_targets str_hash d hosts path size) ≡ true
unfolding remove_targets elem
remove_targets-entry str_hash d hosts path size h =
    elim (Bool-cases (ltb (chunks_before size) hosts)) [
      | inl small ↦ rw small (ground arith)
      | inr big ↦
          rw big
            (elem-range 0 hosts (locate_file_metadata str_hash d path) (omega arith) (omega arith))
    ]

remove_targets-chunk :
    (str_hash : Bytes → ℕ) (d : Distributor) (hosts : ℕ) (path : Bytes) (size k : ℕ)
    → size < sign_bit
    → k ≤ size / chunksize
    → locate_data str_hash d path k < hosts
    → elem (locate_data str_hash d path k) (remove_targets str_hash d hosts path size) ≡ true
unfolding remove_targets elem chunks_before
remove_targets-chunk str_hash d hosts path size k fits low h =
    let whole : chunks_before size ≡ size / chunksize = ground arith in
    let listed =
      elem-map-range (locate_data str_hash d path) 0 (suc (chunks_before size)) k (omega arith)
        (rw whole (omega arith)) in
    elim (Bool-cases (ltb (chunks_before size) hosts)) [
      | inl small ↦ rw small (
          or_later (locate_file_metadata str_hash d path) (locate_data str_hash d path k)
            (map (locate_data str_hash d path) (range 0 (suc (chunks_before size)))) listed)
      | inr big ↦
          rw big (elem-range 0 hosts (locate_data str_hash d path k) (omega arith) (omega arith))
    ]
  where
    or_later : (t u : ℕ) (ts : List ℕ) → elem u ts ≡ true → elem u (t ∷ ts) ≡ true
    or_later t u ts e = ground arith

module _ (format_int : ℕ → Bytes) (cfg : Config) (rocks : Rocks format_int cfg) (path : Bytes) where
  open rocks use {Db, entry}

  -- Neither an entry nor a chunk of the path.
  abbrev pub Cleared : Node format_int cfg rocks → Type 0
  Cleared node =
      (entry node.db path ≡ (none, [])) × ((id : ℕ) → node.chunks (get_chunks_dir path) id ≡ none)

  -- Every other path's entry is as before, and so are the chunks in every other chunk directory.
  abbrev pub OthersKept : Node format_int cfg rocks → Node format_int cfg rocks → Type 0
  OthersKept node next =
      ((p : Bytes) → same path p ≡ false → entry next.db p ≡ entry node.db p)
      × ((dir : Bytes) (id : ℕ)
          → same (get_chunks_dir path) dir ≡ false
          → next.chunks dir id ≡ node.chunks dir id)

  module _ (deletes : (db : Db) (k : Bytes) → (next : Db) × (rocks.delete db k ≡ some next)) where
    srv_remove-Cleared :
        (node : Node format_int cfg rocks)
        → ((srv_remove format_int cfg rocks true path node).0 ≡ 0)
          × Cleared (srv_remove format_int cfg rocks true path node).1
          × OthersKept node (srv_remove format_int cfg rocks true path node).1
    unfolding srv_remove db_remove destroy_chunk_space
    srv_remove-Cleared node =
        let (next, e) = deletes node.db path in
        rw (srv_remove, db_remove, e)
          (
            refl,
            (
              rocks.delete_law node.db next path path e ∙ rw (same_self path) refl,
              λ id. rw (same_self (get_chunks_dir path)) refl,
            ),
            (
              λ p other. rocks.delete_law node.db next path p e ∙ rw other refl,
              λ dir id other. rw other refl,
            ),
          )

    module _ (str_hash : Bytes → ℕ) (d : Distributor) (net : ℕ → Delivery)
        (destroyed : ℕ → Bool) where
      module _ (answers : (i : ℕ) → net i ≡ answered)
          (destroys : (i : ℕ) → destroyed i ≡ true) where
        -- The daemons after one request of the loop.
        abbrev one : ℕ → ℕ → (ℕ → Node format_int cfg rocks) → ℕ → Node format_int cfg rocks
        one i host nodes u =
            if host == u
            then (srv_remove format_int cfg rocks true path (nodes host)).1
            else nodes u

        one-host :
            (i host : ℕ) (nodes : ℕ → Node format_int cfg rocks) (u : ℕ)
            → Cleared (nodes u) ⊎ (host ≡ u)
            → Cleared (one i host nodes u)
        one-host i host nodes u h = elim (Bool-cases (host == u)) [
          | inl here ↦ rw here (srv_remove-Cleared (nodes host)).1
          | inr away ↦ rw away (elim h [ inl c ↦ c | inr e ↦ absurd (ground arith) ])
        ]

        one-OthersKept :
            (i host : ℕ) (nodes : ℕ → Node format_int cfg rocks) (u : ℕ)
            → OthersKept (nodes u) (one i host nodes u)
        one-OthersKept i host nodes u = elim (Bool-cases (host == u)) [
          | inl here ↦
              let e : host ≡ u = ground arith in
              rw here (
                subst
                  (λ v.
                    OthersKept (nodes v) (srv_remove format_int cfg rocks true path (nodes host)).1)
                  e (srv_remove-Cleared (nodes host)).2)
          | inr away ↦ rw away (λ p other. refl, λ dir id other. refl)
        ]

        remove_all-cons :
            (i host : ℕ) (hosts : List ℕ) (nodes : ℕ → Node format_int cfg rocks)
            (outs : List (Option ℕ)) (last : ℕ → Node format_int cfg rocks)
            → remove_all format_int cfg rocks str_hash d net destroyed path
                (suc i)
                hosts
                (one i host nodes)
              ≡ (some outs, last)
            → remove_all format_int cfg rocks str_hash d net destroyed path i (host ∷ hosts) nodes
              ≡ (some (some 0 ∷ outs), last)
        unfolding remove_all posted
        remove_all-cons i host hosts nodes outs last e =
            rw (remove_all, answers i, destroys i, posted, (srv_remove-Cleared (nodes host)).0, e)
              refl

        -- No entry and no chunk is left where a request is sent to.
        record IsSwept (hosts : List ℕ) (nodes last : ℕ → Node format_int cfg rocks)
            (outs : List (Option ℕ)) : Type 0 where
          pub good : gather_removals outs none ≡ removed
          pub stays : (u : ℕ) → Cleared (nodes u) → Cleared (last u)
          pub swept : (u : ℕ) → elem u hosts ≡ true → Cleared (last u)
          pub others : (u : ℕ) → OthersKept (nodes u) (last u)

        remove_all_lem :
            (i : ℕ) (hosts : List ℕ) (nodes : ℕ → Node format_int cfg rocks)
            → (outs : List (Option ℕ)) × (last : ℕ → Node format_int cfg rocks) × (remove_all
                  format_int cfg rocks str_hash d net destroyed path i hosts nodes
                ≡ (some outs, last))
              × IsSwept hosts nodes last outs
        unfolding remove_all gather_removals elem
        remove_all_lem i [] nodes = (
          [],
          nodes,
          refl,
          record {
            good = refl;
            stays = λ u c. c;
            swept = λ u h. cc;
            others = λ u. (λ p other. refl, λ dir id other. refl);
          },
        )
        remove_all_lem i (host ∷ hosts) nodes =
            let (outs, last, e, s) = remove_all_lem (suc i) hosts (one i host nodes) in
            (
              some 0 ∷ outs,
              last,
              remove_all-cons i host hosts nodes outs last e,
              record {
                good = s.good;
                stays = λ u c. s.stays u (one-host i host nodes u (inl c));
                swept = λ u h. elim (Bool-cases (host == u)) [
                  | inl here ↦ s.stays u (one-host i host nodes u (inr (ground arith)))
                  | inr away ↦ s.swept u (rw away at h)
                ];
                others = λ u.
                    let (a, b) = one-OthersKept i host nodes u in
                    let (a', b') = s.others u in
                    (
                      λ p other. a' p other ∙ a p other,
                      λ dir id other. b' dir id other ∙ b dir id other,
                    );
              },
            )

        -- Where every host answers, every delete works and the path's hosts are in the pool:
        -- removing a file with `size` bytes below 2 ^ 63 returns 0, and leaves no entry of the path
        -- on the entry's host, and neither an entry nor any chunk file of the path on the host of
        -- any of its first size / chunksize + 1 chunks; the entries of every other path and
        -- the chunks in every other chunk directory are the same on every host.
        pub forward_remove_lem :
            (hosts size : ℕ) (nodes : ℕ → Node format_int cfg rocks)
            → size < sign_bit
            → locate_file_metadata str_hash d path < hosts
            → ((k : ℕ) → locate_data str_hash d path k < hosts)
            → (last : ℕ → Node format_int cfg rocks) × (forward_remove format_int cfg rocks str_hash
                  d net destroyed hosts path false size nodes
                ≡ (removed, last))
              × Cleared (last (locate_file_metadata str_hash d path))
              × ((k : ℕ) → k ≤ size / chunksize → Cleared (last (locate_data str_hash d path k)))
              × ((u : ℕ) → OthersKept (nodes u) (last u))
        unfolding forward_remove
        forward_remove_lem hosts size nodes fits entry_in chunks_in =
            let (outs, last, e, s) =
              remove_all_lem 0 (remove_targets str_hash d hosts path size) nodes in
            (
              last,
              rw (e, s.good) refl,
              s.swept (locate_file_metadata str_hash d path)
                  (remove_targets-entry str_hash d hosts path size entry_in),
              λ k low.
                  s.swept (locate_data str_hash d path k)
                    (remove_targets-chunk str_hash d hosts path size k fits low (chunks_in k)),
              s.others,
            )
