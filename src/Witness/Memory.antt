-- ===== src/Witness/Memory.antt =====
-- A metadata store in memory, and a file, for the runs at concrete inputs.
use gekko_fwd.Base.{ℕ, ◌<◌, ◌≡◌, refl, sym, ap, [], ◌∷◌, ◌++◌, none, some, arith, if◌then◌else◌}
use gekko_fwd.Decimal.{Bytes, to_string}
use gekko_fwd.Metadata.{Metadata, config}
use gekko_fwd.Metadata.RoundTrip.{Fits}
use gekko_fwd.MetaStore.Rocks.{Rocks, Entry, answer, same}

abbrev pub Memory : Type 0
Memory = Bytes → Entry

abbrev pub memory_merge : Memory → Bytes → Bytes → Memory
memory_merge db k op j = if same k j then ((db j).0, (db j).1 ++ op ∷ []) else db j

abbrev pub memory_delete : Memory → Bytes → Memory
memory_delete db k j = if same k j then (none, []) else db j

abbrev pub memory_rewrite : Memory → Bytes → Bytes → Bytes → Memory
memory_rewrite db old_key new_key val j =
    if same new_key j then (some val, []) else if same old_key j then (none, []) else db j

pub entry_after : (db next : Memory) (j : Bytes) → some db ≡ some next → next j ≡ db j
entry_after db next j e = let q : db ≡ next = cc e in ap (λ (m : Memory). m j) (sym q)

-- A store whose operations always work.
abbrev pub memory : Rocks to_string config
memory = record {
  Db = Memory;
  get = λ db k. answer to_string config (db k);
  merge = λ db k op. some (memory_merge db k op);
  delete = λ db k. some (memory_delete db k);
  rewrite = λ db old_key new_key val. some (memory_rewrite db old_key new_key val);
  entry = λ db k. db k;
  get_law = λ db k. refl;
  merge_law = λ db next k op j e. entry_after (memory_merge db k op) next j e;
  delete_law = λ db next k j e. entry_after (memory_delete db k) next j e;
  rewrite_law = λ db next old_key new_key val j e.
      entry_after (memory_rewrite db old_key new_key val) next j e;
}

-- A regular file of 100 bytes, and the one that a creation makes.
abbrev pub file : Metadata
file = record {
  atime = 0;
  mtime = 0;
  ctime = 0;
  mode = 0o100644;
  link_count = 0;
  size = 100;
  blocks = 0;
  target_path = [];
}

abbrev pub new_file : Metadata
new_file = record file { size = 0 }

pub file-Fits : (n : ℕ) → n < 1000 → Fits (record file { size = n })
file-Fits n h = record {
  mode_fits = omega arith;
  size_fits = omega arith;
  atime_fits = omega arith;
  mtime_fits = omega arith;
  ctime_fits = omega arith;
  link_count_fits = omega arith;
  blocks_fits = omega arith;
  only_links = refl;
}
