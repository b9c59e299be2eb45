-- ===== src/Witness/Meta.antt =====
-- Metadata, merges, the distributor and the descriptor table at concrete inputs.
use gekko_fwd.Base.{
  ℕ, ◌≡◌, refl, inl, List, [], ◌∷◌, true, false, ◌==◌, if◌then◌else◌, none, some, arith,
}
use gekko_fwd.Decimal.{to_string}
use gekko_fwd.Metadata.{Metadata, config, parse, serialize}
use gekko_fwd.Metadata.RoundTrip.{Fits, read_back, parse-serialize, parse-serialize_size_overflow}
use gekko_fwd.Merge.{Operand, increase_size, decrease_size, ◌>>=◌, full_merge}
use gekko_fwd.Merge.Refinement.{resize_all, queued, resized, full_merge-queued}
use gekko_fwd.OpenFileMap.Defs.{OpenFileMap, find, has, get, exist, add, dup2}
use gekko_fwd.OpenFileMap.Search.{IsValid}
use gekko_fwd.OpenFileMap.Table.{add_lem}
use gekko_fwd.OpenFileMap.Dup2.{dup2-add_collision}

-- A regular file of 100 bytes.
abbrev file : Metadata
file = record {
  atime = 0;
  mtime = 0;
  ctime = 0;
  mode = 0o100644;
  link_count = 0;
  size = 100;
  blocks = 0;
  target_path = [];
}

file-Fits : Fits file
file-Fits = record {
  mode_fits = omega arith;
  size_fits = omega arith;
  atime_fits = omega arith;
  mtime_fits = omega arith;
  ctime_fits = omega arith;
  link_count_fits = omega arith;
  blocks_fits = omega arith;
  only_links = refl;
}

abbrev updates : List Operand
updates = increase_size 300 false ∷ decrease_size 200 ∷ []

parse-serialize_example :
    parse config (serialize to_string config file) ≡ some (read_back config file)
parse-serialize_example = parse-serialize to_string (λ n. refl) config file file-Fits

parse-serialize_size_overflow_example :
    parse config (serialize to_string config (record file { size = 9223372036854775808 })) ≡ none
parse-serialize_size_overflow_example =
    parse-serialize_size_overflow to_string (λ n. refl) config
      (record file { size = 9223372036854775808 }) (omega arith) (omega arith)

full_merge-queued_example :
    full_merge to_string config (some (serialize to_string config file)) (queued updates)
    ≡ (resize_all updates 100 >>= resized to_string config file)
full_merge-queued_example =
    full_merge-queued to_string config (λ n. refl) file updates file-Fits
      (omega arith, (omega arith, tt))

-- One open file, as descriptor 10000.
abbrev one_open : OpenFileMap
one_open = record { files = (10000, 7) ∷ []; fd_idx = 10001; fd_validation_needed = true }

one_open-IsValid : IsValid one_open
one_open-IsValid = record { low = omega arith; high = omega arith; behind = inl refl }

add_lem_example :
    (r : ℕ × OpenFileMap) × (add one_open 8 ≡ some r)
    × (get one_open r.0 ≡ none)
    × ((k : ℕ) → get r.1 k ≡ (if k == r.0 then some 8 else get one_open k))
    × IsValid r.1
unfolding get find
add_lem_example = add_lem one_open 8 one_open-IsValid refl

abbrev unchecked : OpenFileMap
unchecked = record one_open { fd_validation_needed = false }

dup2-add_collision_example :
    (n : OpenFileMap) × (add (dup2 unchecked 10000 10001).1 9 ≡ some (10001, n))
    × (get n 10001 ≡ some 7)
unfolding get find exist has
dup2-add_collision_example =
    dup2-add_collision unchecked 10000 7 9 refl (omega arith) (omega arith) refl refl
