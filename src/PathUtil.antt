-- ===== src/PathUtil.antt =====
-- src/global/path_util.cpp: tests on paths, and paths as components. Paths are lists of bytes.
use gekko_fwd.Base.{
  ℕ, zero, suc, List, [], ◌∷◌, ◌++◌, Bool, false, not, ◌&&◌, ◌||◌, Option, none, some, ◌==◌,
  if◌then◌else◌, length, ltb,
}
use gekko_fwd.Decimal.{Bytes}

-- path::separator
abbrev pub separator : ℕ
separator = b'/'

unfoldable pub is_absolute : Bytes → Bool
is_absolute [] = false
is_absolute (c ∷ s) = c == separator

unfoldable pub is_relative : Bytes → Bool
is_relative [] = false
is_relative (c ∷ s) = not (c == separator)

unfoldable pub has_trailing_slash : Bytes → Bool
has_trailing_slash [] = false
has_trailing_slash (c ∷ []) = c == separator
has_trailing_slash (c ∷ d ∷ s) = has_trailing_slash (d ∷ s)

-- The assertion, then the two parts with a separator between.
unfoldable pub prepend_path : Bytes → Bytes → Option Bytes
prepend_path prefix_path raw_path =
    if has_trailing_slash prefix_path then none else some (prefix_path ++ separator ∷ raw_path)

-- The component in front of the next separator, and what is behind it: `none` at the path's end.
unfoldable pub cut : Bytes → Bytes × Option Bytes
cut [] = ([], none)
cut (c ∷ s) = let rest = cut s in if c == separator then ([], some s) else (c ∷ rest.0, rest.1)

-- The parts between separators, from a position in front of a part: the loop of split_path ends at
-- the end of the path.
unfoldable pub split_from : ℕ → Bytes → List Bytes
split_from zero s = []
split_from (suc fuel) [] = []
split_from (suc fuel) (c ∷ s) =
    let part = cut (c ∷ s) in
    elim part.1 [ none ↦ part.0 ∷ [] | some rest ↦ part.0 ∷ split_from fuel rest ]

-- `end` starts behind a leading separator. `front` of an empty path is not asked for.
unfoldable pub split_path : Bytes → List Bytes
unfolding split_from
split_path [] = []
split_path (c ∷ s) =
    if c == separator then split_from (length s) s else split_from (length (c ∷ s)) (c ∷ s)

-- std::string::find_last_of(separator), `none` for npos.
unfoldable pub find_last_of : Bytes → Option ℕ
find_last_of [] = none
find_last_of (c ∷ s) = elim (find_last_of s) [
  | some i ↦ some (suc i)
  | none ↦ if c == separator then some 0 else none
]

abbrev pub take {ℓ} : {A : Type ℓ} → ℕ → List A → List A
take zero xs = []
take (suc n) [] = []
take (suc n) (x ∷ xs) = x ∷ take n xs

abbrev pub drop {ℓ} : {A : Type ℓ} → ℕ → List A → List A
drop zero xs = xs
drop (suc n) [] = []
drop (suc n) (x ∷ xs) = drop n xs

-- std::mismatch against the root: what is behind it. A path has no NUL, so the root's end differs.
unfoldable pub behind : Bytes → Bytes → Option Bytes
behind [] path = some path
behind (r ∷ root) [] = none
behind (r ∷ root) (c ∷ path) = let rest = behind root path in if r == c then rest else none

abbrev pub without_last : Bytes → Bytes
without_last [] = []
without_last (c ∷ []) = []
without_last (c ∷ d ∷ s) = c ∷ without_last (d ∷ s)

-- `none` is an assertion that fails.
unfoldable pub absolute_to_relative : Bytes → Bytes → Option Bytes
absolute_to_relative root_path absolute_path =
    if is_absolute root_path && is_absolute absolute_path && not (has_trailing_slash root_path)
    then some (elim (behind root_path absolute_path) [
      | none ↦ []
      | some [] ↦ separator ∷ []
      | some (c ∷ []) ↦ c ∷ []
      | some (c ∷ d ∷ rest) ↦
          if has_trailing_slash absolute_path then without_last (c ∷ d ∷ rest) else c ∷ d ∷ rest
    ])
    else none

abbrev pub parent_path : Bytes → Option ℕ → Option Bytes
parent_path path none = none
parent_path path (some zero) = some (take 1 path)
parent_path path (some (suc n)) = some (take (suc n) path)

-- `none` is an assertion that fails; `front` of an empty path is taken as one.
unfoldable pub dirname : Bytes → Option Bytes
dirname path =
    if (ltb 1 (length path) || is_absolute path)
      && (length path == 1 || not (has_trailing_slash path))
    then parent_path path (find_last_of path)
    else none
