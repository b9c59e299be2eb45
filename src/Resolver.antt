-- ===== src/Resolver.antt =====
-- src/client/path.cpp: whether a path lies inside the mount directory, and its canonical form. The
-- kernel enters as `lstat` and `realpath`.
pub mod Text
pub mod Matched
pub mod Spec
pub mod Lexical
pub mod Canonical
pub mod Split
use gekko_fwd.Base.{
  ℕ, zero, suc, ◌+◌, ◌-◌, ◌≤◌, List, [], ◌∷◌, ◌++◌, Bool, true, false, not, ◌&&◌, ◌||◌, Option,
  none, some, ◌==◌, if◌then◌else◌, length, get_elem?, ltb, leb,
}
use gekko_fwd.Decimal.{Bytes}
use gekko_fwd.Metadata.{empty}
use gekko_fwd.PathUtil.{separator, is_absolute, cut, split_path, find_last_of, take, drop}
use gekko_fwd.MetaStore.Rocks.{same}

-- excluded_paths
abbrev pub excluded_paths : List Bytes
excluded_paths = (b's' ∷ b'y' ∷ b's' ∷ b'/' ∷ []) ∷ (b'p' ∷ b'r' ∷ b'o' ∷ b'c' ∷ b'/' ∷ []) ∷ []

-- st_mode of lstat
pub data FileKind : Type 0 where
  link directory other_file : FileKind

-- The return value and `resolved`: inside, outside, or an exception.
pub data Resolution : Type 0 where
  internal external : Bytes → Resolution
  thrown : Resolution

-- `matched` and `path_components`; `none` where `at` throws.
unfoldable pub match_from : ℕ → List Bytes → ℕ → ℕ → Bytes → Option (ℕ × ℕ)
match_from zero components matched processed text = some (matched, processed)
match_from (suc fuel) components matched processed [] = some (matched, processed)
match_from (suc fuel) components matched processed (c ∷ s) =
    let part = cut (c ∷ s) in
    let next : ℕ → Option (ℕ × ℕ) = λ m. elim part.1 [
      | none ↦ some (m, suc processed)
      | some text ↦ match_from fuel components m (suc processed) text
    ] in
    if matched == processed
    then elim (get_elem? components matched) [
      | none ↦ none
      | some component ↦ next (if same part.0 component then suc matched else matched)
    ]
    else next matched

-- The loop starts behind the first character.
unfoldable pub match_components : Bytes → List Bytes → Option (ℕ × ℕ)
unfolding match_from
match_components [] components = some (0, 0)
match_components (c ∷ path) components = match_from (length path) components 0 0 path

-- The variables of the loop of `resolve`; `none` is npos.
pub record Resolving : Type 0 where
  pub resolved : Bytes
  pub matched_components : ℕ
  pub resolved_components : ℕ
  pub last_slash_pos : Option ℕ

abbrev pub start : Resolving
start = record {
  resolved = [];
  matched_components = 0;
  resolved_components = 0;
  last_slash_pos = some 0;
}

-- Skip a sequence of separators.
unfoldable pub skip_separators : Bytes → Bytes
skip_separators [] = []
skip_separators (c ∷ s) = if c == separator then skip_separators s else c ∷ s

abbrev pub is_dot : Bytes → Bool
is_dot component = same component (b'.' ∷ [])

abbrev pub is_dot_dot : Bytes → Bool
is_dot_dot component = same component (b'.' ∷ b'.' ∷ [])

-- The rest of the path from the component's end on.
abbrev pub from_end : Option Bytes → Bytes
from_end none = []
from_end (some rest) = separator ∷ rest

abbrev pub erased_from : Option ℕ → Bytes → Option Bytes
erased_from none s = none
erased_from (some pos) s = some (take pos s)

-- The component '..': `none` where `erase` throws.
unfoldable pub roll_back : Resolving → Option Resolving
roll_back st =
    let back =
      if empty st.resolved then some st.resolved else erased_from st.last_slash_pos st.resolved in
    let slash = λ (r : Bytes). if empty st.resolved then st.last_slash_pos else find_last_of r in
    let matched =
      if ltb 0 st.resolved_components && st.matched_components == st.resolved_components
      then st.matched_components - 1
      else st.matched_components in
    elim back [
      | none ↦ none
      | some r ↦ some (record {
        resolved = r;
        matched_components = matched;
        resolved_components = st.resolved_components - 1;
        last_slash_pos = slash r;
      })
    ]

unfoldable pub add_component : Resolving → Bytes → Resolving
add_component st component = record st {
  resolved = st.resolved ++ separator ∷ component;
  last_slash_pos = some (length st.resolved);
}

-- What one component makes: the loop goes on, or the function ends.
pub data Turn : Type 0 where
  onward : Resolving → Turn
  ended : Resolution → Turn

abbrev pub at_path_end : Option Bytes → Bool
at_path_end none = true
at_path_end (some rest) = false

-- components.at(matched_components), where the caller has tested that it is there.
abbrev pub is_component : Option Bytes → Bytes → Bool
is_component none component = false
is_component (some c) component = same component c

abbrev pub rolled : Option Resolving → Turn
rolled none = ended thrown
rolled (some st) = onward st

abbrev pub has_prefix : Bytes → Bytes → Bool
has_prefix [] s = true
has_prefix (c ∷ prefix) [] = false
has_prefix (c ∷ prefix) (d ∷ s) = let rest = has_prefix prefix s in c == d && rest

abbrev pub is_excluded : List Bytes → Bytes → Bool
is_excluded [] text = false
is_excluded (excl_path ∷ more) text = has_prefix excl_path text || is_excluded more text

module _ (lstat : Bytes → Option FileKind) (realpath : Bytes → Option Bytes)
    (resolve_last_link : Bool) (mountdir : Bytes) where
  -- CTX->mountdir_components()
  abbrev pub mnt_components : List Bytes
  mnt_components = split_path mountdir

  -- A component is a link outside: `resolved` is replaced.
  unfoldable pub follow_link : Resolving → Option Bytes → Turn
  follow_link st rest = elim (realpath st.resolved) [
    | none ↦ ended (external (st.resolved ++ from_end rest))
    | some target ↦ elim (match_components target mnt_components) [
      | none ↦ ended thrown
      | some (matched, components) ↦ onward (record {
        resolved = target;
        matched_components = matched;
        resolved_components = components;
        last_slash_pos = find_last_of target;
      })
    ]
  ]

  -- A component outside of GekkoFS: `st` has it added to `resolved`, and it may be one more of the
  -- mount directory's.
  unfoldable pub outside : Resolving → Option Bytes → Turn
  unfolding follow_link
  outside st rest = elim (lstat st.resolved) [
    | none ↦ ended (external (st.resolved ++ from_end rest))
    | some link ↦
        if not resolve_last_link && at_path_end rest then onward st else follow_link st rest
    | some directory ↦ onward (record st { resolved_components = suc st.resolved_components })
    | some other_file ↦
        if at_path_end rest
        then onward (record st { resolved_components = suc st.resolved_components })
        else ended (external (st.resolved ++ from_end rest))
  ]

  unfoldable pub next_component : Resolving → Bytes → Option Bytes → Turn
  unfolding outside
  next_component st component rest =
      let added = add_component st component in
      let hit =
        st.matched_components == st.resolved_components
        && is_component (get_elem? mnt_components st.matched_components) component in
      if ltb st.matched_components (length mnt_components)
      then outside
          (record added {
            matched_components = if hit then suc st.matched_components else st.matched_components;
          })
          rest
      else onward (record added {
        matched_components = suc st.matched_components;
        resolved_components = suc st.resolved_components;
      })

  -- One round of the loop for a component that is not empty.
  unfoldable pub turn : Resolving → Bytes → Option Bytes → Turn
  unfolding next_component roll_back
  turn st component rest =
      if is_dot component
      then onward st
      else if is_dot_dot component
      then rolled (roll_back st)
      else next_component st component rest

  -- Behind the loop; erase(1, mountdir.size()) throws on an empty text.
  unfoldable pub finish : Resolving → Resolution
  finish st =
      if leb (length mnt_components) st.matched_components
      then elim st.resolved [ [] ↦ thrown | c ∷ s ↦ internal (c ∷ drop (length mountdir) s) ]
      else elim st.resolved [ [] ↦ external (separator ∷ []) | c ∷ s ↦ external (c ∷ s) ]

  -- The loop, on what is behind a separator. `none` where the fuel is out.
  unfoldable pub resolve_from : ℕ → Bytes → Resolving → Option Resolution
  unfolding turn finish
  resolve_from zero text st = none
  resolve_from (suc fuel) text st = elim (skip_separators text) [
    | [] ↦ some (finish st)
    | c ∷ s ↦
        let part = cut (c ∷ s) in
        elim (turn st part.0 part.1) [
          | ended r ↦ some r
          | onward next ↦ elim part.1 [
            | none ↦ some (finish next)
            | some rest ↦ resolve_from fuel rest next
          ]
        ]
  ]

  -- An absolute path; `none` is the assertion.
  unfoldable pub resolve : Bytes → Option Resolution
  unfolding resolve_from
  resolve [] = none
  resolve (c ∷ text) =
      if c == separator
      then (if is_excluded excluded_paths text
          then some (external (c ∷ text))
          else resolve_from (suc (length text)) text start)
      else none
