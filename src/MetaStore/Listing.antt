-- ===== src/MetaStore/Listing.antt =====
-- `get_dirents` of src/daemon/backend/metadata/db.cpp against a description of the keys of a folder's
-- entries.
use gekko_fwd.Base.{
  ◌≡◌, ◌⊎◌, [], ◌∷◌, ◌++◌, Bool, true, false, ◌&&◌, Option, none, some, ◌==◌, if◌then◌else◌,
}
use gekko_fwd.Decimal.{Bytes}
use gekko_fwd.Metadata.{Config, parse}
use gekko_fwd.PathUtil.{separator, is_absolute, has_trailing_slash}
use gekko_fwd.MetaStore.Scan.{Rows, Found, has_slash, with_entry}

-- What a key is made of: the path before its last separator, and the name behind it.
abbrev pub split_last : Bytes → Option (Bytes × Bytes)
split_last [] = none
split_last (c ∷ s) = elim (split_last s) [
  | some (parent, name) ↦ some (c ∷ parent, name)
  | none ↦ if c == separator then some ([], s) else none
]

abbrev pub same_path : Bytes → Bytes → Bool
same_path [] [] = true
same_path [] (d ∷ t) = false
same_path (c ∷ s) [] = false
same_path (c ∷ s) (d ∷ t) = c == d && same_path s t

-- The name of an entry of a folder; the root is the folder with the empty path.
abbrev pub named : Bytes → Option (Bytes × Bytes) → Option Bytes
named folder none = none
named folder (some (parent, [])) = none
named folder (some (parent, c ∷ name)) = if same_path folder parent then some (c ∷ name) else none

abbrev pub child_name : Bytes → Bytes → Option Bytes
child_name folder key = named folder (split_last key)

-- How the folder is written as a path.
abbrev pub path_of : Bytes → Bytes
path_of [] = separator ∷ []
path_of (c ∷ s) = c ∷ s

module _ (cfg : Config) where
  -- The entries of a folder among any keys, each key by itself.
  abbrev pub children : Bytes → Rows → Found
  children folder [] = some []
  children folder ((key, value) ∷ rows) = elim (child_name folder key) [
    | none ↦ children folder rows
    | some name ↦ with_entry cfg name (parse cfg value) (children folder rows)
  ]

-- What the scan makes of what is behind its prefix.
abbrev below : Option Bytes → Option Bytes
below none = none
below (some []) = none
below (some (c ∷ name)) = if has_slash (c ∷ name) then none else some (c ∷ name)

module _ (cfg : Config) (folder : Bytes) where
  abbrev root : Bytes
  root = folder ++ separator ∷ []

-- The empty path, or a path that begins with a separator and does not end with one.
abbrev pub IsFolder : Bytes → Type 0
IsFolder folder =
    (folder ≡ []) ⊎ ((is_absolute folder ≡ true) × (has_trailing_slash folder ≡ false))
