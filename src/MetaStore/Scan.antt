-- ===== src/MetaStore/Scan.antt =====
-- `get_dirents` of src/daemon/backend/metadata/db.cpp. The iterator enters as the keys and values that
-- it passes from Seek on; its documentation says that keys come in the order of their bytes.
use gekko_fwd.Base.{
  List, [], ◌∷◌, ◌++◌, Bool, false, not, ◌&&◌, ◌||◌, Option, none, some, ◌==◌, if◌then◌else◌,
  length,
}
use gekko_fwd.Decimal.{Bytes}
use gekko_fwd.Metadata.{Metadata, Config, parse, is_dir}
use gekko_fwd.PathUtil.{separator, is_absolute, has_trailing_slash, behind}

-- A trailing slash is added if it is missing, but not to the root folder.
unfoldable pub root_path : Bytes → Bytes
root_path dir =
    if not (has_trailing_slash dir) && not (length dir == 1) then dir ++ separator ∷ [] else dir

unfoldable pub has_slash : Bytes → Bool
has_slash [] = false
has_slash (c ∷ s) = c == separator || has_slash s

abbrev pub Rows : Type 0
Rows = List (Bytes × Bytes)

abbrev pub Found : Type 0
Found = Option (List (Bytes × Bool))

module _ (cfg : Config) where
  -- The value must parse.
  abbrev pub with_entry : Bytes → Option Metadata → Found → Found
  with_entry name none rest = none
  with_entry name (some md) none = none
  with_entry name (some md) (some rest) = some ((name, is_dir md.mode) ∷ rest)

  -- What the loop makes of a key behind the prefix, and of the rest of the scan.
  abbrev pub with_name : Bytes → Bytes → Found → Found
  with_name [] value rest = rest
  with_name (c ∷ name) value rest =
      if has_slash (c ∷ name) then rest else with_entry (c ∷ name) (parse cfg value) rest

  -- The loop ends at the first key without the prefix. `none` is an exception or an assertion.
  unfoldable pub scan_from : Bytes → Rows → Found
  scan_from root [] = some []
  scan_from root ((key, value) ∷ rows) = elim (behind root key) [
    | none ↦ some []
    | some name ↦ with_name name value (scan_from root rows)
  ]

  unfoldable pub db_get_dirents : Bytes → Rows → Found
  unfolding root_path scan_from
  db_get_dirents dir rows = if is_absolute dir then scan_from (root_path dir) rows else none
