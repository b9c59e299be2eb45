-- ===== src/OpenFileMap/Defs.antt =====
-- `OpenFile` and `OpenFileMap` of include/client/open_file_map.hpp and src/client/open_file_map.cpp.
-- A shared pointer is a handle into a store of open files, so that descriptors can share one.
-- Descriptors are not negative: the hooks take them as `unsigned int`.
use gekko_fwd.Base.{
  ℕ, zero, suc, ◌+◌, List, [], ◌∷◌, Bool, true, false, ◌&&◌, not, ltb, ◌==◌, if◌then◌else◌, Option,
  none, some, length,
}
use mathlib.Core.Option
use gekko_fwd.Decimal.{Bytes}

pub data FileType : Type 0 where
  regular directory : FileType

-- `flags_`, an array over `OpenFile_flags`.
pub record Flags : Type 0 where
  pub append : Bool
  pub creat : Bool
  pub trunc : Bool
  pub rdonly : Bool
  pub wronly : Bool
  pub rdwr : Bool
  pub cloexec : Bool

-- Whether `flags` has one of the bits of a mask, `flags & mask`.
pub record OpenFlags : Type 0 where
  pub o_creat : Bool
  pub o_append : Bool
  pub o_trunc : Bool
  pub o_wronly : Bool
  pub o_rdwr : Bool

pub record OpenFile : Type 0 where
  pub type_ : FileType
  pub path : Bytes
  pub flags : Flags
  pub pos : ℕ

-- The constructor. O_RDONLY is 0, so its test never holds.
unfoldable pub open_file : Bytes → OpenFlags → FileType → OpenFile
open_file path flags type_ = record {
  type_ = type_;
  path = path;
  flags = record {
    append = flags.o_append;
    creat = flags.o_creat;
    trunc = flags.o_trunc;
    rdonly = false;
    wronly = flags.o_wronly;
    rdwr = flags.o_rdwr;
    cloexec = false;
  };
  pos = 0;
}

-- Where the shared pointers point.
abbrev pub Store : Type 0
Store = ℕ → OpenFile

unfoldable pub set_pos : Store → ℕ → ℕ → Store
set_pos store handle pos h = if h == handle then record (store h) { pos = pos } else store h

abbrev pub Files : Type 0
Files = List (ℕ × ℕ)

pub record OpenFileMap : Type 0 where
  pub files : Files
  pub fd_idx : ℕ
  pub fd_validation_needed : Bool

-- OpenFileMap::OpenFileMap
abbrev pub new_map : OpenFileMap
new_map = record { files = []; fd_idx = 10000; fd_validation_needed = false }

-- std::map::find
unfoldable pub find : Files → ℕ → Option ℕ
find [] fd = none
find ((k, h) ∷ files) fd = if k == fd then some h else find files fd

-- The iterator is not end().
abbrev pub found : Option ℕ → Bool
found none = false
found (some h) = true

unfoldable pub has : Files → ℕ → Bool
has files fd = found (find files fd)

-- std::map::insert leaves an existing entry alone.
unfoldable pub insert : Files → ℕ → ℕ → Files
insert files fd handle = if has files fd then files else (fd, handle) ∷ files

-- std::map::erase
unfoldable pub erase : Files → ℕ → Files
erase [] fd = []
erase ((k, h) ∷ files) fd = let rest = erase files fd in if k == fd then rest else (k, h) ∷ rest

unfoldable pub get : OpenFileMap → ℕ → Option ℕ
get m fd = find m.files fd

abbrev is_directory : FileType → Bool
is_directory directory = true
is_directory regular = false

unfoldable pub get_dir : Store → OpenFileMap → ℕ → Option ℕ
get_dir store m dirfd = elim (get m dirfd) [
  | none ↦ none
  | some h ↦ if is_directory (store h).type_ then some h else none
]

unfoldable pub exist : OpenFileMap → ℕ → Bool
exist m fd = has m.files fd

-- std::numeric_limits<int>::max
abbrev pub int_max : ℕ
int_max = 2147483647

unfoldable pub generate_fd_idx : OpenFileMap → ℕ × OpenFileMap
generate_fd_idx m =
    if m.fd_idx == int_max
    then (100000, record m { fd_idx = 100001; fd_validation_needed = true })
    else (m.fd_idx, record m { fd_idx = suc m.fd_idx })

-- The loop that looks for a descriptor that is not in use: `none` if the fuel runs out.
unfoldable pub validate : ℕ → ℕ × OpenFileMap → Option (ℕ × OpenFileMap)
validate zero (fd, m) = if exist m fd then none else some (fd, m)
validate (suc fuel) (fd, m) =
    let next = validate fuel (generate_fd_idx m) in if exist m fd then next else some (fd, m)

-- At most once around the descriptors in use, from the index and from where it wraps.
abbrev pub enough : OpenFileMap → ℕ
enough m = length m.files + length m.files + 2

unfoldable pub safe_generate_fd_idx : OpenFileMap → Option (ℕ × OpenFileMap)
safe_generate_fd_idx m =
    let (fd, n) = generate_fd_idx m in
    if n.fd_validation_needed then validate (enough m) (fd, n) else some (fd, n)

-- The insertion of a handle under a new descriptor.
unfoldable pub place : ℕ → ℕ × OpenFileMap → ℕ × OpenFileMap
place handle (fd, m) = (fd, record m { files = insert m.files fd handle })

unfoldable pub add : OpenFileMap → ℕ → Option (ℕ × OpenFileMap)
add m handle = Option.map (place handle) (safe_generate_fd_idx m)

abbrev pub is_empty : Files → Bool
is_empty [] = true
is_empty (f ∷ fs) = false

unfoldable pub remove : OpenFileMap → ℕ → Bool × OpenFileMap
remove m fd =
    if exist m fd
    then (
      true,
      record m {
        files = erase m.files fd;
        fd_validation_needed = m.fd_validation_needed && not (is_empty (erase m.files fd));
      },
    )
    else (false, m)

-- EBADF, or the new descriptor.
pub data DupResult : Type 0 where
  ebadf : DupResult
  returned : ℕ → DupResult

unfoldable pub dup : OpenFileMap → ℕ → Option (DupResult × OpenFileMap)
dup m oldfd = elim (get m oldfd) [
  | none ↦ some (ebadf, m)
  | some handle ↦
      Option.map (λ p. (returned p.0, p.1)) (Option.map (place handle) (safe_generate_fd_idx m))
]

-- `dup2` removes the new descriptor if it is in use,
unfoldable pub kept : OpenFileMap → ℕ → OpenFileMap
kept m newfd = if exist m newfd then (remove m newfd).1 else m

-- and has the search look from then on if the descriptor is ahead of the index.
unfoldable pub guarded : OpenFileMap → ℕ → OpenFileMap
guarded m newfd =
    if ltb m.fd_idx newfd && (not (newfd == 0) && (not (newfd == 1) && not (newfd == 2)))
    then record m { fd_validation_needed = true }
    else m

unfoldable pub dup2 : OpenFileMap → ℕ → ℕ → DupResult × OpenFileMap
dup2 m oldfd newfd = elim (get m oldfd) [
  | none ↦ (ebadf, m)
  | some handle ↦
      if oldfd == newfd
      then (returned newfd, m)
      else let n = guarded (kept m newfd) newfd in
        (returned newfd, record n { files = insert n.files newfd handle })
]
