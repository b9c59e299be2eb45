-- ===== src/Preload.antt =====
-- src/client/preload_context.cpp: which paths and descriptors are the library's own. A bitset has a
-- bit set where a descriptor is free; the kernel's descriptors enter as a table, in which dup3 and
-- close do what POSIX says of an open descriptor and a target in range.
pub mod InternalFds
pub mod Protection
use gekko_fwd.Base.{
  ℕ, zero, suc, ◌+◌, ◌-◌, ◌≤◌, List, [], ◌∷◌, ◌++◌, Bool, true, false, not, ◌&&◌, Option, none,
  some, ◌==◌, if◌then◌else◌, length, get_elem?, ltb, leb,
}
use gekko_fwd.Decimal.{Bytes}
use gekko_fwd.PathUtil.{separator, is_absolute, prepend_path}
use gekko_fwd.Resolver.{FileKind, Resolution, internal, external, thrown, resolve}

-- std::bitset::_Find_first: the size if no bit is set.
unfoldable pub find_first : List Bool → ℕ
find_first [] = 0
find_first (b ∷ bits) = let rest = find_first bits in if b then 0 else suc rest

-- set(pos, b); `none` is out_of_range.
unfoldable pub set_bit : List Bool → ℕ → Bool → Option (List Bool)
set_bit [] pos b = none
set_bit (c ∷ bits) zero b = some (b ∷ bits)
set_bit (c ∷ bits) (suc pos) b = elim (set_bit bits pos b) [
  | none ↦ none
  | some rest ↦ some (c ∷ rest)
]

-- What each open descriptor of the process refers to.
abbrev pub Kernel : Type 0
Kernel = ℕ → Option ℕ

unfoldable pub dup3 : Kernel → ℕ → ℕ → Kernel
dup3 kernel fd target j = if j == target then kernel fd else kernel j

unfoldable pub closed : Kernel → ℕ → Kernel
closed kernel fd j = if j == fd then none else kernel j

pub record Context : Type 0 where
  pub internal_fds : List Bool
  pub internal_fds_must_relocate : Bool

-- The descriptor that the caller uses; the exception where none is free; an assertion or
-- out_of_range.
pub data Registered : Type 0 where
  registered : ℕ → Registered
  exhausted : Registered
  refused : Registered

module _ (min_internal_fd : ℕ) where
  abbrev pub in_place : Context → Kernel → ℕ → Option (List Bool) → Registered × Context × Kernel
  in_place ctx kernel fd none = (refused, ctx, kernel)
  in_place ctx kernel fd (some bits) = (registered fd, record ctx { internal_fds = bits }, kernel)

  abbrev pub relocated :
      Context → Kernel → ℕ → ℕ → Option (List Bool) → Registered × Context × Kernel
  relocated ctx kernel fd pos none = (exhausted, ctx, kernel)
  relocated ctx kernel fd pos (some bits) = (
    registered (pos + min_internal_fd),
    record ctx { internal_fds = bits },
    closed (dup3 kernel fd (pos + min_internal_fd)) fd,
  )

  unfoldable pub register_internal_fd : Context → Kernel → ℕ → Registered × Context × Kernel
  register_internal_fd ctx kernel fd =
      if not ctx.internal_fds_must_relocate
      then (if leb min_internal_fd fd
          then in_place ctx kernel fd (set_bit ctx.internal_fds (fd - min_internal_fd) false)
          else (refused, ctx, kernel))
      else (let pos = find_first ctx.internal_fds in
          if pos == length ctx.internal_fds
          then (exhausted, ctx, kernel)
          else relocated ctx kernel fd pos (set_bit ctx.internal_fds pos false))

  -- `none` is the assertion or out_of_range.
  unfoldable pub unregister_internal_fd : Context → ℕ → Option Context
  unregister_internal_fd ctx fd =
      if leb min_internal_fd fd
      then elim (set_bit ctx.internal_fds (fd - min_internal_fd) true) [
        | none ↦ none
        | some bits ↦ some (record ctx { internal_fds = bits })
      ]
      else none

  abbrev pub negated : Option Bool → Option Bool
  negated none = none
  negated (some b) = some (not b)

  unfoldable pub is_internal_fd : Context → ℕ → Option Bool
  is_internal_fd ctx fd =
      if ltb fd min_internal_fd
      then some false
      else negated (get_elem? ctx.internal_fds (fd - min_internal_fd))

-- RelativizeStatus, with `relative_path` where it is set, and an exception or a failing assertion.
pub data Relativized : Type 0 where
  inside outside : Bytes → Relativized
  fd_unknown fd_not_a_dir failed : Relativized

abbrev pub as_relativized : Option Resolution → Relativized
as_relativized none = failed
as_relativized (some thrown) = failed
as_relativized (some (internal path)) = inside path
as_relativized (some (external path)) = outside path

-- What the open file map has at `dirfd`: nothing, a file, or a directory with its path.
pub data Dirfd : Type 0 where
  at_fdcwd unknown not_a_dir : Dirfd
  open_dir : Bytes → Dirfd

abbrev pub resolved_from : (Bytes → Option Resolution) → Option Bytes → Relativized
resolved_from resolver none = failed
resolved_from resolver (some path) = as_relativized (resolver path)

module _ (lstat : Bytes → Option FileKind) (realpath : Bytes → Option Bytes)
    (mountdir cwd : Bytes) where
  unfoldable pub relativize_fd_path : Dirfd → Bytes → Bool → Relativized
  relativize_fd_path dirfd raw_path resolve_last_link =
      let resolver = resolve lstat realpath resolve_last_link mountdir in
      if is_absolute raw_path then as_relativized (resolver raw_path) else elim dirfd [
        | at_fdcwd ↦ resolved_from resolver (prepend_path cwd raw_path)
        | unknown ↦ fd_unknown
        | not_a_dir ↦ fd_not_a_dir
        | open_dir path ↦ as_relativized (resolver (mountdir ++ (path ++ separator ∷ raw_path)))
      ]

  unfoldable pub relativize_path : Bytes → Bool → Relativized
  relativize_path raw_path resolve_last_link =
      let resolver = resolve lstat realpath resolve_last_link mountdir in
      if is_absolute raw_path
      then as_relativized (resolver raw_path)
      else resolved_from resolver (prepend_path cwd raw_path)
