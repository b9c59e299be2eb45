-- ===== src/Hooks.antt =====
-- src/client/hooks.cpp: what becomes of a system call of the application. A call of
-- syscall_no_intercept, which always ends a hook, is a value; the calls of gkfs_functions.cpp on paths
-- and on data are served by an argument. Signed and unsigned ints are their bits, below 2 ^ 32, and
-- pointers are numbers. The hooks on descriptors stand in Descriptors, those on paths in Paths, and the
-- ones for the working directory in Directory.
pub mod Descriptors
pub mod Cloexec
pub mod WorkingDirectory
pub mod Paths
pub mod Directory
use gekko_fwd.Base.{
  ℕ, ◌*◌, ◌%◌, ◌^◌, ◌/◌, List, Bool, true, false, Option, none, some, ◌==◌, if◌then◌else◌, ltb,
}
use gekko_fwd.Decimal.{Bytes}
use gekko_fwd.OpenFileMap.Defs.{Store, OpenFileMap, exist, get_dir, get}
use gekko_fwd.Preload.{
  Context, Dirfd, at_fdcwd, unknown, not_a_dir, open_dir, Relativized, relativize_path,
  relativize_fd_path,
}
use gekko_fwd.Resolver.{FileKind}
use gekko_fwd.FileCalls.{Call, value, fails, throws, unfinished, enotdir}

-- The system calls that the client's code names, and the others by their number.
pub data Sys : Type 0 where
  sys_execve sys_execveat sys_open sys_creat sys_openat sys_close sys_stat sys_statx sys_lstat : Sys
  sys_fstat sys_newfstatat sys_read sys_pread64 sys_readv sys_preadv sys_pwrite64 sys_write : Sys
  sys_writev sys_pwritev sys_unlink sys_unlinkat sys_rmdir sys_symlink sys_symlinkat sys_access :
      Sys
  sys_faccessat sys_lseek sys_truncate sys_ftruncate sys_dup sys_dup2 sys_dup3 sys_getdents : Sys
  sys_getdents64 sys_mkdirat sys_mkdir sys_chmod sys_fchmod sys_fchmodat sys_chdir sys_fchdir : Sys
  sys_getcwd sys_readlink sys_readlinkat sys_fcntl sys_rename sys_renameat sys_renameat2 : Sys
  sys_fstatfs sys_statfs sys_epoll_create sys_epoll_create1 sys_inotify_init sys_inotify_init1 : Sys
  sys_perf_event_open sys_signalfd sys_signalfd4 sys_timerfd_create sys_socket sys_socketpair : Sys
  sys_pipe sys_pipe2 sys_eventfd sys_eventfd2 sys_recvmsg sys_accept : Sys
  sys_other : ℕ → Sys

-- An argument of a system call: a number, or a pointer to a string of the library's.
pub data Arg : Type 0 where
  word : ℕ → Arg
  text : Bytes → Arg

-- The value of a hook: what the kernel answers to a call, a value that is not negative, a negative
-- errno value, an exception or a failing assertion, or no end.
pub data Hooked : Type 0 where
  kernel : Sys → List Arg → Hooked
  returns : ℕ → Hooked
  error : ℕ → Hooked
  crashes : Hooked
  endless : Hooked

-- The calls of the other functions of the client.
pub data Request : Type 0 where
  gkfs_open : Bytes → ℕ → ℕ → Request
  gkfs_create : Bytes → ℕ → Request
  gkfs_remove gkfs_rmdir : Bytes → Request
  gkfs_access : Bytes → ℕ → Request
  gkfs_stat : Bytes → ℕ → Request
  gkfs_statx : ℕ → Bytes → ℕ → ℕ → ℕ → Request
  gkfs_statfs : ℕ → Request
  gkfs_truncate : Bytes → ℕ → Request
  gkfs_lseek : ℕ → ℕ → ℕ → Request
  gkfs_read gkfs_write : ℕ → ℕ → ℕ → Request
  gkfs_pread_ws gkfs_pwrite_ws : ℕ → ℕ → ℕ → ℕ → Request
  gkfs_readv gkfs_writev : ℕ → ℕ → ℕ → Request
  gkfs_preadv gkfs_pwritev : ℕ → ℕ → ℕ → ℕ → Request
  gkfs_getdents gkfs_getdents64 : ℕ → ℕ → ℕ → Request
  -- get_metadata, with the mode as its value.
  get_mode : Bytes → Request

-- errno values
abbrev pub ebadf : ℕ
ebadf = 9

abbrev pub erange : ℕ
erange = 34

abbrev pub eoverflow : ℕ
eoverflow = 75

-- static_cast to a type of 32 bits
abbrev pub int32 : ℕ → ℕ
int32 n = n % 2 ^ 32

-- AT_FDCWD, -100
abbrev pub fdcwd : ℕ
fdcwd = 4294967196

-- The process with its client library; `world` is what the calls of the library keep elsewhere.
pub record Process (W : Type 0) : Type 0 where
  pub files : OpenFileMap
  pub store : Store
  pub context : Context
  pub mountdir : Bytes
  pub cwd : Bytes
  pub env_cwd : Option Bytes
  pub errno : ℕ
  pub world : W

-- The host's file system and the memory of strings. The error codes are 0 on success.
pub record Host : Type 0 where
  pub lstat : Bytes → Option FileKind
  pub realpath : Bytes → Option Bytes
  pub string_at : ℕ → Bytes
  pub chdir : Bytes → ℕ
  pub fchdir : ℕ → ℕ
  pub getcwd : Option Bytes
  pub setenv : Bytes → ℕ
  pub unsetenv : ℕ

-- How the calls are served, over the whole process.
abbrev pub Served : Type 0 → Type 0
Served W = Request → Process W → Call ℕ × Process W

-- -errno, which is no error where errno is 0.
abbrev pub minus_errno : ℕ → Hooked
minus_errno errno = if errno == 0 then returns 0 else error errno

module _ {W : Type 0} where
  -- The function's int parameter holds the low 32 bits of what the call returns; a negative one
  -- stands for `errno`, whoever set it.
  abbrev pub with_errno : Call ℕ × Process W → Hooked × Process W
  with_errno (value n, p) =
      (if ltb (int32 n) (2 ^ 31) then returns (int32 n) else minus_errno p.errno, p)
  with_errno (fails e, p) = (minus_errno e, p)
  with_errno (throws, p) = (crashes, p)
  with_errno (unfinished, p) = (endless, p)

  -- What the file map has at a descriptor that a path is relative to.
  abbrev pub dirfd_of : Process W → ℕ → Dirfd
  dirfd_of p fd =
      if fd == fdcwd
      then at_fdcwd
      else (if exist p.files fd
          then elim (get_dir p.store p.files fd) [
            | none ↦ not_a_dir
            | some handle ↦ open_dir (p.store handle).path
          ]
          else unknown)

  -- The path of the open file at a descriptor that is in the map.
  abbrev pub path_of : Process W → ℕ → Option Bytes
  path_of p fd = elim (get p.files fd) [ none ↦ none | some handle ↦ some (p.store handle).path ]

  abbrev pub from_dirfd : Host → Process W → ℕ → ℕ → Bool → Relativized
  from_dirfd host p dirfd cpath resolve_last_link =
      relativize_fd_path host.lstat host.realpath p.mountdir p.cwd (dirfd_of p dirfd)
        (host.string_at cpath) resolve_last_link

  abbrev pub from_cwd : Host → Process W → ℕ → Bool → Relativized
  from_cwd host p path resolve_last_link =
      relativize_path host.lstat host.realpath p.mountdir p.cwd (host.string_at path)
        resolve_last_link

  -- switch (rstatus)
  abbrev pub by_status :
      Process W
      → Relativized
      → Hooked
      → (Bytes → Hooked)
      → (Bytes → Hooked × Process W)
      → Hooked × Process W
  by_status p Relativized.fd_unknown raw outside inside = (raw, p)
  by_status p (Relativized.outside resolved) raw outside inside = (outside resolved, p)
  by_status p Relativized.fd_not_a_dir raw outside inside = (error enotdir, p)
  by_status p (Relativized.inside resolved) raw outside inside = inside resolved
  by_status p Relativized.failed raw outside inside = (crashes, p)

  -- if (CTX->relativize_path(path, rel_path)) ...
  abbrev pub by_inside :
      Process W → Relativized → (Bytes → Hooked) → (Bytes → Hooked × Process W) → Hooked × Process W
  by_inside p (Relativized.inside rel_path) outside inside = inside rel_path
  by_inside p (Relativized.outside rel_path) outside inside = (outside rel_path, p)
  by_inside p Relativized.fd_unknown outside inside = (crashes, p)
  by_inside p Relativized.fd_not_a_dir outside inside = (crashes, p)
  by_inside p Relativized.failed outside inside = (crashes, p)
