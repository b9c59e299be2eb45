-- ===== src/Intercept.antt =====
-- src/client/intercept.cpp: which hook takes a system call. The application's calls go through `hook`,
-- the library's own through Internal, and the guard that tells them apart stands in Guard. Execve is
-- a value as the last call of a hook is.
pub mod Internal
pub mod Guard
pub mod OwnFds
pub mod PathCalls
pub mod Transparent
pub mod Routes
use gekko_fwd.Base.{ℕ, List, [], ◌∷◌, Bool}
use gekko_fwd.Hooks.{
  Sys, Arg, word, Hooked, kernel, Process, Host, Served, int32, fdcwd, returns, text,
}
use gekko_fwd.Decimal.{Bytes}
use gekko_fwd.Hooks.Paths.{
  hook_openat, hook_stat, hook_statx, hook_lstat, hook_fstatat, hook_unlinkat, hook_symlinkat,
  hook_access, hook_faccessat, hook_truncate, hook_mkdirat, hook_fchmodat, hook_readlinkat,
  hook_renameat, hook_statfs, at_removedir,
}
use gekko_fwd.Hooks.Descriptors.{
  hook_close, hook_fstat, hook_read, hook_pread, hook_readv, hook_preadv, hook_write, hook_pwrite,
  hook_writev, hook_pwritev, hook_lseek, hook_ftruncate, hook_dup, hook_dup2, hook_dup3,
  hook_getdents, hook_getdents64, hook_fchmod, hook_fcntl, hook_fstatfs,
}
use gekko_fwd.Hooks.Directory.{hook_chdir, hook_fchdir, hook_getcwd}

-- The arguments as registers of 64 bits.
pub record Args : Type 0 where
  pub arg0 : ℕ
  pub arg1 : ℕ
  pub arg2 : ℕ
  pub arg3 : ℕ
  pub arg4 : ℕ

-- The int that the hooking library takes, with what stands in `result`.
pub data Dispatch : Type 0 where
  forward_to_kernel : Dispatch
  hooked : Hooked → Dispatch

-- O_WRONLY | O_CREAT | O_TRUNC
abbrev pub creat_flags : ℕ
creat_flags = 0o1101

module _ {W : Type 0} where
  abbrev pub as_hooked : Hooked × Process W → Dispatch × Process W
  as_hooked (h, p) = (hooked h, p)

  unfoldable pub hook : Host → Served W → ℕ → Sys → Args → Process W → Dispatch × Process W
  unfolding hook_openat hook_stat hook_statx hook_lstat hook_fstatat hook_unlinkat hook_symlinkat
      hook_access hook_faccessat hook_truncate hook_mkdirat hook_fchmodat hook_readlinkat
      hook_renameat hook_statfs hook_close hook_fstat hook_read hook_pread hook_readv hook_preadv
      hook_write hook_pwrite hook_writev hook_pwritev hook_lseek hook_ftruncate hook_dup hook_dup2
      hook_dup3 hook_getdents hook_getdents64 hook_fchmod hook_fcntl hook_fstatfs hook_chdir
      hook_fchdir hook_getcwd
  hook host serve min_internal_fd nr a p =
      let i0 = int32 a.arg0 in
      let i1 = int32 a.arg1 in
      let i2 = int32 a.arg2 in
      let i3 = int32 a.arg3 in
      let i4 = int32 a.arg4 in
      elim nr [
        | Sys.sys_execve ↦
            (hooked (kernel Sys.sys_execve (word a.arg0 ∷ word a.arg1 ∷ word a.arg2 ∷ [])), p)
        | Sys.sys_execveat ↦ (
          hooked (
              kernel Sys.sys_execveat
                (word a.arg0 ∷ word a.arg1 ∷ word a.arg2 ∷ word a.arg3 ∷ word a.arg4 ∷ [])),
          p,
        )
        | Sys.sys_open ↦ as_hooked (hook_openat host serve fdcwd a.arg0 i1 i2 p)
        | Sys.sys_creat ↦ as_hooked (hook_openat host serve fdcwd a.arg0 creat_flags i1 p)
        | Sys.sys_openat ↦ as_hooked (hook_openat host serve i0 a.arg1 i2 i3 p)
        | Sys.sys_close ↦ as_hooked (hook_close min_internal_fd i0 p)
        | Sys.sys_stat ↦ as_hooked (hook_stat host serve a.arg0 a.arg1 p)
        | Sys.sys_statx ↦ as_hooked (hook_statx host serve i0 a.arg1 i2 i3 a.arg4 p)
        | Sys.sys_lstat ↦ as_hooked (hook_lstat host serve a.arg0 a.arg1 p)
        | Sys.sys_fstat ↦ as_hooked (hook_fstat serve i0 a.arg1 p)
        | Sys.sys_newfstatat ↦ as_hooked (hook_fstatat host serve i0 a.arg1 a.arg2 i3 p)
        | Sys.sys_read ↦ as_hooked (hook_read serve i0 a.arg1 a.arg2 p)
        | Sys.sys_pread64 ↦ as_hooked (hook_pread serve i0 a.arg1 a.arg2 a.arg3 p)
        | Sys.sys_readv ↦ as_hooked (hook_readv serve a.arg0 a.arg1 a.arg2 p)
        | Sys.sys_preadv ↦ as_hooked (hook_preadv serve a.arg0 a.arg1 a.arg2 a.arg3 a.arg4 p)
        | Sys.sys_pwrite64 ↦ as_hooked (hook_pwrite serve i0 a.arg1 a.arg2 a.arg3 p)
        | Sys.sys_write ↦ as_hooked (hook_write serve i0 a.arg1 a.arg2 p)
        | Sys.sys_writev ↦ as_hooked (hook_writev serve a.arg0 a.arg1 a.arg2 p)
        | Sys.sys_pwritev ↦ as_hooked (hook_pwritev serve a.arg0 a.arg1 a.arg2 a.arg3 a.arg4 p)
        | Sys.sys_unlink ↦ as_hooked (hook_unlinkat host serve fdcwd a.arg0 0 p)
        | Sys.sys_unlinkat ↦ as_hooked (hook_unlinkat host serve i0 a.arg1 i2 p)
        | Sys.sys_rmdir ↦ as_hooked (hook_unlinkat host serve fdcwd a.arg0 at_removedir p)
        | Sys.sys_symlink ↦ as_hooked (hook_symlinkat host serve a.arg0 fdcwd a.arg1 p)
        | Sys.sys_symlinkat ↦ as_hooked (hook_symlinkat host serve a.arg0 i1 a.arg2 p)
        | Sys.sys_access ↦ as_hooked (hook_access host serve a.arg0 i1 p)
        | Sys.sys_faccessat ↦ as_hooked (hook_faccessat host serve i0 a.arg1 i2 p)
        | Sys.sys_lseek ↦ as_hooked (hook_lseek serve i0 a.arg1 i2 p)
        | Sys.sys_truncate ↦ as_hooked (hook_truncate host serve a.arg0 a.arg1 p)
        | Sys.sys_ftruncate ↦ as_hooked (hook_ftruncate serve i0 a.arg1 p)
        | Sys.sys_dup ↦ as_hooked (hook_dup i0 p)
        | Sys.sys_dup2 ↦ as_hooked (hook_dup2 i0 i1 p)
        | Sys.sys_dup3 ↦ as_hooked (hook_dup3 i0 i1 i2 p)
        | Sys.sys_getdents ↦ as_hooked (hook_getdents serve i0 a.arg1 i2 p)
        | Sys.sys_getdents64 ↦ as_hooked (hook_getdents64 serve i0 a.arg1 i2 p)
        | Sys.sys_mkdirat ↦ as_hooked (hook_mkdirat host serve i0 a.arg1 i2 p)
        | Sys.sys_mkdir ↦ as_hooked (hook_mkdirat host serve fdcwd a.arg0 i1 p)
        | Sys.sys_chmod ↦ as_hooked (hook_fchmodat host serve fdcwd a.arg0 i1 p)
        | Sys.sys_fchmod ↦ as_hooked (hook_fchmod i0 i1 p)
        | Sys.sys_fchmodat ↦ as_hooked (hook_fchmodat host serve i0 a.arg1 i2 p)
        | Sys.sys_chdir ↦ as_hooked (hook_chdir host serve a.arg0 p)
        | Sys.sys_fchdir ↦ as_hooked (hook_fchdir host i0 p)
        | Sys.sys_getcwd ↦ (hooked (hook_getcwd host a.arg1 p).0, p)
        | Sys.sys_readlink ↦ as_hooked (hook_readlinkat host serve fdcwd a.arg0 a.arg1 i2 p)
        | Sys.sys_readlinkat ↦ as_hooked (hook_readlinkat host serve i0 a.arg1 a.arg2 i3 p)
        | Sys.sys_fcntl ↦ as_hooked (hook_fcntl i0 i1 a.arg2 p)
        | Sys.sys_rename ↦ as_hooked (hook_renameat host serve fdcwd a.arg0 fdcwd a.arg1 0 p)
        | Sys.sys_renameat ↦ as_hooked (hook_renameat host serve i0 a.arg1 i2 a.arg3 0 p)
        | Sys.sys_renameat2 ↦ as_hooked (hook_renameat host serve i0 a.arg1 i2 a.arg3 i4 p)
        | Sys.sys_fstatfs ↦ as_hooked (hook_fstatfs serve i0 a.arg1 p)
        | Sys.sys_statfs ↦ as_hooked (hook_statfs host serve a.arg0 a.arg1 p)
        | _ ↦ (forward_to_kernel, p)
      ]
