-- ===== src/Intercept/PathCalls.antt =====
-- The calls of src/client/intercept.cpp that take a path behind a descriptor of a directory.
use gekko_fwd.Base.{
  ℕ, ◌≡◌, refl, List, [], ◌∷◌, Bool, true, false, not, ◌&&◌, ◌||◌, ◌==◌, if◌then◌else◌, arith,
}
use gekko_fwd.Decimal.{Bytes}
use gekko_fwd.Preload.{Relativized}
use gekko_fwd.FileCalls.{enotdir, enotsup}
use gekko_fwd.Hooks.{
  Sys, Arg, word, text, Hooked, kernel, error, crashes, Process, Host, Served, Request, int32,
  fdcwd, from_dirfd, by_status, with_errno,
}
use gekko_fwd.Hooks.Paths.{at_removedir, at_empty_path, directory_mode}
use gekko_fwd.Intercept.{Args, Dispatch, hooked, creat_flags, hook, as_hooked}
use gekko_fwd.Intercept.Transparent.{reaches_kernel, never-with_errno}

-- A call in the form that has a descriptor and a path: whether a link at the end of the path is
-- followed, and the arguments behind the path.
pub record AtForm : Type 0 where
  pub call : Sys
  pub dirfd : ℕ
  pub path : ℕ
  pub last_link : Bool
  pub rest : List Arg

abbrev pub form : Sys → ℕ → ℕ → Bool → List Arg → AtForm
form call dirfd path last_link rest = record {
  call = call;
  dirfd = dirfd;
  path = path;
  last_link = last_link;
  rest = rest;
}

-- Which calls the theorem is about; an older call is the newer one from the working directory.
abbrev pub has_form : Sys → Bool
has_form nr = elim nr [
  | Sys.sys_open ↦ true
  | Sys.sys_creat ↦ true
  | Sys.sys_openat ↦ true
  | Sys.sys_statx ↦ true
  | Sys.sys_newfstatat ↦ true
  | Sys.sys_unlink ↦ true
  | Sys.sys_unlinkat ↦ true
  | Sys.sys_rmdir ↦ true
  | Sys.sys_faccessat ↦ true
  | Sys.sys_mkdirat ↦ true
  | Sys.sys_mkdir ↦ true
  | Sys.sys_chmod ↦ true
  | Sys.sys_fchmodat ↦ true
  | Sys.sys_readlink ↦ true
  | Sys.sys_readlinkat ↦ true
  | _ ↦ false
]

abbrev pub at_form : Sys → Args → AtForm
at_form nr a =
    let i0 = int32 a.arg0 in
    let i1 = word (int32 a.arg1) in
    let i2 = word (int32 a.arg2) in
    let i3 = word (int32 a.arg3) in
    elim nr [
      | Sys.sys_open ↦ form Sys.sys_openat fdcwd a.arg0 true (i1 ∷ i2 ∷ [])
      | Sys.sys_creat ↦ form Sys.sys_openat fdcwd a.arg0 true (word creat_flags ∷ i1 ∷ [])
      | Sys.sys_openat ↦ form Sys.sys_openat i0 a.arg1 true (i2 ∷ i3 ∷ [])
      | Sys.sys_statx ↦ form Sys.sys_statx i0 a.arg1 true (i2 ∷ i3 ∷ word a.arg4 ∷ [])
      | Sys.sys_newfstatat ↦ form Sys.sys_newfstatat i0 a.arg1 true (word a.arg2 ∷ i3 ∷ [])
      | Sys.sys_unlink ↦ form Sys.sys_unlinkat fdcwd a.arg0 false (word 0 ∷ [])
      | Sys.sys_unlinkat ↦ form Sys.sys_unlinkat i0 a.arg1 false (i2 ∷ [])
      | Sys.sys_rmdir ↦ form Sys.sys_unlinkat fdcwd a.arg0 false (word at_removedir ∷ [])
      | Sys.sys_faccessat ↦ form Sys.sys_faccessat i0 a.arg1 true (i2 ∷ [])
      | Sys.sys_mkdirat ↦ form Sys.sys_mkdirat i0 a.arg1 true (i2 ∷ [])
      | Sys.sys_mkdir ↦ form Sys.sys_mkdirat fdcwd a.arg0 true (i1 ∷ [])
      | Sys.sys_chmod ↦ form Sys.sys_fchmodat fdcwd a.arg0 true (i1 ∷ [])
      | Sys.sys_fchmodat ↦ form Sys.sys_fchmodat i0 a.arg1 true (i2 ∷ [])
      | Sys.sys_readlink ↦ form Sys.sys_readlinkat fdcwd a.arg0 false (word a.arg1 ∷ i2 ∷ [])
      | Sys.sys_readlinkat ↦ form Sys.sys_readlinkat i0 a.arg1 false (word a.arg2 ∷ i3 ∷ [])
      | other ↦ form other 0 0 false []
    ]

-- The flags that the library takes: no AT_EMPTY_PATH, and of unlinkat's none but AT_REMOVEDIR.
abbrev pub accepted : Sys → Args → Bool
accepted nr a = elim nr [
  | Sys.sys_newfstatat ↦ not (at_empty_path (int32 a.arg3))
  | Sys.sys_unlinkat ↦ int32 a.arg2 == 0 || int32 a.arg2 == at_removedir
  | _ ↦ true
]

-- What becomes of a call by where its path leads.
abbrev pub Routed : {W : Type 0} → Process W → AtForm → Relativized → Dispatch × Process W → Type 0
Routed p f (Relativized.inside resolved) out = reaches_kernel out.0 ≡ false
Routed p f (Relativized.outside resolved) out =
    out ≡ (hooked (kernel f.call (word f.dirfd ∷ text resolved ∷ f.rest)), p)
Routed p f Relativized.fd_unknown out =
    out ≡ (hooked (kernel f.call (word f.dirfd ∷ word f.path ∷ f.rest)), p)
Routed p f Relativized.fd_not_a_dir out = out ≡ (hooked (error enotdir), p)
Routed p f Relativized.failed out = out ≡ (hooked crashes, p)

module _ {W : Type 0} (host : Host) (serve : Served W) (min_internal_fd : ℕ) (a : Args)
    (p : Process W) where
  Routed-by_status :
      (f : AtForm) (r : Relativized) (inside : Bytes → Hooked × Process W)
      → ((s : Bytes) → reaches_kernel (hooked (inside s).0) ≡ false)
      → Routed p f r (
          as_hooked (
            by_status p r
              (kernel f.call (word f.dirfd ∷ word f.path ∷ f.rest))
              (λ s. kernel f.call (word f.dirfd ∷ text s ∷ f.rest))
              inside))
  Routed-by_status f (Relativized.inside s) inside h = h s
  Routed-by_status f (Relativized.outside s) inside h = refl
  Routed-by_status f Relativized.fd_unknown inside h = refl
  Routed-by_status f Relativized.fd_not_a_dir inside h = refl
  Routed-by_status f Relativized.failed inside h = refl

  -- An open, creat, openat, statx, newfstatat, unlink, unlinkat, rmdir, faccessat, mkdirat, mkdir,
  -- chmod, fchmodat, readlink or readlinkat of the application, a newfstatat without AT_EMPTY_PATH
  -- and an unlinkat with no flags but AT_REMOVEDIR: with a path that leads into the mount directory
  -- it does not reach the kernel; with one that leads outside it reaches the kernel, in the form with
  -- a descriptor, with the path resolved and all else as it was given; with a descriptor that the
  -- file map does not have, with the path as it was; with one that is no directory, it fails with
  -- ENOTDIR; and where a path cannot be resolved, the call ends with an exception or an assertion.
  -- In all cases but the first the library does not change.
  pub hook-Routed :
      (nr : Sys)
      → has_form nr ≡ true
      → accepted nr a ≡ true
      → Routed p
          (at_form nr a)
          (from_dirfd host p (at_form nr a).dirfd (at_form nr a).path (at_form nr a).last_link)
          (hook host serve min_internal_fd nr a p)
  unfolding hook
  hook-Routed Sys.sys_open taken flags =
      Routed-by_status (at_form Sys.sys_open a) (from_dirfd host p fdcwd a.arg0 true)
        (λ s. with_errno (serve (Request.gkfs_open s (int32 a.arg2) (int32 a.arg1)) p))
        (λ s. never-with_errno (serve (Request.gkfs_open s (int32 a.arg2) (int32 a.arg1)) p))
  hook-Routed Sys.sys_creat taken flags =
      Routed-by_status (at_form Sys.sys_creat a) (from_dirfd host p fdcwd a.arg0 true)
        (λ s. with_errno (serve (Request.gkfs_open s (int32 a.arg1) creat_flags) p))
        (λ s. never-with_errno (serve (Request.gkfs_open s (int32 a.arg1) creat_flags) p))
  hook-Routed Sys.sys_openat taken flags =
      Routed-by_status (at_form Sys.sys_openat a) (from_dirfd host p (int32 a.arg0) a.arg1 true)
        (λ s. with_errno (serve (Request.gkfs_open s (int32 a.arg3) (int32 a.arg2)) p))
        (λ s. never-with_errno (serve (Request.gkfs_open s (int32 a.arg3) (int32 a.arg2)) p))
  hook-Routed Sys.sys_statx taken flags =
      Routed-by_status (at_form Sys.sys_statx a) (from_dirfd host p (int32 a.arg0) a.arg1 true)
        (λ s.
          with_errno
            (serve (Request.gkfs_statx (int32 a.arg0) s (int32 a.arg2) (int32 a.arg3) a.arg4) p))
        (λ s.
          never-with_errno
            (serve (Request.gkfs_statx (int32 a.arg0) s (int32 a.arg2) (int32 a.arg3) a.arg4) p))
  hook-Routed Sys.sys_newfstatat taken flags =
      let no_empty : at_empty_path (int32 a.arg3) ≡ false = ground arith in
      rw no_empty (
        Routed-by_status (at_form Sys.sys_newfstatat a)
          (from_dirfd host p (int32 a.arg0) a.arg1 true)
          (λ s. with_errno (serve (Request.gkfs_stat s a.arg2) p))
          (λ s. never-with_errno (serve (Request.gkfs_stat s a.arg2) p)))
  hook-Routed Sys.sys_unlink taken flags =
      Routed-by_status (at_form Sys.sys_unlink a) (from_dirfd host p fdcwd a.arg0 false)
        (λ s. with_errno (serve (Request.gkfs_remove s) p))
        (λ s. never-with_errno (serve (Request.gkfs_remove s) p))
  hook-Routed Sys.sys_unlinkat taken flags =
      let fine : (not (int32 a.arg2 == 0) && not (int32 a.arg2 == at_removedir)) ≡ false =
        ground arith in
      rw fine (
        Routed-by_status (at_form Sys.sys_unlinkat a)
          (from_dirfd host p (int32 a.arg0) a.arg1 false)
          (λ s. with_errno (
            serve
              (if (int32 a.arg2) == at_removedir
                then Request.gkfs_rmdir s
                else Request.gkfs_remove s)
              p))
          (λ s. never-with_errno (
            serve
              (if (int32 a.arg2) == at_removedir
                then Request.gkfs_rmdir s
                else Request.gkfs_remove s)
              p)))
  hook-Routed Sys.sys_rmdir taken flags =
      Routed-by_status (at_form Sys.sys_rmdir a) (from_dirfd host p fdcwd a.arg0 false)
        (λ s. with_errno (serve (Request.gkfs_rmdir s) p))
        (λ s. never-with_errno (serve (Request.gkfs_rmdir s) p))
  hook-Routed Sys.sys_faccessat taken flags =
      Routed-by_status (at_form Sys.sys_faccessat a) (from_dirfd host p (int32 a.arg0) a.arg1 true)
        (λ s. with_errno (serve (Request.gkfs_access s (int32 a.arg2)) p))
        (λ s. never-with_errno (serve (Request.gkfs_access s (int32 a.arg2)) p))
  hook-Routed Sys.sys_mkdirat taken flags =
      Routed-by_status (at_form Sys.sys_mkdirat a) (from_dirfd host p (int32 a.arg0) a.arg1 true)
        (λ s. with_errno (serve (Request.gkfs_create s (directory_mode (int32 a.arg2))) p))
        (λ s. never-with_errno (serve (Request.gkfs_create s (directory_mode (int32 a.arg2))) p))
  hook-Routed Sys.sys_mkdir taken flags =
      Routed-by_status (at_form Sys.sys_mkdir a) (from_dirfd host p fdcwd a.arg0 true)
        (λ s. with_errno (serve (Request.gkfs_create s (directory_mode (int32 a.arg1))) p))
        (λ s. never-with_errno (serve (Request.gkfs_create s (directory_mode (int32 a.arg1))) p))
  hook-Routed Sys.sys_chmod taken flags =
      Routed-by_status (at_form Sys.sys_chmod a) (from_dirfd host p fdcwd a.arg0 true)
        (λ s. (error enotsup, p)) (λ s. refl)
  hook-Routed Sys.sys_fchmodat taken flags =
      Routed-by_status (at_form Sys.sys_fchmodat a) (from_dirfd host p (int32 a.arg0) a.arg1 true)
        (λ s. (error enotsup, p)) (λ s. refl)
  hook-Routed Sys.sys_readlink taken flags =
      Routed-by_status (at_form Sys.sys_readlink a) (from_dirfd host p fdcwd a.arg0 false)
        (λ s. (error enotsup, p)) (λ s. refl)
  hook-Routed Sys.sys_readlinkat taken flags =
      Routed-by_status (at_form Sys.sys_readlinkat a)
        (from_dirfd host p (int32 a.arg0) a.arg1 false) (λ s. (error enotsup, p)) (λ s. refl)
  hook-Routed _ taken flags = cc
