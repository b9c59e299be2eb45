-- ===== src/Hooks/Paths.antt =====
-- The hooks of src/client/hooks.cpp that take a path.
use gekko_fwd.Base.{ℕ, ◌+◌, ◌/◌, ◌%◌, [], ◌∷◌, Bool, true, false, not, ◌&&◌, ◌==◌, if◌then◌else◌}
use gekko_fwd.Preload.{Relativized}
use gekko_fwd.FileCalls.{einval, enotdir, enotsup}
use gekko_fwd.Hooks.{
  Hooked, kernel, error, word, text, Request, Process, Host, Served, with_errno, from_dirfd,
  from_cwd, by_status, by_inside, crashes, Arg, sys_openat, sys_stat, sys_statx, sys_lstat,
  sys_newfstatat, sys_unlinkat, sys_symlinkat, sys_access, sys_faccessat, sys_truncate, sys_mkdirat,
  sys_fchmodat, sys_readlinkat, sys_renameat2, sys_statfs,
}

-- flags & AT_EMPTY_PATH
abbrev pub at_empty_path : ℕ → Bool
at_empty_path flags = flags / 4096 % 2 == 1

-- AT_REMOVEDIR
abbrev pub at_removedir : ℕ
at_removedir = 512

-- mode | S_IFDIR
abbrev pub directory_mode : ℕ → ℕ
directory_mode mode = if mode / 16384 % 2 == 1 then mode else mode + 16384

module _ {W : Type 0} (host : Host) (serve : Served W) where
  unfoldable pub hook_openat : ℕ → ℕ → ℕ → ℕ → Process W → Hooked × Process W
  hook_openat dirfd cpath flags mode p =
      by_status p (from_dirfd host p dirfd cpath true)
        (kernel sys_openat (word dirfd ∷ word cpath ∷ word flags ∷ word mode ∷ []))
        (λ resolved. kernel sys_openat (word dirfd ∷ text resolved ∷ word flags ∷ word mode ∷ []))
        (λ resolved. with_errno (serve (Request.gkfs_open resolved mode flags) p))

  unfoldable pub hook_stat : ℕ → ℕ → Process W → Hooked × Process W
  hook_stat path buf p =
      by_inside p (from_cwd host p path false)
        (λ rel_path. kernel sys_stat (text rel_path ∷ word buf ∷ []))
        (λ rel_path. with_errno (serve (Request.gkfs_stat rel_path buf) p))

  unfoldable pub hook_statx : ℕ → ℕ → ℕ → ℕ → ℕ → Process W → Hooked × Process W
  hook_statx dirfd path flags mask buf p =
      by_status p (from_dirfd host p dirfd path true)
        (kernel sys_statx (word dirfd ∷ word path ∷ word flags ∷ word mask ∷ word buf ∷ []))
        (λ resolved.
          kernel sys_statx (word dirfd ∷ text resolved ∷ word flags ∷ word mask ∷ word buf ∷ []))
        (λ resolved. with_errno (serve (Request.gkfs_statx dirfd resolved flags mask buf) p))

  unfoldable pub hook_lstat : ℕ → ℕ → Process W → Hooked × Process W
  hook_lstat path buf p =
      by_inside p (from_cwd host p path true)
        (λ rel_path. kernel sys_lstat (text rel_path ∷ word buf ∷ []))
        (λ rel_path. with_errno (serve (Request.gkfs_stat rel_path buf) p))

  unfoldable pub hook_fstatat : ℕ → ℕ → ℕ → ℕ → Process W → Hooked × Process W
  hook_fstatat dirfd cpath buf flags p =
      if at_empty_path flags
      then (error enotsup, p)
      else by_status p (from_dirfd host p dirfd cpath true)
          (kernel sys_newfstatat (word dirfd ∷ word cpath ∷ word buf ∷ word flags ∷ []))
          (λ resolved.
            kernel sys_newfstatat (word dirfd ∷ text resolved ∷ word buf ∷ word flags ∷ []))
          (λ resolved. with_errno (serve (Request.gkfs_stat resolved buf) p))

  unfoldable pub hook_unlinkat : ℕ → ℕ → ℕ → Process W → Hooked × Process W
  hook_unlinkat dirfd cpath flags p =
      if not (flags == 0) && not (flags == at_removedir)
      then (error einval, p)
      else by_status p (from_dirfd host p dirfd cpath false)
          (kernel sys_unlinkat (word dirfd ∷ word cpath ∷ word flags ∷ []))
          (λ resolved. kernel sys_unlinkat (word dirfd ∷ text resolved ∷ word flags ∷ []))
          (λ resolved. with_errno (
            serve
              (if flags == at_removedir
                then Request.gkfs_rmdir resolved
                else Request.gkfs_remove resolved)
              p))

  unfoldable pub hook_symlinkat : ℕ → ℕ → ℕ → Process W → Hooked × Process W
  hook_symlinkat oldname newdfd newname p = elim (from_cwd host p oldname true) [
    | Relativized.inside r ↦ (error enotsup, p)
    | Relativized.outside r ↦
        by_status p (from_dirfd host p newdfd newname false)
          (kernel sys_symlinkat (word oldname ∷ word newdfd ∷ word newname ∷ []))
          (λ resolved. kernel sys_symlinkat (word oldname ∷ word newdfd ∷ text resolved ∷ []))
          (λ resolved. (error enotsup, p))
    | Relativized.fd_unknown ↦ (crashes, p)
    | Relativized.fd_not_a_dir ↦ (crashes, p)
    | Relativized.failed ↦ (crashes, p)
  ]

  unfoldable pub hook_access : ℕ → ℕ → Process W → Hooked × Process W
  hook_access path mask p =
      by_inside p (from_cwd host p path true)
        (λ rel_path. kernel sys_access (text rel_path ∷ word mask ∷ []))
        (λ rel_path. with_errno (serve (Request.gkfs_access rel_path mask) p))

  unfoldable pub hook_faccessat : ℕ → ℕ → ℕ → Process W → Hooked × Process W
  hook_faccessat dirfd cpath mode p =
      by_status p (from_dirfd host p dirfd cpath true)
        (kernel sys_faccessat (word dirfd ∷ word cpath ∷ word mode ∷ []))
        (λ resolved. kernel sys_faccessat (word dirfd ∷ text resolved ∷ word mode ∷ []))
        (λ resolved. with_errno (serve (Request.gkfs_access resolved mode) p))

  unfoldable pub hook_truncate : ℕ → ℕ → Process W → Hooked × Process W
  hook_truncate path length p =
      by_inside p (from_cwd host p path true)
        (λ rel_path. kernel sys_truncate (text rel_path ∷ word length ∷ []))
        (λ rel_path. with_errno (serve (Request.gkfs_truncate rel_path length) p))

  unfoldable pub hook_mkdirat : ℕ → ℕ → ℕ → Process W → Hooked × Process W
  hook_mkdirat dirfd cpath mode p =
      by_status p (from_dirfd host p dirfd cpath true)
        (kernel sys_mkdirat (word dirfd ∷ word cpath ∷ word mode ∷ []))
        (λ resolved. kernel sys_mkdirat (word dirfd ∷ text resolved ∷ word mode ∷ []))
        (λ resolved. with_errno (serve (Request.gkfs_create resolved (directory_mode mode)) p))

  unfoldable pub hook_fchmodat : ℕ → ℕ → ℕ → Process W → Hooked × Process W
  hook_fchmodat dirfd cpath mode p =
      by_status p (from_dirfd host p dirfd cpath true)
        (kernel sys_fchmodat (word dirfd ∷ word cpath ∷ word mode ∷ []))
        (λ resolved. kernel sys_fchmodat (word dirfd ∷ text resolved ∷ word mode ∷ []))
        (λ resolved. (error enotsup, p))

  unfoldable pub hook_readlinkat : ℕ → ℕ → ℕ → ℕ → Process W → Hooked × Process W
  hook_readlinkat dirfd cpath buf bufsiz p =
      by_status p (from_dirfd host p dirfd cpath false)
        (kernel sys_readlinkat (word dirfd ∷ word cpath ∷ word buf ∷ word bufsiz ∷ []))
        (λ resolved.
          kernel sys_readlinkat (word dirfd ∷ text resolved ∷ word buf ∷ word bufsiz ∷ []))
        (λ resolved. (error enotsup, p))

  -- The path that is passed on for either name, or what the hook returns.
  abbrev pub by_name : Process W → Relativized → ℕ → (Arg → Hooked × Process W) → Hooked × Process W
  by_name p Relativized.fd_unknown name pass = pass (word name)
  by_name p (Relativized.outside resolved) name pass = pass (text resolved)
  by_name p Relativized.fd_not_a_dir name pass = (error enotdir, p)
  by_name p (Relativized.inside resolved) name pass = (error enotsup, p)
  by_name p Relativized.failed name pass = (crashes, p)

  unfoldable pub hook_renameat : ℕ → ℕ → ℕ → ℕ → ℕ → Process W → Hooked × Process W
  hook_renameat olddfd oldname newdfd newname flags p =
      by_name p (from_dirfd host p olddfd oldname true) oldname (λ oldpath_pass.
        by_name p (from_dirfd host p newdfd newname true) newname (λ newpath_pass. (
          kernel sys_renameat2
              (word olddfd ∷ oldpath_pass ∷ word newdfd ∷ newpath_pass ∷ word flags ∷ []),
          p,
        )))

  unfoldable pub hook_statfs : ℕ → ℕ → Process W → Hooked × Process W
  hook_statfs path buf p =
      by_inside p (from_cwd host p path true)
        (λ rel_path. kernel sys_statfs (text rel_path ∷ word buf ∷ []))
        (λ rel_path. with_errno (serve (Request.gkfs_statfs buf) p))
