-- ===== src/Hooks/Directory.antt =====
-- The working directory: chdir, fchdir and getcwd of src/client/hooks.cpp, and set_cwd and its parts
-- of src/client/path.cpp.
use gekko_fwd.Base.{
  ℕ, ◌+◌, [], ◌++◌, Bool, true, false, Option, none, some, ◌==◌, if◌then◌else◌, ltb, length,
}
use gekko_fwd.Decimal.{Bytes}
use gekko_fwd.Metadata.{is_dir}
use gekko_fwd.FileCalls.{Call, value, fails, throws, unfinished, enotdir}
use gekko_fwd.MetaServer.{enoent}
use gekko_fwd.OpenFileMap.Defs.{exist, get_dir}
use gekko_fwd.PathUtil.{has_trailing_slash, without_last}
use gekko_fwd.Preload.{Relativized}
use gekko_fwd.Hooks.{
  Hooked, returns, error, crashes, endless, Request, Process, Host, Served, from_cwd, erange,
}

-- rel_path.pop_back(), if it ends with a separator.
abbrev pub no_slash : Bytes → Bytes
no_slash path = if has_trailing_slash path then without_last path else path

-- The code of the system_error that is thrown, or 0.
unfoldable pub set_sys_cwd : Host → Bytes → ℕ
set_sys_cwd host path = host.chdir path

module _ {W : Type 0} (host : Host) where
  unfoldable pub set_env_cwd : Bytes → Process W → ℕ × Process W
  set_env_cwd path p =
      if host.setenv path == 0 then (0, record p { env_cwd = some path }) else (host.setenv path, p)

  unfoldable pub unset_env_cwd : Process W → ℕ × Process W
  unset_env_cwd p =
      if host.unsetenv == 0 then (0, record p { env_cwd = none }) else (host.unsetenv, p)

  abbrev pub with_cwd : Bytes → ℕ × Process W → ℕ × Process W
  with_cwd path (code, p) = if code == 0 then (0, record p { cwd = path }) else (code, p)

  unfoldable pub set_cwd : Bytes → Bool → Process W → ℕ × Process W
  unfolding set_sys_cwd set_env_cwd unset_env_cwd
  set_cwd path internal p =
      let code = set_sys_cwd host (if internal then p.mountdir else path) in
      if code == 0
      then with_cwd path (if internal then set_env_cwd path p else unset_env_cwd p)
      else (code, p)

  -- `none` is the exception of get_sys_cwd.
  unfoldable pub init_cwd : Process W → Option (Process W)
  init_cwd p = elim p.env_cwd [
    | some env_cwd ↦ some (record p { cwd = env_cwd })
    | none ↦ elim host.getcwd [ none ↦ none | some path ↦ some (record p { cwd = path }) ]
  ]

  abbrev pub with_code : ℕ × Process W → Hooked × Process W
  with_code (code, p) = (if code == 0 then returns 0 else error code, p)

  abbrev pub into_directory : Bytes → Call ℕ × Process W → Hooked × Process W
  into_directory rel_path (value mode, p) =
      if is_dir mode
      then with_code (set_cwd (no_slash (p.mountdir ++ rel_path)) true p)
      else (error enotdir, p)
  into_directory rel_path (fails e, p) = (error enoent, p)
  into_directory rel_path (throws, p) = (crashes, p)
  into_directory rel_path (unfinished, p) = (endless, p)

  unfoldable pub hook_chdir : Served W → ℕ → Process W → Hooked × Process W
  unfolding set_cwd
  hook_chdir serve path p = elim (from_cwd host p path true) [
    | Relativized.inside rel_path ↦ into_directory rel_path (serve (Request.get_mode rel_path) p)
    | Relativized.outside rel_path ↦ with_code (set_cwd rel_path false p)
    | Relativized.fd_unknown ↦ (crashes, p)
    | Relativized.fd_not_a_dir ↦ (crashes, p)
    | Relativized.failed ↦ (crashes, p)
  ]

  abbrev pub refreshed : Process W → Option Bytes → Hooked × Process W
  refreshed p none = (crashes, p)
  refreshed p (some path) = (returns 0, record p { cwd = path })

  -- A directory's path is set; for a file, the null pointer's path is logged. Outside, a failing
  -- fchdir, unsetenv or getcwd throws.
  unfoldable pub hook_fchdir : ℕ → Process W → Hooked × Process W
  unfolding set_cwd unset_env_cwd
  hook_fchdir fd p =
      if exist p.files fd
      then elim (get_dir p.store p.files fd) [
        | none ↦ (crashes, p)
        | some handle ↦ with_code (set_cwd (no_slash (p.mountdir ++ (p.store handle).path)) true p)
      ]
      else (if host.fchdir fd == 0
          then (let (code, q) = unset_env_cwd p in
              if code == 0 then refreshed q host.getcwd else (crashes, q))
          else (crashes, p))

  -- What is written to the buffer, without its NUL.
  unfoldable pub hook_getcwd : ℕ → Process W → Hooked × Bytes
  hook_getcwd size p =
      if ltb size (length p.cwd + 1)
      then (error erange, [])
      else (returns (length p.cwd + 1), p.cwd)
