-- ===== src/Witness/Hooks.antt =====
-- System calls of an application and of the library at concrete inputs.
use gekko_fwd.Base.{
  ℕ, zero, suc, ◌+◌, ◌<◌, ◌≡◌, refl, inr, List, [], ◌∷◌, ◌++◌, Bool, true, false, none, some, ◌==◌,
  if◌then◌else◌, arith, length, get_elem?,
}
use gekko_fwd.Decimal.{Bytes}
use gekko_fwd.Resolver.{FileKind, resolve, skip_separators, add_component}
use gekko_fwd.MetaStore.Rocks.{same}
use gekko_fwd.PathUtil.{cut, split_path, is_absolute, has_trailing_slash}
use gekko_fwd.OpenFileMap.Defs.{regular, exist, get, has, find}
use gekko_fwd.OpenFileMap.Search.{IsValid}
use gekko_fwd.FileCalls.{value}
use gekko_fwd.Preload.{Kernel, Relativized, find_first, relativize_path}
use gekko_fwd.Preload.Protection.{
  Fds, is_open, marked, protect_user_fds, unprotect_user_fds, unprotect_user_fds-protect_user_fds,
}
use gekko_fwd.Hooks.{Sys, returns, Process, Host, Served, from_dirfd, from_cwd}
use gekko_fwd.Hooks.Descriptors.{hook_fcntl, f_getfd, f_dupfd_cloexec}
use gekko_fwd.Hooks.Directory.{hook_chdir, hook_getcwd, set_cwd, no_slash}
use gekko_fwd.Hooks.Cloexec.{hook_fcntl-hook_fcntl}
use gekko_fwd.Hooks.WorkingDirectory.{hook_chdir-hook_getcwd}
use gekko_fwd.Intercept.{Args, hooked, hook}
use gekko_fwd.Intercept.Internal.{Performed, Inside, executed, success, hook_internal}
use gekko_fwd.Intercept.Guard.{Thread, no_info, Event, syscall, cloned}
use gekko_fwd.Intercept.PathCalls.{Routed, at_form, hook-Routed}
use gekko_fwd.Intercept.OwnFds.{relocating, hook_internal-hook}

abbrev mountdir : Bytes
mountdir = b'/' ∷ b'm' ∷ []

-- String 1 is a, 3 is /m/a/a, and any other is /m/a.
abbrev host : Host
host = record {
  lstat = λ p. some FileKind.directory;
  realpath = λ p. none;
  string_at = λ i.
      if i == 1
      then b'a' ∷ []
      else if i == 3
      then mountdir ++ b'/' ∷ b'a' ∷ b'/' ∷ b'a' ∷ []
      else mountdir ++ b'/' ∷ b'a' ∷ [];
  chdir = λ p. 0;
  fchdir = λ fd. 0;
  getcwd = none;
  setenv = λ p. 0;
  unsetenv = 0;
}

-- A file at descriptor 10000.
abbrev process : Process Bool
process = record {
  files = record { files = (10000, 0) ∷ []; fd_idx = 10001; fd_validation_needed = false };
  store = λ h. record {
    type_ = regular;
    path = b'/' ∷ b'a' ∷ [];
    flags = record {
      append = false;
      creat = false;
      trunc = false;
      rdonly = false;
      wronly = false;
      rdwr = true;
      cloexec = false;
    };
    pos = 0;
  };
  context = record { internal_fds = false ∷ true ∷ []; internal_fds_must_relocate = true };
  mountdir = mountdir;
  cwd = mountdir;
  env_cwd = none;
  errno = 0;
  world = true;
}

-- Every call gives the mode of a directory.
abbrev directory_mode_of : Served Bool
directory_mode_of r p = (value 0o40755, p)

abbrev on_fd : ℕ → Args
on_fd fd = record { arg0 = fd; arg1 = 1; arg2 = 2; arg3 = 3; arg4 = 4 }

-- open("/m/a", ...)
hook-Routed_example :
    Routed process
      (at_form Sys.sys_open (on_fd 2))
      (from_dirfd host process 4294967196 2 true)
      (hook host directory_mode_of 900 Sys.sys_open (on_fd 2) process)
hook-Routed_example =
    hook-Routed host directory_mode_of 900 (on_fd 2) process Sys.sys_open refl refl

abbrev events : List Event
events = syscall false 2 ∷ cloned ∷ syscall true 3 ∷ []

abbrev quiet : Thread
quiet = record { reentrance_guard_flag = false; saved_syscall_info = no_info; errno = 7 }

-- Descriptors 0 and 2 of 4 are open.
abbrev table : Kernel
table j = if j == 0 then some 5 else if j == 2 then some 6 else none

unset : (j : ℕ) → marked (get_elem? (false ∷ false ∷ false ∷ false ∷ []) j) ≡ false
unset zero = refl
unset (suc zero) = refl
unset (suc (suc zero)) = refl
unset (suc (suc (suc zero))) = refl
unset (suc (suc (suc (suc j)))) = refl

unprotect_user_fds-protect_user_fds_example :
    (t : Fds) × (protect_user_fds 4 1 9
        (record { protected_fds = false ∷ false ∷ false ∷ false ∷ []; table = table })
      ≡ some t)
    × ((j : ℕ) → j < 4 → is_open (t.table j) ≡ true)
    × ((j : ℕ) → is_open (table j) ≡ true → t.table j ≡ table j)
    × ((j : ℕ) → (unprotect_user_fds t).table j ≡ table j)
unprotect_user_fds-protect_user_fds_example =
    unprotect_user_fds-protect_user_fds 4 1 9 (false ∷ false ∷ false ∷ false ∷ []) table refl unset
      (omega arith) refl

valid : IsValid process.files
unfolding has find
valid = record { low = omega arith; high = omega arith; behind = inr (λ k h. ground arith) }

entry : get process.files 10000 ≡ some 0
unfolding get find
entry = refl

hook_fcntl-hook_fcntl_example :
    (new : ℕ) × (q : Process Bool) × (hook_fcntl 10000 f_dupfd_cloexec 0 process ≡ (returns new, q))
    × (get process.files new ≡ none)
    × ((a : ℕ) → hook_fcntl new f_getfd a q ≡ (returns 1, q))
    × ((a : ℕ) → hook_fcntl 10000 f_getfd a q ≡ (returns 1, q))
hook_fcntl-hook_fcntl_example = hook_fcntl-hook_fcntl 10000 0 0 process valid refl entry

inside : from_cwd host process 2 true ≡ Relativized.inside (b'/' ∷ b'a' ∷ [])
unfolding relativize_path is_absolute resolve skip_separators same cut split_path add_component
inside = refl

abbrev moved : Process Bool
moved = record process {
  cwd = mountdir ++ b'/' ∷ b'a' ∷ [];
  env_cwd = some (mountdir ++ b'/' ∷ b'a' ∷ []);
}

chdir_run : hook_chdir host directory_mode_of 2 process ≡ (returns 0, moved)
unfolding hook_chdir set_cwd has_trailing_slash
chdir_run = rw (hook_chdir, inside) refl

relative : is_absolute (host.string_at 1) ≡ false
unfolding is_absolute
relative = refl

no_slash_behind : has_trailing_slash (mountdir ++ b'/' ∷ b'a' ∷ []) ≡ false
unfolding has_trailing_slash
no_slash_behind = refl

named : mountdir ++ b'/' ∷ b'a' ∷ [] ≡ no_slash (mountdir ++ b'/' ∷ b'a' ∷ [])
unfolding has_trailing_slash
named = refl

full : is_absolute (mountdir ++ b'/' ∷ b'a' ∷ []) ≡ true
unfolding is_absolute
full = refl

-- chdir("/m/a"), then getcwd and the path a.
hook_chdir-hook_getcwd_example :
    (hook_getcwd host 9 moved ≡ (returns 5, mountdir ++ b'/' ∷ b'a' ∷ []))
    × (moved.mountdir ≡ mountdir)
    × (from_cwd host moved 1 true ≡ from_cwd host moved 3 true)
hook_chdir-hook_getcwd_example =
    hook_chdir-hook_getcwd host directory_mode_of 2 9 1 3 true (b'/' ∷ b'a' ∷ [])
      (mountdir ++ b'/' ∷ b'a' ∷ []) process moved inside refl named full no_slash_behind
      (omega arith) relative refl chdir_run

-- The library opens a socket, and the kernel gives descriptor 7.
abbrev opened : Performed
opened = record {
  result = success 7;
  pair = (0, 0);
  messages = [];
  table = λ j. if j == 7 then some 33 else none;
}

abbrev idle : Inside
idle = record { context = process.context; pair = (0, 0); messages = []; table = λ j. none }

absent_901 : exist process.files 901 ≡ false
unfolding exist has find
absent_901 = refl

one_free : find_first (false ∷ true ∷ []) < length (false ∷ true ∷ [])
unfolding find_first
one_free = omega arith

first_free : 901 ≡ find_first (false ∷ true ∷ []) + 900
unfolding find_first
first_free = refl

hook_internal-hook_example :
    (after : Inside) × (hook_internal 900
        (λ nr args s. opened)
        Sys.sys_socket
        (on_fd 2)
        (relocating (false ∷ true ∷ []) idle)
      ≡ (executed (success 901), after))
    × (after.table 901 ≡ some 33)
    × (after.table 7 ≡ none)
    × (hook host directory_mode_of 900 Sys.sys_close
          (on_fd 901)
          (record process { context = after.context })
        ≡ (hooked (returns 0), record process { context = after.context }))
hook_internal-hook_example =
    hook_internal-hook 900 (λ nr args s. opened) Sys.sys_socket (on_fd 2) idle (false ∷ true ∷ [])
      host directory_mode_of process opened 7 33 (on_fd 901) refl refl refl (omega arith) refl
      (λ i h. ground arith) one_free first_free (omega arith) absent_901
