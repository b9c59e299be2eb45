-- ===== src/Intercept/Transparent.antt =====
-- Which of the application's calls on a descriptor reach the kernel.
use gekko_fwd.Base.{ℕ, ◌≡◌, refl, List, [], ◌∷◌, Bool, true, false, some, arith}
use gekko_fwd.OpenFileMap.Defs.{exist}
use gekko_fwd.FileCalls.{Call, value, fails, throws, unfinished}
use gekko_fwd.Hooks.{Sys, Arg, word, kernel, Process, Host, Served, int32, with_errno}
use gekko_fwd.Hooks.Descriptors.{int_is_internal}
use gekko_fwd.Intercept.{Args, Dispatch, forward_to_kernel, hooked, hook}

-- The calls whose hooks look a descriptor up by their first argument.
abbrev pub on_descriptor : Sys → Bool
on_descriptor nr = elim nr [
  | Sys.sys_close ↦ true
  | Sys.sys_fstat ↦ true
  | Sys.sys_read ↦ true
  | Sys.sys_pread64 ↦ true
  | Sys.sys_readv ↦ true
  | Sys.sys_preadv ↦ true
  | Sys.sys_write ↦ true
  | Sys.sys_pwrite64 ↦ true
  | Sys.sys_writev ↦ true
  | Sys.sys_pwritev ↦ true
  | Sys.sys_lseek ↦ true
  | Sys.sys_ftruncate ↦ true
  | Sys.sys_dup ↦ true
  | Sys.sys_dup2 ↦ true
  | Sys.sys_dup3 ↦ true
  | Sys.sys_getdents ↦ true
  | Sys.sys_getdents64 ↦ true
  | Sys.sys_fchmod ↦ true
  | Sys.sys_fcntl ↦ true
  | Sys.sys_fstatfs ↦ true
  | _ ↦ false
]

-- Their arguments at the widths of the kernel's interface; the upper half of a position is 0 there.
abbrev pub given : Sys → Args → List Arg
given nr a =
    let i0 = word (int32 a.arg0) in
    let i1 = word (int32 a.arg1) in
    let i2 = word (int32 a.arg2) in
    let w1 = word a.arg1 in
    let w2 = word a.arg2 in
    let w3 = word a.arg3 in
    elim nr [
      | Sys.sys_close ↦ i0 ∷ []
      | Sys.sys_fstat ↦ i0 ∷ w1 ∷ []
      | Sys.sys_read ↦ i0 ∷ w1 ∷ w2 ∷ []
      | Sys.sys_pread64 ↦ i0 ∷ w1 ∷ w2 ∷ w3 ∷ []
      | Sys.sys_readv ↦ word a.arg0 ∷ w1 ∷ w2 ∷ []
      | Sys.sys_preadv ↦ word a.arg0 ∷ w1 ∷ w2 ∷ w3 ∷ []
      | Sys.sys_write ↦ i0 ∷ w1 ∷ w2 ∷ []
      | Sys.sys_pwrite64 ↦ i0 ∷ w1 ∷ w2 ∷ w3 ∷ []
      | Sys.sys_writev ↦ word a.arg0 ∷ w1 ∷ w2 ∷ []
      | Sys.sys_pwritev ↦ word a.arg0 ∷ w1 ∷ w2 ∷ w3 ∷ []
      | Sys.sys_lseek ↦ i0 ∷ w1 ∷ i2 ∷ []
      | Sys.sys_ftruncate ↦ i0 ∷ w1 ∷ []
      | Sys.sys_dup ↦ i0 ∷ []
      | Sys.sys_dup2 ↦ i0 ∷ i1 ∷ []
      | Sys.sys_dup3 ↦ i0 ∷ i1 ∷ i2 ∷ []
      | Sys.sys_getdents ↦ i0 ∷ w1 ∷ i2 ∷ []
      | Sys.sys_getdents64 ↦ i0 ∷ w1 ∷ i2 ∷ []
      | Sys.sys_fchmod ↦ i0 ∷ i1 ∷ []
      | Sys.sys_fcntl ↦ i0 ∷ i1 ∷ w2 ∷ []
      | Sys.sys_fstatfs ↦ i0 ∷ w1 ∷ []
      | _ ↦ []
    ]

abbrev pub reaches_kernel : Dispatch → Bool
reaches_kernel forward_to_kernel = true
reaches_kernel (hooked h) = elim h [ kernel nr args ↦ true | _ ↦ false ]

pub never-with_errno :
    {W : Type 0} (r : Call ℕ × Process W) → reaches_kernel (hooked (with_errno r).0) ≡ false
never-with_errno (value n, q) = ground arith
never-with_errno (fails e, q) = ground arith
never-with_errno (throws, q) = refl
never-with_errno (unfinished, q) = refl

module _ {W : Type 0} (host : Host) (serve : Served W) (min_internal_fd : ℕ) (a : Args)
    (p : Process W) where
  -- One of these calls on a descriptor that the file map does not have and that is not internal.
  pub hook-kernel :
      (nr : Sys)
      → on_descriptor nr ≡ true
      → exist p.files (int32 a.arg0) ≡ false
      → int_is_internal min_internal_fd p (int32 a.arg0) ≡ some false
      → hook host serve min_internal_fd nr a p ≡ (hooked (kernel nr (given nr a)), p)
  unfolding hook
  hook-kernel Sys.sys_close on absent application = rw (absent, application) refl
  hook-kernel Sys.sys_fstat on absent application = rw absent refl
  hook-kernel Sys.sys_read on absent application = rw absent refl
  hook-kernel Sys.sys_pread64 on absent application = rw absent refl
  hook-kernel Sys.sys_readv on absent application = rw absent refl
  hook-kernel Sys.sys_preadv on absent application = rw absent refl
  hook-kernel Sys.sys_write on absent application = rw absent refl
  hook-kernel Sys.sys_pwrite64 on absent application = rw absent refl
  hook-kernel Sys.sys_writev on absent application = rw absent refl
  hook-kernel Sys.sys_pwritev on absent application = rw absent refl
  hook-kernel Sys.sys_lseek on absent application = rw absent refl
  hook-kernel Sys.sys_ftruncate on absent application = rw absent refl
  hook-kernel Sys.sys_dup on absent application = rw absent refl
  hook-kernel Sys.sys_dup2 on absent application = rw absent refl
  hook-kernel Sys.sys_dup3 on absent application = rw absent refl
  hook-kernel Sys.sys_getdents on absent application = rw absent refl
  hook-kernel Sys.sys_getdents64 on absent application = rw absent refl
  hook-kernel Sys.sys_fchmod on absent application = rw absent refl
  hook-kernel Sys.sys_fcntl on absent application = rw absent refl
  hook-kernel Sys.sys_fstatfs on absent application = rw absent refl
  hook-kernel _ on absent application = cc
