-- ===== src/Hooks/Descriptors.antt =====
-- The hooks of src/client/hooks.cpp that take a descriptor.
use gekko_fwd.Base.{
  ℕ, ◌-◌, ◌%◌, ◌^◌, [], ◌∷◌, Bool, true, false, Option, none, some, ◌==◌, if◌then◌else◌, bit_or,
  ltb,
}
use gekko_fwd.Decimal.{Bytes}
use gekko_fwd.FileCalls.{Call, value, fails, throws, unfinished, enotsup}
use gekko_fwd.OpenFileMap.Defs.{
  OpenFile, OpenFileMap, Store, DupResult, exist, get, remove, dup, dup2,
}
use gekko_fwd.Preload.{is_internal_fd}
use gekko_fwd.Hooks.{
  Hooked, kernel, returns, error, crashes, endless, word, Request, Process, Served, with_errno,
  minus_errno, path_of, int32, ebadf, eoverflow, sys_close, sys_fstat, sys_read, sys_pread64,
  sys_readv, sys_preadv, sys_write, sys_pwrite64, sys_writev, sys_pwritev, sys_lseek, sys_ftruncate,
  sys_dup, sys_dup2, sys_dup3, sys_getdents, sys_getdents64, sys_fchmod, sys_fcntl, sys_fstatfs,
}

-- fcntl commands
abbrev pub f_dupfd : ℕ
f_dupfd = 0

abbrev pub f_getfd : ℕ
f_getfd = 1

abbrev pub f_setfd : ℕ
f_setfd = 2

abbrev pub f_getfl : ℕ
f_getfl = 3

abbrev pub f_dupfd_cloexec : ℕ
f_dupfd_cloexec = 1030

-- OpenFile::set_flag of `cloexec`.
unfoldable pub set_cloexec : Store → ℕ → Bool → Store
set_cloexec store handle b h =
    if h == handle
    then (let file = store h in record file { flags = record file.flags { cloexec = b } })
    else store h

-- O_WRONLY and O_RDWR; O_RDONLY is 0.
abbrev pub access_bits : Bool → Bool → ℕ
access_bits wronly rdwr = bit_or (if wronly then 1 else 0) (if rdwr then 2 else 0)

module _ {W : Type 0} where
  abbrev pub with_dup : Process W → Option (DupResult × OpenFileMap) → Call ℕ × Process W
  with_dup p none = (unfinished, p)
  with_dup p (some (DupResult.ebadf, files)) =
      (fails ebadf, record p { files = files; errno = ebadf })
  with_dup p (some (DupResult.returned fd, files)) = (value fd, record p { files = files })

  unfoldable pub gkfs_dup : ℕ → Process W → Call ℕ × Process W
  gkfs_dup oldfd p = with_dup p (dup p.files oldfd)

  unfoldable pub gkfs_dup2 : ℕ → ℕ → Process W → Call ℕ × Process W
  gkfs_dup2 oldfd newfd p = with_dup p (some (dup2 p.files oldfd newfd))

  abbrev pub after_internal : ℕ → Process W → Option Bool → Hooked × Process W
  after_internal fd p none = (crashes, p)
  after_internal fd p (some true) = (returns 0, p)
  after_internal fd p (some false) = (kernel sys_close (word fd ∷ []), p)

  -- is_internal_fd of an int: a negative one is below every internal descriptor.
  abbrev pub int_is_internal : ℕ → Process W → ℕ → Option Bool
  int_is_internal min_internal_fd p fd =
      if ltb fd (2 ^ 31) then is_internal_fd min_internal_fd p.context fd else some false

  unfoldable pub hook_close : ℕ → ℕ → Process W → Hooked × Process W
  hook_close min_internal_fd fd p =
      if exist p.files fd
      then (returns 0, record p { files = (remove p.files fd).1 })
      else after_internal fd p (int_is_internal min_internal_fd p fd)

  -- A flag of an open file, or of a null pointer.
  abbrev pub flag_of : Process W → ℕ → (OpenFile → Hooked) → Hooked
  flag_of p fd f = elim (get p.files fd) [ none ↦ crashes | some handle ↦ f (p.store handle) ]

  abbrev pub cloexec_set : Hooked → ℕ → Bool → Process W → Hooked × Process W
  cloexec_set result fd b p = elim (get p.files fd) [
    | none ↦ (crashes, p)
    | some handle ↦ (result, record p { store = set_cloexec p.store handle b })
  ]

  -- The flag is set on the descriptor that was given.
  abbrev pub dup_cloexec : ℕ → Call ℕ × Process W → Hooked × Process W
  dup_cloexec fd (value ret, p) = cloexec_set (returns ret) fd true p
  dup_cloexec fd (fails e, p) = (minus_errno e, p)
  dup_cloexec fd (throws, p) = (crashes, p)
  dup_cloexec fd (unfinished, p) = (endless, p)

  unfoldable pub hook_fcntl : ℕ → ℕ → ℕ → Process W → Hooked × Process W
  unfolding gkfs_dup
  hook_fcntl fd cmd arg p =
      if exist p.files fd
      then (if cmd == f_dupfd
          then with_errno (gkfs_dup fd p)
          else if cmd == f_dupfd_cloexec
          then dup_cloexec fd (gkfs_dup fd p)
          else if cmd == f_getfd
          then (flag_of p fd (λ file. returns (if file.flags.cloexec then 1 else 0)), p)
          else if cmd == f_getfl
          then (flag_of p fd (λ file. returns (access_bits file.flags.wronly file.flags.rdwr)), p)
          else if cmd == f_setfd
          then cloexec_set (returns 0) fd (arg % 2 == 1) p
          else (error enotsup, p))
      else (kernel sys_fcntl (word fd ∷ word cmd ∷ word arg ∷ []), p)

  unfoldable pub hook_dup : ℕ → Process W → Hooked × Process W
  hook_dup fd p =
      if exist p.files fd then with_errno (gkfs_dup fd p) else (kernel sys_dup (word fd ∷ []), p)

  unfoldable pub hook_dup2 : ℕ → ℕ → Process W → Hooked × Process W
  hook_dup2 oldfd newfd p =
      if exist p.files oldfd
      then with_errno (gkfs_dup2 oldfd newfd p)
      else (kernel sys_dup2 (word oldfd ∷ word newfd ∷ []), p)

  unfoldable pub hook_dup3 : ℕ → ℕ → ℕ → Process W → Hooked × Process W
  hook_dup3 oldfd newfd flags p =
      if exist p.files oldfd
      then (error enotsup, p)
      else (kernel sys_dup3 (word oldfd ∷ word newfd ∷ word flags ∷ []), p)

  unfoldable pub hook_fchmod : ℕ → ℕ → Process W → Hooked × Process W
  hook_fchmod fd mode p =
      if exist p.files fd
      then (error enotsup, p)
      else (kernel sys_fchmod (word fd ∷ word mode ∷ []), p)

  -- gkfs_lseek's value, as an off_t of 64 bits.
  abbrev pub with_offset : Call ℕ × Process W → Hooked × Process W
  with_offset (value n, p) = (if ltb (2 ^ 63 - 1) n then error eoverflow else returns n, p)
  with_offset (fails e, p) = (error e, p)
  with_offset (throws, p) = (crashes, p)
  with_offset (unfinished, p) = (endless, p)

  module _ (serve : Served W) where
    -- The path of the open file at the descriptor, and a call on it.
    abbrev pub on_path : ℕ → (Bytes → Request) → Process W → Hooked × Process W
    on_path fd call p = elim (path_of p fd) [
      | none ↦ (crashes, p)
      | some path ↦ with_errno (serve (call path) p)
    ]

    unfoldable pub hook_fstat : ℕ → ℕ → Process W → Hooked × Process W
    hook_fstat fd buf p =
        if exist p.files fd
        then on_path fd (λ path. Request.gkfs_stat path buf) p
        else (kernel sys_fstat (word fd ∷ word buf ∷ []), p)

    unfoldable pub hook_read : ℕ → ℕ → ℕ → Process W → Hooked × Process W
    hook_read fd buf count p =
        if exist p.files fd
        then with_errno (serve (Request.gkfs_read fd buf count) p)
        else (kernel sys_read (word fd ∷ word buf ∷ word count ∷ []), p)

    unfoldable pub hook_pread : ℕ → ℕ → ℕ → ℕ → Process W → Hooked × Process W
    hook_pread fd buf count pos p =
        if exist p.files fd
        then with_errno (serve (Request.gkfs_pread_ws fd buf count pos) p)
        else (kernel sys_pread64 (word fd ∷ word buf ∷ word count ∷ word pos ∷ []), p)

    -- The descriptor is an unsigned long here, which the file map takes as an int.
    unfoldable pub hook_readv : ℕ → ℕ → ℕ → Process W → Hooked × Process W
    hook_readv fd iov iovcnt p =
        if exist p.files (int32 fd)
        then with_errno (serve (Request.gkfs_readv (int32 fd) iov (int32 iovcnt)) p)
        else (kernel sys_readv (word fd ∷ word iov ∷ word iovcnt ∷ []), p)

    unfoldable pub hook_preadv : ℕ → ℕ → ℕ → ℕ → ℕ → Process W → Hooked × Process W
    hook_preadv fd iov iovcnt pos_l pos_h p =
        if exist p.files (int32 fd)
        then with_errno (serve (Request.gkfs_preadv (int32 fd) iov (int32 iovcnt) pos_l) p)
        else (kernel sys_preadv (word fd ∷ word iov ∷ word iovcnt ∷ word pos_l ∷ []), p)

    unfoldable pub hook_write : ℕ → ℕ → ℕ → Process W → Hooked × Process W
    hook_write fd buf count p =
        if exist p.files fd
        then with_errno (serve (Request.gkfs_write fd buf count) p)
        else (kernel sys_write (word fd ∷ word buf ∷ word count ∷ []), p)

    unfoldable pub hook_pwrite : ℕ → ℕ → ℕ → ℕ → Process W → Hooked × Process W
    hook_pwrite fd buf count pos p =
        if exist p.files fd
        then with_errno (serve (Request.gkfs_pwrite_ws fd buf count pos) p)
        else (kernel sys_pwrite64 (word fd ∷ word buf ∷ word count ∷ word pos ∷ []), p)

    unfoldable pub hook_writev : ℕ → ℕ → ℕ → Process W → Hooked × Process W
    hook_writev fd iov iovcnt p =
        if exist p.files (int32 fd)
        then with_errno (serve (Request.gkfs_writev (int32 fd) iov (int32 iovcnt)) p)
        else (kernel sys_writev (word fd ∷ word iov ∷ word iovcnt ∷ []), p)

    unfoldable pub hook_pwritev : ℕ → ℕ → ℕ → ℕ → ℕ → Process W → Hooked × Process W
    hook_pwritev fd iov iovcnt pos_l pos_h p =
        if exist p.files (int32 fd)
        then with_errno (serve (Request.gkfs_pwritev (int32 fd) iov (int32 iovcnt) pos_l) p)
        else (kernel sys_pwritev (word fd ∷ word iov ∷ word iovcnt ∷ word pos_l ∷ []), p)

    unfoldable pub hook_lseek : ℕ → ℕ → ℕ → Process W → Hooked × Process W
    hook_lseek fd offset whence p =
        if exist p.files fd
        then with_offset (serve (Request.gkfs_lseek fd offset whence) p)
        else (kernel sys_lseek (word fd ∷ word offset ∷ word whence ∷ []), p)

    unfoldable pub hook_ftruncate : ℕ → ℕ → Process W → Hooked × Process W
    hook_ftruncate fd length p =
        if exist p.files fd
        then on_path fd (λ path. Request.gkfs_truncate path length) p
        else (kernel sys_ftruncate (word fd ∷ word length ∷ []), p)

    unfoldable pub hook_getdents : ℕ → ℕ → ℕ → Process W → Hooked × Process W
    hook_getdents fd dirp count p =
        if exist p.files fd
        then with_errno (serve (Request.gkfs_getdents fd dirp count) p)
        else (kernel sys_getdents (word fd ∷ word dirp ∷ word count ∷ []), p)

    unfoldable pub hook_getdents64 : ℕ → ℕ → ℕ → Process W → Hooked × Process W
    hook_getdents64 fd dirp count p =
        if exist p.files fd
        then with_errno (serve (Request.gkfs_getdents64 fd dirp count) p)
        else (kernel sys_getdents64 (word fd ∷ word dirp ∷ word count ∷ []), p)

    unfoldable pub hook_fstatfs : ℕ → ℕ → Process W → Hooked × Process W
    hook_fstatfs fd buf p =
        if exist p.files fd
        then with_errno (serve (Request.gkfs_statfs buf) p)
        else (kernel sys_fstatfs (word fd ∷ word buf ∷ []), p)
