-- ===== src/Intercept/OwnFds.antt =====
-- Descriptors that the library opens for itself, from hook_internal to a close by the application, in
-- src/client/intercept.cpp and src/client/hooks.cpp.
use gekko_fwd.Base.{
  ℕ, ◌+◌, ◌^◌, ◌<◌, ◌≡◌, refl, ◌∙◌, List, [], ◌∷◌, Bool, true, false, none, some, ltb, arith,
  length,
}
use gekko_fwd.Preload.{
  Context, Kernel, find_first, is_internal_fd, registered, register_internal_fd,
}
use gekko_fwd.Preload.InternalFds.{FreeAreClosed, register_internal_fd_lem}
use gekko_fwd.OpenFileMap.Defs.{exist}
use gekko_fwd.Hooks.{Sys, Arg, word, returns, Process, Host, Served, int32}
use gekko_fwd.Hooks.Descriptors.{hook_close}
use gekko_fwd.Intercept.{Args, creat_flags, hooked, hook}
use gekko_fwd.Intercept.Internal.{
  success, Performed, Inside, executed, creating, register, after_create, hook_internal,
}

-- The library's state, where descriptors are relocated.
abbrev pub relocating : List Bool → Inside → Inside
relocating bits s = record s {
  context = record { internal_fds = bits; internal_fds_must_relocate = true };
}

hook-close_internal :
    {W : Type 0} (host : Host) (serve : Served W) (min_internal_fd : ℕ) (a : Args) (p : Process W)
    → a.arg0 < 2 ^ 31
    → exist p.files a.arg0 ≡ false
    → is_internal_fd min_internal_fd p.context a.arg0 ≡ some true
    → hook host serve min_internal_fd Sys.sys_close a p ≡ (hooked (returns 0), p)
unfolding hook
hook-close_internal host serve min_internal_fd a p small absent internal =
    let same : int32 a.arg0 ≡ a.arg0 = omega arith in
    let low : ltb a.arg0 (2 ^ 31) ≡ true = ground arith in
    rw (hook_close, same, absent, low, internal) refl

after_create-success :
    (min_internal_fd : ℕ) (q : Performed) (context c : Context) (fd ifd : ℕ) (t : Kernel)
    → q.result ≡ success fd
    → register_internal_fd min_internal_fd context q.table fd ≡ (registered ifd, c, t)
    → after_create min_internal_fd q context ≡ (
      executed (success ifd),
      record { context = c; pair = q.pair; messages = q.messages; table = t },
    )
unfolding after_create register
after_create-success min_internal_fd q context c fd ifd t good run =
    simp (after_create, good, register, run)

-- Calls of the kernel whose value is a new descriptor; accept4, memfd_create and others are not here.
abbrev pub opens : Sys → Bool
opens nr = elim nr [
  | Sys.sys_open ↦ true
  | Sys.sys_creat ↦ true
  | Sys.sys_openat ↦ true
  | Sys.sys_epoll_create ↦ true
  | Sys.sys_epoll_create1 ↦ true
  | Sys.sys_dup ↦ true
  | Sys.sys_dup2 ↦ true
  | Sys.sys_dup3 ↦ true
  | Sys.sys_inotify_init ↦ true
  | Sys.sys_inotify_init1 ↦ true
  | Sys.sys_perf_event_open ↦ true
  | Sys.sys_signalfd ↦ true
  | Sys.sys_signalfd4 ↦ true
  | Sys.sys_timerfd_create ↦ true
  | Sys.sys_socket ↦ true
  | Sys.sys_eventfd ↦ true
  | Sys.sys_eventfd2 ↦ true
  | Sys.sys_accept ↦ true
  | _ ↦ false
]

-- What they are called with: their arguments at the widths of the kernel's interface.
abbrev pub passed : Sys → Args → List Arg
passed nr a =
    let i0 = word (int32 a.arg0) in
    let i1 = word (int32 a.arg1) in
    let i2 = word (int32 a.arg2) in
    let i3 = word (int32 a.arg3) in
    elim nr [
      | Sys.sys_open ↦ word a.arg0 ∷ i1 ∷ i2 ∷ []
      | Sys.sys_creat ↦ word a.arg0 ∷ word creat_flags ∷ i1 ∷ []
      | Sys.sys_openat ↦ i0 ∷ word a.arg1 ∷ i2 ∷ i3 ∷ []
      | Sys.sys_epoll_create ↦ i0 ∷ []
      | Sys.sys_epoll_create1 ↦ i0 ∷ []
      | Sys.sys_dup ↦ i0 ∷ []
      | Sys.sys_dup2 ↦ i0 ∷ i1 ∷ []
      | Sys.sys_dup3 ↦ i0 ∷ i1 ∷ i2 ∷ []
      | Sys.sys_inotify_init ↦ []
      | Sys.sys_inotify_init1 ↦ i0 ∷ []
      | Sys.sys_perf_event_open ↦ word a.arg0 ∷ i1 ∷ i2 ∷ i3 ∷ word a.arg4 ∷ []
      | Sys.sys_signalfd ↦ i0 ∷ word a.arg1 ∷ []
      | Sys.sys_signalfd4 ↦ i0 ∷ word a.arg1 ∷ i2 ∷ []
      | Sys.sys_timerfd_create ↦ i0 ∷ i1 ∷ []
      | Sys.sys_socket ↦ i0 ∷ i1 ∷ i2 ∷ []
      | Sys.sys_eventfd ↦ i0 ∷ []
      | Sys.sys_eventfd2 ↦ i0 ∷ i1 ∷ []
      | Sys.sys_accept ↦ i0 ∷ word a.arg1 ∷ word a.arg2 ∷ []
      | _ ↦ []
    ]

creating-opens : (nr : Sys) (a : Args) → opens nr ≡ true → creating nr a ≡ some (passed nr a)
unfolding creating
creating-opens Sys.sys_open a h = refl
creating-opens Sys.sys_creat a h = refl
creating-opens Sys.sys_openat a h = refl
creating-opens Sys.sys_epoll_create a h = refl
creating-opens Sys.sys_epoll_create1 a h = refl
creating-opens Sys.sys_dup a h = refl
creating-opens Sys.sys_dup2 a h = refl
creating-opens Sys.sys_dup3 a h = refl
creating-opens Sys.sys_inotify_init a h = refl
creating-opens Sys.sys_inotify_init1 a h = refl
creating-opens Sys.sys_perf_event_open a h = refl
creating-opens Sys.sys_signalfd a h = refl
creating-opens Sys.sys_signalfd4 a h = refl
creating-opens Sys.sys_timerfd_create a h = refl
creating-opens Sys.sys_socket a h = refl
creating-opens Sys.sys_eventfd a h = refl
creating-opens Sys.sys_eventfd2 a h = refl
creating-opens Sys.sys_accept a h = refl
creating-opens _ a h = cc

module _ (min_internal_fd : ℕ) (perform : Sys → List Arg → Inside → Performed) (nr : Sys) (a : Args)
    (s : Inside) (bits : List Bool) where
  -- Where descriptors are to be relocated, with an internal one free and the free ones not in use: if
  -- an open, creat, openat, epoll_create, epoll_create1, dup, dup2, dup3, inotify_init, inotify_init1,
  -- perf_event_open, signalfd, signalfd4, timerfd_create, socket, eventfd, eventfd2 or accept of the
  -- library succeeds in the kernel, as the library passes it on, with a descriptor below the
  -- internal range, the library gets the first free internal one in its place, which refers to the
  -- same file, and the kernel's one is closed; and a close of the library's descriptor by the
  -- application, where the file map does not have it, returns 0, does not reach the kernel and
  -- changes nothing.
  pub hook_internal-hook :
      {W : Type 0} (host : Host) (serve : Served W) (p : Process W) (q : Performed) (fd file : ℕ)
      (b : Args)
      → opens nr ≡ true
      → perform nr (passed nr a) (relocating bits s) ≡ q
      → q.result ≡ success fd
      → fd < min_internal_fd
      → q.table fd ≡ some file
      → FreeAreClosed min_internal_fd bits q.table
      → find_first bits < length bits
      → b.arg0 ≡ find_first bits + min_internal_fd
      → b.arg0 < 2 ^ 31
      → exist p.files b.arg0 ≡ false
      → (after : Inside) × (hook_internal min_internal_fd perform nr a (relocating bits s)
          ≡ (executed (success b.arg0), after))
        × (after.table b.arg0 ≡ some file)
        × (after.table fd ≡ none)
        × (hook host serve min_internal_fd Sys.sys_close b (record p { context = after.context })
            ≡ (hooked (returns 0), record p { context = after.context }))
  unfolding hook_internal after_create register
  hook_internal-hook host serve p q fd file b made performed good low opened closed_free free at
        small absent =
      let (next, table, run, was, now, gone, others, internal, still) =
        register_internal_fd_lem min_internal_fd bits q.table fd file low opened closed_free free in
      let after : Inside = record {
        context = record { internal_fds = next; internal_fds_must_relocate = true };
        pair = q.pair;
        messages = q.messages;
        table = table;
      } in
      (
        after,
        rw (hook_internal, creating-opens nr a made, performed)
            (after_create-success min_internal_fd q
              (record { internal_fds = bits; internal_fds_must_relocate = true }) after.context fd
              b.arg0 table good (rw at run)),
        rw at now,
        gone,
        hook-close_internal host serve min_internal_fd b (record p { context = after.context })
            small absent (internal b.arg0 ∙ ground arith),
      )
