-- ===== src/Intercept/Internal.antt =====
-- hook_internal of src/client/intercept.cpp: the library's own system calls, whose descriptors
-- register_internal_fd takes. What the kernel does for a call is an argument.
use gekko_fwd.Base.{ℕ, List, [], ◌∷◌, Bool, ◌||◌, Option, none, some, ◌==◌, if◌then◌else◌}
use gekko_fwd.Preload.{Context, Kernel, Registered, register_internal_fd, unregister_internal_fd}
use gekko_fwd.Hooks.{Sys, Arg, word, int32}
use gekko_fwd.Hooks.Descriptors.{f_dupfd, f_dupfd_cloexec}
use gekko_fwd.Intercept.{Args, creat_flags}

-- The value of a call.
pub data Result : Type 0 where
  success : ℕ → Result
  negative : ℕ → Result

-- A control message: whether its type is SCM_RIGHTS, and the ints of its data.
pub record ControlMessage : Type 0 where
  pub scm_rights : Bool
  pub fds : List ℕ

-- What a call leaves: its value, the two ints and the control messages that it writes to the memory it
-- is given, and the open descriptors.
pub record Performed : Type 0 where
  pub result : Result
  pub pair : ℕ × ℕ
  pub messages : List ControlMessage
  pub table : Kernel

-- The library after a call: its descriptors, the memory, the table of the kernel.
pub record Inside : Type 0 where
  pub context : Context
  pub pair : ℕ × ℕ
  pub messages : List ControlMessage
  pub table : Kernel

-- forward_to_kernel; the value in `result`; an exception or a failing assertion.
pub data InternalDispatch : Type 0 where
  forward_to_kernel : InternalDispatch
  executed : Result → InternalDispatch
  threw : InternalDispatch

-- The calls whose value is registered where it is not negative, with the arguments that are passed.
unfoldable pub creating : Sys → Args → Option (List Arg)
creating nr a =
    let i0 = word (int32 a.arg0) in
    let i1 = word (int32 a.arg1) in
    let i2 = word (int32 a.arg2) in
    let i3 = word (int32 a.arg3) in
    elim nr [
      | Sys.sys_open ↦ some (word a.arg0 ∷ i1 ∷ i2 ∷ [])
      | Sys.sys_creat ↦ some (word a.arg0 ∷ word creat_flags ∷ i1 ∷ [])
      | Sys.sys_openat ↦ some (i0 ∷ word a.arg1 ∷ i2 ∷ i3 ∷ [])
      | Sys.sys_epoll_create ↦ some (i0 ∷ [])
      | Sys.sys_epoll_create1 ↦ some (i0 ∷ [])
      | Sys.sys_dup ↦ some (i0 ∷ [])
      | Sys.sys_dup2 ↦ some (i0 ∷ i1 ∷ [])
      | Sys.sys_dup3 ↦ some (i0 ∷ i1 ∷ i2 ∷ [])
      | Sys.sys_inotify_init ↦ some []
      | Sys.sys_inotify_init1 ↦ some (i0 ∷ [])
      | Sys.sys_perf_event_open ↦ some (word a.arg0 ∷ i1 ∷ i2 ∷ i3 ∷ word a.arg4 ∷ [])
      | Sys.sys_signalfd ↦ some (i0 ∷ word a.arg1 ∷ [])
      | Sys.sys_signalfd4 ↦ some (i0 ∷ word a.arg1 ∷ i2 ∷ [])
      | Sys.sys_timerfd_create ↦ some (i0 ∷ i1 ∷ [])
      | Sys.sys_socket ↦ some (i0 ∷ i1 ∷ i2 ∷ [])
      | Sys.sys_eventfd ↦ some (i0 ∷ [])
      | Sys.sys_eventfd2 ↦ some (i0 ∷ i1 ∷ [])
      | Sys.sys_accept ↦ some (i0 ∷ word a.arg1 ∷ word a.arg2 ∷ [])
      | _ ↦ none
    ]

-- The calls that write two descriptors to memory.
unfoldable pub creating_pair : Sys → Args → Option (List Arg)
creating_pair nr a = elim nr [
  | Sys.sys_socketpair ↦
      some (word (int32 a.arg0) ∷ word (int32 a.arg1) ∷ word (int32 a.arg2) ∷ word a.arg3 ∷ [])
  | Sys.sys_pipe ↦ some (word a.arg0 ∷ [])
  | Sys.sys_pipe2 ↦ some (word a.arg0 ∷ word (int32 a.arg1) ∷ [])
  | _ ↦ none
]

module _ (min_internal_fd : ℕ) where
  -- A descriptor that is registered, `none` where that throws.
  abbrev pub moved : Registered × Context × Kernel → Option (ℕ × Context × Kernel)
  moved (Registered.registered fd, context, table) = some (fd, context, table)
  moved (Registered.exhausted, context, table) = none
  moved (Registered.refused, context, table) = none

  unfoldable pub register : Context → Kernel → ℕ → Option (ℕ × Context × Kernel)
  register context table fd = moved (register_internal_fd min_internal_fd context table fd)

  -- for (size_t i = 0; i < nfd; ++i)
  unfoldable pub register_all : List ℕ → Context → Kernel → Option (List ℕ × Context × Kernel)
  register_all [] context table = some ([], context, table)
  register_all (fd ∷ fds) context table = elim (register context table fd) [
    | none ↦ none
    | some (ifd, c, t) ↦ elim (register_all fds c t) [
      | none ↦ none
      | some (rest, c', t') ↦ some (ifd ∷ rest, c', t')
    ]
  ]

  -- The loop over the control messages.
  unfoldable pub register_messages :
      List ControlMessage → Context → Kernel → Option (List ControlMessage × Context × Kernel)
  register_messages [] context table = some ([], context, table)
  register_messages (m ∷ messages) context table =
      elim (if m.scm_rights
        then register_all m.fds context table
        else some (m.fds, context, table)) [
          | none ↦ none
          | some (fds, c, t) ↦ elim (register_messages messages c t) [
            | none ↦ none
            | some (rest, c', t') ↦ some (record m { fds = fds } ∷ rest, c', t')
          ]
        ]

  abbrev pub done : Performed → Context → InternalDispatch × Inside
  done q context = (
    executed q.result,
    record { context = context; pair = q.pair; messages = q.messages; table = q.table },
  )

  abbrev pub stopped : Performed → Context → InternalDispatch × Inside
  stopped q context =
      (threw, record { context = context; pair = q.pair; messages = q.messages; table = q.table })

  -- if (*result >= 0) *result = CTX->register_internal_fd(*result);
  unfoldable pub after_create : Performed → Context → InternalDispatch × Inside
  after_create q context = elim q.result [
    | negative e ↦ done q context
    | success fd ↦ elim (register context q.table fd) [
      | none ↦ stopped q context
      | some (ifd, c, t) ↦ done (record q { result = success ifd; table = t }) c
    ]
  ]

  unfoldable pub after_pair : Performed → Context → InternalDispatch × Inside
  after_pair q context = elim q.result [
    | negative e ↦ done q context
    | success n ↦ elim (register context q.table q.pair.0) [
      | none ↦ stopped q context
      | some (first, c, t) ↦ elim (register c t q.pair.1) [
        | none ↦ stopped (record q { pair = (first, q.pair.1); table = t }) c
        | some (second, c', t') ↦ done (record q { pair = (first, second); table = t' }) c'
      ]
    ]
  ]

  unfoldable pub after_recvmsg : Performed → Context → InternalDispatch × Inside
  after_recvmsg q context = elim q.result [
    | negative e ↦ done q context
    | success n ↦ elim (register_messages q.messages context q.table) [
      | none ↦ stopped q context
      | some (messages, c, t) ↦ done (record q { messages = messages; table = t }) c
    ]
  ]

  unfoldable pub after_close : ℕ → Performed → Context → InternalDispatch × Inside
  after_close fd q context = elim q.result [
    | negative e ↦ done q context
    | success n ↦
        if n == 0
        then elim (unregister_internal_fd min_internal_fd context fd) [
          | none ↦ stopped q context
          | some c ↦ done q c
        ]
        else done q context
  ]

  unfoldable pub hook_internal :
      (Sys → List Arg → Inside → Performed) → Sys → Args → Inside → InternalDispatch × Inside
  unfolding creating creating_pair
  hook_internal perform nr a s = elim (creating nr a) [
    | some args ↦ after_create (perform nr args s) s.context
    | none ↦ elim (creating_pair nr a) [
      | some args ↦ after_pair (perform nr args s) s.context
      | none ↦ elim nr [
        | Sys.sys_recvmsg ↦
            after_recvmsg
              (perform Sys.sys_recvmsg
                (word (int32 a.arg0) ∷ word a.arg1 ∷ word (int32 a.arg2) ∷ []) s)
              s.context
        | Sys.sys_fcntl ↦
            let q =
              perform Sys.sys_fcntl (word (int32 a.arg0) ∷ word (int32 a.arg1) ∷ word a.arg2 ∷ [])
                s in
            if int32 a.arg1 == f_dupfd || int32 a.arg1 == f_dupfd_cloexec
            then after_create q s.context
            else done q s.context
        | Sys.sys_close ↦
            after_close (int32 a.arg0) (perform Sys.sys_close (word (int32 a.arg0) ∷ []) s)
              s.context
        | _ ↦ (forward_to_kernel, s)
      ]
    ]
  ]
