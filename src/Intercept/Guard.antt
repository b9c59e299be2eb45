-- ===== src/Intercept/Guard.antt =====
-- The wrappers of src/client/intercept.cpp that stand before the hooks, and what they keep per thread.
use gekko_fwd.Base.{ℕ, List, [], ◌∷◌, Bool, true, false, Option, none, some, if◌then◌else◌}

-- saved_syscall_info: no_info, or the kind of a call that is forwarded and not executed yet.
pub data SyscallInfo : Type 0 where
  no_info : SyscallInfo
  from_internal_code from_external_code : SyscallInfo

pub record Thread : Type 0 where
  pub reentrance_guard_flag : Bool
  pub saved_syscall_info : SyscallInfo
  pub errno : ℕ

-- Who takes a call.
pub data Route : Type 0 where
  to_hook to_hook_internal to_kernel : Route

-- What a hook does with the thread's state, and whether it forwards the call to the kernel; `A` is
-- what is to be known of the run.
abbrev pub Body {ℓ} : Type ℓ → Type ℓ
Body A = Thread → (Bool × A) × Thread

-- What a body leaves, and the saved information of a call that it forwards.
abbrev pub noted {ℓ} : {A : Type ℓ} → SyscallInfo → (Bool × A) × Thread → (Bool × A) × Thread
noted info ((forwards, a), t) =
    ((forwards, a), if forwards then record t { saved_syscall_info = info } else t)

unfoldable pub hook_guard_wrapper {ℓ} :
    {A : Type ℓ} → Body A → Body A → Thread → (Route × (Bool × A)) × Thread
hook_guard_wrapper hook hook_internal t =
    if t.reentrance_guard_flag
    then (let (r, t') = noted from_internal_code (hook_internal t) in
        ((to_hook_internal, r), record t' { errno = t.errno }))
    else (let (r, t') =
          noted from_external_code (hook (record t { reentrance_guard_flag = true })) in
        ((to_hook, r), record t' { errno = t.errno; reentrance_guard_flag = false }))

-- `none` where the call goes to the kernel and no hook runs.
unfoldable pub internal_hook_guard_wrapper {ℓ} :
    {A : Type ℓ} → Body A → Thread → (Route × Option (Bool × A)) × Thread
internal_hook_guard_wrapper hook_internal t =
    if t.reentrance_guard_flag
    then ((to_kernel, none), record t { saved_syscall_info = from_internal_code })
    else (let (r, t') =
          noted from_internal_code (hook_internal (record t { reentrance_guard_flag = true })) in
        ((to_hook_internal, some r), record t' { errno = t.errno; reentrance_guard_flag = false }))

-- After a forwarded call that returns; the log line is left out.
unfoldable pub hook_forwarded_syscall : Thread → Thread
hook_forwarded_syscall t = record t { saved_syscall_info = no_info }

-- hook_clone_at_child and hook_clone_at_parent, without the log line.
unfoldable pub hook_clone : Thread → Thread
hook_clone t = record t { reentrance_guard_flag = false }

-- What happens in a thread while a hook runs: a system call that hook_internal serves and passes on or
-- not, with the errno it leaves, or a clone that has returned.
pub data Event : Type 0 where
  syscall : Bool → ℕ → Event
  cloned : Event

-- A hook that makes no calls of its own.
abbrev pub plain : Bool → ℕ → Body (List Route)
plain forwards e t = ((forwards, []), record t { errno = e })

-- The route of each system call among events, which enter by hook_guard_wrapper.
unfoldable pub nested : List Event → Thread → List Route × Thread
unfolding hook_guard_wrapper hook_clone
nested [] t = ([], t)
nested (cloned ∷ es) t = nested es (hook_clone t)
nested (syscall forwards e ∷ es) t =
    let (r, t') = hook_guard_wrapper (plain forwards e) (plain forwards e) t in
    let (rs, last) = nested es t' in (r.0 ∷ rs, last)

-- A hook in which events happen, and which leaves an errno: the routes are those that its calls take.
abbrev pub eventful : List Event → Bool → ℕ → Body (List Route)
eventful es forwards e t =
    let (rs, last) = nested es t in ((forwards, rs), record last { errno = e })

-- A system call of the application, whose hook has these events: its route and those of the calls in it.
unfoldable pub application_call : List Event → Bool → ℕ → Thread → (Route × List Route) × Thread
unfolding nested hook_guard_wrapper
application_call es forwards e t =
    let ((route, (forwarded, inner)), t') =
      hook_guard_wrapper (eventful es forwards e) (eventful es forwards e) t in
    ((route, inner), t')
