-- ===== src/Hooks/Cloexec.antt =====
-- F_DUPFD_CLOEXEC and F_GETFD of hook_fcntl in src/client/hooks.cpp: the flag is the open file's.
use gekko_fwd.Base.{ℕ, ◌≡◌, refl, ◌∙◌, Bool, true, none, some, if◌then◌else◌, arith}
use gekko_fwd.OpenFileMap.Defs.{OpenFile, OpenFileMap, Store, exist, has, get, DupResult, dup}
use gekko_fwd.OpenFileMap.Search.{IsValid, few_open}
use gekko_fwd.OpenFileMap.Table.{dup_lem}
use gekko_fwd.Hooks.{Hooked, Process, returns}
use gekko_fwd.Hooks.Descriptors.{
  hook_fcntl, gkfs_dup, flag_of, set_cloexec, cloexec_set, f_getfd, f_dupfd_cloexec,
}

exist-get : (m : OpenFileMap) (fd handle : ℕ) → get m fd ≡ some handle → exist m fd ≡ true
unfolding exist has get
exist-get m fd handle e = rw e refl

set_there :
    (store : Store) (handle : ℕ) → (set_cloexec store handle true handle).flags.cloexec ≡ true
unfolding set_cloexec
set_there store handle = ground arith

module _ {W : Type 0} where
  flag_of-get :
      (p : Process W) (fd handle : ℕ) (f : OpenFile → Hooked)
      → get p.files fd ≡ some handle
      → flag_of p fd f ≡ f (p.store handle)
  flag_of-get p fd handle f e = rw (flag_of, e) refl

  cloexec_set-get :
      (result : Hooked) (fd handle : ℕ) (b : Bool) (p : Process W)
      → get p.files fd ≡ some handle
      → cloexec_set result fd b p ≡ (result, record p { store = set_cloexec p.store handle b })
  cloexec_set-get result fd handle b p e = ground arith

  hook_fcntl-getfd :
      (fd arg handle : ℕ) (q : Process W)
      → get q.files fd ≡ some handle
      → (q.store handle).flags.cloexec ≡ true
      → hook_fcntl fd f_getfd arg q ≡ (returns 1, q)
  unfolding hook_fcntl
  hook_fcntl-getfd fd arg handle q e flag = rw (exist-get q.files fd handle e) (
      rw (flag_of-get q fd handle (λ file. returns (if file.flags.cloexec then 1 else 0)) e)
        (simp flag))

  hook_fcntl-dupfd_cloexec :
      (fd arg handle new : ℕ) (p : Process W) (m : OpenFileMap)
      → get p.files fd ≡ some handle
      → dup p.files fd ≡ some (DupResult.returned new, m)
      → get m fd ≡ some handle
      → hook_fcntl fd f_dupfd_cloexec arg p
        ≡ (returns new, record p { files = m; store = set_cloexec p.store handle true })
  unfolding hook_fcntl gkfs_dup
  hook_fcntl-dupfd_cloexec fd arg handle new p m e run same =
      simp (exist-get p.files fd handle e)
        (rw run (cloexec_set-get (returns new) fd handle true (record p { files = m }) same))

  -- In a valid file map with a descriptor left: F_DUPFD_CLOEXEC of a descriptor in use returns one
  -- that was not; from then on F_GETFD answers FD_CLOEXEC for the new descriptor, and for the one
  -- that was given too, whatever it answered before.
  pub hook_fcntl-hook_fcntl :
      (fd arg handle : ℕ) (p : Process W)
      → IsValid p.files
      → few_open p.files ≡ true
      → get p.files fd ≡ some handle
      → (new : ℕ) × (q : Process W) × (hook_fcntl fd f_dupfd_cloexec arg p ≡ (returns new, q))
        × (get p.files new ≡ none)
        × ((a : ℕ) → hook_fcntl new f_getfd a q ≡ (returns 1, q))
        × ((a : ℕ) → hook_fcntl fd f_getfd a q ≡ (returns 1, q))
  hook_fcntl-hook_fcntl fd arg handle p valid few e =
      let (r, run, free, lookup, valid_after) = dup_lem p.files fd handle valid few e in
      let q : Process W = record p { files = r.1; store = set_cloexec p.store handle true } in
      let same : get r.1 fd ≡ some handle = ground (arith, lookup fd) in
      let set : (set_cloexec p.store handle true handle).flags.cloexec ≡ true =
        set_there p.store handle in
      (
        r.0,
        q,
        hook_fcntl-dupfd_cloexec fd arg handle r.0 p r.1 e run same,
        free,
        λ a. hook_fcntl-getfd r.0 a handle q (lookup r.0 ∙ ground arith) set,
        λ a. hook_fcntl-getfd fd a handle q same set,
      )
