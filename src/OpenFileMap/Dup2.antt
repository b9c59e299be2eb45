-- ===== src/OpenFileMap/Dup2.antt =====
-- What `dup2` does to the table of descriptors.
use gekko_fwd.Base.{
  ℕ, suc, ◌≤◌, ◌<◌, ◌≡◌, refl, sym, ap, ◌∙◌, inl, inr, true, false, ◌==◌, if◌then◌else◌, none, some,
  Option-cases, arith, Bool-cases, ◌≢◌, ◌⊎◌,
}
use mathlib.Core.Option
use gekko_fwd.OpenFileMap.Defs.{
  has, exist, insert, OpenFileMap, int_max, get, add, remove, returned, ebadf, kept, guarded, dup2,
  place,
}
use gekko_fwd.OpenFileMap.Search.{IsValid, safe-bump}
use gekko_fwd.OpenFileMap.Table.{
  find-insert, has-insert, has-erase, erase-IsValid, remove-used, get-unused, get-erase,
}

exist-has : (m : OpenFileMap) (k : ℕ) → exist m k ≡ has m.files k
unfolding exist
exist-has m k = refl

kept-used : (m : OpenFileMap) (newfd : ℕ) → exist m newfd ≡ true → kept m newfd ≡ (remove m newfd).1
unfolding kept
kept-used m newfd e = rw e refl

kept-unused : (m : OpenFileMap) (newfd : ℕ) → exist m newfd ≡ false → kept m newfd ≡ m
unfolding kept
kept-unused m newfd e = rw e refl

kept_lem :
    (m : OpenFileMap) (newfd : ℕ)
    → IsValid m
    → ((k : ℕ) → get (kept m newfd) k ≡ (if k == newfd then none else get m k))
      × IsValid (kept m newfd)
      × (has (kept m newfd).files newfd ≡ false)
      × ((kept m newfd).fd_idx ≡ m.fd_idx)
kept_lem m newfd v = elim (Bool-cases (exist m newfd)) [
  | inl e ↦
      rw (kept-used m newfd e, remove-used m newfd e)
        (
          λ k. get-erase m _ newfd k refl,
          erase-IsValid m newfd v,
          has-erase m.files newfd newfd ∙ ground arith,
          refl,
        )
  | inr e ↦
      rw (kept-unused m newfd e) (λ k. get-unused m newfd k e, v, sym (exist-has m newfd) ∙ e, refl)
]

guarded_lem :
    (m : OpenFileMap) (newfd : ℕ)
    → 10000 ≤ m.fd_idx
    → newfd ≢ m.fd_idx
    → ((guarded m newfd).files ≡ m.files)
      × ((guarded m newfd).fd_idx ≡ m.fd_idx)
      × (((guarded m newfd).fd_validation_needed ≡ true)
          ⊎ ((newfd < m.fd_idx)
              × ((guarded m newfd).fd_validation_needed ≡ m.fd_validation_needed)))
unfolding guarded
guarded_lem m newfd low other = ground arith

guarded-files : (m : OpenFileMap) (newfd : ℕ) → (guarded m newfd).files ≡ m.files
unfolding guarded
guarded-files m newfd = ground arith

dup2-get :
    (m : OpenFileMap) (oldfd newfd handle : ℕ)
    → get m oldfd ≡ some handle
    → oldfd == newfd ≡ false
    → dup2 m oldfd newfd ≡ (
      returned newfd,
      record (guarded (kept m newfd) newfd) {
        files = insert (guarded (kept m newfd) newfd).files newfd handle;
      },
    )
unfolding dup2
dup2-get m oldfd newfd handle e other = rw (dup2, e, other) refl

dup2-same :
    (m : OpenFileMap) (oldfd newfd handle : ℕ)
    → get m oldfd ≡ some handle
    → oldfd == newfd ≡ true
    → dup2 m oldfd newfd ≡ (returned newfd, m)
unfolding dup2
dup2-same m oldfd newfd handle e same = rw (dup2, e, same) refl

get-guarded : (m : OpenFileMap) (newfd k : ℕ) → get (guarded m newfd) k ≡ get m k
unfolding get
get-guarded m newfd k = rw (guarded-files m newfd) refl

get-insert :
    (m n : OpenFileMap) (newfd h k : ℕ)
    → n.files ≡ insert m.files newfd h
    → has m.files newfd ≡ false
    → get n k ≡ (if k == newfd then some h else get m k)
unfolding get
get-insert m n newfd h k e f = rw e (find-insert m.files newfd h k f)

-- In a valid map, `dup2` of a descriptor in use returns the new one, which then stands for the
-- same file object, whatever it stood for before; every other descriptor stands for what it
-- stood for.
pub dup2_lem :
    (m : OpenFileMap) (oldfd newfd handle : ℕ)
    → IsValid m
    → get m oldfd ≡ some handle
    → ((dup2 m oldfd newfd).0 ≡ returned newfd)
      × ((k : ℕ) → get (dup2 m oldfd newfd).1 k ≡ (if k == newfd then some handle else get m k))
dup2_lem m oldfd newfd handle v e = elim (Bool-cases (oldfd == newfd)) [
  | inl same ↦ rw (dup2-same m oldfd newfd handle e same) (refl, λ k. ground (arith, e))
  | inr other ↦
      let (lookup, valid, free, idx) = kept_lem m newfd v in
      rw (dup2-get m oldfd newfd handle e other) (
        refl,
        λ k.
            get-insert (guarded (kept m newfd) newfd) _ newfd handle k refl
              (rw (guarded-files (kept m newfd) newfd) free)
            ∙ rw (get-guarded (kept m newfd) newfd k, lookup k) (ground arith),
      )
]

dup2-missing :
    (m : OpenFileMap) (oldfd newfd : ℕ) → get m oldfd ≡ none → dup2 m oldfd newfd ≡ (ebadf, m)
unfolding dup2
dup2-missing m oldfd newfd e = rw (dup2, e) refl

insert-IsValid :
    (m : OpenFileMap) (newfd handle : ℕ)
    → IsValid m
    → has m.files newfd ≡ false
    → newfd ≢ m.fd_idx
    → IsValid (record (guarded m newfd) { files = insert (guarded m newfd).files newfd handle })
insert-IsValid m newfd handle v free other =
    let (files, idx, ahead) = guarded_lem m newfd v.low other in
    record {
      low = rw idx v.low;
      high = rw idx v.high;
      behind = elim ahead [
        | inl set ↦ inl set
        | inr (below_idx, flag) ↦ elim v.behind [
          | inl set ↦ inl (flag ∙ set)
          | inr below ↦ inr (λ k used.
              let u = rw (files, has-insert m.files newfd handle k free) at used in
              rw idx (ground (arith, below k, u)))
        ]
      ];
    }

-- A valid map stays valid under `dup2` to any descriptor but the one that is generated next.
pub dup2-IsValid :
    (m : OpenFileMap) (oldfd newfd : ℕ)
    → IsValid m
    → newfd ≢ m.fd_idx
    → IsValid (dup2 m oldfd newfd).1
dup2-IsValid m oldfd newfd v other = elim (Option-cases (get m oldfd)) [
  | inl e ↦ rw (dup2-missing m oldfd newfd e) v
  | inr (handle, e) ↦ elim (Bool-cases (oldfd == newfd)) [
    | inl same ↦ rw (dup2-same m oldfd newfd handle e same) v
    | inr differs ↦
        let (lookup, valid, free, idx) = kept_lem m newfd v in
        rw (dup2-get m oldfd newfd handle e differs)
          (insert-IsValid (kept m newfd) newfd handle valid free (λ q. other (q ∙ idx)))
  ]
]

guarded-behind : (m : OpenFileMap) (newfd : ℕ) → newfd ≤ m.fd_idx → guarded m newfd ≡ m
unfolding guarded
guarded-behind m newfd h = ground arith

-- `dup2` to a descriptor that is not in use and not ahead of the index.
dup2-next :
    (m : OpenFileMap) (oldfd handle : ℕ)
    → oldfd ≢ m.fd_idx
    → exist m m.fd_idx ≡ false
    → get m oldfd ≡ some handle
    → dup2 m oldfd m.fd_idx
      ≡ (returned m.fd_idx, record m { files = insert m.files m.fd_idx handle })
dup2-next m oldfd handle differs unused e =
    rw
      (
        dup2-get m oldfd m.fd_idx handle e (ground arith),
        kept-unused m m.fd_idx unused,
        guarded-behind m m.fd_idx (ground arith),
      )
      refl

insert-used : (m : OpenFileMap) (k h : ℕ) → has m.files k ≡ true → insert m.files k h ≡ m.files
unfolding insert
insert-used m k h e = rw e refl

add-trusted :
    (m : OpenFileMap) (handle : ℕ)
    → m.fd_validation_needed ≡ false
    → m.fd_idx < int_max
    → add m handle
      ≡ some (m.fd_idx, record m { files = insert m.files m.fd_idx handle; fd_idx = suc m.fd_idx })
unfolding add place
add-trusted m handle unset small = ap (Option.map (place handle)) (safe-bump m unset small)

-- Where no search is due, the index is below the largest descriptor and not in use: after `dup2`
-- of another descriptor in use to the index itself, `add` returns that descriptor once more, and
-- it still stands for the file of `dup2`, not for the one that was added.
pub dup2-add_collision :
    (m : OpenFileMap) (oldfd handle added : ℕ)
    → m.fd_validation_needed ≡ false
    → m.fd_idx < int_max
    → oldfd ≢ m.fd_idx
    → exist m m.fd_idx ≡ false
    → get m oldfd ≡ some handle
    → (n : OpenFileMap) × (add (dup2 m oldfd m.fd_idx).1 added ≡ some (m.fd_idx, n))
      × (get n m.fd_idx ≡ some handle)
dup2-add_collision m oldfd handle added unset small differs unused e =
    let d = record m { files = insert m.files m.fd_idx handle } in
    let free : has m.files m.fd_idx ≡ false = sym (exist-has m m.fd_idx) ∙ unused in
    let used : has d.files m.fd_idx ≡ true =
      has-insert m.files m.fd_idx handle m.fd_idx free ∙ ground arith in
    rw (dup2-next m oldfd handle differs unused e) (
      record d { files = insert d.files m.fd_idx added; fd_idx = suc m.fd_idx },
      add-trusted d added unset small,
      get-insert m _ m.fd_idx handle m.fd_idx (insert-used d m.fd_idx added used) free
          ∙ ground arith,
    )
