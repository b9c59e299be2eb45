-- ===== src/Preload/Protection.antt =====
-- protect_user_fds and unprotect_user_fds of src/client/preload_context.cpp, which keep the
-- application's descriptors occupied while the library starts.
use gekko_fwd.Base.{
  ℕ, zero, suc, ◌+◌, ◌-◌, ◌≤◌, ◌<◌, ◌≡◌, refl, ◌∙◌, List, [], ◌∷◌, Bool, true, false, not, ◌&&◌,
  ◌||◌, Option, none, some, ◌==◌, if◌then◌else◌, arith, length, get_elem?, ltb, leb, Bool-cases,
  Option-cases, inl, inr,
}
use gekko_fwd.Preload.{set_bit, Kernel, dup3, closed}
use gekko_fwd.Preload.InternalFds.{set_bit_total, get_elem?-set_bit, length-set_bit}

abbrev pub is_open : Option ℕ → Bool
is_open none = false
is_open (some file) = true

-- protected_fds_ and the kernel's descriptors.
pub record Fds : Type 0 where
  pub protected_fds : List Bool
  pub table : Kernel

-- The loop over the application's descriptors, from `fd` on for the rounds that are left; `none` is
-- out_of_range.
unfoldable pub occupy : ℕ → ℕ → ℕ → Fds → Option Fds
occupy zero nullfd fd s = some s
occupy (suc rounds) nullfd fd s = elim (is_open (s.table fd)) [
  | true ↦ occupy rounds nullfd (suc fd) s
  | false ↦ elim (set_bit s.protected_fds fd true) [
    | none ↦ none
    | some bits ↦
        occupy rounds nullfd (suc fd)
          (record { protected_fds = bits; table = dup3 s.table nullfd fd })
  ]
]

-- `nullfd` is the descriptor that the open of /dev/null takes, and `null` what it refers to.
unfoldable pub protect_user_fds : ℕ → ℕ → ℕ → Fds → Option Fds
unfolding occupy
protect_user_fds max_user_fds nullfd null s = elim (set_bit s.protected_fds nullfd true) [
  | none ↦ none
  | some bits ↦
      occupy max_user_fds nullfd 0
        (record { protected_fds = bits; table = λ j. if j == nullfd then some null else s.table j })
]

-- The loop over the bits. A close that fails is logged, and the bits stay.
unfoldable pub release : List Bool → ℕ → Kernel → Kernel
release [] fd table = table
release (b ∷ bits) fd table = release bits (suc fd) (if b then closed table fd else table)

unfoldable pub unprotect_user_fds : Fds → Fds
unfolding release
unprotect_user_fds s = record s { table = release s.protected_fds 0 s.table }

-- Whether a descriptor is in the range of the loop and free in a table.
abbrev taken : ℕ → ℕ → Kernel → ℕ → Bool
taken fd rounds table j = leb fd j && (ltb j (fd + rounds) && not (is_open (table j)))

module _ (table : Kernel) (nullfd fd rounds j : ℕ) (null : is_open (table nullfd) ≡ true)
    (free : is_open (table fd) ≡ false) where
  taken_next :
      taken fd (suc rounds) table j ≡ (j == fd || taken (suc fd) rounds (dup3 table nullfd fd) j)
  unfolding dup3
  taken_next = elim (Bool-cases (j == fd)) [ inl here ↦ ground arith | inr away ↦ ground arith ]

  occupied_table :
      (if taken (suc fd) rounds (dup3 table nullfd fd) j
        then dup3 table nullfd fd nullfd
        else dup3 table nullfd fd j)
      ≡ (if taken fd (suc rounds) table j then table nullfd else table j)
  unfolding dup3
  occupied_table = ground (arith, taken_next)

  occupied_bits :
      (bits next : List Bool)
      → get_elem? next j ≡ (if j == fd then some true else get_elem? bits j)
      → (if taken (suc fd) rounds (dup3 table nullfd fd) j then some true else get_elem? next j)
        ≡ (if taken fd (suc rounds) table j then some true else get_elem? bits j)
  occupied_bits bits next h = ground (arith, taken_next)

occupy_lem :
    (rounds nullfd fd : ℕ) (s : Fds)
    → is_open (s.table nullfd) ≡ true
    → fd + rounds ≤ length s.protected_fds
    → (t : Fds) × (occupy rounds nullfd fd s ≡ some t)
      × ((j : ℕ) → t.table j ≡ (if taken fd rounds s.table j then s.table nullfd else s.table j))
      × ((j : ℕ)
          → get_elem? t.protected_fds j
            ≡ (if taken fd rounds s.table j then some true else get_elem? s.protected_fds j))
unfolding occupy dup3
occupy_lem zero nullfd fd s null fits = (s, refl, λ j. ground arith, λ j. ground arith)
occupy_lem (suc rounds) nullfd fd s null fits = elim (Bool-cases (is_open (s.table fd))) [
  | inl there ↦
      let (t, run, files, bits) = occupy_lem rounds nullfd (suc fd) s null (omega arith) in
      (t, rw (occupy, there) run, λ j. ground (arith, files j), λ j. ground (arith, bits j))
  | inr free ↦
      let (next, e) = set_bit_total s.protected_fds fd true (omega arith) in
      let n : Fds = record { protected_fds = next; table = dup3 s.table nullfd fd } in
      let long = length-set_bit s.protected_fds next fd true e in
      let (t, run, files, bits) =
        occupy_lem rounds nullfd (suc fd) n (ground arith) (omega (arith, long)) in
      (
        t,
        rw (occupy, free, e) run,
        λ j. files j ∙ occupied_table s.table nullfd fd rounds j null free,
        λ j.
            bits j
            ∙ occupied_bits s.table nullfd fd rounds j null free s.protected_fds next
                (get_elem?-set_bit s.protected_fds next fd j true e),
      )
]

abbrev pub marked : Option Bool → Bool
marked none = false
marked (some b) = b

release_lem :
    (bits : List Bool) (fd j : ℕ) (table : Kernel)
    → release bits fd table j
      ≡ (if leb fd j && marked (get_elem? bits (j - fd)) then none else table j)
unfolding release closed
release_lem [] fd j table = ground arith
release_lem (b ∷ bits) fd j table =
    let rest = release_lem bits (suc fd) j (if b then closed table fd else table) in
    elim (Bool-cases (ltb fd j)) [
      | inl above ↦ let e : j - fd ≡ suc (j - suc fd) = ground arith in rw e (rest ∙ ground arith)
      | inr not_above ↦ elim (Bool-cases (j == fd)) [
        | inl here ↦ let e : j - fd ≡ 0 = ground arith in rw e (rest ∙ ground arith)
        | inr below ↦ rest ∙ ground arith
      ]
    ]

release_start :
    (bits : List Bool) (j : ℕ) (table : Kernel)
    → release bits 0 table j ≡ (if marked (get_elem? bits j) then none else table j)
release_start bits j table =
    let e : j - 0 ≡ j = omega arith in release_lem bits 0 j table ∙ rw e (ground arith)

-- The kernel's descriptors with /dev/null at one of them.
abbrev with_null : ℕ → ℕ → Kernel → Kernel
with_null nullfd null table j = if j == nullfd then some null else table j

module _ (max_user_fds nullfd null j : ℕ) (table : Kernel) (file : Option ℕ)
    (files : file ≡ (
      if taken 0 max_user_fds (with_null nullfd null table) j
      then with_null nullfd null table nullfd
      else with_null nullfd null table j)) where
  all_open : j < max_user_fds → is_open file ≡ true
  all_open small = ground arith

  open_kept : table nullfd ≡ none → is_open (table j) ≡ true → file ≡ table j
  open_kept free there = elim (Bool-cases (j == nullfd)) [
    | inl here ↦ let same : j ≡ nullfd = ground arith in cc (rw same at there)
    | inr away ↦ ground arith
  ]

  closed_again :
      (bits : Option Bool) (last next : Option Bool)
      → table nullfd ≡ none
      → marked bits ≡ false
      → next ≡ (if j == nullfd then some true else bits)
      → last ≡ (if taken 0 max_user_fds (with_null nullfd null table) j then some true else next)
      → (if marked last then none else file) ≡ table j
  closed_again bits last next free unset n l = elim (Bool-cases (j == nullfd)) [
    | inl here ↦
        let same : j ≡ nullfd = ground arith in
        let e : table j ≡ none = rw same free in ground arith
    | inr away ↦ elim (Option-cases (table j)) [ inl e ↦ ground arith | inr (at, e) ↦ ground arith ]
  ]

-- Where no descriptor is protected yet and a descriptor of the application's is free: while they are
-- protected, all of the application's descriptors are open, and each that was open refers to what
-- it did; and when they are not any more, every descriptor of the process refers to what it did before.
pub unprotect_user_fds-protect_user_fds :
    (max_user_fds nullfd null : ℕ) (bits : List Bool) (table : Kernel)
    → length bits ≡ max_user_fds
    → ((j : ℕ) → marked (get_elem? bits j) ≡ false)
    → nullfd < max_user_fds
    → table nullfd ≡ none
    → (t : Fds) × (protect_user_fds max_user_fds nullfd null
          (record { protected_fds = bits; table = table })
        ≡ some t)
      × ((j : ℕ) → j < max_user_fds → is_open (t.table j) ≡ true)
      × ((j : ℕ) → is_open (table j) ≡ true → t.table j ≡ table j)
      × ((j : ℕ) → (unprotect_user_fds t).table j ≡ table j)
unfolding protect_user_fds unprotect_user_fds
unprotect_user_fds-protect_user_fds max_user_fds nullfd null bits table long unset low free =
    let (next, e) = set_bit_total bits nullfd true (omega arith) in
    let opened = with_null nullfd null table in
    let size = length-set_bit bits next nullfd true e in
    let (t, run, files, bits_after) =
      occupy_lem max_user_fds nullfd 0 (record { protected_fds = next; table = opened })
        (ground arith) (omega (arith, size)) in
    (
      t,
      rw (protect_user_fds, e) run,
      λ j small. all_open max_user_fds nullfd null j table (t.table j) (files j) small,
      λ j there. open_kept max_user_fds nullfd null j table (t.table j) (files j) free there,
      λ j.
          release_start t.protected_fds j t.table
          ∙ closed_again max_user_fds nullfd null j table (t.table j) (files j) (get_elem? bits j)
              (get_elem? t.protected_fds j) (get_elem? next j) free (unset j)
              (get_elem?-set_bit bits next nullfd j true e) (bits_after j),
    )
