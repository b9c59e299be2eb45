-- ===== src/Preload/InternalFds.antt =====
-- The descriptors that src/client/preload_context.cpp keeps for itself.
use gekko_fwd.Base.{
  ℕ, zero, suc, ◌+◌, ◌-◌, ◌≤◌, ◌<◌, ◌≡◌, ◌≢◌, refl, sym, ap, inl, inr, List, [], ◌∷◌, Bool, true,
  false, none, some, ◌==◌, if◌then◌else◌, arith, length, get_elem?, ltb, Bool-cases, Option-cases,
  subst,
}
use gekko_fwd.Preload.{
  find_first, set_bit, Kernel, dup3, closed, registered, register_internal_fd, is_internal_fd,
}

find_first-le : (bits : List Bool) → find_first bits ≤ length bits
unfolding find_first
find_first-le [] = omega arith
find_first-le (b ∷ bits) = ground (arith, find_first-le bits)

get_elem?-find_first :
    (bits : List Bool)
    → find_first bits < length bits
    → get_elem? bits (find_first bits) ≡ some true
unfolding find_first
get_elem?-find_first [] h = absurd (omega arith)
get_elem?-find_first (true ∷ bits) h = refl
get_elem?-find_first (false ∷ bits) h = get_elem?-find_first bits (omega arith)

pub set_bit_total :
    (bits : List Bool) (pos : ℕ) (b : Bool)
    → pos < length bits
    → (next : List Bool) × (set_bit bits pos b ≡ some next)
unfolding set_bit
set_bit_total [] pos b h = absurd (omega arith)
set_bit_total (c ∷ bits) zero b h = (b ∷ bits, refl)
set_bit_total (c ∷ bits) (suc pos) b h =
    let (rest, e) = set_bit_total bits pos b (omega arith) in (c ∷ rest, rw (set_bit, e) refl)

at_zero :
    (c b : Bool) (bits : List Bool) (j : ℕ)
    → get_elem? (b ∷ bits) j ≡ (if j == 0 then some b else get_elem? (c ∷ bits) j)
at_zero c b bits zero = refl
at_zero c b bits (suc j) = ground arith

at_suc :
    (c b : Bool) (bits rest : List Bool) (pos j : ℕ)
    → ((i : ℕ) → get_elem? rest i ≡ (if i == pos then some b else get_elem? bits i))
    → get_elem? (c ∷ rest) j ≡ (if j == suc pos then some b else get_elem? (c ∷ bits) j)
at_suc c b bits rest pos zero h = ground arith
at_suc c b bits rest pos (suc j) h = ground (arith, h j)

pub get_elem?-set_bit :
    (bits next : List Bool) (pos j : ℕ) (b : Bool)
    → set_bit bits pos b ≡ some next
    → get_elem? next j ≡ (if j == pos then some b else get_elem? bits j)
unfolding set_bit
get_elem?-set_bit [] next pos j b e = cc
get_elem?-set_bit (c ∷ bits) next zero j b e =
    let q : b ∷ bits ≡ next = cc e in
    subst (λ n. get_elem? n j ≡ (if j == 0 then some b else get_elem? (c ∷ bits) j)) q
      (at_zero c b bits j)
get_elem?-set_bit (c ∷ bits) next (suc pos) j b e = elim (Option-cases (set_bit bits pos b)) [
  | inl r ↦ cc (rw (set_bit, r) at e)
  | inr (rest, r) ↦
      let q : c ∷ rest ≡ next = cc (rw (set_bit, r) at e) in
      subst (λ n. get_elem? n j ≡ (if j == suc pos then some b else get_elem? (c ∷ bits) j)) q
        (at_suc c b bits rest pos j (λ i. get_elem?-set_bit bits rest pos i b r))
]

pub length-set_bit :
    (bits next : List Bool) (pos : ℕ) (b : Bool)
    → set_bit bits pos b ≡ some next
    → length next ≡ length bits
unfolding set_bit
length-set_bit [] next pos b e = cc
length-set_bit (c ∷ bits) next zero b e = let q : b ∷ bits ≡ next = cc e in rw (sym q) refl
length-set_bit (c ∷ bits) next (suc pos) b e = elim (Option-cases (set_bit bits pos b)) [
  | inl r ↦ cc (rw (set_bit, r) at e)
  | inr (rest, r) ↦
      let q : c ∷ rest ≡ next = cc (rw (set_bit, r) at e) in
      rw (sym q) (ap suc (length-set_bit bits rest pos b r))
]

-- The kernel has nothing at the descriptors that are marked as free.
abbrev pub FreeAreClosed : ℕ → List Bool → Kernel → Type 0
FreeAreClosed min_internal_fd bits kernel =
    (i : ℕ) → get_elem? bits i ≡ some true → kernel (i + min_internal_fd) ≡ none

internal_now :
    (min_internal_fd : ℕ) (bits next : List Bool) (pos j : ℕ)
    → ((i : ℕ) → get_elem? next i ≡ (if i == pos then some false else get_elem? bits i))
    → is_internal_fd min_internal_fd
        (record { internal_fds = next; internal_fds_must_relocate = true })
        j
      ≡ (if j == pos + min_internal_fd
          then some true
          else is_internal_fd min_internal_fd
              (record { internal_fds = bits; internal_fds_must_relocate = true })
              j)
unfolding is_internal_fd
internal_now min_internal_fd bits next pos j h = elim (Bool-cases (ltb j min_internal_fd)) [
  | inl low ↦ rw low (ground arith)
  | inr high ↦ elim (Bool-cases (j == pos + min_internal_fd)) [
    | inl here ↦
        let at : j - min_internal_fd ≡ pos = ground arith in
        rw (high, here, at, h pos) (ground arith)
    | inr away ↦
        let off : (j - min_internal_fd == pos) ≡ false = ground arith in
        rw (high, away, h (j - min_internal_fd), off) refl
  ]
]

-- Where descriptors are to be relocated, for one below the internal range that is open as `file`, with
-- an internal one free and the free ones not in use: registering it moves it to the first free
-- internal descriptor, which was not in use; that one is then internal and refers to `file`, and the
-- old one is closed; no other descriptor changes what it refers to or whether it is internal; and
-- the free ones are still not in use.
pub register_internal_fd_lem :
    (min_internal_fd : ℕ) (bits : List Bool) (kernel : Kernel) (fd file : ℕ)
    → fd < min_internal_fd
    → kernel fd ≡ some file
    → FreeAreClosed min_internal_fd bits kernel
    → find_first bits < length bits
    → (next : List Bool) × (after : Kernel) × (register_internal_fd min_internal_fd
          (record { internal_fds = bits; internal_fds_must_relocate = true })
          kernel
          fd
        ≡ (
          registered (find_first bits + min_internal_fd),
          record { internal_fds = next; internal_fds_must_relocate = true },
          after,
        ))
      × (kernel (find_first bits + min_internal_fd) ≡ none)
      × (after (find_first bits + min_internal_fd) ≡ some file)
      × (after fd ≡ none)
      × ((j : ℕ) → j ≢ fd → j ≢ find_first bits + min_internal_fd → after j ≡ kernel j)
      × ((j : ℕ)
          → is_internal_fd min_internal_fd
              (record { internal_fds = next; internal_fds_must_relocate = true })
              j
            ≡ (if j == find_first bits + min_internal_fd
                then some true
                else is_internal_fd min_internal_fd
                    (record { internal_fds = bits; internal_fds_must_relocate = true })
                    j))
      × FreeAreClosed min_internal_fd next after
unfolding register_internal_fd is_internal_fd dup3 closed
register_internal_fd_lem min_internal_fd bits kernel fd file low there free some_free =
    let pos = find_first bits in
    let (next, e) = set_bit_total bits pos false some_free in
    let open_at = get_elem?-find_first bits some_free in
    (
      next,
      closed (dup3 kernel fd (pos + min_internal_fd)) fd,
      rw (register_internal_fd, e) (ground arith),
      free pos open_at,
      ground arith,
      ground arith,
      λ j a b. ground arith,
      λ j.
          internal_now min_internal_fd bits next pos j
            (λ i. get_elem?-set_bit bits next pos i false e),
      λ i h. ground (arith, get_elem?-set_bit bits next pos i false e, free i, h),
    )
