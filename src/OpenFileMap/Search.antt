-- ===== src/OpenFileMap/Search.antt =====
-- The search of `safe_generate_fd_idx_` for a descriptor that is not in use.
use gekko_fwd.Base.{
  ℕ, zero, suc, ◌+◌, ◌≤◌, ◌<◌, ◌≡◌, refl, inl, inr, [], ◌∷◌, Bool, true, false, leb, ◌==◌,
  if◌then◌else◌, Option, some, arith, Bool-cases, length, sym, ◌∙◌, ap, ltb, ◌⊎◌, ◌≢◌,
}
use mathlib.Core.Bool.{true≢false}
use gekko_fwd.OpenFileMap.Defs.{
  Files, find, has, exist, OpenFileMap, int_max, generate_fd_idx, validate, safe_generate_fd_idx,
  enough,
}

-- The entries from a descriptor on.
count : Files → ℕ → ℕ
count [] i = 0
count ((k, h) ∷ files) i = (if leb i k then 1 else 0) + count files i

count-le : (files : Files) (i : ℕ) → count files i ≤ length files
unfolding count
count-le [] i = omega arith
count-le ((k, h) ∷ files) i = ground (arith, count-le files i)

count-step : (files : Files) (i : ℕ) → count files (suc i) ≤ count files i
unfolding count
count-step [] i = omega arith
count-step ((k, h) ∷ files) i = ground (arith, count-step files i)

has-cons :
    (k h : ℕ) (files : Files) (i : ℕ)
    → has ((k, h) ∷ files) i ≡ (if k == i then true else has files i)
unfolding has find
has-cons k h files i = elim (Bool-cases (k == i)) [
  | inl e ↦ rw (has, find, e) refl
  | inr e ↦ rw (has, find, e) refl
]

has-nil : (i : ℕ) → has [] i ≡ false
unfolding has find
has-nil i = refl

-- A descriptor in use counts.
count-has : (files : Files) (i : ℕ) → has files i ≡ true → suc (count files (suc i)) ≤ count files i
unfolding count
count-has [] i h = ground (arith, has-nil i)
count-has ((k, v) ∷ files) i h =
    let e = rw (has-cons k v files i) at h in
    ground (arith, e, count-has files i, count-step files i)

-- What the search finds: a descriptor that is not in use, and an index behind it.
pub record Found (m : OpenFileMap) (r : ℕ × OpenFileMap) : Type 0 where
  pub free : has m.files r.0 ≡ false
  pub same : r.1.files ≡ m.files
  pub next : r.1.fd_idx ≡ suc r.0
  pub low : 10000 ≤ r.0
  pub high : r.0 < int_max
  pub behind : (r.1.fd_validation_needed ≡ true) ⊎ ((k : ℕ) → has m.files k ≡ true → k < r.1.fd_idx)

pub record Ready (m : OpenFileMap) (fd : ℕ) : Type 0 where
  pub next : m.fd_idx ≡ suc fd
  pub low : 10000 ≤ fd
  pub high : fd < int_max
  pub flag : m.fd_validation_needed ≡ true

Found-here : (m : OpenFileMap) (fd : ℕ) → Ready m fd → exist m fd ≡ false → Found m (fd, m)
unfolding exist
Found-here m fd b free = record {
  free = free;
  same = refl;
  next = b.next;
  low = b.low;
  high = b.high;
  behind = inl b.flag;
}

generate-files : (m : OpenFileMap) → (generate_fd_idx m).1.files ≡ m.files
unfolding generate_fd_idx
generate-files m = ground arith

generate-Ready :
    (m : OpenFileMap)
    → 10000 ≤ m.fd_idx
    → m.fd_idx ≤ int_max
    → (generate_fd_idx m).1.fd_validation_needed ≡ true
    → Ready (generate_fd_idx m).1 (generate_fd_idx m).0
unfolding generate_fd_idx
generate-Ready m low high e = ground arith

-- What the search leaves, where it ends.
abbrev pub Finds : OpenFileMap → Option (ℕ × OpenFileMap) → Type 0
Finds m o = (r : ℕ × OpenFileMap) × (o ≡ some r) × Found m r

Finds-files :
    (m n : OpenFileMap) (o : Option (ℕ × OpenFileMap)) → n.files ≡ m.files → Finds n o → Finds m o
Finds-files m n o e (r, q, f) = (
  r,
  q,
  record {
    free = rw (sym e) f.free;
    same = f.same ∙ e;
    next = f.next;
    low = f.low;
    high = f.high;
    behind = rw (sym e) f.behind;
  },
)

validate-found :
    (fuel fd : ℕ) (m : OpenFileMap)
    → Ready m fd
    → exist m fd ≡ false
    → Finds m (validate fuel (fd, m))
unfolding validate
validate-found zero fd m b e = ((fd, m), rw e refl, Found-here m fd b e)
validate-found (suc fuel) fd m b e = ((fd, m), rw e refl, Found-here m fd b e)

validate-step :
    (fuel fd : ℕ) (m : OpenFileMap)
    → exist m fd ≡ true
    → validate (suc fuel) (fd, m) ≡ validate fuel (generate_fd_idx m)
unfolding validate
validate-step fuel fd m e = rw e refl

count-exist :
    (m : OpenFileMap) (fd : ℕ) → exist m fd ≡ true → suc (count m.files (suc fd)) ≤ count m.files fd
unfolding exist
count-exist m fd e = count-has m.files fd e

abbrev pub bumped : OpenFileMap → OpenFileMap
bumped m = record m { fd_idx = suc m.fd_idx }

generate-next :
    (m : OpenFileMap) (fd : ℕ)
    → m.fd_idx ≡ suc fd
    → suc fd < int_max
    → generate_fd_idx m ≡ (suc fd, bumped m)
unfolding generate_fd_idx
generate-next m fd e h = ground arith

abbrev pub wrapped : OpenFileMap → OpenFileMap
wrapped m = record m { fd_idx = 100001; fd_validation_needed = true }

generate-wrap : (m : OpenFileMap) → m.fd_idx ≡ int_max → generate_fd_idx m ≡ (100000, wrapped m)
unfolding generate_fd_idx
generate-wrap m e = rw e refl

-- Going up from `fd`, with descriptors left.
validate_up :
    (fuel fd : ℕ) (m : OpenFileMap)
    → Ready m fd
    → count m.files fd ≤ fuel
    → fd + count m.files fd < int_max
    → Finds m (validate fuel (fd, m))
validate_up zero fd m b enough_fuel few = elim (Bool-cases (exist m fd)) [
  | inl e ↦ absurd (omega (arith, count-exist m fd e))
  | inr e ↦ validate-found zero fd m b e
]
validate_up (suc fuel) fd m b enough_fuel few = elim (Bool-cases (exist m fd)) [
  | inl e ↦
      let less = count-exist m fd e in
      let up =
        validate_up fuel (suc fd) (bumped m)
          (record {
            next = ap suc b.next;
            low = omega (arith, b.low);
            high = omega arith;
            flag = b.flag;
          })
          (omega arith) (omega arith) in
      rw (validate-step fuel fd m e, generate-next m fd b.next (omega arith))
        (Finds-files m (bumped m) (validate fuel (suc fd, bumped m)) refl up)
  | inr e ↦ validate-found (suc fuel) fd m b e
]

-- Up to the largest descriptor, and then on from 100000.
validate_around :
    (fuel fd : ℕ) (m : OpenFileMap)
    → Ready m fd
    → count m.files fd + count m.files 100000 < fuel
    → 100000 + count m.files 100000 < int_max
    → Finds m (validate fuel (fd, m))
validate_around zero fd m b enough_fuel few = absurd (omega arith)
validate_around (suc fuel) fd m b enough_fuel few = elim (Bool-cases (exist m fd)) [
  | inr e ↦ validate-found (suc fuel) fd m b e
  | inl e ↦
      let less = count-exist m fd e in
      let stop = validate-step fuel fd m e in
      elim (Bool-cases (suc fd == int_max)) [
        | inl w ↦
            let start =
              validate_up fuel 100000 (wrapped m)
                (record { next = refl; low = omega arith; high = omega arith; flag = refl })
                (omega arith) few in
            rw (stop, generate-wrap m (b.next ∙ ground arith))
              (Finds-files m (wrapped m) (validate fuel (100000, wrapped m)) refl start)
        | inr w ↦
            let more : suc fd < int_max = ground (arith, b.high) in
            let up =
              validate_around fuel (suc fd) (bumped m)
                (record {
                  next = ap suc b.next;
                  low = omega (arith, b.low);
                  high = more;
                  flag = b.flag;
                })
                (omega arith) few in
            rw (stop, generate-next m fd b.next more)
              (Finds-files m (bumped m) (validate fuel (suc fd, bumped m)) refl up)
      ]
]

-- What holds of the map between calls.
pub record IsValid (m : OpenFileMap) : Type 0 where
  pub low : 10000 ≤ m.fd_idx
  pub high : m.fd_idx ≤ int_max
  -- Every descriptor in use is below the index, unless the search looks.
  pub behind : (m.fd_validation_needed ≡ true) ⊎ ((k : ℕ) → has m.files k ≡ true → k < m.fd_idx)

-- Fewer open descriptors than there are from 100000 on.
abbrev pub few_open : OpenFileMap → Bool
few_open m = ltb (length m.files) 2147383547

safe-searched :
    (m : OpenFileMap)
    → (generate_fd_idx m).1.fd_validation_needed ≡ true
    → safe_generate_fd_idx m ≡ validate (enough m) (generate_fd_idx m)
unfolding safe_generate_fd_idx
safe-searched m e = simp e refl

safe-trusted :
    (m : OpenFileMap)
    → (generate_fd_idx m).1.fd_validation_needed ≡ false
    → safe_generate_fd_idx m ≡ some (generate_fd_idx m)
unfolding safe_generate_fd_idx
safe-trusted m e = simp e refl

generate-trusted :
    (m : OpenFileMap)
    → (generate_fd_idx m).1.fd_validation_needed ≡ false
    → (generate_fd_idx m ≡ (m.fd_idx, bumped m))
      × (m.fd_validation_needed ≡ false)
      × (m.fd_idx ≢ int_max)
unfolding generate_fd_idx
generate-trusted m e = ground arith

generate-bump : (m : OpenFileMap) → m.fd_idx < int_max → generate_fd_idx m ≡ (m.fd_idx, bumped m)
unfolding generate_fd_idx
generate-bump m h = ground arith

-- No search is due: the index itself.
pub safe-bump :
    (m : OpenFileMap)
    → m.fd_validation_needed ≡ false
    → m.fd_idx < int_max
    → safe_generate_fd_idx m ≡ some (m.fd_idx, bumped m)
safe-bump m unset small = let e = generate-bump m small in safe-trusted m (rw e unset) ∙ ap some e

below-Found :
    (m : OpenFileMap)
    → IsValid m
    → m.fd_idx ≢ int_max
    → ((k : ℕ) → has m.files k ≡ true → k < m.fd_idx)
    → Found m (m.fd_idx, bumped m)
below-Found m v not_max below = record {
  free = ground (arith, below m.fd_idx);
  same = refl;
  next = refl;
  low = v.low;
  high = ground (arith, v.high);
  behind = inr (λ k used. omega (arith, below k used));
}

-- The generator always finds a descriptor.
pub safe-found :
    (m : OpenFileMap) → IsValid m → few_open m ≡ true → Finds m (safe_generate_fd_idx m)
safe-found m v few = elim (Bool-cases (generate_fd_idx m).1.fd_validation_needed) [
  | inl e ↦
      let files = generate-files m in
      let ready = generate-Ready m v.low v.high e in
      rw (safe-searched m e) (
        Finds-files m (generate_fd_idx m).1 (validate (enough m) (generate_fd_idx m)) files (
          validate_around (enough m) (generate_fd_idx m).0 (generate_fd_idx m).1 ready
            (rw files
              (ground (arith, count-le m.files (generate_fd_idx m).0, count-le m.files 100000)))
            (rw files (ground (arith, count-le m.files 100000)))))
  | inr e ↦
      let (next, unset, not_max) = generate-trusted m e in
      (
        (m.fd_idx, bumped m),
        safe-trusted m e ∙ ap some next,
        elim v.behind [
          | inl set ↦ absurd (true≢false (sym set ∙ unset))
          | inr below ↦ below-Found m v not_max below
        ],
      )
]
