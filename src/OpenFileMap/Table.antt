-- ===== src/OpenFileMap/Table.antt =====
-- What the operations of the open-file map do to the table of descriptors.
use gekko_fwd.Base.{
  ℕ, ◌≡◌, refl, sym, ap, ◌∙◌, inl, inr, [], ◌∷◌, true, false, not, ◌&&◌, ◌==◌, if◌then◌else◌,
  Option, none, some, arith, Bool-cases,
}
use mathlib.Core.Option
use mathlib.Core.Bool.{true≢false}
use gekko_fwd.OpenFileMap.Defs.{
  Files, find, found, has, exist, insert, erase, OpenFileMap, get, place, add, remove, returned,
  dup, is_empty,
}
use gekko_fwd.OpenFileMap.Search.{Found, IsValid, few_open, safe-found}

find-cons :
    (k h : ℕ) (files : Files) (i : ℕ)
    → find ((k, h) ∷ files) i ≡ (if k == i then some h else find files i)
unfolding find
find-cons k h files i = refl

pub find-insert :
    (files : Files) (fd h k : ℕ)
    → has files fd ≡ false
    → find (insert files fd h) k ≡ (if k == fd then some h else find files k)
unfolding insert find
find-insert files fd h k e = rw e (ground arith)

find-erase :
    (files : Files) (fd k : ℕ) → find (erase files fd) k ≡ (if k == fd then none else find files k)
unfolding find erase
find-erase [] fd k = ground arith
find-erase ((j, h) ∷ files) fd k = elim (Bool-cases (j == fd)) [
  | inl e ↦ rw (e, find-erase files fd k) (ground arith)
  | inr e ↦ rw (e, find, find-erase files fd k) (ground arith)
]

pub has-insert :
    (files : Files) (fd h k : ℕ)
    → has files fd ≡ false
    → has (insert files fd h) k ≡ (if k == fd then true else has files k)
unfolding has
has-insert files fd h k e = rw (find-insert files fd h k e) (ground arith)

pub has-erase :
    (files : Files) (fd k : ℕ) → has (erase files fd) k ≡ (if k == fd then false else has files k)
unfolding has
has-erase files fd k = rw (find-erase files fd k) (ground arith)

-- The map with a descriptor put behind what the search found.
place-IsValid : (m n : OpenFileMap) (fd h : ℕ) → Found m (fd, n) → IsValid (place h (fd, n)).1
unfolding place
place-IsValid m n fd h f = record {
  low = omega (arith, f.low, f.next);
  high = omega (arith, f.high, f.next);
  behind = elim f.behind [
    | inl set ↦ inl set
    | inr below ↦ inr (λ k used.
        let u = rw (has-insert n.files fd h k (rw f.same f.free), f.same) at used in
        ground (arith, f.next, below k, u))
  ];
}

place-lookup :
    (m n : OpenFileMap) (fd h k : ℕ)
    → Found m (fd, n)
    → get (place h (fd, n)).1 k ≡ (if k == fd then some h else get m k)
unfolding place get
place-lookup m n fd h k f = find-insert n.files fd h k (rw f.same f.free) ∙ rw f.same refl

none-unless : (o : Option ℕ) → found o ≡ false → o ≡ none
none-unless none e = refl
none-unless (some h) e = absurd (true≢false e)

get-free : (m : OpenFileMap) (k : ℕ) → has m.files k ≡ false → get m k ≡ none
unfolding get has
get-free m k e = none-unless (find m.files k) e

-- What a call leaves that puts a handle under a new descriptor.
placed :
    (m : OpenFileMap) (handle : ℕ) (r : ℕ × OpenFileMap)
    → Found m r
    → (get m (place handle r).0 ≡ none)
      × ((k : ℕ)
          → get (place handle r).1 k ≡ (if k == (place handle r).0 then some handle else get m k))
      × IsValid (place handle r).1
unfolding place
placed m handle (fd, n) f =
    (get-free m fd f.free, λ k. place-lookup m n fd handle k f, place-IsValid m n fd handle f)

-- In a valid map with a descriptor left, `add` returns one that was not in use; it then stands for
-- the file, every other descriptor for what it stood for, and the map is valid again.
pub add_lem :
    (m : OpenFileMap) (handle : ℕ)
    → IsValid m
    → few_open m ≡ true
    → (r : ℕ × OpenFileMap) × (add m handle ≡ some r)
      × (get m r.0 ≡ none)
      × ((k : ℕ) → get r.1 k ≡ (if k == r.0 then some handle else get m k))
      × IsValid r.1
unfolding add
add_lem m handle v few =
    let (r, q, f) = safe-found m v few in
    let (free, lookup, valid) = placed m handle r f in
    (place handle r, ap (Option.map (place handle)) q, free, lookup, valid)

dup-get :
    (m : OpenFileMap) (oldfd handle : ℕ)
    → get m oldfd ≡ some handle
    → dup m oldfd ≡ Option.map (λ p. (returned p.0, p.1)) (add m handle)
unfolding dup add
dup-get m oldfd handle e = rw (dup, e) refl

-- In a valid map with a descriptor left, `dup` of one in use returns one that was not in use; it
-- then stands for the same file object, every other descriptor for what it stood for, and the map is
-- valid again.
pub dup_lem :
    (m : OpenFileMap) (oldfd handle : ℕ)
    → IsValid m
    → few_open m ≡ true
    → get m oldfd ≡ some handle
    → (r : ℕ × OpenFileMap) × (dup m oldfd ≡ some (returned r.0, r.1))
      × (get m r.0 ≡ none)
      × ((k : ℕ) → get r.1 k ≡ (if k == r.0 then some handle else get m k))
      × IsValid r.1
dup_lem m oldfd handle v few e =
    let (r, q, free, lookup, valid) = add_lem m handle v few in
    (
      r,
      dup-get m oldfd handle e ∙ ap (Option.map (λ p. (returned p.0, p.1))) q,
      free,
      lookup,
      valid,
    )

is_empty-has : (files : Files) (k : ℕ) → is_empty files ≡ true → has files k ≡ false
unfolding has find
is_empty-has [] k e = refl
is_empty-has (f ∷ files) k e = absurd (true≢false (sym e))

pub erase-IsValid :
    (m : OpenFileMap) (oldfd : ℕ)
    → IsValid m
    → IsValid (record m {
      files = erase m.files oldfd;
      fd_validation_needed = m.fd_validation_needed && not (is_empty (erase m.files oldfd));
    })
erase-IsValid m oldfd v = record {
  low = v.low;
  high = v.high;
  behind = elim v.behind [
    | inl set ↦ elim (Bool-cases (is_empty (erase m.files oldfd))) [
      | inl e ↦
          inr (λ k used. absurd (true≢false (sym used ∙ is_empty-has (erase m.files oldfd) k e)))
      | inr e ↦ inl (rw (set, e) refl)
    ]
    | inr below ↦
        inr (λ k used. let u = rw (has-erase m.files oldfd k) at used in ground (arith, below k, u))
  ];
}

pub remove-used :
    (m : OpenFileMap) (oldfd : ℕ)
    → exist m oldfd ≡ true
    → remove m oldfd ≡ (
      true,
      record m {
        files = erase m.files oldfd;
        fd_validation_needed = m.fd_validation_needed && not (is_empty (erase m.files oldfd));
      },
    )
unfolding remove
remove-used m oldfd e = rw e refl

remove-unused : (m : OpenFileMap) (oldfd : ℕ) → exist m oldfd ≡ false → remove m oldfd ≡ (false, m)
unfolding remove
remove-unused m oldfd e = rw e refl

pub get-unused :
    (m : OpenFileMap) (oldfd k : ℕ)
    → exist m oldfd ≡ false
    → get m k ≡ (if k == oldfd then none else get m k)
unfolding exist
get-unused m oldfd k e = elim (Bool-cases (k == oldfd)) [
  | inl same ↦ let at : k ≡ oldfd = ground arith in rw (same, at) (get-free m oldfd e)
  | inr other ↦ rw other refl
]

pub get-erase :
    (m n : OpenFileMap) (oldfd k : ℕ)
    → n.files ≡ erase m.files oldfd
    → get n k ≡ (if k == oldfd then none else get m k)
unfolding get
get-erase m n oldfd k e = rw e (find-erase m.files oldfd k)

-- After `remove` the descriptor is not in use and every other one stands for what it stood for; it
-- returns whether the descriptor was in use, and a valid map stays valid.
pub remove_lem :
    (m : OpenFileMap) (oldfd : ℕ)
    → IsValid m
    → ((remove m oldfd).0 ≡ exist m oldfd)
      × ((k : ℕ) → get (remove m oldfd).1 k ≡ (if k == oldfd then none else get m k))
      × IsValid (remove m oldfd).1
remove_lem m oldfd v = elim (Bool-cases (exist m oldfd)) [
  | inl e ↦
      rw (remove-used m oldfd e) (sym e, λ k. get-erase m _ oldfd k refl, erase-IsValid m oldfd v)
  | inr e ↦ rw (remove-unused m oldfd e) (sym e, λ k. get-unused m oldfd k e, v)
]
