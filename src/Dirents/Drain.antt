-- ===== src/Dirents/Drain.antt =====
-- A directory read to its end by calls of gkfs_getdents64 and gkfs_getdents
-- (src/client/gkfs_functions.cpp).
use gekko_fwd.Base.{
  ℕ, zero, suc, ◌+◌, ◌-◌, ◌≤◌, ◌<◌, ◌≡◌, refl, sym, ap, ◌∙◌, inl, inr, subst, List, [], ◌∷◌, ◌++◌,
  true, false, Option, none, some, ◌==◌, arith, length, length-append, if◌then◌else◌, ltb, leb, ◌%◌,
  All, Bool-cases,
}
use gekko_fwd.Decimal.{Bytes}
use gekko_fwd.PathUtil.{drop}
use gekko_fwd.Resolver.Text.{drop-append}
use gekko_fwd.Dirents.{
  DirEntry, Dirent, Dents, filled, dents_failed, fill, getdents, dirent64_size, dirent_size,
  gkfs_getdents64, gkfs_getdents,
}

length-drop {ℓ} : {A : Type ℓ} (n : ℕ) (xs : List A) → length (drop n xs) ≡ length xs - n
length-drop zero xs = omega arith
length-drop (suc n) [] = omega arith
length-drop (suc n) (x ∷ xs) = omega (arith, length-drop n xs)

drop-nil {ℓ} : {A : Type ℓ} (n : ℕ) → drop {A = A} n [] ≡ []
drop-nil zero = refl
drop-nil (suc n) = refl

drop-add {ℓ} : {A : Type ℓ} (n k : ℕ) (xs : List A) → drop (n + k) xs ≡ drop k (drop n xs)
drop-add zero k xs = ap (λ (m : ℕ). drop m xs) (omega arith)
drop-add (suc n) k [] = drop-nil (suc n + k) ∙ sym (drop-nil k)
drop-add (suc n) k (x ∷ xs) =
    let one_more : suc n + k ≡ suc (n + k) = omega arith in
    ap (λ (m : ℕ). drop m (x ∷ xs)) one_more ∙ drop-add n k xs

module _ (str_hash : Bytes → ℕ) (total : Bytes → ℕ) (path : Bytes) where
  abbrev pub record_of : DirEntry → ℕ → Dirent
  record_of de pos = record {
    d_ino = str_hash (path ++ (b'/' ∷ de.name));
    d_off = suc pos;
    d_reclen = total de.name % 65536;
    d_type = de.type;
    d_name = de.name;
  }

  -- One record for each entry, each with the position behind it.
  abbrev pub records : List DirEntry → ℕ → List Dirent
  records [] pos = []
  records (de ∷ es) pos = record_of de pos ∷ records es (suc pos)

  records-append :
      (xs ys : List DirEntry) (pos : ℕ)
      → records (xs ++ ys) pos ≡ records xs pos ++ records ys (pos + length xs)
  records-append [] ys pos = ap (records ys) (omega arith)
  records-append (x ∷ xs) ys pos = ap (◌∷◌ (record_of x pos)) (
      records-append xs ys (suc pos)
      ∙ ap (λ (n : ℕ). records xs (suc pos) ++ records ys n) (omega arith))

  -- Calls from `pos` on until one returns 0: the records, or `none` where a call fails or `fuel`
  -- calls are not enough.
  unfoldable pub drain :
      (List DirEntry → ℕ → ℕ → Dents) → List DirEntry → ℕ → ℕ → ℕ → Option (List Dirent)
  drain call entries count zero pos = none
  drain call entries count (suc fuel) pos = elim (call entries pos count) [
    | dents_failed e ↦ none
    | filled written recs next ↦
        let rest = drain call entries count fuel next in
        if written == 0
        then some []
        else elim rest [ none ↦ none | some more ↦ some (recs ++ more) ]
  ]

  fill_lem :
      (es : List DirEntry) (pos count written : ℕ)
      → (taken : List DirEntry) × (left : List DirEntry) × (es ≡ taken ++ left)
        × ((fill str_hash total path es pos count written).0 ≡ records taken pos)
        × ((fill str_hash total path es pos count written).2 ≡ pos + length taken)
        × (written ≤ (fill str_hash total path es pos count written).1)
  unfolding fill
  fill_lem [] pos count written = ([], [], refl, refl, omega arith, omega arith)
  fill_lem (de ∷ es) pos count written = elim (Bool-cases (ltb (count - written) (total de.name))) [
    | inl full ↦ rw full ([], de ∷ es, refl, refl, omega arith, omega arith)
    | inr room ↦
        let (taken, left, e, r, n, w) = fill_lem es (suc pos) count (written + total de.name) in
        rw room
          (de ∷ taken, left, ap (◌∷◌ de) e, ap (◌∷◌ (record_of de pos)) r, omega arith, omega arith)
  ]

  module _ (positive : (name : Bytes) → 0 < total name) where
    -- A call at a position before the end, with room for the entry there.
    call_lem :
        (entries : List DirEntry) (pos count : ℕ) (de : DirEntry) (es : List DirEntry)
        → drop pos entries ≡ de ∷ es
        → total de.name ≤ count
        → (taken : List DirEntry) × (left : List DirEntry) × (written : ℕ) × (es ≡ taken ++ left)
          × (0 < written)
          × (getdents str_hash total path entries pos count
              ≡ filled written (records (de ∷ taken) pos) (suc pos + length taken))
    unfolding getdents fill
    call_lem entries pos count de es here fits =
        let within : leb (length entries) pos ≡ false =
          ground (arith, length-drop pos entries, ap length here) in
        let room : ltb (count - 0) (total de.name) ≡ false = ground arith in
        let (taken, left, e, r, n, w) = fill_lem es (suc pos) count (0 + total de.name) in
        let more : (fill str_hash total path es (suc pos) count (0 + total de.name)).1 == 0
            ≡ false =
          ground (arith, positive de.name) in
        (
          taken,
          left,
          (fill str_hash total path es (suc pos) count (0 + total de.name)).1,
          e,
          omega (arith, positive de.name),
          rw (getdents, within, here, fill, room, more, r, n) refl,
        )

    at_end :
        (entries : List DirEntry) (pos count : ℕ)
        → drop pos entries ≡ []
        → getdents str_hash total path entries pos count ≡ filled 0 [] pos
    unfolding getdents
    at_end entries pos count here =
        let over : leb (length entries) pos ≡ true =
          ground (arith, length-drop pos entries, ap length here) in
        rw over refl

    position :
        (entries taken left : List DirEntry) (pos : ℕ) (de : DirEntry)
        → drop pos entries ≡ de ∷ taken ++ left
        → drop (suc pos + length taken) entries ≡ left
    position entries taken left pos de here =
        let apart : suc pos + length taken ≡ pos + suc (length taken) = omega arith in
        rw apart (
          drop-add pos (suc (length taken)) entries
          ∙ ap (λ (l : List DirEntry). drop (suc (length taken)) l) here
          ∙ drop-append taken left)

    All-right :
        (count : ℕ) (xs ys : List DirEntry)
        → All (λ (de : DirEntry). total de.name ≤ count) (xs ++ ys)
        → All (λ (de : DirEntry). total de.name ≤ count) ys
    All-right count [] ys h = h
    All-right count (x ∷ xs) ys (_, h) = All-right count xs ys h

    pub drain_lem :
        (fuel : ℕ) (entries : List DirEntry) (pos count : ℕ) (es : List DirEntry)
        → drop pos entries ≡ es
        → length es < fuel
        → All (λ (de : DirEntry). total de.name ≤ count) es
        → drain (getdents str_hash total path) entries count fuel pos ≡ some (records es pos)
    unfolding drain
    drain_lem zero entries pos count es here less fit = absurd (omega arith)
    drain_lem (suc fuel) entries pos count [] here less fit =
        let ended : getdents str_hash total path entries pos count ≡ filled 0 [] pos =
          at_end entries pos count here in
        rw (drain, ended) refl
    drain_lem (suc fuel) entries pos count (de ∷ es) here less (fit, fits) =
        let (taken, left, written, e, some_written, c) =
          call_lem entries pos count de es here fit in
        let whole : drop pos entries ≡ de ∷ taken ++ left = here ∙ ap (◌∷◌ de) e in
        let shorter : length left < fuel = omega (arith, ap length e, length-append taken left) in
        let ih =
          drain_lem fuel entries (suc pos + length taken) count left
            (position entries taken left pos de whole) shorter
            (All-right count taken left (
              subst (λ (l : List DirEntry). All (λ (d : DirEntry). total d.name ≤ count) l) e
                fits)) in
        let going : (written == 0) ≡ false = ground arith in
        rw (drain, c, going, ih)
          (ap some (
            sym (
              records-append (de ∷ taken) left pos
              ∙ ap (λ (n : ℕ). records (de ∷ taken) pos ++ records left n) (omega arith))
            ∙ ap (λ (l : List DirEntry). records (de ∷ l) pos) (sym e)))

smaller :
    (entries : List DirEntry) (count : ℕ)
    → All (λ (de : DirEntry). dirent_size de.name ≤ count) entries
    → All (λ (de : DirEntry). dirent64_size de.name ≤ count) entries
smaller [] count h = tt
smaller (de ∷ entries) count (h, hs) = (omega arith, smaller entries count hs)

-- With a buffer that has room for each single entry as a linux_dirent: calls of gkfs_getdents64 from the start of the
-- directory return, one after the other, a record of every entry, once and in order, with its name,
-- type and number and the position behind it; then a call returns 0, after at most one call for each
-- entry. The same holds of gkfs_getdents.
pub gkfs_getdents64-drain :
    (str_hash : Bytes → ℕ) (path : Bytes) (entries : List DirEntry) (count : ℕ)
    → All (λ (de : DirEntry). dirent_size de.name ≤ count) entries
    → (drain str_hash dirent64_size path
          (gkfs_getdents64 str_hash path)
          entries
          count
          (suc (length entries))
          0
        ≡ some (records str_hash dirent64_size path entries 0))
      × (drain str_hash dirent_size path
            (gkfs_getdents str_hash path)
            entries
            count
            (suc (length entries))
            0
          ≡ some (records str_hash dirent_size path entries 0))
unfolding gkfs_getdents64 gkfs_getdents
gkfs_getdents64-drain str_hash path entries count fits = (
  drain_lem str_hash dirent64_size path (λ name. omega arith) (suc (length entries)) entries 0 count
      entries refl (omega arith) (smaller entries count fits),
  drain_lem str_hash dirent_size path (λ name. omega arith) (suc (length entries)) entries 0 count
      entries refl (omega arith) fits,
)
