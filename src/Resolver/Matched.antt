-- ===== src/Resolver/Matched.antt =====
-- The counter of matched components of `resolve` (src/client/path.cpp): as many as the path has in
-- common with the mount directory, or all of the path's if it lies inside.
use gekko_fwd.Base.{
  ℕ, suc, ◌≤◌, ◌<◌, ◌≡◌, refl, ◌∙◌, List, [], ◌∷◌, ◌++◌, true, none, some, ◌==◌, ◌&&◌,
  if◌then◌else◌, arith, length, length-append, ltb, leb, get_elem?,
}
use gekko_fwd.Decimal.{Bytes}
use gekko_fwd.MetaStore.Rocks.{same}
use gekko_fwd.Resolver.{is_component}
use gekko_fwd.Resolver.Spec.{below}

abbrev pub matched : List Bytes → List Bytes → ℕ
matched [] cs = length cs
matched (x ∷ xs) [] = 0
matched (x ∷ xs) (c ∷ cs) = let rest = matched xs cs in if same c x then suc rest else 0

pub matched-le : (mnt cs : List Bytes) → matched mnt cs ≤ length cs
matched-le [] cs = omega arith
matched-le (x ∷ xs) [] = omega arith
matched-le (x ∷ xs) (c ∷ cs) = ground (arith, matched-le xs cs)

pub matched-nil : (mnt : List Bytes) → matched mnt [] ≡ 0
matched-nil [] = refl
matched-nil (x ∷ xs) = refl

-- One more component of the path.
pub matched-snoc :
    (mnt cs : List Bytes) (c : Bytes)
    → matched mnt (cs ++ c ∷ []) ≡ (
        if ltb (matched mnt cs) (length mnt)
        then (if matched mnt cs == length cs && is_component (get_elem? mnt (matched mnt cs)) c
            then suc (matched mnt cs)
            else matched mnt cs)
        else suc (matched mnt cs))
matched-snoc [] cs c = length-append cs (c ∷ []) ∙ ground arith
matched-snoc (x ∷ xs) [] c = ground (arith, matched-nil xs)
matched-snoc (x ∷ xs) (b ∷ cs) c = ground (arith, matched-snoc xs cs c)

-- One component less.
pub matched-init :
    (mnt cs : List Bytes) (c : Bytes)
    → matched mnt cs ≡ (
        if matched mnt (cs ++ c ∷ []) == suc (length cs)
        then length cs
        else matched mnt (cs ++ c ∷ []))
matched-init [] cs c = ground (arith, length-append cs (c ∷ []))
matched-init (x ∷ xs) [] c = ground (arith, matched-nil xs)
matched-init (x ∷ xs) (b ∷ cs) c = ground (arith, matched-init xs cs c)

-- The path is inside exactly when the counter has reached the mount directory's components.
pub below-matched :
    (mnt cs : List Bytes)
    → (rest : List Bytes) → below mnt cs ≡ some rest
    → leb (length mnt) (matched mnt cs) ≡ true
below-matched [] cs rest e = ground arith
below-matched (x ∷ xs) [] rest e = cc
below-matched (x ∷ xs) (c ∷ cs) rest e = ground (arith, below-matched xs cs rest)

pub below-none : (mnt cs : List Bytes) → below mnt cs ≡ none → matched mnt cs < length mnt
below-none [] cs e = cc
below-none (x ∷ xs) [] e = omega arith
below-none (x ∷ xs) (c ∷ cs) e = ground (arith, below-none xs cs)
