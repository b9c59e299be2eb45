-- ===== src/Resolver/Spec.antt =====
-- What a path stands for when no component is a link: its normal list of components.
use gekko_fwd.Base.{
  ℕ, suc, ◌≤◌, ◌≡◌, refl, sym, ap, inl, inr, List, [], ◌∷◌, ◌++◌, false, Option, none, some, ◌==◌,
  if◌then◌else◌, arith, length, Bool-cases,
}
use gekko_fwd.Decimal.{Bytes}
use gekko_fwd.Metadata.{empty}
use gekko_fwd.PathUtil.{separator, cut}
use gekko_fwd.MetaStore.Rocks.{same}
use gekko_fwd.Resolver.{skip_separators, is_dot, is_dot_dot}
use gekko_fwd.Resolver.Text.{init}

abbrev pub onto_first : ℕ → List Bytes → List Bytes
onto_first c [] = (c ∷ []) ∷ []
onto_first c (w ∷ ws) = (c ∷ w) ∷ ws

-- The text between separators, empty parts too.
abbrev pub names : Bytes → List Bytes
names [] = [] ∷ []
names (c ∷ s) = if c == separator then [] ∷ names s else onto_first c (names s)

abbrev pub visit : List Bytes → Bytes → List Bytes
visit cs name =
    if empty name
    then cs
    else if is_dot name
    then cs
    else if is_dot_dot name
    then init cs
    else cs ++ name ∷ []

abbrev pub visit_all : List Bytes → List Bytes → List Bytes
visit_all cs [] = cs
visit_all cs (name ∷ more) = visit_all (visit cs name) more

-- The components of a path, '.' and '..' carried out.
abbrev pub normal : Bytes → List Bytes
normal path = visit_all [] (names path)

-- What is behind the components of the mount directory.
abbrev pub below : List Bytes → List Bytes → Option (List Bytes)
below [] cs = some cs
below (x ∷ xs) [] = none
below (x ∷ xs) (c ∷ cs) = let rest = below xs cs in if same c x then rest else none

abbrev pub names_behind : Option Bytes → List Bytes
names_behind none = []
names_behind (some rest) = names rest

pub names-cut : (s : Bytes) → names s ≡ (cut s).0 ∷ names_behind (cut s).1
unfolding cut
names-cut [] = refl
names-cut (c ∷ s) = elim (Bool-cases (c == separator)) [
  | inl e ↦ rw e refl
  | inr ne ↦ rw (ne, names-cut s) refl
]

-- Leading separators make empty names.
pub visit_all-skip_separators :
    (cs : List Bytes) (s : Bytes)
    → visit_all cs (names (skip_separators s)) ≡ visit_all cs (names s)
unfolding skip_separators
visit_all-skip_separators cs [] = refl
visit_all-skip_separators cs (c ∷ s) = elim (Bool-cases (c == separator)) [
  | inl e ↦ rw e (visit_all-skip_separators cs s)
  | inr ne ↦
      let whole : skip_separators (c ∷ s) ≡ c ∷ s = rw ne refl in
      ap (λ t. visit_all cs (names t)) whole
]

pub skip_separators-first :
    (s : Bytes) (c : ℕ) (r : Bytes) → skip_separators s ≡ c ∷ r → (c == separator) ≡ false
unfolding skip_separators
skip_separators-first [] c r e = cc
skip_separators-first (d ∷ s) c r e = elim (Bool-cases (d == separator)) [
  | inl h ↦ skip_separators-first s c r (rw h at e)
  | inr h ↦ let first : d ≡ c = cc (rw h at e) in rw (sym first) h
]

pub length-skip_separators : (s : Bytes) → length (skip_separators s) ≤ length s
unfolding skip_separators
length-skip_separators [] = omega arith
length-skip_separators (c ∷ s) = ground (arith, length-skip_separators s)

pub length-cut : (s r : Bytes) → (cut s).1 ≡ some r → suc (length r) ≤ length s
unfolding cut
length-cut [] r e = cc
length-cut (c ∷ s) r e = elim (Bool-cases (c == separator)) [
  | inl h ↦ let whole : s ≡ r = cc (rw h at e) in rw whole (omega arith)
  | inr h ↦ omega (arith, length-cut s r (rw h at e))
]
