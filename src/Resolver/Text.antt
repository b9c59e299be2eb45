-- ===== src/Resolver/Text.antt =====
-- Paths as the text of their components: src/client/path.cpp and src/global/path_util.cpp.
use gekko_fwd.Base.{
  ◌≡◌, ◌≢◌, refl, sym, ap, ◌∙◌, ◌⊎◌, inl, inr, List, [], ◌∷◌, ◌++◌, append_assoc, append-nil, none,
  some, ◌==◌, arith, length, Bool-cases,
}
use gekko_fwd.Decimal.{Bytes}
use gekko_fwd.PathUtil.{separator, cut, find_last_of, take, drop}

-- The components, each behind a separator.
abbrev pub render : List Bytes → Bytes
render [] = []
render (c ∷ cs) = separator ∷ c ++ render cs

abbrev pub HasNoSlash : Bytes → Type 0
HasNoSlash [] = Unit {0}
HasNoSlash (c ∷ s) = (c ≢ separator) × HasNoSlash s

pub render-snoc : (cs : List Bytes) (c : Bytes) → render (cs ++ c ∷ []) ≡ render cs ++ separator ∷ c
render-snoc [] c = ap (◌∷◌ separator) (append-nil c)
render-snoc (b ∷ cs) c =
    ap (◌∷◌ separator)
      (ap (◌++◌ b) (render-snoc cs c) ∙ sym (append_assoc b (render cs) (separator ∷ c)))

pub cut-HasNoSlash : (s : Bytes) → HasNoSlash (cut s).0
unfolding cut
cut-HasNoSlash [] = tt
cut-HasNoSlash (c ∷ s) = elim (Bool-cases (c == separator)) [
  | inl e ↦ rw e tt
  | inr ne ↦ rw ne (ground arith, cut-HasNoSlash s)
]

find_last_of-HasNoSlash : (c : Bytes) → HasNoSlash c → find_last_of c ≡ none
unfolding find_last_of
find_last_of-HasNoSlash [] h = refl
find_last_of-HasNoSlash (c ∷ s) (h, hs) = rw (find_last_of-HasNoSlash s hs) (ground arith)

pub find_last_of-append :
    (xs c : Bytes) → HasNoSlash c → find_last_of (xs ++ separator ∷ c) ≡ some (length xs)
unfolding find_last_of
find_last_of-append [] c h = rw (find_last_of-HasNoSlash c h) refl
find_last_of-append (x ∷ xs) c h = rw (find_last_of-append xs c h) refl

pub take-append {ℓ} : {A : Type ℓ} (xs ys : List A) → take (length xs) (xs ++ ys) ≡ xs
take-append [] ys = refl
take-append (x ∷ xs) ys = ap (◌∷◌ x) (take-append xs ys)

pub drop-append {ℓ} : {A : Type ℓ} (xs ys : List A) → drop (length xs) (xs ++ ys) ≡ ys
drop-append [] ys = refl
drop-append (x ∷ xs) ys = drop-append xs ys

-- Every list is empty, or has a last element.
pub snoc-cases {ℓ} :
    {A : Type ℓ} (xs : List A) → (xs ≡ []) ⊎ ((ys : List A) × (y : A) × (xs ≡ ys ++ y ∷ []))
snoc-cases [] = inl refl
snoc-cases (x ∷ xs) = elim (snoc-cases xs) [
  | inl e ↦ inr ([], x, rw e refl)
  | inr (ys, y, e) ↦ inr (x ∷ ys, y, rw e refl)
]

abbrev pub init {ℓ} : {A : Type ℓ} → List A → List A
init [] = []
init (x ∷ []) = []
init (x ∷ y ∷ xs) = x ∷ init (y ∷ xs)

pub init-snoc {ℓ} : {A : Type ℓ} (xs : List A) (x : A) → init (xs ++ x ∷ []) ≡ xs
init-snoc [] x = refl
init-snoc (y ∷ []) x = refl
init-snoc (y ∷ z ∷ xs) x = ap (◌∷◌ y) (init-snoc (z ∷ xs) x)
