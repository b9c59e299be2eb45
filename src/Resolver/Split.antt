-- ===== src/Resolver/Split.antt =====
-- `split_path` of src/global/path_util.cpp takes a path apart into the components it is made of.
use gekko_fwd.Base.{
  ℕ, zero, suc, ◌≤◌, ◌≡◌, refl, ap, ◌∙◌, List, [], ◌∷◌, ◌++◌, append-nil, Option, none, some, arith,
  length, length-append,
}
use gekko_fwd.Decimal.{Bytes}
use gekko_fwd.PathUtil.{separator, cut, split_from, split_path}
use gekko_fwd.Resolver.Text.{render, HasNoSlash}

-- A component has a character, and no separator.
abbrev pub IsName : Bytes → Type 0
IsName [] = ⊥
IsName (c ∷ s) = HasNoSlash (c ∷ s)

abbrev pub AllNames : List Bytes → Type 0
AllNames [] = Unit {0}
AllNames (c ∷ cs) = IsName c × AllNames cs

cut-append : (c r : Bytes) → HasNoSlash c → cut (c ++ separator ∷ r) ≡ (c, some r)
unfolding cut
cut-append [] r h = refl
cut-append (b ∷ c) r (h, hs) = rw (cut-append c r hs) (ground arith)

cut-end : (c : Bytes) → HasNoSlash c → cut c ≡ (c, none)
unfolding cut
cut-end [] h = refl
cut-end (b ∷ c) (h, hs) = rw (cut-end c hs) (ground arith)

split_from-render :
    (fuel : ℕ) (c : Bytes) (cs : List Bytes)
    → length (c ++ render cs) ≤ fuel
    → IsName c
    → AllNames cs
    → split_from fuel (c ++ render cs) ≡ c ∷ cs
unfolding split_from
split_from-render zero [] cs less h hs = elim h [ ]
split_from-render zero (b ∷ c) cs less h hs = absurd (omega arith)
split_from-render (suc fuel) [] cs less h hs = elim h [ ]
split_from-render (suc fuel) (b ∷ c) [] less h hs =
    let e : cut (b ∷ c ++ []) ≡ (b ∷ c, none) =
      ap (λ s. cut (b ∷ s)) (append-nil c) ∙ cut-end (b ∷ c) h in
    rw (split_from, e, ap (λ (q : Bytes × Option Bytes). q.0) e) refl
split_from-render (suc fuel) (b ∷ c) (d ∷ cs) less h (hd, hs) =
    let e = cut-append (b ∷ c) (d ++ render cs) h in
    rw (split_from, e, ap (λ (q : Bytes × Option Bytes). q.0) e)
      (ap (◌∷◌ (b ∷ c)) (
        split_from-render fuel d cs (omega (arith, length-append c (separator ∷ d ++ render cs))) hd
          hs))

-- A path that is written as at least one name behind a separator each, names with no separator and
-- at least one character, is split into these names.
pub split_path-render :
    (c : Bytes) (cs : List Bytes) → AllNames (c ∷ cs) → split_path (render (c ∷ cs)) ≡ c ∷ cs
unfolding split_path
split_path-render c cs (h, hs) = split_from-render (length (c ++ render cs)) c cs (omega arith) h hs
