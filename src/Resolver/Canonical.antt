-- ===== src/Resolver/Canonical.antt =====
-- The whole loop of `resolve` (src/client/path.cpp), and of `split_path` (src/global/path_util.cpp).
use gekko_fwd.Base.{
  ℕ, zero, suc, ◌<◌, ◌≡◌, refl, sym, ap, ◌∙◌, subst, ◌⊎◌, inl, inr, List, [], ◌∷◌, ◌++◌, Bool, true,
  false, Option, none, some, ◌==◌, arith, length, leb, Bool-cases, Option-cases, append_assoc,
}
use gekko_fwd.Decimal.{Bytes}
use gekko_fwd.PathUtil.{separator, cut, split_path, drop}
use gekko_fwd.MetaStore.Rocks.{same, same-eq}
use gekko_fwd.Resolver.{
  FileKind, directory, Resolution, internal, external, thrown, Resolving, start, skip_separators,
  onward, turn, finish, resolve_from, resolve, excluded_paths, is_excluded,
}
use gekko_fwd.Resolver.Text.{render, HasNoSlash, cut-HasNoSlash}
use gekko_fwd.Resolver.Matched.{matched-nil, below-matched, below-none}
use gekko_fwd.Resolver.Spec.{
  names, visit, visit_all, normal, below, names_behind, names-cut, visit_all-skip_separators,
  skip_separators-first, length-skip_separators, length-cut,
}
use gekko_fwd.Resolver.Lexical.{IsAt, turn-IsAt}

-- A list of components as a path.
abbrev pub as_path : List Bytes → Bytes
as_path [] = separator ∷ []
as_path (c ∷ cs) = render (c ∷ cs)

below-append : (mnt cs rest : List Bytes) → below mnt cs ≡ some rest → cs ≡ mnt ++ rest
below-append [] cs rest e = cc
below-append (x ∷ xs) [] rest e = cc
below-append (x ∷ xs) (c ∷ cs) rest e = elim (Bool-cases (same c x)) [
  | inl h ↦ rw (same-eq c x h, below-append xs cs rest (rw h at e)) refl
  | inr h ↦ cc (rw h at e)
]

render-append : (cs ds : List Bytes) → render (cs ++ ds) ≡ render cs ++ render ds
render-append [] ds = refl
render-append (c ∷ cs) ds =
    ap (◌∷◌ separator)
      (ap (◌++◌ c) (render-append cs ds) ∙ sym (append_assoc c (render cs) (render ds)))

drop_behind : (xs ys : Bytes) → drop (suc (length xs)) (xs ++ ys) ≡ drop 1 ys
drop_behind [] ys = refl
drop_behind (x ∷ xs) ys = drop_behind xs ys

erased : (cs : List Bytes) → separator ∷ drop 1 (render cs) ≡ as_path cs
erased [] = refl
erased (c ∷ cs) = refl

-- What a path is resolved to when no component is a link.
abbrev pub inside_or_not : Option (List Bytes) → List Bytes → Resolution
inside_or_not none cs = external (as_path cs)
inside_or_not (some rest) cs = internal (as_path rest)

List-cases {ℓ} : {A : Type ℓ} (xs : List A) → (xs ≡ []) ⊎ ((y : A) × (ys : List A) × (xs ≡ y ∷ ys))
List-cases [] = inl refl
List-cases (x ∷ xs) = inr (x, xs, refl)

cut-plain :
    (c : ℕ) (s : Bytes) → (c == separator) ≡ false → cut (c ∷ s) ≡ (c ∷ (cut s).0, (cut s).1)
unfolding cut
cut-plain c s h = rw h refl

finish_inside :
    (mountdir x : Bytes) (xs rest : List Bytes) (t : Bytes)
    → mountdir ≡ render (x ∷ xs)
    → t ≡ render ((x ∷ xs) ++ rest)
    → elim t as (λ _. Resolution) [ [] ↦ thrown | c ∷ s ↦ internal (c ∷ drop (length mountdir) s) ]
      ≡ internal (as_path rest)
finish_inside mountdir x xs rest t m e =
    let body : x ++ render (xs ++ rest) ≡ (x ++ render xs) ++ render rest =
      rw (render-append xs rest) (sym (append_assoc x (render xs) (render rest))) in
    rw (e, m)
      (ap internal (
        ap (λ r. separator ∷ drop (suc (length (x ++ render xs))) r) body
        ∙ ap (◌∷◌ separator) (drop_behind (x ++ render xs) (render rest))
        ∙ erased rest))

finish_outside :
    (cs : List Bytes) (t : Bytes)
    → t ≡ render cs
    → elim t as (λ _. Resolution) [ [] ↦ external (separator ∷ []) | c ∷ s ↦ external (c ∷ s) ]
      ≡ external (as_path cs)
finish_outside [] t e = rw e refl
finish_outside (c ∷ cs) t e = rw e refl

module _ (lstat : Bytes → Option FileKind) (realpath : Bytes → Option Bytes)
    (resolve_last_link : Bool) (mountdir : Bytes) where
  finish-IsAt :
      (x : Bytes) (xs cs : List Bytes) (st : Resolving)
      → split_path mountdir ≡ x ∷ xs
      → mountdir ≡ render (x ∷ xs)
      → IsAt (split_path mountdir) cs st
      → finish lstat realpath resolve_last_link mountdir st
        ≡ inside_or_not (below (split_path mountdir) cs) cs
  unfolding finish
  finish-IsAt x xs cs st parts whole a = elim (Option-cases (below (split_path mountdir) cs)) [
    | inl out ↦
        let few : leb (length (split_path mountdir)) st.matched_components ≡ false =
          ground (arith, a.hits, below-none (split_path mountdir) cs out) in
        rw (out, finish, few) (finish_outside cs st.resolved a.text)
    | inr (rest, ins) ↦
        let many : leb (length (split_path mountdir)) st.matched_components ≡ true =
          rw a.hits (below-matched (split_path mountdir) cs rest ins) in
        let split : cs ≡ (x ∷ xs) ++ rest = below-append (x ∷ xs) cs rest (rw parts at ins) in
        rw (ins, finish, many)
          (finish_inside mountdir x xs rest st.resolved whole (rw split at a.text))
  ]

  module _
      (dirs : (ps : List Bytes) (c : Bytes)
        → below (split_path mountdir) ps ≡ none
        → lstat (render (ps ++ c ∷ [])) ≡ some directory) where
    unread : Bytes → Resolving → ℕ → Option Resolution
    unread text st fuel = resolve_from lstat realpath resolve_last_link mountdir fuel text st

    round_end :
        (fuel : ℕ) (text : Bytes) (st : Resolving)
        → skip_separators text ≡ []
        → unread text st (suc fuel) ≡ some (finish lstat realpath resolve_last_link mountdir st)
    unfolding resolve_from unread
    round_end fuel text st e = rw (resolve_from, e) refl

    round_last :
        (fuel : ℕ) (text : Bytes) (st next : Resolving) (c : ℕ) (s p : Bytes)
        → skip_separators text ≡ c ∷ s
        → cut (c ∷ s) ≡ (p, none)
        → turn lstat realpath resolve_last_link mountdir st p none ≡ onward next
        → unread text st (suc fuel) ≡ some (finish lstat realpath resolve_last_link mountdir next)
    unfolding resolve_from unread
    round_last fuel text st next c s p e k t =
        let o = ap (λ (q : Bytes × Option Bytes). q.1) k in rw (resolve_from, e, k, t, o) refl

    round_more :
        (fuel : ℕ) (text : Bytes) (st next : Resolving) (c : ℕ) (s p rest : Bytes)
        → skip_separators text ≡ c ∷ s
        → cut (c ∷ s) ≡ (p, some rest)
        → turn lstat realpath resolve_last_link mountdir st p (some rest) ≡ onward next
        → unread text st (suc fuel) ≡ unread rest next fuel
    unfolding resolve_from unread
    round_more fuel text st next c s p rest e k t =
        let o = ap (λ (q : Bytes × Option Bytes). q.1) k in rw (resolve_from, e, k, t, o) refl

    visited :
        (text : Bytes) (cs : List Bytes) (c : ℕ) (s p : Bytes) (o : Option Bytes)
        → skip_separators text ≡ c ∷ s
        → cut (c ∷ s) ≡ (c ∷ p, o)
        → visit_all (visit cs (c ∷ p)) (names_behind o) ≡ visit_all cs (names text)
    visited text cs c s p o e k = sym (
        sym (visit_all-skip_separators cs text)
        ∙ ap (λ r. visit_all cs (names r)) e
        ∙ ap (visit_all cs) (names-cut (c ∷ s))
        ∙ rw k refl)

    part_plain :
        (c : ℕ) (s p : Bytes) (o : Option Bytes) → cut (c ∷ s) ≡ (c ∷ p, o) → HasNoSlash (c ∷ p)
    part_plain c s p o k =
        subst (λ (q : Bytes × Option Bytes). HasNoSlash q.0) k (cut-HasNoSlash (c ∷ s))

    go_on-IsAt :
        (fuel : ℕ) (text : Bytes) (cs : List Bytes) (st : Resolving)
        → length text < fuel
        → IsAt (split_path mountdir) cs st
        → (last : Resolving) × (resolve_from lstat realpath resolve_last_link mountdir fuel text st
            ≡ some (finish lstat realpath resolve_last_link mountdir last))
          × IsAt (split_path mountdir) (visit_all cs (names text)) last
    unfolding unread
    go_on-IsAt zero text cs st less a = absurd (omega arith)
    go_on-IsAt (suc fuel) text cs st less a = elim (List-cases (skip_separators text)) [
      | inl e ↦ (
        st,
        round_end fuel text st e,
        subst (λ ds. IsAt (split_path mountdir) ds st)
            (sym (ap (λ t. visit_all cs (names t)) e) ∙ visit_all-skip_separators cs text) a,
      )
      | inr (c, s, e) ↦
          let k : cut (c ∷ s) ≡ (c ∷ (cut s).0, (cut s).1) =
            cut-plain c s (skip_separators-first text c s e) in
          let named = part_plain c s (cut s).0 (cut s).1 k in
          elim (Option-cases (cut s).1) [
            | inl end ↦
                let k' : cut (c ∷ s) ≡ (c ∷ (cut s).0, none) =
                  k ∙ ap (λ o. (c ∷ (cut s).0, o)) end in
                let (next, t, n) =
                  turn-IsAt lstat realpath resolve_last_link mountdir dirs cs st c (cut s).0 none a
                    named in
                (
                  next,
                  round_last fuel text st next c s (c ∷ (cut s).0) e k' t,
                  subst (λ ds. IsAt (split_path mountdir) ds next)
                      (visited text cs c s (cut s).0 none e k') n,
                )
            | inr (rest, more) ↦
                let k' : cut (c ∷ s) ≡ (c ∷ (cut s).0, some rest) =
                  k ∙ ap (λ o. (c ∷ (cut s).0, o)) more in
                let (next, t, n) =
                  turn-IsAt lstat realpath resolve_last_link mountdir dirs cs st c (cut s).0
                    (some rest) a named in
                let shorter : length rest < fuel =
                  omega (arith, length-skip_separators text, ap length e, length-cut s rest more) in
                let (last, r, m) = go_on-IsAt fuel rest (visit cs (c ∷ (cut s).0)) next shorter n in
                (
                  last,
                  round_more fuel text st next c s (c ∷ (cut s).0) rest e k' t ∙ r,
                  subst (λ ds. IsAt (split_path mountdir) ds last)
                      (visited text cs c s (cut s).0 (some rest) e k') m,
                )
          ]
    ]

    start-IsAt : IsAt (split_path mountdir) [] start
    start-IsAt = record {
      text = refl;
      count = refl;
      hits = sym (matched-nil (split_path mountdir));
      slash = inl refl;
      plain = tt;
    }

    -- For a mount directory that is written as its components, at least one: where everything
    -- outside of it, and it itself, is a directory and no link, an absolute path that does not begin
    -- with /sys/ or /proc/ is resolved to its components with '.' and '..' carried out, a '..' at
    -- the top having no effect: inside exactly when they begin with the mount directory's, and then
    -- without these, whether or not a last link is followed.
    pub resolve_lem :
        (x : Bytes) (xs : List Bytes) (text : Bytes)
        → split_path mountdir ≡ x ∷ xs
        → mountdir ≡ render (x ∷ xs)
        → is_excluded excluded_paths text ≡ false
        → resolve lstat realpath resolve_last_link mountdir (separator ∷ text)
          ≡ some (
              inside_or_not
                (below (split_path mountdir) (normal (separator ∷ text)))
                (normal (separator ∷ text)))
    unfolding resolve unread
    resolve_lem x xs text parts whole plain =
        let (last, r, a) = go_on-IsAt (suc (length text)) text [] start (omega arith) start-IsAt in
        rw plain (r ∙ ap some (finish-IsAt x xs (normal (separator ∷ text)) last parts whole a))
