-- ===== src/Resolver/Lexical.antt =====
-- `resolve` of src/client/path.cpp against the normal components of the path.
use gekko_fwd.Base.{
  ℕ, suc, ◌≡◌, ◌≢◌, refl, sym, ap, ◌∙◌, ◌⊎◌, inl, inr, List, [], ◌∷◌, ◌++◌, Bool, true, false,
  Option, none, some, arith, length, length-append, ltb, Bool-cases, Option-cases,
}
use gekko_fwd.Decimal.{Bytes}
use gekko_fwd.Metadata.{empty}
use gekko_fwd.PathUtil.{separator, split_path, find_last_of, take}
use gekko_fwd.Resolver.{
  FileKind, directory, Resolving, is_dot, is_dot_dot, roll_back, add_component, onward, outside,
  next_component, turn,
}
use gekko_fwd.Resolver.Text.{
  render, HasNoSlash, render-snoc, find_last_of-append, take-append, snoc-cases, init, init-snoc,
}
use gekko_fwd.Resolver.Matched.{matched, matched-nil, matched-snoc, matched-init, below-matched}
use gekko_fwd.Resolver.Spec.{visit, below}

abbrev pub AllNoSlash : List Bytes → Type 0
AllNoSlash [] = Unit {0}
AllNoSlash (c ∷ cs) = HasNoSlash c × AllNoSlash cs

AllNoSlash-append : (cs ds : List Bytes) → AllNoSlash cs → AllNoSlash ds → AllNoSlash (cs ++ ds)
AllNoSlash-append [] ds h k = k
AllNoSlash-append (c ∷ cs) ds (h, hs) k = (h, AllNoSlash-append cs ds hs k)

AllNoSlash-left : (cs ds : List Bytes) → AllNoSlash (cs ++ ds) → AllNoSlash cs × AllNoSlash ds
AllNoSlash-left [] ds k = (tt, k)
AllNoSlash-left (c ∷ cs) ds (h, hs) = let r = AllNoSlash-left cs ds hs in ((h, r.0), r.1)

-- The loop's variables after the components `cs`.
pub record IsAt (mnt cs : List Bytes) (st : Resolving) : Type 0 where
  pub text : st.resolved ≡ render cs
  pub count : st.resolved_components ≡ length cs
  pub hits : st.matched_components ≡ matched mnt cs
  pub slash : (cs ≡ []) ⊎ (st.last_slash_pos ≡ find_last_of (render cs))
  pub plain : AllNoSlash cs

append-ne-nil : (cs : List Bytes) (c : Bytes) → cs ++ c ∷ [] ≢ []
append-ne-nil [] c e = cc
append-ne-nil (b ∷ cs) c e = cc

render-ne-nil : (cs : List Bytes) (c : Bytes) → empty (render (cs ++ c ∷ [])) ≡ false
render-ne-nil [] c = refl
render-ne-nil (b ∷ cs) c = refl

-- Where the last separator of the text is.
last_slash :
    (cs : List Bytes) (c : Bytes)
    → HasNoSlash c
    → find_last_of (render (cs ++ c ∷ [])) ≡ some (length (render cs))
last_slash cs c h = rw (render-snoc cs c) (find_last_of-append (render cs) c h)

-- '..' at the top.
roll_back-nil :
    (mnt : List Bytes) (st : Resolving)
    → IsAt mnt [] st
    → (next : Resolving) × (roll_back st ≡ some next) × IsAt mnt [] next
unfolding roll_back
roll_back-nil mnt st a = (st, ground (arith, ap empty a.text, matched-nil mnt), a)

roll_back-snoc :
    (mnt cs : List Bytes) (c : Bytes) (st : Resolving)
    → IsAt mnt (cs ++ c ∷ []) st
    → (next : Resolving) × (roll_back st ≡ some next) × IsAt mnt cs next
unfolding roll_back
roll_back-snoc mnt cs c st a =
    let named = (AllNoSlash-left cs (c ∷ []) a.plain).1.0 in
    let full : empty st.resolved ≡ false = ap empty a.text ∙ render-ne-nil cs c in
    let pos : st.last_slash_pos ≡ some (length (render cs)) = elim a.slash [
      | inl none_there ↦ absurd (append-ne-nil cs c none_there)
      | inr e ↦ e ∙ last_slash cs c named
    ] in
    let cut_off : take (length (render cs)) st.resolved ≡ render cs =
      rw (a.text, render-snoc cs c) (take-append (render cs) (separator ∷ c)) in
    let counted : st.resolved_components ≡ suc (length cs) =
      omega (arith, a.count, length-append cs (c ∷ [])) in
    (
      record {
        resolved = render cs;
        matched_components = matched mnt cs;
        resolved_components = length cs;
        last_slash_pos = find_last_of (render cs);
      },
      rw (roll_back, full, pos, cut_off) (ground (arith, counted, a.hits, matched-init mnt cs c)),
      record {
        text = refl;
        count = refl;
        hits = refl;
        slash = inr refl;
        plain = (AllNoSlash-left cs (c ∷ []) a.plain).0;
      },
    )

module _ (lstat : Bytes → Option FileKind) (realpath : Bytes → Option Bytes)
    (resolve_last_link : Bool) (mountdir : Bytes)
    (dirs : (ps : List Bytes) (c : Bytes)
      → below (split_path mountdir) ps ≡ none
      → lstat (render (ps ++ c ∷ [])) ≡ some directory) where
  abbrev pub mnt : List Bytes
  mnt = split_path mountdir

  outside_below : (cs : List Bytes) → ltb (matched mnt cs) (length mnt) ≡ true → below mnt cs ≡ none
  outside_below cs h = elim (Option-cases (below mnt cs)) [
    | inl e ↦ e
    | inr (rest, e) ↦ absurd (ground (arith, below-matched mnt cs rest e))
  ]

  next_component-IsAt :
      (cs : List Bytes) (st : Resolving) (c : Bytes) (rest : Option Bytes)
      → IsAt mnt cs st
      → HasNoSlash c
      → (next : Resolving) × (next_component lstat realpath resolve_last_link mountdir st c rest
          ≡ onward next)
        × IsAt mnt (cs ++ c ∷ []) next
  unfolding next_component outside add_component
  next_component-IsAt cs st c rest a h =
      let text : st.resolved ++ separator ∷ c ≡ render (cs ++ c ∷ []) =
        simp (a.text, render-snoc cs c) refl in
      (
        record {
          resolved = st.resolved ++ separator ∷ c;
          matched_components = matched mnt (cs ++ c ∷ []);
          resolved_components = suc st.resolved_components;
          last_slash_pos = some (length st.resolved);
        },
        elim (Bool-cases (ltb st.matched_components (length mnt))) [
          | inl out ↦
              let away = outside_below cs (rw a.hits at out) in
              let seen : lstat (st.resolved ++ separator ∷ c) ≡ some directory =
                ap lstat text ∙ dirs cs c away in
              rw (next_component, out, outside, seen)
                (ground (arith, a.hits, a.count, matched-snoc mnt cs c))
          | inr ins ↦
              rw (next_component, ins) (ground (arith, a.hits, a.count, matched-snoc mnt cs c))
        ],
        record {
          text = text;
          count = omega (arith, a.count, length-append cs (c ∷ []));
          hits = refl;
          slash = inr (rw a.text (sym (last_slash cs c h)));
          plain = AllNoSlash-append cs (c ∷ []) a.plain (h, tt);
        },
      )

  roll_back-IsAt :
      (cs : List Bytes) (st : Resolving)
      → IsAt mnt cs st
      → (next : Resolving) × (roll_back st ≡ some next) × IsAt mnt (init cs) next
  roll_back-IsAt cs st a = elim (snoc-cases cs) [
    | inl e ↦ rw e (roll_back-nil mnt st (rw e at a))
    | inr (ds, d, e) ↦ rw (e, init-snoc ds d) (roll_back-snoc mnt ds d st (rw e at a))
  ]

  pub turn-IsAt :
      (cs : List Bytes) (st : Resolving) (b : ℕ) (c : Bytes) (rest : Option Bytes)
      → IsAt mnt cs st
      → HasNoSlash (b ∷ c)
      → (next : Resolving) × (turn lstat realpath resolve_last_link mountdir st (b ∷ c) rest
          ≡ onward next)
        × IsAt mnt (visit cs (b ∷ c)) next
  unfolding turn
  turn-IsAt cs st b c rest a h = elim (Bool-cases (is_dot (b ∷ c))) [
    | inl dot ↦ rw dot (st, refl, a)
    | inr no_dot ↦ elim (Bool-cases (is_dot_dot (b ∷ c))) [
      | inl up ↦ let (next, e, n) = roll_back-IsAt cs st a in rw (no_dot, up, e) (next, refl, n)
      | inr down ↦ rw (no_dot, down) (next_component-IsAt cs st (b ∷ c) rest a h)
    ]
  ]
