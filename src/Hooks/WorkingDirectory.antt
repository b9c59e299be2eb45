-- ===== src/Hooks/WorkingDirectory.antt =====
-- chdir into the mount directory, in src/client/hooks.cpp and src/client/path.cpp, and what getcwd and
-- relative paths are from then on.
use gekko_fwd.Base.{
  ℕ, ◌+◌, ◌<◌, ◌≡◌, refl, sym, ap, ◌∙◌, inl, inr, [], ◌∷◌, ◌++◌, Bool, true, false, arith, ltb,
  length, Bool-cases,
}
use gekko_fwd.Decimal.{Bytes}
use gekko_fwd.Metadata.{is_dir}
use gekko_fwd.FileCalls.{Call, value, fails, throws, unfinished}
use gekko_fwd.PathUtil.{separator, is_absolute, has_trailing_slash, prepend_path}
use gekko_fwd.Preload.{Relativized, relativize_path}
use gekko_fwd.Hooks.{Host, Served, Process, Request, returns, from_cwd}
use gekko_fwd.Hooks.Directory.{
  set_cwd, set_sys_cwd, set_env_cwd, unset_env_cwd, with_code, into_directory, no_slash, hook_chdir,
  hook_getcwd,
}

is_absolute-append : (s t : Bytes) → is_absolute s ≡ true → is_absolute (s ++ t) ≡ true
unfolding is_absolute
is_absolute-append [] t h = cc
is_absolute-append (c ∷ s) t h = h

module _ {W : Type 0} (host : Host) where
  -- A change that succeeds sets the path, and leaves the mount directory.
  set_cwd-cwd :
      (path : Bytes) (internal : Bool) (p q : Process W)
      → with_code host (set_cwd host path internal p) ≡ (returns 0, q)
      → (q.cwd ≡ path) × (q.mountdir ≡ p.mountdir)
  unfolding set_cwd set_sys_cwd set_env_cwd unset_env_cwd
  set_cwd-cwd path internal p q e = ground arith

  into_directory-cwd :
      (rel_path : Bytes) (r : Call ℕ × Process W) (q : Process W)
      → into_directory host rel_path r ≡ (returns 0, q)
      → (q.cwd ≡ no_slash (r.1.mountdir ++ rel_path)) × (q.mountdir ≡ r.1.mountdir)
  into_directory-cwd rel_path (value mode, p) q e = elim (Bool-cases (is_dir mode)) [
    | inl dir ↦
        set_cwd-cwd (no_slash (p.mountdir ++ rel_path)) true p q (rw (into_directory, dir) at e)
    | inr other ↦ ground arith
  ]
  into_directory-cwd rel_path (fails x, p) q e = ground arith
  into_directory-cwd rel_path (throws, p) q e = ground arith
  into_directory-cwd rel_path (unfinished, p) q e = ground arith

  hook_chdir-cwd :
      (serve : Served W) (path : ℕ) (rel_path : Bytes) (p q : Process W)
      → from_cwd host p path true ≡ Relativized.inside rel_path
      → hook_chdir host serve path p ≡ (returns 0, q)
      → (q.cwd ≡ no_slash ((serve (Request.get_mode rel_path) p).1.mountdir ++ rel_path))
        × (q.mountdir ≡ (serve (Request.get_mode rel_path) p).1.mountdir)
  unfolding hook_chdir
  hook_chdir-cwd serve path rel_path p q inside e =
      into_directory-cwd rel_path (serve (Request.get_mode rel_path) p) q
        (rw (hook_chdir, inside) at e)

  from_cwd-prepend :
      (q : Process W) (rel abs : ℕ) (last_link : Bool)
      → is_absolute q.cwd ≡ true
      → has_trailing_slash q.cwd ≡ false
      → is_absolute (host.string_at rel) ≡ false
      → host.string_at abs ≡ q.cwd ++ separator ∷ host.string_at rel
      → from_cwd host q rel last_link ≡ from_cwd host q abs last_link
  unfolding relativize_path prepend_path
  from_cwd-prepend q rel abs last_link full plain relative joined =
      let whole = is_absolute-append q.cwd (separator ∷ host.string_at rel) full in
      simp (relativize_path, relative, whole, prepend_path, plain, joined)

  -- After a chdir into the mount directory that succeeds, with a directory of it that is absolute and
  -- ends with no separator: getcwd with a buffer that has room gives the mount directory followed
  -- by that path, and its length with the NUL; and a relative path leads where that directory
  -- followed by the path leads.
  pub hook_chdir-hook_getcwd :
      (serve : Served W) (path size rel abs : ℕ) (last_link : Bool) (rel_path dir : Bytes)
      (p q : Process W)
      → from_cwd host p path true ≡ Relativized.inside rel_path
      → (serve (Request.get_mode rel_path) p).1.mountdir ≡ p.mountdir
      → dir ≡ no_slash (p.mountdir ++ rel_path)
      → is_absolute dir ≡ true
      → has_trailing_slash dir ≡ false
      → length dir < size
      → is_absolute (host.string_at rel) ≡ false
      → host.string_at abs ≡ dir ++ separator ∷ host.string_at rel
      → hook_chdir host serve path p ≡ (returns 0, q)
      → (hook_getcwd host size q ≡ (returns (length dir + 1), dir))
        × (q.mountdir ≡ p.mountdir)
        × (from_cwd host q rel last_link ≡ from_cwd host q abs last_link)
  unfolding hook_getcwd
  hook_chdir-hook_getcwd serve path size rel abs last_link rel_path dir p q inside kept named full
        plain room relative joined ok =
      let (at, mount) = hook_chdir-cwd serve path rel_path p q inside ok in
      let here : q.cwd ≡ dir = at ∙ ap (λ (m : Bytes). no_slash (m ++ rel_path)) kept ∙ sym named in
      let fits : ltb size (length dir + 1) ≡ false = ground arith in
      (
        rw (hook_getcwd, here, fits) refl,
        mount ∙ kept,
        from_cwd-prepend q rel abs last_link (ap is_absolute here ∙ full)
            (ap has_trailing_slash here ∙ plain) relative
            (joined ∙ ap (λ (c : Bytes). c ++ separator ∷ host.string_at rel) (sym here)),
      )
