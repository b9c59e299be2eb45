-- ===== src/Dirents/Transfer.antt =====
-- The entries that a daemon sends are the entries that the client lists: rpc_srv_get_dirents of
-- src/daemon/handler/srv_metadata.cpp and forward_get_dirents of
-- src/client/rpc/forward_metadata.cpp.
use gekko_fwd.Base.{
  ℕ, suc, ◌+◌, ◌*◌, ◌≤◌, ◌<◌, ◌≡◌, ◌≢◌, refl, sym, ap, ◌∙◌, List, [], ◌∷◌, ◌++◌, append_assoc, map,
  Bool, true, false, some, arith, length, length-append, if◌then◌else◌, ltb,
}
use gekko_fwd.Decimal.{Bytes}
use gekko_fwd.PathUtil.{drop}
use gekko_fwd.Resolver.Text.{drop-append}
use gekko_fwd.OpenFileMap.Defs.{regular, directory}
use gekko_fwd.Dirents.{
  Listed, DirEntry, flags, names, tot_names_size, srv_get_dirents, c_string, parse_dirents,
  FromHost, collect_dirents, type_of, flag,
}

-- A name of a C string.
abbrev pub HasNoNul : Bytes → Type 0
HasNoNul [] = Unit {0}
HasNoNul (c ∷ s) = (c ≢ 0) × HasNoNul s

abbrev pub AllPlain : List Listed → Type 0
AllPlain [] = Unit {0}
AllPlain ((name, is_dir) ∷ es) = HasNoNul name × AllPlain es

abbrev pub listed : Listed → DirEntry
listed (name, is_dir) = record { name = name; type = if is_dir then directory else regular }

c_string-append : (name rest : Bytes) → HasNoNul name → c_string (name ++ 0 ∷ rest) ≡ (name, rest)
unfolding c_string
c_string-append [] rest h = refl
c_string-append (c ∷ name) rest (h, hs) = rw (c_string-append name rest hs) (ground arith)

type_of-flag : (is_dir : Bool) → type_of (flag is_dir) ≡ (if is_dir then directory else regular)
type_of-flag true = refl
type_of-flag false = refl

parse_dirents-flags :
    (es : List Listed) (per_host off : ℕ) (more_flags more_names : Bytes)
    → AllPlain es
    → 0 < off
    → off + length (names es) ≤ per_host
    → parse_dirents per_host (length es) (flags es ++ more_flags) (names es ++ more_names) off
      ≡ some (map listed es)
unfolding parse_dirents flags names
parse_dirents-flags [] per_host off more_flags more_names plain low fits = refl
parse_dirents-flags ((name, is_dir) ∷ es) per_host off more_flags more_names (plain, rest) low
      fits =
    let whole : length (name ++ 0 ∷ names es) ≡ length name + suc (length (names es)) =
      length-append name (0 ∷ names es) in
    let cut : c_string ((name ++ 0 ∷ names es) ++ more_names) ≡ (name, names es ++ more_names) =
      ap c_string (append_assoc name (0 ∷ names es) more_names)
      ∙ c_string-append name (names es ++ more_names) plain in
    let ih =
      parse_dirents-flags es per_host (off + (length name + 1)) more_flags more_names rest
        (omega arith) (omega (arith, whole)) in
    let name_is = ap (λ (p : Bytes × Bytes). p.0) cut in
    let text_is = ap (λ (p : Bytes × Bytes). p.1) cut in
    let above : ltb 0 off ≡ true = ground arith in
    let below : ltb off per_host ≡ true = ground (arith, whole) in
    rw (above, below, name_is, text_is, ih, type_of-flag is_dir)
      (ap (λ (n : Bytes). some (listed (n, is_dir) ∷ map listed es)) name_is)

length-flags : (es : List Listed) → length (flags es) ≡ length es
unfolding flags
length-flags [] = refl
length-flags (e ∷ es) = ap suc (length-flags es)

length-names : (es : List Listed) → length (names es) ≡ tot_names_size es + length es
unfolding names tot_names_size
length-names [] = omega arith
length-names ((name, is_dir) ∷ es) =
    omega (arith, length-append name (0 ∷ names es), length-names es)

-- What a host sends, with nothing failing on its side: its reply and the region.
abbrev pub served : List Listed → Bytes → FromHost
served es region = some (srv_get_dirents true true es region)

abbrev pub hosts_reply : List (List Listed × Bytes) → List FromHost
hosts_reply [] = []
hosts_reply ((es, region) ∷ more) = served es region ∷ hosts_reply more

abbrev pub all_listed : List (List Listed × Bytes) → List DirEntry
all_listed [] = []
all_listed ((es, region) ∷ more) = map listed es ++ all_listed more

-- The names have no NUL, and the region of a host takes what it sends.
abbrev pub AllFit : ℕ → List (List Listed × Bytes) → Type 0
AllFit per_host [] = Unit {0}
AllFit per_host ((es, region) ∷ more) =
    AllPlain es
    × (length region ≡ per_host)
    × (tot_names_size es + length es * 2 ≤ per_host)
    × AllFit per_host more

layout_parsed :
    (es : List Listed) (rest : Bytes) (per_host : ℕ)
    → AllPlain es
    → 0 < length es
    → tot_names_size es + length es * 2 ≤ per_host
    → parse_dirents per_host
        (length es)
        ((flags es ++ names es) ++ rest)
        (drop (length es) ((flags es ++ names es) ++ rest))
        (length es)
      ≡ some (map listed es)
layout_parsed es rest per_host plain some_there fits =
    let behind : drop (length es) (flags es ++ (names es ++ rest)) ≡ names es ++ rest =
      ap (λ (n : ℕ). drop n (flags es ++ (names es ++ rest))) (sym (length-flags es))
      ∙ drop-append (flags es) (names es ++ rest) in
    rw (append_assoc (flags es) (names es) rest, behind)
      (parse_dirents-flags es per_host (length es) (names es ++ rest) rest plain some_there
        (omega (arith, length-names es)))

parse-served :
    (es : List Listed) (region : Bytes) (per_host : ℕ)
    → AllPlain es
    → length region ≡ per_host
    → tot_names_size es + length es * 2 ≤ per_host
    → ((srv_get_dirents true true es region).0 ≡ record { err = 0; dirents_size = length es })
      × (parse_dirents per_host
            (length es)
            (srv_get_dirents true true es region).1
            (drop (length es) (srv_get_dirents true true es region).1)
            (length es)
          ≡ some (map listed es))
unfolding srv_get_dirents parse_dirents
parse-served [] region per_host plain whole fits = (refl, refl)
parse-served (e ∷ es) region per_host plain whole fits =
    let room : ltb (length region) (tot_names_size (e ∷ es) + suc (length es) * 2) ≡ false =
      ground arith in
    rw room (
      refl,
      layout_parsed (e ∷ es) (drop (tot_names_size (e ∷ es) + suc (length es) * 2) region) per_host
          plain (omega arith) fits,
    )

-- With names that have no NUL and regions that take what is sent: if every host answers and nothing
-- fails on its side, the client lists the entries of all hosts, in the order of the hosts and of
-- their stores, with the same names and types, whatever the regions held before.
pub collect_dirents_lem :
    (per_host : ℕ) (hosts : List (List Listed × Bytes))
    → AllFit per_host hosts
    → collect_dirents per_host (hosts_reply hosts) ≡ some (all_listed hosts)
unfolding collect_dirents
collect_dirents_lem per_host [] fits = refl
collect_dirents_lem per_host ((es, region) ∷ more) (plain, whole, room, rest) =
    let (out, parsed) = parse-served es region per_host plain whole room in
    rw (collect_dirents, out, parsed, collect_dirents_lem per_host more rest) refl
