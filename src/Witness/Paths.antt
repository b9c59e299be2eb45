-- ===== src/Witness/Paths.antt =====
-- Paths, the library's descriptors and directory listings at concrete inputs.
use gekko_fwd.Base.{
  ℕ, suc, ◌<◌, ◌≡◌, ◌≢◌, refl, List, [], ◌∷◌, ◌+◌, ◌++◌, Bool, true, false, ◌==◌, if◌then◌else◌,
  none, some, arith, length,
}
use gekko_fwd.Decimal.{Bytes}
use gekko_fwd.PathUtil.{separator, split_path}
use gekko_fwd.OpenFileMap.Defs.{regular, directory}
use gekko_fwd.Resolver.{directory as dir_kind, resolve}
use gekko_fwd.Resolver.Text.{render}
use gekko_fwd.Resolver.Spec.{below, normal}
use gekko_fwd.Resolver.Canonical.{inside_or_not, resolve_lem}
use gekko_fwd.Resolver.Split.{split_path-render}
use gekko_fwd.MetaStore.Scan.{Rows}
use gekko_fwd.Preload.{find_first, Kernel, registered, register_internal_fd, is_internal_fd}
use gekko_fwd.Preload.InternalFds.{FreeAreClosed, register_internal_fd_lem}
use gekko_fwd.Dirents.{
  Listed, DirEntry, collect_dirents, tot_names_size, dirent_size, dirent64_size, gkfs_getdents64,
  gkfs_getdents,
}
use gekko_fwd.Dirents.Transfer.{hosts_reply, all_listed, collect_dirents_lem}
use gekko_fwd.Dirents.Drain.{drain, records, gkfs_getdents64-drain}

-- "mnt", "fs" and "a"
abbrev mnt : Bytes
mnt = b'm' ∷ b'n' ∷ b't' ∷ []

abbrev fs : Bytes
fs = b'f' ∷ b's' ∷ []

abbrev a : Bytes
a = b'a' ∷ []

mount_split : split_path (render (mnt ∷ fs ∷ [])) ≡ mnt ∷ fs ∷ []
mount_split =
    split_path-render mnt (fs ∷ [])
      ((ground arith, (ground arith, (ground arith, tt))), ((ground arith, (ground arith, tt)), tt))

-- "/mnt/fs"
abbrev mountdir : Bytes
mountdir = render (mnt ∷ fs ∷ [])

-- "mnt//./fs/../fs/a", behind its first separator
abbrev text : Bytes
text =
    mnt
    ++ separator ∷ separator ∷ b'.' ∷ separator ∷ fs
    ++ separator ∷ b'.' ∷ b'.' ∷ separator ∷ fs
    ++ separator ∷ a

resolve_lem_example :
    resolve (λ p. some dir_kind) (λ p. none) true mountdir (separator ∷ text)
    ≡ some (
        inside_or_not
          (below (split_path mountdir) (normal (separator ∷ text)))
          (normal (separator ∷ text)))
resolve_lem_example =
    resolve_lem (λ p. some dir_kind) (λ p. none) true mountdir (λ ps c h. refl) mnt (fs ∷ []) text
      mount_split refl refl

abbrev free : List Bool
free = false ∷ true ∷ true ∷ []

-- Descriptor 5 is open.
abbrev kernel : Kernel
kernel j = if j == 5 then some 77 else none

first_there : find_first free < length free
unfolding find_first
first_there = omega arith

register_internal_fd_lem_example :
    (next : List Bool) × (after : Kernel) × (register_internal_fd 100
        (record { internal_fds = free; internal_fds_must_relocate = true })
        kernel
        5
      ≡ (
        registered (find_first free + 100),
        record { internal_fds = next; internal_fds_must_relocate = true },
        after,
      ))
    × (kernel (find_first free + 100) ≡ none)
    × (after (find_first free + 100) ≡ some 77)
    × (after 5 ≡ none)
    × ((j : ℕ) → j ≢ 5 → j ≢ find_first free + 100 → after j ≡ kernel j)
    × ((j : ℕ)
        → is_internal_fd 100 (record { internal_fds = next; internal_fds_must_relocate = true }) j
          ≡ (if j == find_first free + 100
              then some true
              else is_internal_fd 100
                  (record { internal_fds = free; internal_fds_must_relocate = true })
                  j))
    × FreeAreClosed 100 next after
register_internal_fd_lem_example =
    register_internal_fd_lem 100 free kernel 5 77 (omega arith) refl (λ i h. ground arith)
      first_there

-- Two hosts, the second with nothing to list.
abbrev hosts : List (List Listed × Bytes)
hosts =
    ((fs, true) ∷ (a, false) ∷ [], 9 ∷ 9 ∷ 9 ∷ 9 ∷ 9 ∷ 9 ∷ 9 ∷ 9 ∷ [])
    ∷ ([], 1 ∷ 1 ∷ 1 ∷ 1 ∷ 1 ∷ 1 ∷ 1 ∷ 1 ∷ [])
    ∷ []

collect_dirents_lem_example : collect_dirents 8 (hosts_reply hosts) ≡ some (all_listed hosts)
unfolding tot_names_size
collect_dirents_lem_example = collect_dirents_lem 8 hosts (
  ((ground arith, (ground arith, tt)), ((ground arith, tt), tt)),
  refl,
  omega arith,
  (tt, refl, omega arith, tt),
)

abbrev entries : List DirEntry
entries = record { name = fs; type = directory } ∷ record { name = a; type = regular } ∷ []

abbrev hash : Bytes → ℕ
hash s = length s

gkfs_getdents64-drain_example :
    (drain hash dirent64_size mountdir
        (gkfs_getdents64 hash mountdir)
        entries
        24
        (suc (length entries))
        0
      ≡ some (records hash dirent64_size mountdir entries 0))
    × (drain hash dirent_size mountdir
          (gkfs_getdents hash mountdir)
          entries
          24
          (suc (length entries))
          0
        ≡ some (records hash dirent_size mountdir entries 0))
gkfs_getdents64-drain_example =
    gkfs_getdents64-drain hash mountdir entries 24 (omega arith, (omega arith, tt))

-- "/d", and the keys "/a", "/d/a", "/d/b/c" and "/e"
abbrev dir_d : Bytes
dir_d = separator ∷ b'd' ∷ []

abbrev key_a : Bytes
key_a = separator ∷ a

abbrev rows : Rows
rows =
    (dir_d ++ separator ∷ a, [])
    ∷ (dir_d ++ separator ∷ b'b' ∷ separator ∷ b'c' ∷ [], [])
    ∷ (separator ∷ b'e' ∷ [], [])
    ∷ []
