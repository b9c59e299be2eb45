-- ===== src/Dirents.antt =====
-- A directory's entries on their way to the application: rpc_srv_get_dirents of
-- src/daemon/handler/srv_metadata.cpp, forward_get_dirents of src/client/rpc/forward_metadata.cpp,
-- src/client/open_dir.cpp, and gkfs_getdents64 and gkfs_getdents of src/client/gkfs_functions.cpp.
pub mod Transfer
pub mod Drain
use gekko_fwd.Base.{
  ℕ, zero, suc, ◌+◌, ◌-◌, ◌*◌, ◌/◌, ◌%◌, List, [], ◌∷◌, ◌++◌, Bool, true, false, not, ◌&&◌, Option,
  none, some, ◌==◌, if◌then◌else◌, length, ltb, leb,
}
use gekko_fwd.Decimal.{Bytes}
use gekko_fwd.PathUtil.{drop}
use gekko_fwd.OpenFileMap.Defs.{FileType, regular, directory}

-- An entry as the store lists it: its name, and whether it is a directory.
abbrev pub Listed : Type 0
Listed = Bytes × Bool

pub record DirEntry : Type 0 where
  pub name : Bytes
  pub type : FileType

abbrev pub type_of : ℕ → FileType
type_of b = if b == 0 then regular else directory

abbrev pub flag : Bool → ℕ
flag is_dir = if is_dir then 1 else 0

unfoldable pub flags : List Listed → Bytes
flags [] = []
flags ((name, is_dir) ∷ es) = flag is_dir ∷ flags es

-- strcpy: each name with a NUL behind it.
unfoldable pub names : List Listed → Bytes
names [] = []
names ((name, is_dir) ∷ es) = name ++ 0 ∷ names es

unfoldable pub tot_names_size : List Listed → ℕ
tot_names_size [] = 0
tot_names_size ((name, is_dir) ∷ es) = length name + tot_names_size es

pub record DirentsOut : Type 0 where
  pub err : ℕ
  pub dirents_size : ℕ

-- ENOBUFS and EBUSY
abbrev pub enobufs : ℕ
enobufs = 105

abbrev pub ebusy : ℕ
ebusy = 16

-- The reply, and the client's exposed memory afterwards. `created` and `pushed` say whether the bulk
-- handle can be made and whether the transfer succeeds; out.err is 0 from the start.
unfoldable pub srv_get_dirents : Bool → Bool → List Listed → Bytes → DirentsOut × Bytes
unfolding tot_names_size
srv_get_dirents created pushed [] region = (record { err = 0; dirents_size = 0 }, region)
srv_get_dirents created pushed (e ∷ es) region =
    let n = length (e ∷ es) in
    let out_size = tot_names_size (e ∷ es) + n * 2 in
    let buffer = flags (e ∷ es) ++ names (e ∷ es) in
    if ltb (length region) out_size
    then (record { err = enobufs; dirents_size = n }, region)
    else if not created
    then (record { err = ebusy; dirents_size = n }, region)
    else if not pushed
    then (record { err = 0; dirents_size = n }, region)
    else (record { err = 0; dirents_size = n }, buffer ++ drop out_size region)

-- std::string(names_ptr): up to a NUL; and what is behind it.
unfoldable pub c_string : Bytes → Bytes × Bytes
c_string [] = ([], [])
c_string (c ∷ s) = let rest = c_string s in if c == 0 then ([], s) else (c ∷ rest.0, rest.1)

-- The loop over the entries of one host: `bools` from bool_ptr on, `text` from names_ptr on, which is
-- `off` bytes behind the base. `none` is an assertion that fails, or a read past the region.
unfoldable pub parse_dirents : ℕ → ℕ → Bytes → Bytes → ℕ → Option (List DirEntry)
unfolding c_string
parse_dirents per_host_buff_size zero bools text off = some []
parse_dirents per_host_buff_size (suc n) [] text off = none
parse_dirents per_host_buff_size (suc n) (b ∷ bools) text off =
    if ltb 0 off && ltb off per_host_buff_size
    then (let part = c_string text in
        elim (parse_dirents per_host_buff_size n bools part.1 (off + (length part.0 + 1))) [
          | none ↦ none
          | some more ↦ some (record { name = part.0; type = type_of b } ∷ more)
        ])
    else none

-- What comes back from a host: its reply and its region, or nothing.
abbrev pub FromHost : Type 0
FromHost = Option (DirentsOut × Bytes)

-- forward_get_dirents behind the posting of its requests: the entries in the order of the hosts;
-- `none` is an exception or a failing assertion.
unfoldable pub collect_dirents : ℕ → List FromHost → Option (List DirEntry)
collect_dirents per_host_buff_size [] = some []
collect_dirents per_host_buff_size (none ∷ more) = none
collect_dirents per_host_buff_size (some (out, region) ∷ more) =
    if out.err == 0
    then elim (parse_dirents per_host_buff_size out.dirents_size region
        (drop out.dirents_size region) out.dirents_size) [
          | none ↦ none
          | some entries ↦ elim (collect_dirents per_host_buff_size more) [
            | none ↦ none
            | some rest ↦ some (entries ++ rest)
          ]
        ]
    else none

-- struct linux_dirent64
pub record Dirent : Type 0 where
  pub d_ino : ℕ
  pub d_off : ℕ
  pub d_reclen : ℕ
  pub d_type : FileType
  pub d_name : Bytes

abbrev pub aligned : ℕ → ℕ
aligned n = (n + 7) / 8 * 8

-- ALIGN(offsetof(struct linux_dirent64, d_name) + size + 1, sizeof(uint64_t))
abbrev pub dirent64_size : Bytes → ℕ
dirent64_size name = aligned (19 + length name + 1)

-- ALIGN(offsetof(struct linux_dirent, d_name) + size + 3, sizeof(long)); the last byte is the type.
abbrev pub dirent_size : Bytes → ℕ
dirent_size name = aligned (18 + length name + 3)

pub data Dents : Type 0 where
  filled : ℕ → List Dirent → ℕ → Dents
  dents_failed : ℕ → Dents

module _ (str_hash : Bytes → ℕ) (total : Bytes → ℕ) (path : Bytes) where
  -- The loop: the records, their size and the position behind them. d_reclen is an unsigned short.
  unfoldable pub fill : List DirEntry → ℕ → ℕ → ℕ → List Dirent × ℕ × ℕ
  fill [] pos count written = ([], written, pos)
  fill (de ∷ es) pos count written =
      let total_size = total de.name in
      let rest = fill es (suc pos) count (written + total_size) in
      if ltb (count - written) total_size then ([], written, pos) else (
        record {
          d_ino = str_hash (path ++ (b'/' ∷ de.name));
          d_off = suc pos;
          d_reclen = total_size % 65536;
          d_type = de.type;
          d_name = de.name;
        }
            ∷ rest.0,
        rest.1,
        rest.2,
      )

  -- The bytes written, the records and the new position; EINVAL is 22.
  unfoldable pub getdents : List DirEntry → ℕ → ℕ → Dents
  unfolding fill
  getdents entries pos count =
      if leb (length entries) pos
      then filled 0 [] pos
      else (let out = fill (drop pos entries) pos count 0 in
          if out.1 == 0 then dents_failed 22 else filled out.1 out.0 out.2)

unfoldable pub gkfs_getdents64 : (Bytes → ℕ) → Bytes → List DirEntry → ℕ → ℕ → Dents
unfolding getdents
gkfs_getdents64 str_hash path entries pos count =
    getdents str_hash dirent64_size path entries pos count

unfoldable pub gkfs_getdents : (Bytes → ℕ) → Bytes → List DirEntry → ℕ → ℕ → Dents
unfolding getdents
gkfs_getdents str_hash path entries pos count = getdents str_hash dirent_size path entries pos count
