-- ===== src/ClientCalls.antt =====
-- Reads, writes and seeks on a descriptor: src/client/gkfs_functions.cpp. `gkfs_pwrite` and
-- `gkfs_pread` enter as their results, `none` for -1; the file's position is passed along.
use gekko_fwd.Base.{
  ℕ, suc, List, [], ◌∷◌, Bool, ◌&&◌, ltb, leb, ◌==◌, if◌then◌else◌, Option, none, some,
}
use gekko_fwd.Base.Words.{add64, sub64, sign_bit}

pub data Whence : Type 0 where
  seek_set seek_cur seek_end seek_data seek_hole unknown_whence : Whence

-- What forward_get_metadentry_size gives: whether its code is negative, and the size.
pub record SizeReply : Type 0 where
  pub negative : Bool
  pub code : ℕ
  pub file_size : ℕ

-- The new position, or -1 with `errno`.
pub data SeekResult : Type 0 where
  sought : ℕ → SeekResult
  seek_failed : ℕ → SeekResult

-- EINVAL
abbrev pub einval : ℕ
einval = 22

-- `<` on signed words, by their bit patterns.
abbrev pub signed_lt : ℕ → ℕ → Bool
signed_lt x y = ltb (add64 x sign_bit) (add64 y sign_bit)

unfoldable pub gkfs_lseek : SizeReply → ℕ → ℕ → Whence → SeekResult
gkfs_lseek reply pos offset seek_set = sought offset
gkfs_lseek reply pos offset seek_cur = sought (add64 pos offset)
gkfs_lseek reply pos offset seek_end =
    if reply.negative
    then seek_failed reply.code
    else if leb sign_bit offset && signed_lt reply.file_size (sub64 0 offset)
    then seek_failed einval
    else sought (add64 reply.file_size offset)
gkfs_lseek reply pos offset seek_data = seek_failed einval
gkfs_lseek reply pos offset seek_hole = seek_failed einval
gkfs_lseek reply pos offset unknown_whence = seek_failed einval

-- One call on a part of the vector: its index, its length and the position in the file.
pub record Part : Type 0 where
  pub index : ℕ
  pub count : ℕ
  pub pos : ℕ

-- The loop over the parts: the bytes moved, and the calls made. It ends early at an error and at a
-- call that moves less than it was asked to.
unfoldable pub vector_loop : (Part → Option ℕ) → ℕ → List ℕ → ℕ → ℕ → ℕ × List Part
vector_loop call i [] pos moved = (moved, [])
vector_loop call i (count ∷ iov) pos moved =
    let part : Part = record { index = i; count = count; pos = pos } in
    let skip = vector_loop call (suc i) iov pos moved in
    elim (call part) [
      | none ↦ if count == 0 then skip else (moved, part ∷ [])
      | some ret ↦
          let rest = vector_loop call (suc i) iov (add64 pos ret) (add64 moved ret) in
          if count == 0
          then skip
          else if ltb ret count
          then (add64 moved ret, part ∷ [])
          else (rest.0, part ∷ rest.1)
    ]

-- Nothing moved counts as a failure.
unfoldable pub gkfs_pwritev : (Part → Option ℕ) → List ℕ → ℕ → Option ℕ
gkfs_pwritev pwrite iov offset =
    let moved = (vector_loop pwrite 0 iov offset 0).0 in if moved == 0 then none else some moved

unfoldable pub gkfs_preadv : (Part → Option ℕ) → List ℕ → ℕ → Option ℕ
gkfs_preadv pread iov offset =
    let moved = (vector_loop pread 0 iov offset 0).0 in if moved == 0 then none else some moved

-- The result and the position afterwards.
abbrev pub advance : Option ℕ → ℕ → Option ℕ × ℕ
advance none pos = (none, pos)
advance (some ret) pos = (some ret, add64 pos ret)

unfoldable pub gkfs_writev : (Part → Option ℕ) → List ℕ → ℕ → Option ℕ × ℕ
gkfs_writev pwrite iov pos = advance (gkfs_pwritev pwrite iov pos) pos

unfoldable pub gkfs_readv : (Part → Option ℕ) → List ℕ → ℕ → Option ℕ × ℕ
gkfs_readv pread iov pos = advance (gkfs_preadv pread iov pos) pos

unfoldable pub gkfs_read : (ℕ → ℕ → Option ℕ) → ℕ → ℕ → Option ℕ × ℕ
gkfs_read pread count pos = advance (pread count pos) pos

-- Where a seek leaves the position.
abbrev pub after_seek : SeekResult → ℕ → ℕ
after_seek (sought there) pos = there
after_seek (seek_failed e) pos = pos

-- The write goes to the position from before the seek of an appending descriptor.
unfoldable pub gkfs_write : SizeReply → (ℕ → ℕ → Option ℕ) → Bool → ℕ → ℕ → Option ℕ × ℕ
gkfs_write reply pwrite append count pos =
    let moved_to = if append then after_seek (gkfs_lseek reply pos 0 seek_end) pos else pos in
    elim (pwrite count pos) [
      | none ↦ (none, moved_to)
      | some ret ↦ (some ret, if ltb 0 ret then add64 pos count else moved_to)
    ]
