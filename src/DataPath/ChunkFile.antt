-- ===== src/DataPath/ChunkFile.antt =====
-- The chunk files of one path on one daemon, and the calls of
-- src/daemon/backend/data/chunk_storage.cpp on them. A chunk file is what POSIX makes of it: a length
-- and bytes, with zeros where a write left a gap. How many bytes a system call moves, or its error,
-- is the environment's choice.
use gekko_fwd.Base.{
  ℕ, ◌+◌, ◌-◌, ◌%◌, max, min, ◌&&◌, Option, none, some, ltb, leb, ◌==◌, if◌then◌else◌,
}

pub record ChunkFile : Type 0 where
  pub size : ℕ
  pub byte : ℕ → ℕ

-- The chunk files of a path, by chunk id.
abbrev pub Chunks : Type 0
Chunks = ℕ → Option ChunkFile

unfoldable pub update : Chunks → ℕ → Option ChunkFile → Chunks
update chunks id file j = if j == id then file else chunks j

-- open(…, O_CREAT): an existing file, or a new one of no length.
abbrev pub opened : Option ChunkFile → ChunkFile
opened (some f) = f
opened none = record { size = 0; byte = λ i. 0 }

-- pwrite of `n` bytes of `buf` at `offset`.
unfoldable pub pwrite : ChunkFile → (ℕ → ℕ) → ℕ → ℕ → ChunkFile
pwrite f buf n offset = record {
  size = if n == 0 then f.size else max f.size (offset + n);
  byte = λ i.
      if leb offset i && ltb i (offset + n)
      then buf (i - offset)
      else if ltb i f.size
      then f.byte i
      else 0;
}

-- What the system calls on a chunk file do: the bytes that they move, or an `errno`, from opening
-- the file or later.
pub data IoResult : Type 0 where
  moved : ℕ → IoResult
  open_failed : ℕ → IoResult
  io_failed : ℕ → IoResult

-- The storage takes a chunk id as an `unsigned int`.
abbrev pub narrow : ℕ → ℕ
narrow chunk_id = chunk_id % 4294967296

-- write_chunk: the file is created if need be, also where the write fails.
unfoldable pub write_chunk : IoResult → Chunks → ℕ → (ℕ → ℕ) → ℕ → Chunks
unfolding update pwrite
write_chunk (moved n) chunks id buf offset =
    update chunks (narrow id) (some (pwrite (opened (chunks (narrow id))) buf n offset))
write_chunk (open_failed e) chunks id buf offset = chunks
write_chunk (io_failed e) chunks id buf offset =
    update chunks (narrow id) (some (opened (chunks (narrow id))))

-- read_chunk: the loop of `pread64` reads on until the size asked for or the end of the file.
-- The bytes read, or `none` where the file is missing.
unfoldable pub read_chunk : Chunks → ℕ → ℕ → ℕ → Option ℕ
read_chunk chunks id size offset = elim (chunks (narrow id)) [
  | none ↦ none
  | some f ↦ some (min size (f.size - offset))
]

-- truncate_chunk
unfoldable pub truncate_chunk : Chunks → ℕ → ℕ → Option Chunks
unfolding update
truncate_chunk chunks id length = elim (chunks id) [
  | none ↦ none
  | some f ↦ some (
      update chunks id (
        some (record {
          size = length;
          byte = λ i. if ltb i f.size && ltb i length then f.byte i else 0;
        })))
]

-- trim_chunk_space with its default end: every chunk from `chunk_start` on is removed.
unfoldable pub trim_chunk_space : Chunks → ℕ → Chunks
trim_chunk_space chunks chunk_start id = if leb chunk_start id then none else chunks id
