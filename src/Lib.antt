-- ===== src/Lib.antt =====
-- GekkoFS: a distributed file system in user space. A client library, preloaded into applications,
-- intercepts their system calls; daemons keep metadata in a key-value store and file data in
-- chunk files of 512 KiB. A path's entry and its chunks are spread over the daemons by hashing.
--
-- The parts, and how they work together:
--   ChunkCalc: include/global/chunk_calc_util.hpp. Offsets to chunk ids, counts and paddings, by a
--     table, masks and shifts over 64-bit words.
--   Decimal: the decimal text of numbers, std::to_string, std::stoul and std::stol.
--   Metadata: src/global/metadata.cpp. The record of a path, its text form and the parser.
--   Merge: src/daemon/backend/metadata/merge.cpp. The operands that clients queue on an entry, and
--     FullMergeV2, which folds them over the stored text.
--   Distributor: src/global/rpc/distributor.cpp. The host of a chunk and of an entry.
--   DataPath: a write from src/client/rpc/forward_data.cpp to the daemons' handlers in
--     src/daemon/handler/srv_data.cpp and the files of src/daemon/backend/data/chunk_storage.cpp.
--     Targets, with the client's maps and requests; Forward, with the sending of requests and the
--     replies; ForwardRead, the same for a read, and DiskRead, with the read tasks on the files;
--     SrvWrite, SrvRead and Truncate, with the handlers; ChunkFile, with the storage.
--     Plan, PlanLoop, Requests, Effect, Shares, WriteView, ReadPlan, ReadPart, ReadEffect, ReadView,
--     WrittenBytes, WriteRead, Holes and TruncateHosts have the proofs.
--   PathUtil: src/global/path_util.cpp. Resolver: src/client/path.cpp, whether a path lies inside the
--     mount directory. Text, Matched, Spec, Lexical, Canonical and Split have the proofs.
--   MetaStore: a daemon's metadata. Rocks is RocksDB as the daemon uses it; Db has
--     src/daemon/backend/metadata/db.cpp and src/daemon/ops/metadentry.cpp; Live, Refinement, View and
--     Run say what the entries stand for; Scan has the listing of a directory, with its proof in
--     Keys and Listing.
--   MetaServer: the handlers of src/daemon/handler/srv_metadata.cpp, on a daemon with its store and
--     its chunk directories; Laws has what they answer.
--   MetaClient: src/client/rpc/forward_metadata.cpp, from the client through the handlers. Remove
--     and Laws have the proofs.
--   Dirents: directory listings, from a daemon's reply to the records of getdents. Transfer and Drain
--     have the proofs.
--   FileCalls: the calls on paths of src/client/gkfs_functions.cpp, with get_metadata of
--     src/client/preload_util.cpp, over MetaClient. Open has open and links; Laws, Truncate,
--     Open/Truncation, Open/Creation and Open/Links have the proofs.
--   FileData: gkfs_pwrite and gkfs_pread, over daemons that keep the entries and the chunk files.
--     Stages, RoundTrip and Collision have the proofs.
--   Preload: src/client/preload_context.cpp. Paths given to calls, the library's own descriptors
--     (InternalFds) and the application's while the library starts (Protection).
--   Hooks: src/client/hooks.cpp, with the working directory of src/client/path.cpp. Paths, Descriptors
--     and Directory have the hooks; Cloexec and WorkingDirectory have the proofs.
--   Intercept: src/client/intercept.cpp. Which hook takes a system call of the application; Internal
--     has the library's own calls and Guard the wrappers. Transparent, PathCalls, OwnFds and Routes
--     have the proofs.
--   OpenFileMap: src/client/open_file_map.cpp. Descriptors, and the open files they share.
--   ClientCalls: seeks, reads and writes of src/client/gkfs_functions.cpp.
--   Base has shared names, lists and words; Witness has runs at concrete inputs.
--
-- State. A chunk file is a length and a function from positions to bytes; the chunk files of a path
-- are a function from chunk ids to files, and a cluster one from hosts to those. Buffers are functions.
-- A shared pointer is a handle into a store. The map of descriptors is an association list. Words
-- wrap at 2 ^ 64 where the source's do. The members that a constructor leaves uninitialised are a
-- parameter, one for all objects. The data path is modelled for one path; a daemon of MetaServer
-- has the entries and chunk directories of every path, and MetaClient has all daemons.
--
-- Other code. Mercury, Argobots, Hermes and the disk enter as records of answers (Env, ReadEnv,
-- Network, IoResult, Delivery), with every answer open; RocksDB is an interface of operations, each of
-- which may fail, and laws on what a key's value and queued operands are; lstat, realpath, dup3 and
-- close are the kernel's. A system call that a hook makes last is a value of its model, so that a
-- theorem can say what reaches the kernel; what the kernel does for the library's own calls is an
-- argument, and so are the functions that the hooks call on paths and data. std::hash and fmt::format_int are parameters. Locks
-- are not modelled: each call on the open-file map runs alone, and the tasks of one request run in the
-- order in which they were created.
--
-- Bounds and fuel. The storage takes chunk ids of 32 bits, so byte ranges end at 2 ^ 51 or before. The
-- loop of a handler has a round for each chunk of the file's range and one to stop. The search for
-- a free descriptor has twice the number of open descriptors and two rounds: it passes over those in
-- use once from the index on and once from where it wraps.
--
-- The loop of the resolver has the length of the path and one round; a directory is read to its end
-- with one call for each entry and one more.
--
-- The rounds of get_metadata are a fuel, as a circle of links has no end; gkfs_open takes a list of
-- rounds for the same reason, and a file that is no link needs one.
--
-- Not modelled: the library's start-up, stat, statx and statfs, the hosts file, conversion of RPC
-- types, the daemon's start-up, the request scheduler, logging, and other projects' libraries. These
-- print, fill structures of the system or call other libraries.
pub mod Base
pub mod ChunkCalc
pub mod Decimal
pub mod Metadata
pub mod Hooks
pub mod Intercept
pub mod Merge
pub mod Distributor
pub mod DataPath
pub mod OpenFileMap
pub mod ClientCalls
pub mod Witness
pub mod PathUtil
pub mod Resolver
pub mod Preload
pub mod MetaStore
pub mod MetaServer
pub mod MetaClient
pub mod Dirents
pub mod FileCalls
pub mod FileData
