-- ===== src/Lib.antt =====
-- BedrockKV, a key-value store: a write-ahead log, a value log, a memory table that is flushed to
-- sorted tables, their compaction, and a server that speaks RESP.
--
-- Prelude holds the shared names, the lists with the native numbers, the bits of numbers, the
-- order of byte strings and decimal text. A byte is a number; an addition of unsigned words is
-- written with its wrap where the program can reach it.
-- Status (include/bedrockkv/status.h, src/status.cpp) is the error value of every call.
-- Io is the loop around `::write` and the form of `::pread`. What the kernel answers is a
--   parameter: a list of answers of `::write`, a function for `::pread`.
-- Encoding (include/bedrockkv/encoding.h) and Crc32 (src/crc32.cpp) are the codecs that the
--   files share.
-- Wal (src/log.cpp) is the log: `encode_record` is `Writer::EncodeRecord`, Wal/Reader has
--   `ReadPhysicalRecord` and `ReadRecord` as loops of steps on a reader's fields. The reading of
--   one block is an argument `fill`; Wal/Fill has the loop around `::read` that it stands for.
--   Wal/Position says where a reader stands.
-- Vlog (src/vlog.cpp) is the value log: `append`, `read_value`, `scan_entries`.
-- Key (include/bedrockkv/block.h, src/block.cpp, src/sstable.cpp) is internal keys and their order.
-- Db/Record (src/db.cpp) is the payload of a log record; Db/Compaction is the merge loop of
--   `RunCompaction`, from the entries that the merging iterator shows; Db/Replay is the loop of
--   `DB::Open` over one log, with the memory table as the list of the records applied; Db/Manifest
--   is the records of the MANIFEST and the loop of `ParseManifest`.
-- Db/Read (src/db.cpp) is `LookupIn`, `Get` and `MaybeResolvePointer`, over memory tables and tables
--   as their `Get` and bounds; Db/Read/Runs and Db/Read/Newest relate them to the entries they hold.
-- Db/Scan (include/bedrockkv/iterator.h, src/db.cpp) is the merging iterator, where an iterator is
--   the entries from its position on, and `Scan`. Db/Pick is `CompactionNeeded`, `PickCompaction`
--   and `VlogGcNeeded`. Db/Write and Db/Write/Calls are `WriteEntry`, `MaybeSync`, `RotateForFlush`,
--   `Put` and `Delete` without io_uring, with the kernel's answers as an argument and what `fsync`
--   made durable as a size. Db/Snapshots is the snapshots, Db/Files the names of the files,
--   `RemoveOrphanFiles` and the logs that `DB::Open` replays.
-- Resp (src/resp.cpp) is the incremental request parser, Resp/Reply the replies.
-- Block (include/bedrockkv/block.h, src/block.cpp) is the block builder and the defensive reader.
-- Bloom (include/bedrockkv/bloom.h) is the filter of a table; the truncated product with the
--   `double` 0.69 is a parameter.
-- Lru (include/bedrockkv/lru_cache.h) is one shard of the cache, Lru/Sharded the cache; the hash is a
--   parameter.
-- Server (src/server.cpp) is `Execute`, over a record of what it calls of `DB`; Server/Session is
--   what the commands promise of a map. Server/Connection is `HandleReadable` and `FlushOut`, with
--   the socket's answers as arguments.
-- Tests applies the theorems at concrete inputs.
--
-- Fuel: `scan_entries` has one round for each byte of the file, and takes twelve in each;
-- `read_physical_record` has two rounds for each byte of the file, since a refill takes a byte at
-- least and a skipped block tail is followed by a refill; `read_record` and `encode_record` have
-- one for each byte they can take, like the replay, the request parser, its words and the drained
-- requests. The eviction of a cache has one round for each entry, the merging iterator too, and the
-- expansion of a compaction's range one for each file of the target level and one more. The binary
-- search of `Block::Seek` has one for each restart point, its scan one for each byte of the entries,
-- and takes twelve in each.
--
-- Not modelled: the set-up of sockets, threads and locks, `io_uring`, directories. The tables
-- around the blocks, the skip list and the background thread have no model, but for what a flush
-- leaves to the writes (`flushed` of Db/Write/Calls). In Vlog, the views that `ScanEntries` makes where
-- the sum of the sizes wraps end with the payload. In Bloom, adding 7 to the number of bits does not
-- wrap.
pub mod Prelude
pub mod Status
pub mod Io
pub mod Vlog
pub mod Encoding
pub mod Crc32
pub mod Wal
pub mod Key
pub mod Db
pub mod Resp
pub mod Bloom
pub mod Lru
pub mod Block
pub mod Server
pub mod Tests
