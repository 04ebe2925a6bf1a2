-- ===== src/Lib.antt =====
-- logvine, a log-structured key-value store in Python: what its storage engine does, and the proofs.
--
-- The program. `LSMStorageEngine` (src/storage/engine.py) logs each write in the `WAL`
-- (src/storage/wal.py), stores it in the `MemTable` (src/storage/memtable.py), and when that is full
-- rotates it into a queue of frozen buffers. A flush thread writes the oldest frozen buffer as an
-- `SSTable` (src/storage/sstable.py), records it in the `Manifest` (src/storage/manifest.py), drops
-- the buffer and cuts the log. Reads ask the table in memory, then the `SSTableManager`
-- (src/storage/sstable_manager.py), which asks the tables of each level, newest first. The
-- `CompactionManager` (src/storage/compaction.py) merges the tables of level 0 into one of level 1.
-- A start replays the log into a new table in memory. The `Controller` (src/controller.py) turns a
-- request into an operation (src/operations.py), executes it on the engine and writes its replies,
-- which `LogvineClient` (src/client.py) reads. `LogvineServer` (src/server.py) gives it the lines of
-- its connections.
--
-- The files. Each file under a module's folder holds proofs about it, or a part of it.
--   Prelude         shared names; `Bytes` with their order, `Dict`, `Order` (sorted), `Interval`, `Struct`
--                   (struct.pack), `Crc` (zlib.crc32), `Text` (str, hex), `Utf8`, `Result` (exceptions)
--   MemTable        memtable.py: `_data` is `active`; `_put_unlocked` is `put_unlocked`, and so on
--     Lock          the reader-writer lock: `_acquire_read` and the others as steps of n threads
--       Totals, Invariant, Safety
--     Reads, Size, Range, Calls
--   Wal             wal.py: the bytes of a record (`construct_record`) and `replay`
--     Log           the `WAL` object: `append`, `append_batch`, `truncate_upto`, with its open file
--     Record, Replay, Torn, Fits, Append, Batch, Truncate
--   SsTable         sstable.py: `write`, `_load_index` (`load_index`), `get`, `range_scan`, `iter_items`
--     Write, Load, Index, Lookup, Items, Scan
--   Manifest        manifest.py
--     Json          what `save` gives to json.dump and `load` makes of what json.load gives
--     Save          the calls of `_save_locked`, with a power cut between any two
--   SsTableManager  sstable_manager.py
--     Newest, Ordered, Locality, Covers
--   Compaction      compaction.py: `merge_sstables`, `compact`, `may_start_compaction`
--     Heap, Merge, Inputs, Levels, Tables, Sound, Removed, Reads
--   Engine          engine.py: `put`, `get`, `delete`, `read_key_range`, `batch_put`, `flush`
--     System        calls, flushes and compactions in any order, and the map of their changes
--     Reads, Batches, Recovery, Writes, Flush, FlushReads, Buffers, FlushSound, Makes,
--     Refines, Collect, Overlap, Ranges, Strict, Erasing, Holds
--     Lsm           `LSMStorageEngine` as a `StorageEngine`
--   StorageEngine   the abstract class of engine.py, as a record of operations
--     Dictionary    the engine that is a dictionary: what the class promises
--   Json            the values of json.loads and json.dumps
--   Operations      operations.py: the classes of requests as constructors of `Operation`
--     Words, Responses, Parse, Validate, Keys
--   Controller      controller.py: `handle_request`, `_stream_response` (`stream_response`)
--     Replies, Requests, Stream, Refines
--   Server          server.py: `handle_client`, on the lines of a connection
--     Replies, Refines
--   Client          client.py: the requests, `_send_request`, `read_key_range` (`read_stream`)
--     Connection    `connect`, `disconnect`, and the calls of a client that may not be connected
--     Stream, Calls, Ranges
--   Config          config.py: `load_settings`
--   Tests           runs of the model at fixed inputs, and an instance of each theorem
--
-- How the code is read. A byte string is a list of numbers. A method is a function from the object's
-- state to its result and new state; what it does under a lock is one step. Exceptions are values of
-- `Error`, by kind; their texts are an argument of `reply_json`. The file system is a map from paths
-- to contents; a write that returns is on disk. An open log file is a `Handle`, which says whether the
-- file still stands at its path. The clock is an argument. A thread that is started is counted, and its
-- function is applied where it runs. A generator is the list that it yields with the way in which it
-- ends. Integers are natural numbers; a batch size, which can be negative, is a difference of two.
--
-- Fuel. `replay` has the length of the file as fuel and `load_file` likewise: a round that goes on
-- reads four bytes, or twelve. `merge_items` has the number of pairs: a round takes one of them.
-- `flush_all` runs over a list of clock readings and answers `none` where that list is too short.
--
-- Threads. A call to the engine, a flush and a run of `compact` are each one step of `Engine.System`,
-- in any order. Where a table is written, the clock gives a path that no table has and a time after
-- those of the tables of its level. The lock of the table in memory is taken apart further: each call
-- of the threading library is one step there, and so are the two updates of the count of readers.
--
-- Compaction. CONCURRENCY_FIX_NOTES.md and a comment of test_flush_rotate_race.py report that
-- compaction loses data. The list below says what holds of a run of `compact` by itself, and under
-- which conditions. The runs of Tests/Losses are outside them: two flushes in the same millisecond
-- write at the same path, and a reader that took the manifest before a compaction opens its tables
-- when they are gone.
--
-- Tombstones. A delete stores the bytes of the tombstone as the value of the key, so a put of these
-- bytes is a delete. The abstract class does not say so: `StorageEngine.Dictionary` stores them as any
-- other value, and `Engine.Erasing` is what the engine does.
--
-- A request runs whole before the next one, since the controller waits for nothing while it uses the
-- engine.
--
-- Not modelled: logging; what two threads do in the midst of their calls to the engine; the semaphore
-- of the controller; JSON text, of the manifest and of requests, for which the values stand; a power
-- cut elsewhere than in the log and the manifest; other failures of the operating system than a
-- missing file. The start and stop of src/server.py, which only call asyncio, and src/demo.py are not
-- modelled either, nor `read_key_range_dict` of the client, which collects a range in a dictionary,
-- and the lock by which its calls wait for each other.
pub mod StorageEngine
pub mod Prelude
pub mod Json
pub mod Operations
pub mod Client
pub mod Config
pub mod Controller
pub mod MemTable
pub mod Wal
pub mod SsTable
pub mod Manifest
pub mod SsTableManager
pub mod Compaction
pub mod Engine
pub mod Server
mod Tests
