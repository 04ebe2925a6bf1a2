-- ===== src/Engine.antt =====
-- src/storage/engine.py: `LSMStorageEngine`, over the log, the manifest, the table in memory and the
-- files. A method is one function on the whole state: what runs under its locks, and what it does
-- before and after them. A started thread is a flag or a count until its function is called.
pub mod Reads
pub mod Recovery
pub mod Writes
pub mod Batches
pub mod Flush
pub mod FlushReads
pub mod Buffers
pub mod FlushSound
pub mod System
pub mod Lsm
pub mod Makes
pub mod Refines
pub mod Collect
pub mod Overlap
pub mod Ranges
pub mod Strict
pub mod Erasing
pub mod Holds
use logvine.Prelude.{
  ℕ, zero, suc, ◌+◌, ◌-◌, Bool, true, false, not, Option, none, some, List, [], ◌∷◌, ◌++◌, max, ltb,
  leb, nat_beq, length, if◌then◌else◌, ◌==◌,
}
use logvine.Prelude.Bytes.{Bytes, bytes_eq, bytes_lt}
use logvine.Prelude.Text.{Text, decimal}
use logvine.Prelude.Order.{sorted, contains}
use logvine.Prelude.Result.{
  Error, Result, ok, raise, ◌>>=◌, value_error, key_error, batch_too_large,
}
use logvine.Prelude.Dict
use logvine.Prelude.Dict.{Dict}
use logvine.MemTable
use logvine.MemTable.{MemTable, Difference, tombstone, pair_lt}
use logvine.Wal.{
  Entry, Replayed, Ending, finished, raised, out_of_fuel, operation_put, operation_delete,
}
use logvine.Wal.Log
use logvine.Wal.Log.{Wal, replay_log}
use logvine.SsTable
use logvine.SsTable.{SsTable, Files, FilePath}
use logvine.Manifest
use logvine.Manifest.{Manifest, Saved, Metadata}
use logvine.SsTableManager
use logvine.Compaction
use logvine.Compaction.{State, sst_suffix}

-- `memtable_max_size` is the setting; `started_flushes` and `started_compactions` count the threads
-- that were started.
pub record Engine : Type 0 where
  pub storage_path : FilePath
  pub memtable_max_size : ℕ
  pub wal : Wal
  pub manifest : Manifest
  pub memtable : MemTable
  pub files : Files
  pub compaction_in_progress : Bool
  pub started_flushes : ℕ
  pub started_compactions : ℕ

-- One turn of the loop of `replay_wal`.
unfoldable pub replay_entry : Entry → MemTable → MemTable
replay_entry entry m = MemTable.set_max_wal_offset entry.offset (
    if nat_beq entry.operation operation_put
    then MemTable.put entry.key entry.value m
    else if nat_beq entry.operation operation_delete
    then MemTable.delete entry.key m
    else m)

unfoldable pub replay_entries : List Entry → MemTable → MemTable
replay_entries [] m = m
replay_entries (entry ∷ entries) m = replay_entries entries (replay_entry entry m)

abbrev pub end_result {ℓ} : {A : Type ℓ} → Ending → A → Result A
end_result finished a = ok a
end_result (raised e) a = raise e
end_result out_of_fuel a = raise value_error

-- `__init__`, on what the disk holds: an exception of the replay leaves the constructor.
unfoldable pub init : FilePath → ℕ → Option Bytes → Option Saved → Files → Result Engine
init storage_path max_size log saved files =
    let wal = Log.init log in
    let replayed = replay_log wal in
    end_result replayed.ending (record {
      storage_path = storage_path;
      memtable_max_size = max_size;
      wal = wal;
      manifest = Manifest.load (Manifest.init saved);
      memtable = replay_entries replayed.entries (MemTable.init max_size);
      files = files;
      compaction_in_progress = false;
      started_flushes = 0;
      started_compactions = 0;
    })

-- The table after `put` under its lock, and whether it was rotated.
unfoldable pub put_locked : Bytes → Bytes → ℕ → MemTable → MemTable × Bool
put_locked key value offset m =
    let stored = MemTable.put_unlocked key value m in
    let noted = record stored { max_wal_offset = max stored.max_wal_offset offset } in
    if MemTable.is_full noted then (MemTable.rotate_unlocked noted, true) else (noted, false)

abbrev pub started : Bool → ℕ
started true = 1
started false = 0

unfoldable pub put_logged : Bytes → Bytes → Result ℕ × Wal → Engine → Result (Unit {0}) × Engine
put_logged key value (raise e, wal) s = (raise e, record s { wal = wal })
put_logged key value (ok offset, wal) s =
    let (memtable, should_rotate) = put_locked key value offset s.memtable in
    (
      ok tt,
      record s {
        wal = wal;
        memtable = memtable;
        started_flushes = s.started_flushes + started should_rotate;
      },
    )

unfoldable pub put : Bytes → Bytes → Engine → Result (Unit {0}) × Engine
put key value s = put_logged key value (Log.append operation_put key value s.wal) s

-- `if value is None or value == b"__TOMBSTONE__": raise KeyError(key)`
unfoldable pub found : Option Bytes → Result Bytes
found none = raise key_error
found (some value) = if value == tombstone then raise key_error else ok value

unfoldable pub get_stored : Bytes → Option Bytes → Engine → Result (Option Bytes)
get_stored key (some value) s = ok (some value)
get_stored key none s = SsTableManager.get key s.files s.manifest

unfoldable pub get : Bytes → Engine → Result Bytes
get key s = do value ← get_stored key (MemTable.get key s.memtable) s; found value

unfoldable pub delete_logged : Bytes → Result ℕ × Wal → Engine → Result (Unit {0}) × Engine
delete_logged key (raise e, wal) s = (raise e, record s { wal = wal })
delete_logged key (ok offset, wal) s = (
  ok tt,
  record s {
    wal = wal;
    memtable = MemTable.set_max_wal_offset offset (MemTable.delete key s.memtable);
  },
)

unfoldable pub delete : Bytes → Engine → Result (Unit {0}) × Engine
delete key s = delete_logged key (Log.append operation_delete key [] s.wal) s

-- A loop of `read_key_range`: keys that were seen are passed over, tombstones are seen and left out.
unfoldable pub collect :
    List (Bytes × Bytes) → List Bytes × Dict Bytes Bytes → List Bytes × Dict Bytes Bytes
collect [] (seen, result) = (seen, result)
collect ((key, value) ∷ pairs) (seen, result) = collect pairs (
    if contains key seen
    then (seen, result)
    else (key ∷ seen, if value == tombstone then result else Dict.set key value result))

unfoldable pub collect_tables :
    Bytes
    → Bytes
    → Files
    → List SsTable
    → List Bytes × Dict Bytes Bytes
    → Result (List Bytes × Dict Bytes Bytes)
collect_tables start_key end_key files [] acc = ok acc
collect_tables start_key end_key files (table ∷ tables) acc = do
  pairs ← (SsTable.range_scan start_key end_key files table).0
  collect_tables start_key end_key files tables (collect pairs acc)

unfoldable pub read_key_range : Bytes → Bytes → Engine → Result (List (Bytes × Bytes))
read_key_range start_key end_key s = do
  let first = collect (MemTable.get_range start_key end_key s.memtable) ([], [])
  tables ← SsTableManager.get_overlapping_sstables start_key end_key s.manifest
  (seen, result) ← collect_tables start_key end_key s.files tables first
  ok (sorted pair_lt result)

-- `if prev:` is false for None and for an empty value.
unfoldable pub entry_size : Bytes → Bytes → Option Bytes → Difference → Difference
entry_size key value none d = record d { plus = d.plus + length value + 64 + length key }
entry_size key value (some []) d = record d { plus = d.plus + length value + 64 + length key }
entry_size key value (some (b ∷ bs)) d = record d {
  plus = d.plus + length value + 64;
  minus = d.minus + length (b ∷ bs);
}

unfoldable pub input_size : List Bytes → List Bytes → MemTable → Difference → Difference
input_size [] values m d = d
input_size (key ∷ keys) [] m d = d
input_size (key ∷ keys) (value ∷ values) m d =
    input_size keys values m (entry_size key value (MemTable.get key m) d)

unfoldable pub put_all : List Bytes → List Bytes → MemTable → MemTable
put_all [] values m = m
put_all (key ∷ keys) [] m = m
put_all (key ∷ keys) (value ∷ values) m = put_all keys values (MemTable.put_unlocked key value m)

-- The table after `batch_put` under its lock, and whether it was rotated.
unfoldable pub batch_locked : List Bytes → List Bytes → Difference → ℕ → MemTable → MemTable × Bool
batch_locked keys values size last_record_offset m =
    let should_rotate = MemTable.batch_would_exceed size m in
    let room = if should_rotate then MemTable.rotate_unlocked m else m in
    (record (put_all keys values room) { max_wal_offset = last_record_offset }, should_rotate)

unfoldable pub batch_logged :
    List Bytes → List Bytes → Difference → Result ℕ × Wal → Engine → Result (Unit {0}) × Engine
batch_logged keys values size (raise e, wal) s = (raise e, record s { wal = wal })
batch_logged keys values size (ok offset, wal) s =
    let (memtable, should_rotate) = batch_locked keys values size offset s.memtable in
    (
      ok tt,
      record s {
        wal = wal;
        memtable = memtable;
        started_flushes = s.started_flushes + started should_rotate;
      },
    )

unfoldable pub batch_put : List Bytes → List Bytes → Engine → Result (Unit {0}) × Engine
batch_put keys values s =
    let size = input_size keys values s.memtable (record { plus = 0; minus = 0 }) in
    if not (nat_beq (length keys) (length values))
    then (raise value_error, s)
    else if ltb (s.memtable_max_size + size.minus) size.plus
    then (raise (batch_too_large (size.plus - size.minus) s.memtable_max_size), s)
    else batch_logged keys values size (Log.append_batch operation_put keys values s.wal) s

-- "/sstable_", ".sst"
abbrev pub sstable_prefix : Text
sstable_prefix = 47 ∷ 115 ∷ 115 ∷ 116 ∷ 97 ∷ 98 ∷ 108 ∷ 101 ∷ 95 ∷ []

abbrev pub flushed_path : FilePath → ℕ → FilePath
flushed_path storage_path now = storage_path ++ (sstable_prefix ++ (decimal now ++ sst_suffix))

-- self.compaction.may_start_compaction(self.manifest, self.storage_path)
unfoldable pub start_compaction : Engine → Engine
start_compaction s =
    let (state, start) =
      Compaction.may_start_compaction (record {
        manifest = s.manifest;
        files = s.files;
        in_progress = s.compaction_in_progress;
      }) in
    record s {
      compaction_in_progress = state.in_progress;
      started_compactions = s.started_compactions + started start;
    }

-- What `flush` does behind `build_metadata`.
unfoldable pub flush_recorded : Metadata → Engine → Engine
flush_recorded metadata s =
    let wal_offset = MemTable.get_max_wal_offset_frozen s.memtable in
    start_compaction (record s {
      manifest = Manifest.save (Manifest.add_sstable 0 metadata s.manifest);
      memtable = MemTable.clear_frozen s.memtable;
      wal = Log.truncate_upto wal_offset s.wal;
    })

-- An exception is logged, and leaves what is done: the files, and nothing else.
unfoldable pub flush_written : ℕ → Result SsTable × Files → Engine → Engine
flush_written created (raise e, files) s = record s { files = files }
flush_written created (ok sstable, files) s =
    elim (SsTableManager.build_metadata created sstable 0 files) [
      | raise e ↦ record s { files = files }
      | ok metadata ↦ flush_recorded metadata (record s { files = files })
    ]

unfoldable pub flush_items : ℕ → ℕ → List (Bytes × Bytes) → Engine → Engine
flush_items now created [] s = s
flush_items now created (item ∷ items) s =
    flush_written created
      (SsTable.write (item ∷ items) (SsTable.init (flushed_path s.storage_path now) 0) s.files) s

-- `flush`, with the two readings of the clock, in milliseconds: for the path and for the metadata.
unfoldable pub flush : ℕ → ℕ → Engine → Engine
flush now created s =
    flush_items now created (sorted pair_lt (MemTable.get_frozen_items s.memtable)) s

-- `while depth > 0: self.flush()`, over the clock readings of the rounds: `none` where they end
-- before the loop does.
unfoldable pub flush_all : List (ℕ × ℕ) → Engine → Option Engine
flush_all [] s = if nat_beq (MemTable.get_frozen_queue_depth s.memtable) 0 then some s else none
flush_all ((now, created) ∷ clock) s =
    let later = flush_all clock (flush now created s) in
    if nat_beq (MemTable.get_frozen_queue_depth s.memtable) 0 then some s else later
