-- ===== src/Compaction.antt =====
-- src/storage/compaction.py: the merge of the tables of level 0 into one table of level 1.
pub mod Heap
pub mod Merge
pub mod Inputs
pub mod Levels
pub mod Tables
pub mod Sound
pub mod Removed
pub mod Reads
use logvine.Prelude.{
  ℕ, zero, suc, ◌+◌, Bool, true, false, ◌&&◌, ◌||◌, Option, none, some, List, [], ◌∷◌, ◌++◌, ltb,
  length, if◌then◌else◌, ◌==◌,
}
use logvine.Prelude.Bytes.{Bytes, bytes_eq, bytes_lt}
use logvine.Prelude.Text.{Text, decimal}
use logvine.Prelude.Order.{insert_sorted}
use logvine.Prelude.Result.{Result, ok, raise, ◌>>=◌}
use logvine.SsTable
use logvine.SsTable.{SsTable, Files, FilePath, unlink}
use logvine.Manifest.{Manifest, Metadata, add_sstable, remove_sstable, get_level_sstables}
use logvine.SsTableManager.{iter_sstable_metadata, metadata_of, metadata_to_sstable, build_metadata}

abbrev pub l0_threshold : ℕ
l0_threshold = 2

unfoldable pub needs_compaction : Manifest → Bool
needs_compaction manifest = ltb l0_threshold (length (get_level_sstables 0 manifest))

abbrev pub Items : Type 0
Items = List (Bytes × Bytes)

-- An entry of the heap: the next pair of a table, the table's position, and the pairs behind it.
pub record HeapEntry : Type 0 where
  pub key : Bytes
  pub index : ℕ
  pub value : Bytes
  pub iterator : Items

-- Tuples compare by key and then by position; no two entries of the heap have the same position.
unfoldable pub entry_lt : HeapEntry → HeapEntry → Bool
entry_lt a b = bytes_lt a.key b.key || (a.key == b.key && ltb a.index b.index)

-- `heapq` as a sorted list: a push inserts, a pop takes the head.
unfoldable pub heappush : HeapEntry → List HeapEntry → List HeapEntry
heappush = insert_sorted entry_lt

-- `next(iterator)`, pushed unless the iterator has ended.
unfoldable pub advance : Items → ℕ → List HeapEntry → List HeapEntry
advance [] index heap = heap
advance ((k, v) ∷ iterator) index heap =
    heappush (record { key = k; index = index; value = v; iterator = iterator }) heap

unfoldable pub initial_heap : ℕ → List Items → List HeapEntry → List HeapEntry
initial_heap index [] heap = heap
initial_heap index (items ∷ rest) heap = initial_heap (suc index) rest (advance items index heap)

abbrev pub is_last : Option Bytes → Bytes → Bool
is_last none key = false
is_last (some last_key) key = key == last_key

-- `while heap`, on fuel; a pair whose key was just yielded is skipped. `none` is no end of the
-- source's loop.
unfoldable pub merge_loop : ℕ → List HeapEntry → Option Bytes → Option Items
merge_loop fuel [] last_key = some []
merge_loop zero (entry ∷ heap) last_key = none
merge_loop (suc fuel) (entry ∷ heap) last_key =
    let rest = merge_loop fuel (advance entry.iterator entry.index heap) (some entry.key) in
    if is_last last_key entry.key
    then rest
    else (elim rest [ none ↦ none | some items ↦ some ((entry.key, entry.value) ∷ items) ])

abbrev pub count : List Items → ℕ
count [] = 0
count (items ∷ rest) = length items + count rest

-- Each round takes one pair of the inputs, so their number is fuel enough.
unfoldable pub merge_items : List Items → Option Items
merge_items inputs = merge_loop (count inputs) (initial_heap 0 inputs []) none

-- The pairs of the tables. The files stay as they are during a merge, so what the iterators yield
-- one by one is what they hold at the beginning.
unfoldable pub read_all : Files → List Metadata → Result (List Items)
read_all files [] = ok []
read_all files (meta ∷ rest) = do
  items ← (SsTable.iter_items files (metadata_to_sstable meta)).0
  others ← read_all files rest
  ok (items ∷ others)

abbrev pub or_nothing : Option Items → Items
or_nothing none = []
or_nothing (some items) = items

unfoldable pub merge_sstables : Files → List Metadata → Result Items
merge_sstables files sstable_infos = do
  inputs ← read_all files sstable_infos
  ok (or_nothing (merge_items inputs))

-- What a compaction reads and writes.
pub record State : Type 0 where
  pub manifest : Manifest
  pub files : Files
  pub in_progress : Bool

unfoldable pub remove_all : List Metadata → Manifest → Manifest
remove_all [] manifest = manifest
remove_all (info ∷ infos) manifest = remove_all infos (remove_sstable 0 info.path manifest)

-- A file that is missing is passed over.
unfoldable pub remove_old_sstable_files : List Metadata → Files → Files
remove_old_sstable_files [] files = files
remove_old_sstable_files (info ∷ infos) files =
    remove_old_sstable_files infos (unlink info.path files)

-- "/sstable_compacted_", ".sst"
abbrev pub compacted_prefix : Text
compacted_prefix =
    47 ∷ 115 ∷ 115 ∷ 116 ∷ 97 ∷ 98 ∷ 108 ∷ 101 ∷ 95 ∷ 99 ∷ 111 ∷ 109 ∷ 112 ∷ 97 ∷ 99 ∷ 116 ∷ 101
    ∷ 100 ∷ 95 ∷ []

abbrev pub sst_suffix : Text
sst_suffix = 46 ∷ 115 ∷ 115 ∷ 116 ∷ []

abbrev pub compacted_path : FilePath → ℕ → FilePath
compacted_path storage_path time_ns =
    storage_path ++ (compacted_prefix ++ (decimal time_ns ++ sst_suffix))

-- The metadata is built and the manifest and the files change only behind a write that succeeds. An
-- exception is logged, and leaves what is done.
unfoldable pub finish_compaction :
    ℕ → List Metadata → Manifest → Result SsTable × Files → Manifest × Files
finish_compaction now level0 manifest (raise e, files) = (manifest, files)
finish_compaction now level0 manifest (ok new_sstable, files) =
    elim (build_metadata now new_sstable 1 files) [
      | raise e ↦ (manifest, files)
      | ok metadata ↦ (
        remove_all level0 (add_sstable 1 metadata manifest),
        remove_old_sstable_files level0 files,
      )
    ]

unfoldable pub compact_tables :
    FilePath → ℕ → ℕ → List Metadata → Manifest → Files → Manifest × Files
compact_tables storage_path time_ns now [] manifest files = (manifest, files)
compact_tables storage_path time_ns now (info ∷ infos) manifest files =
    elim (merge_sstables files (info ∷ infos)) [
      | raise e ↦ (manifest, unlink (compacted_path storage_path time_ns) files)
      | ok merged ↦
          finish_compaction now (info ∷ infos) manifest
            (SsTable.write merged (SsTable.init (compacted_path storage_path time_ns) 1) files)
    ]

-- `compact`, with the readings of its two clocks. It ends with the flag down.
unfoldable pub compact : FilePath → ℕ → ℕ → State → State
compact storage_path time_ns now s =
    let level0 = metadata_of (iter_sstable_metadata (some 0) true s.manifest) in
    let (manifest, files) = compact_tables storage_path time_ns now level0 s.manifest s.files in
    record { manifest = manifest; files = files; in_progress = false }

-- `may_start_compaction`: the flag after it, and whether a thread was started to run `compact`.
unfoldable pub may_start_compaction : State → State × Bool
may_start_compaction s =
    if s.in_progress
    then (s, false)
    else if needs_compaction s.manifest
    then (record s { in_progress = true }, true)
    else (s, false)
