-- ===== src/Tests/Tables.antt =====
-- The theorems about flushes and merges of tables, each at an input that meets its conditions.
use logvine.Prelude.{ℕ, List, true, ◌≡◌, refl, none, some, [], ◌∷◌, All, arith}
use logvine.Prelude.Bytes.{Bytes, bytes_eq, IsBytes}
use logvine.Prelude.Dict
use logvine.Prelude.Result.{ok, raise}
use logvine.SsTable
use logvine.SsTable.{Files}
use logvine.SsTable.Lookup.{file_bytes-Written}
use logvine.SsTable.Items
use logvine.SsTable.Items.{IsStrict}
use logvine.Prelude.Dict.{Dict, IsDistinct, keys}
use logvine.MemTable
use logvine.Manifest
use logvine.SsTableManager.{iter_sstable_metadata}
use logvine.SsTableManager.Newest.{OlderThan}
use logvine.SsTableManager.Locality.{Unused}
use logvine.Compaction
use logvine.Compaction.{Items}
use logvine.Compaction.Heap.{IsAscending}
use logvine.Compaction.Inputs
use logvine.Compaction.Inputs.{first_input}
use logvine.Engine
use logvine.Engine.{Engine}
use logvine.Engine.FlushReads
use logvine.Tests.{program, a, b, c, flushed}

-- A second flush, of two more puts, onto the table of the first one.
abbrev refilled : Engine
refilled = (Engine.put b (99 ∷ 99 ∷ 99 ∷ []) flushed).1

refilled-Unused :
    Unused
      (Engine.flushed_path refilled.storage_path 2000)
      (iter_sstable_metadata none true refilled.manifest)
unfolding program
refilled-Unused = (refl, tt)

refilled-OlderThan : OlderThan 2001 (Manifest.get_level_sstables 0 refilled.manifest)
unfolding program
refilled-OlderThan = omega arith

refilled-IsDistinct : IsDistinct (MemTable.get_frozen_items refilled.memtable)
unfolding program
refilled-IsDistinct = (refl, tt)

refilled-IsBytes : All IsBytes (keys (MemTable.get_frozen_items refilled.memtable))
unfolding program
refilled-IsBytes = omega arith

get-flush_example : Engine.get a (Engine.flush 2000 2001 refilled) ≡ Engine.get a refilled
get-flush_example =
    FlushReads.get-flush 2000 2001 a refilled refilled-Unused refilled-OlderThan refilled-IsDistinct
      refilled-IsBytes

abbrev newer_items : Items
newer_items = (a, b) ∷ (c, c) ∷ []

abbrev older_items : Items
older_items = (a, a) ∷ (b, b) ∷ []

inputs-IsAscending : All IsAscending (newer_items ∷ older_items ∷ [])
unfolding program
inputs-IsAscending = (((refl, tt), (tt, tt)), (((refl, tt), (tt, tt)), tt))

merge_items_lem_example :
    (items : Items) × (Compaction.merge_items (newer_items ∷ older_items ∷ []) ≡ some items)
    × IsAscending items
    × ((k : Bytes) → Dict.get k items ≡ first_input k (newer_items ∷ older_items ∷ []))
merge_items_lem_example = Inputs.merge_items_lem (newer_items ∷ older_items ∷ []) inputs-IsAscending

-- A table of three pairs, with one key twice.
abbrev table_pairs : List (Bytes × Bytes)
table_pairs = (b, a) ∷ (a, b) ∷ (b, c) ∷ []

-- What a write makes of them.
abbrev table_file : Bytes × Dict Bytes ℕ
table_file = elim (SsTable.file_bytes table_pairs) [ raise e ↦ ([], []) | ok made ↦ made ]

abbrev table_files : Files
table_files = (c, table_file.0) ∷ []

table_made : SsTable.file_bytes table_pairs ≡ ok (table_file.0, table_file.1)
unfolding program
table_made = refl

table_stands : Dict.get (SsTable.init c 0).path table_files ≡ some table_file.0
unfolding program
table_stands = refl

table_index : (SsTable.init c 0).index ≡ []
unfolding program
table_index = refl

iter_items-Written_example :
    (items : List (Bytes × Bytes)) × ((SsTable.iter_items table_files (SsTable.init c 0)).0
      ≡ ok items)
    × IsStrict (keys items)
    × ((k : Bytes) → Dict.get k items ≡ Dict.get k (Dict.set_all table_pairs []))
iter_items-Written_example =
    Items.iter_items-Written table_pairs table_file.0 table_file.1 table_files (SsTable.init c 0)
      (file_bytes-Written table_pairs table_file.0 table_file.1 table_made) table_stands table_index
