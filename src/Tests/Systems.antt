-- ===== src/Tests/Systems.antt =====
-- The theorems about the engine as a whole, each at a run of a few steps.
use logvine.Prelude.{ℕ, ◌≡◌, refl, none, some, List, [], ◌∷◌, arith, true}
use logvine.Prelude.Bytes.{Bytes, bytes_eq}
use logvine.Prelude.Result.{Result, ok, raise, key_error, ◌>>=◌}
use logvine.Wal.{operation_put}
use logvine.Wal.Log
use logvine.Wal.Log.{Wal}
use logvine.SsTableManager
use logvine.Manifest
use logvine.SsTableManager.{iter_sstable_metadata}
use logvine.SsTableManager.Newest.{OlderThan}
use logvine.SsTableManager.Locality.{Unused}
use logvine.Compaction
use logvine.Compaction.Reads
use logvine.Compaction.Sound.{Sound}
use logvine.Engine
use logvine.Engine.{Engine}
use logvine.Engine.FlushSound.{Healthy}
use logvine.Engine.System
use logvine.Engine.System.{
  Change, Run, shared, stop, step, put_step, delete_step, flush_step, compact_step, change, no_keys,
  visible,
}
use logvine.Engine.Makes.{Implements}
use logvine.Engine.Refines
use logvine.Engine.Ranges
use logvine.SsTable.Items.{IsStrict}
use logvine.Prelude.Interval.{in_range}
use logvine.Prelude.{if◌then◌else◌}
use logvine.Prelude.Dict
use logvine.Prelude.Dict.{keys}
use logvine.Engine.Refines.{empty_engine, empty_engine-Healthy, empty_engine-Implements}
use logvine.Prelude.Text.{decimal, is_space}
use logvine.Config
use logvine.Tests.{program, a, b, c}

-- Two puts, the second of which rotates, a flush, a delete and a compaction.
abbrev begun : Engine
begun = empty_engine (47 ∷ []) 2

abbrev stored_a : Engine
stored_a = (Engine.put a a begun).1

abbrev stored_b : Engine
stored_b = (Engine.put b b stored_a).1

abbrev written_out : Engine
written_out = Engine.flush 1000 1001 stored_b

abbrev deleted : Engine
deleted = (Engine.delete a written_out).1

abbrev compacted : Engine
compacted = System.compact 2000 2001 deleted

abbrev all_changes : List Change
all_changes = (a, some a) ∷ (b, some b) ∷ (a, none) ∷ []

-- The changes up to the flush.
abbrev first_changes : List Change
first_changes = (a, some a) ∷ (b, some b) ∷ []

first_part : Run begun first_changes written_out
unfolding program System.put_change
first_part =
    step begun stored_a written_out ((a, some a) ∷ []) ((b, some b) ∷ [])
      (put_step a a (omega arith))
      (step stored_a stored_b written_out ((b, some b) ∷ []) [] (put_step b b (omega arith)) (
        step stored_b written_out written_out [] [] (flush_step 1000 1001 tt tt)
          (stop written_out)))

deleted-Unused :
    Unused
      (Compaction.compacted_path deleted.storage_path 2000)
      (iter_sstable_metadata none true deleted.manifest)
unfolding program
deleted-Unused = (refl, tt)

whole-Run : Run begun all_changes compacted
unfolding program System.put_change
whole-Run =
    step begun stored_a compacted ((a, some a) ∷ []) ((b, some b) ∷ (a, none) ∷ [])
      (put_step a a (omega arith))
      (step stored_a stored_b compacted ((b, some b) ∷ []) ((a, none) ∷ [])
        (put_step b b (omega arith))
        (step stored_b written_out compacted [] ((a, none) ∷ []) (flush_step 1000 1001 tt tt) (
          step written_out deleted compacted ((a, none) ∷ []) [] (delete_step a (omega arith)) (
            step deleted compacted compacted [] [] (compact_step 2000 2001 deleted-Unused tt)
              (stop compacted)))))

init-Run_example :
    (Engine.init (47 ∷ []) 2 none none [] ≡ ok begun)
    × Implements compacted (visible (change all_changes no_keys))
init-Run_example = Refines.init-Run (47 ∷ []) 2 all_changes compacted whole-Run

Run-Implements_example :
    Healthy compacted × Implements compacted (visible (change all_changes no_keys))
Run-Implements_example =
    Refines.Run-Implements begun compacted all_changes no_keys whole-Run
      (empty_engine-Healthy (47 ∷ []) 2) (empty_engine-Implements (47 ∷ []) 2)

written_out-Sound : Sound written_out.manifest written_out.files
written_out-Sound =
    (Refines.Run-Implements begun written_out first_changes no_keys first_part
      (empty_engine-Healthy (47 ∷ []) 2) (empty_engine-Implements (47 ∷ []) 2)).0.sound

written_out-Unused :
    Unused
      (Compaction.compacted_path (47 ∷ []) 2000)
      (iter_sstable_metadata none true written_out.manifest)
unfolding program
written_out-Unused = (refl, tt)

written_out-OlderThan : OlderThan 2001 (Manifest.get_level_sstables 1 written_out.manifest)
unfolding program
written_out-OlderThan = tt

get-compact_example :
    Sound
      (Compaction.compact (47 ∷ []) 2000 2001 (shared written_out)).manifest
      (Compaction.compact (47 ∷ []) 2000 2001 (shared written_out)).files
    × ((j : Bytes)
        → SsTableManager.get j
            (Compaction.compact (47 ∷ []) 2000 2001 (shared written_out)).files
            (Compaction.compact (47 ∷ []) 2000 2001 (shared written_out)).manifest
          ≡ SsTableManager.get j written_out.files written_out.manifest)
get-compact_example =
    Reads.get-compact (47 ∷ []) 2000 2001 (shared written_out) written_out-Unused
      written_out-OlderThan written_out-Sound

-- " 1_000 ", and "-5", which is not positive
load_settings_run :
    Config.load_settings (some (32 ∷ 49 ∷ 95 ∷ 48 ∷ 48 ∷ 48 ∷ 32 ∷ [])) (some (45 ∷ 53 ∷ []))
    ≡ record { memtable_max_size = 1000; controller_max_workers = 16 }
unfolding Config.load_settings Config.setting Config.int Config.read_signed Config.read_digits
    is_space
load_settings_run = refl

load_settings-decimal_example :
    Config.load_settings (some (decimal 4096)) (some (decimal 4))
    ≡ record { memtable_max_size = 4096; controller_max_workers = 4 }
load_settings-decimal_example = Config.load_settings-decimal 4096 4 (omega arith) (omega arith)

-- A put of `a` that has logged its record waits for the lock of the table, which a put of `b` takes
-- first and rotates the table.
abbrev logged_a : Result ℕ × Wal
logged_a = Log.append operation_put a a begun.wal

abbrev overtaken : Engine
overtaken = (Engine.put b (98 ∷ 98 ∷ []) (record begun { wal = logged_a.1 })).1

abbrev raced : Engine
raced = Engine.flush 1000 1001 (Engine.put_logged a a (logged_a.0, overtaken.wal) overtaken).1

-- The flush of the first table cuts the record of `a` off the log too, and a start over what is on the
-- disk does not have it.
lost_put :
    (Engine.get a raced ≡ ok a)
    × ((do
      s ← Engine.init raced.storage_path 2 raced.wal.content raced.manifest.file raced.files
      Engine.get a s)
        ≡ raise key_error)
unfolding program
lost_put = (refl, refl)

deleted_pair : Run begun all_changes deleted
unfolding program System.put_change
deleted_pair =
    step begun stored_a deleted ((a, some a) ∷ []) ((b, some b) ∷ (a, none) ∷ [])
      (put_step a a (omega arith))
      (step stored_a stored_b deleted ((b, some b) ∷ []) ((a, none) ∷ [])
        (put_step b b (omega arith))
        (step stored_b written_out deleted [] ((a, none) ∷ []) (flush_step 1000 1001 tt tt) (
          step written_out deleted deleted ((a, none) ∷ []) [] (delete_step a (omega arith))
            (stop deleted))))

read_key_range-Implements_example :
    (pairs : List (Bytes × Bytes)) × (Engine.read_key_range a c deleted ≡ ok pairs)
    × IsStrict (keys pairs)
    × ((j : Bytes)
        → Dict.get j pairs
          ≡ (if in_range a c j then visible (change all_changes no_keys) j else none))
read_key_range-Implements_example =
    let (healthy, reads) =
      Refines.Run-Implements begun deleted all_changes no_keys deleted_pair
        (empty_engine-Healthy (47 ∷ []) 2) (empty_engine-Implements (47 ∷ []) 2) in
    Ranges.read_key_range-Implements a c deleted (visible (change all_changes no_keys)) healthy
      reads

-- The key whose tombstone is in memory and whose value is in the table is hidden.
range_deleted : Engine.read_key_range a c deleted ≡ ok ((b, b) ∷ [])
unfolding program
range_deleted = refl
