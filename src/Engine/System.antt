-- ===== src/Engine/System.antt =====
-- src/storage/engine.py and src/storage/compaction.py together: the calls of the engine and the runs
-- of its threads, in any order. A call or a run is one step: what holds of two that run at once is not
-- said here.
use logvine.Prelude.{ℕ, true, Option, none, some, List, [], ◌∷◌, ◌++◌, if◌then◌else◌, ◌==◌, All}
use logvine.Prelude.Bytes.{Bytes, IsBytes, bytes_eq}
use logvine.Prelude.Result.{Result, ok, raise}
use logvine.MemTable.{tombstone}
use logvine.Manifest.{get_level_sstables}
use logvine.SsTableManager.{iter_sstable_metadata}
use logvine.SsTableManager.Newest.{OlderThan}
use logvine.SsTableManager.Locality.{Unused}
use logvine.Compaction
use logvine.Compaction.{State, compacted_path}
use logvine.Engine.{Engine, put, delete, batch_put, flush, flushed_path}

-- What the thread of a compaction shares with the engine.
abbrev pub shared : Engine → State
shared s = record { manifest = s.manifest; files = s.files; in_progress = s.compaction_in_progress }

-- The run of that thread, `compact(manifest, storage_path)`.
unfoldable pub compact : ℕ → ℕ → Engine → Engine
compact time_ns now s =
    let after = Compaction.compact s.storage_path time_ns now (shared s) in
    record s {
      manifest = after.manifest;
      files = after.files;
      compaction_in_progress = after.in_progress;
    }

-- The value that a key has from now on, where it has one.
abbrev pub Change : Type 0
Change = Bytes × Option Bytes

unfoldable pub put_change : Bytes → Bytes → Change
put_change key value = (key, some value)

unfoldable pub batch_changes : List Bytes → List Bytes → List Change
batch_changes [] values = []
batch_changes (key ∷ keys) [] = []
batch_changes (key ∷ keys) (value ∷ values) = put_change key value ∷ batch_changes keys values

-- A call that raises makes none of its changes.
abbrev pub made : Result (Unit {0}) → List Change → List Change
made (ok u) changes = changes
made (raise e) changes = []

-- What a call or a thread does to the engine, with the changes that a client made by it. Where a
-- table is written, the clock gives a path that no table has, and a time that is later than that of
-- the tables of the level.
pub data Step (s : Engine) : List Change → Engine → Type 0 where
  put_step :
      (key value : Bytes)
      → IsBytes key
      → Step s (made (put key value s).0 (put_change key value ∷ [])) (put key value s).1
  delete_step :
      (key : Bytes)
      → IsBytes key
      → Step s (made (delete key s).0 ((key, none) ∷ [])) (delete key s).1
  batch_step :
      (keys values : List Bytes)
      → All IsBytes keys
      → Step s
          (made (batch_put keys values s).0 (batch_changes keys values))
          (batch_put keys values s).1
  flush_step :
      (now created : ℕ)
      → Unused (flushed_path s.storage_path now) (iter_sstable_metadata none true s.manifest)
      → OlderThan created (get_level_sstables 0 s.manifest)
      → Step s [] (flush now created s)
  compact_step :
      (time_ns now : ℕ)
      → Unused (compacted_path s.storage_path time_ns) (iter_sstable_metadata none true s.manifest)
      → OlderThan now (get_level_sstables 1 s.manifest)
      → Step s [] (compact time_ns now s)

pub data Run : Engine → List Change → Engine → Type 0 where
  stop : (s : Engine) → Run s [] s
  step :
      (s s' s'' : Engine) (changes later : List Change)
      → Step s changes s'
      → Run s' later s''
      → Run s (changes ++ later) s''

-- A map from keys to values, which the changes are made to, the first one first.
abbrev pub Map : Type 0
Map = Bytes → Option Bytes

abbrev pub no_keys : Map
no_keys key = none

unfoldable pub change : List Change → Map → Map
change [] d = d
change ((key, value) ∷ changes) d = change changes (λ j. if key == j then value else d j)

-- What a read shows of a value: one that is the tombstone's bytes is read as no value.
unfoldable pub shown : Option Bytes → Option Bytes
shown none = none
shown (some value) = if value == tombstone then none else some value

-- A map as it is read.
abbrev pub visible : Map → Map
visible d j = shown (d j)

unfoldable pub seen : List Change → List Change
seen [] = []
seen ((key, value) ∷ changes) = (key, shown value) ∷ seen changes
