-- ===== src/Engine/Refines.antt =====
-- The engine of src/storage/engine.py is a map: whatever its threads do, a read has the last change.
use logvine.Prelude.{
  ℕ, ◌≡◌, refl, sym, ap, ◌∙◌, fun_ext, Bool, true, false, Option, none, List, [], ◌∷◌, ◌++◌,
  if◌then◌else◌, ◌==◌,
}
use logvine.Prelude.Bytes.{Bytes, bytes_eq}
use logvine.Prelude.Result.{ok}
use logvine.MemTable
use logvine.MemTable.{MemTable, Difference, tombstone}
use logvine.Wal
use logvine.Wal.Log
use logvine.Wal.Log.{Wal}
use logvine.Wal.{operation_put, operation_delete}
use logvine.SsTable.{FilePath}
use logvine.Prelude.Dict
use logvine.Prelude.Order.{sorted}
use logvine.SsTableManager
use logvine.Manifest
use logvine.Manifest.{Manifest}
use logvine.Engine.{Engine, init, replay_entries, get, get_stored, found}
use logvine.Engine.FlushSound.{Healthy}
use logvine.Engine.System.{Change, Map, Run, change, no_keys, stop, step, shown, visible, seen}
use logvine.Engine.Makes.{Implements, answer, Step-Makes}

shown-if :
    (b : Bool) (x y : Option Bytes) → (if b then shown x else shown y) ≡ shown (if b then x else y)
shown-if true x y = refl
shown-if false x y = refl

change-append :
    (changes later : List Change) (d : Map)
    → change (changes ++ later) d ≡ change later (change changes d)
unfolding change
change-append [] later d = refl
change-append ((key, value) ∷ changes) later d =
    change-append changes later (λ j. if key == j then value else d j)

-- Reading after the changes is seeing the changes.
visible-change :
    (changes : List Change) (d : Map) (j : Bytes)
    → change (seen changes) (visible d) j ≡ visible (change changes d) j
unfolding change seen
visible-change [] d j = refl
visible-change ((key, value) ∷ changes) d j =
    ap (λ (m : Map). change (seen changes) m j) (fun_ext (λ i. shown-if (key == i) value (d i)))
    ∙ visible-change changes (λ i. if key == i then value else d i) j

-- The engine is a map: a run of puts, deletes and batches, whether they succeed or raise, and of
-- flushes and compactions, whether they complete or fail, in any order, has each read answer as the
-- map with the changes that the successful calls made, in their order, with one exception that the
-- code makes: a key whose value in the map is the bytes of the tombstone reads as one that is not
-- there, whoever put these bytes. It starts at an engine whose
-- reads are those of a map and that is healthy (its buffers hold keys that are bytes and differ, its
-- tables stand as they were written, those of level 0 at paths of no other level, and its manifest has
-- each level once), and ends at a healthy one. The keys of the calls are bytes, and where a table is
-- written the clock gives a path that no table has and a time after those of its level.
pub Run-Implements :
    (s s' : Engine) (changes : List Change) (d : Map)
    → Run s changes s'
    → Healthy s
    → Implements s (visible d)
    → Healthy s' × Implements s' (visible (change changes d))
unfolding change
Run-Implements s s' changes d (stop t) h reads = (h, reads)
Run-Implements s s' changes d (step t u v now later first rest) h reads =
    let (healthy, makes) = Step-Makes s u now first h in
    let reads_now : Implements u (visible (change now d)) =
      λ j. makes (visible d) reads j ∙ ap answer (visible-change now d j) in
    let (healthy', reads') = Run-Implements u s' later (change now d) rest healthy reads_now in
    (
      healthy',
      λ j. reads' j ∙ ap (λ (e : Map). answer (visible e j)) (sym (change-append now later d)),
    )

-- The engine of a first start, on an empty disk.
abbrev pub empty_engine : FilePath → ℕ → Engine
empty_engine storage_path max_size = record {
  storage_path = storage_path;
  memtable_max_size = max_size;
  wal = Log.init none;
  manifest = Manifest.load (Manifest.init none);
  memtable = MemTable.init max_size;
  files = [];
  compaction_in_progress = false;
  started_flushes = 0;
  started_compactions = 0;
}

pub empty_engine-Healthy :
    (storage_path : FilePath) (max_size : ℕ) → Healthy (empty_engine storage_path max_size)
unfolding MemTable.init Manifest.load Manifest.init Manifest.get_level_sstables Dict.get
    SsTableManager.iter_sstable_metadata SsTableManager.each_level SsTableManager.level_entries
    Manifest.iter_levels sorted
empty_engine-Healthy storage_path max_size = record {
  buffers = record { active = (tt, tt); frozen = tt };
  sound = record { stand = tt; apart = tt; distinct = tt };
}

pub empty_engine-Implements :
    (storage_path : FilePath) (max_size : ℕ)
    → Implements (empty_engine storage_path max_size) (visible no_keys)
unfolding shown get get_stored found answer MemTable.init MemTable.get MemTable.get_frozen Dict.get
    Manifest.load Manifest.init Manifest.iter_levels SsTableManager.get
    SsTableManager.iter_sstable_metadata SsTableManager.level_entries SsTableManager.each_level
    SsTableManager.get_first sorted
empty_engine-Implements storage_path max_size j = refl

-- A start on an empty disk succeeds, and after any such run from it, each read is that of the map
-- with the changes that the successful calls made, where a value that is the bytes of the tombstone
-- reads as a key that is not there: calls with keys that are bytes, flushes and compactions in any
-- order, whether they succeed or fail, where the clock gives each table that is written a path that no
-- table has and a time after those of its level.
pub init-Run :
    (storage_path : FilePath) (max_size : ℕ) (changes : List Change) (s : Engine)
    → Run (empty_engine storage_path max_size) changes s
    → (init storage_path max_size none none [] ≡ ok (empty_engine storage_path max_size))
      × Implements s (visible (change changes no_keys))
unfolding init replay_entries Log.replay_log Log.init Log.open_file Wal.replay Wal.replay_loop
init-Run storage_path max_size changes s run = (
  refl,
  (Run-Implements (empty_engine storage_path max_size) s changes no_keys run
      (empty_engine-Healthy storage_path max_size)
      (empty_engine-Implements storage_path max_size)).1,
)
