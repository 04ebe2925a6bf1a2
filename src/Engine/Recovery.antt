-- ===== src/Engine/Recovery.antt =====
-- A restart of src/storage/engine.py: what `replay_wal` rebuilds from the log that `put` and `delete`
-- wrote.
use logvine.Prelude.{
  ℕ, ◌+◌, ◌≡◌, refl, sym, ◌∙◌, ap, Option, none, some, List, [], ◌∷◌, ◌++◌, arith, if◌then◌else◌,
  ◌==◌, or_else, nat_beq, max, false, inl,
}
use logvine.Prelude.Bytes.{Bytes, bytes_eq}
use logvine.Prelude.Result.{ok}
use logvine.Prelude.Dict
use logvine.MemTable
use logvine.MemTable.{MemTable, tombstone, get_frozen}
use logvine.MemTable.Reads.{get-put, get-delete}
use logvine.Wal.{Replayed, operation_put, operation_delete}
use logvine.Wal.Record.{entry_at}
use logvine.Wal.Replay.{LogOp, IsLog, entries_from, record_size}
use logvine.Wal.Append.{Holds, replay_log-Holds}
use logvine.Wal.Log
use logvine.Wal.Log.{Wal, replay_log, absent}
use logvine.Manifest
use logvine.Manifest.{Manifest, Saved}
use logvine.SsTable.{Files, FilePath}
use logvine.Engine
use logvine.Engine.{
  Engine, replay_entry, replay_entries, end_result, put_logged, put_locked, delete_logged, get,
}
use logvine.Engine.Reads.{get-noted, get-same}

-- What an operation of the log writes to a key, and the last such write.
unfoldable pub logged_by : Bytes → LogOp → Option Bytes
logged_by j o =
    if nat_beq o.operation operation_put
    then if o.key == j then some o.value else none
    else if nat_beq o.operation operation_delete
    then if o.key == j then some tombstone else none
    else none

unfoldable pub last_logged : Bytes → List LogOp → Option Bytes
last_logged j [] = none
last_logged j (o ∷ os) = or_else (last_logged j os) (logged_by j o)

pub get-set_max_wal_offset :
    (j : Bytes) (n : ℕ) (m : MemTable)
    → MemTable.get j (MemTable.set_max_wal_offset n m) ≡ MemTable.get j m
unfolding MemTable.set_max_wal_offset
get-set_max_wal_offset j n m = get-noted j (max m.max_wal_offset n) m

get-replay_entry :
    (j : Bytes) (offset : ℕ) (o : LogOp) (m : MemTable)
    → MemTable.get j (replay_entry (entry_at offset o.operation o.key o.value) m)
      ≡ or_else (logged_by j o) (MemTable.get j m)
unfolding replay_entry logged_by
get-replay_entry j offset o m =
    rw get-set_max_wal_offset (ground (arith, get-put o.key j o.value m, get-delete o.key j m))

-- Replaying the entries of a log leaves at each key the last write of the log to it.
get-replay_entries :
    (j : Bytes) (ops : List LogOp) (offset : ℕ) (m : MemTable)
    → MemTable.get j (replay_entries (entries_from offset ops) m)
      ≡ or_else (last_logged j ops) (MemTable.get j m)
unfolding replay_entries last_logged
get-replay_entries j [] offset m = refl
get-replay_entries j (o ∷ os) offset m =
    let m' = replay_entry (entry_at offset o.operation o.key o.value) m in
    ground
      (arith, get-replay_entries j os (offset + record_size o) m', get-replay_entry j offset o m)

pub last_logged-append :
    (j : Bytes) (os : List LogOp) (o : LogOp)
    → last_logged j (os ++ o ∷ []) ≡ or_else (logged_by j o) (last_logged j os)
unfolding last_logged
last_logged-append j [] o = ground arith
last_logged-append j (p ∷ os) o = ground (arith, last_logged-append j os o)

get-init : (j : Bytes) (n : ℕ) → MemTable.get j (MemTable.init n) ≡ none
unfolding MemTable.init MemTable.get MemTable.get_frozen
get-init j n = unfold Dict.get in refl

or_else-none {ℓ} : {A : Type ℓ} (o : Option A) → or_else o none ≡ o
or_else-none none = refl
or_else-none (some a) = refl

-- The log holds these operations, the table in memory answers by them, and the saved manifest has
-- the levels of the one in memory.
pub record IsRecoverable (ops : List LogOp) (s : Engine) : Type 0 where
  pub holds : Holds ops s.wal
  pub reads : (j : Bytes) → MemTable.get j s.memtable ≡ last_logged j ops
  pub saved : (Manifest.load (Manifest.init s.manifest.file)).levels ≡ s.manifest.levels

-- The engine that a start makes.
abbrev restarted : FilePath → ℕ → Option Bytes → Option Saved → Files → Engine
restarted path max_size log file files = record {
  storage_path = path;
  memtable_max_size = max_size;
  wal = Log.init log;
  manifest = Manifest.load (Manifest.init file);
  memtable = replay_entries (replay_log (Log.init log)).entries (MemTable.init max_size);
  files = files;
  compaction_in_progress = false;
  started_flushes = 0;
  started_compactions = 0;
}

opened-Holds : (ops : List LogOp) (log : Bytes) → IsLog ops log → Holds ops (Log.init (some log))
unfolding Log.init Log.open_file
opened-Holds ops log h = record { log = log; content_is = refl; is_log = h; handle_is = inl refl }

load-saved :
    (file : Option Saved)
    → (Manifest.load (Manifest.init (Manifest.load (Manifest.init file)).file)).levels
      ≡ (Manifest.load (Manifest.init file)).levels
unfolding Manifest.load Manifest.init
load-saved none = refl
load-saved (some saved) = refl

restarted-IsRecoverable :
    (ops : List LogOp) (log : Bytes) (path : FilePath) (max_size : ℕ) (file : Option Saved)
    (files : Files)
    → IsLog ops log
    → (Engine.init path max_size (some log) file files
        ≡ ok (restarted path max_size (some log) file files))
      × IsRecoverable ops (restarted path max_size (some log) file files)
unfolding Engine.init
restarted-IsRecoverable ops log path max_size file files h =
    let held = opened-Holds ops log h in
    let replayed = replay_log-Holds ops (Log.init (some log)) held in
    let m = MemTable.init max_size in
    (
      ap (λ (r : Replayed). end_result r.ending (restarted path max_size (some log) file files))
          replayed,
      record {
        holds = held;
        reads = λ j.
            ap (λ (r : Replayed). MemTable.get j (replay_entries r.entries m)) replayed
            ∙ get-replay_entries j ops 0 m
            ∙ ap (or_else (last_logged j ops)) (get-init j max_size)
            ∙ or_else-none (last_logged j ops);
        saved = load-saved file;
      },
    )

-- A crash loses the memory and keeps the disk. A start over the disk of a recoverable engine
-- succeeds, is recoverable from the same log, and answers each read as the engine did.
pub get-restart :
    (ops : List LogOp) (s : Engine) (max_size : ℕ)
    → IsRecoverable ops s
    → (s' : Engine) × (Engine.init s.storage_path max_size s.wal.content s.manifest.file s.files
        ≡ ok s')
      × IsRecoverable ops s'
      × ((j : Bytes) → get j s' ≡ get j s)
get-restart ops s max_size r =
    let h = r.holds in
    let again =
      restarted-IsRecoverable ops h.log s.storage_path max_size s.manifest.file s.files h.is_log in
    let s' = restarted s.storage_path max_size (some h.log) s.manifest.file s.files in
    (
      s',
      ap (λ (c : Option Bytes). Engine.init s.storage_path max_size c s.manifest.file s.files)
            h.content_is
          ∙ again.0,
      again.1,
      λ j. get-same j s s' refl r.saved (again.1.reads j ∙ sym (r.reads j)),
    )
