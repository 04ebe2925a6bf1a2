-- ===== src/Engine/Reads.antt =====
-- What `get` of src/storage/engine.py returns after a `put` and after a `delete`.
use logvine.Prelude.{
  ℕ, ◌≡◌, refl, sym, ◌∙◌, ap, ap₂, Option, none, some, [], arith, if◌then◌else◌, ◌==◌, true, max,
  Bool-cases, inl, inr,
}
use logvine.Prelude.Bytes.{Bytes, bytes_eq, bytes_beq}
use logvine.Prelude.Result.{Result, ok, raise, ◌>>=◌, key_error}
use logvine.MemTable
use logvine.MemTable.{MemTable, tombstone}
use logvine.MemTable.Reads.{get-put, get-delete, get-rotate}
use logvine.Wal.{operation_put, operation_delete}
use logvine.Wal.Log
use logvine.Wal.Log.{Wal}
use logvine.SsTableManager
use logvine.SsTableManager.{iter_sstable_metadata, level_entries, get_first, each_level}
use logvine.Manifest.{Levels, iter_levels, level_lt}
use logvine.Prelude.Order.{sorted}
use logvine.SsTable.{Files}
use logvine.Engine.{
  Engine, put, put_logged, put_locked, get, get_stored, found, delete, delete_logged,
}

-- A read depends on the read of the table in memory, the files and the levels.
stored : Bytes → Option Bytes → Files → Levels → Result (Option Bytes)
stored j none files levels = get_first j files (each_level true (sorted level_lt levels))
stored j (some value) files levels = ok (some value)

get_stored-stored :
    (j : Bytes) (o : Option Bytes) (s : Engine)
    → get_stored j o s ≡ stored j o s.files s.manifest.levels
unfolding stored get_stored SsTableManager.get iter_sstable_metadata level_entries iter_levels
get_stored-stored j none s = refl
get_stored-stored j (some value) s = refl

abbrev answer : Bytes → Option Bytes → Files → Levels → Result Bytes
answer j o files levels = stored j o files levels >>= found

get-answer :
    (j : Bytes) (s : Engine)
    → get j s ≡ answer j (MemTable.get j s.memtable) s.files s.manifest.levels
unfolding get
get-answer j s = rw (get_stored-stored j (MemTable.get j s.memtable) s) refl

-- Noting an offset changes no read.
pub get-noted :
    (j : Bytes) (n : ℕ) (m : MemTable)
    → MemTable.get j (record m { max_wal_offset = n }) ≡ MemTable.get j m
unfolding MemTable.get
get-noted j n m = refl

pub get-put_unlocked :
    (key j value : Bytes) (m : MemTable)
    → MemTable.get j (MemTable.put_unlocked key value m)
      ≡ (if key == j then some value else MemTable.get j m)
get-put_unlocked key j value m = unfold MemTable.put in get-put key j value m

pub get-rotate_unlocked :
    (j : Bytes) (m : MemTable) → MemTable.get j (MemTable.rotate_unlocked m) ≡ MemTable.get j m
get-rotate_unlocked j m = unfold MemTable.rotate in get-rotate j m

-- Whether or not the table is rotated, a put under the lock is a put for later reads.
pub get-put_locked :
    (key j value : Bytes) (offset : ℕ) (m : MemTable)
    → MemTable.get j (put_locked key value offset m).0
      ≡ (if key == j then some value else MemTable.get j m)
unfolding put_locked
get-put_locked key j value offset m =
    let stored = MemTable.put_unlocked key value m in
    let noted = record stored { max_wal_offset = max stored.max_wal_offset offset } in
    let reads : MemTable.get j noted ≡ (if key == j then some value else MemTable.get j m) =
      get-noted j (max stored.max_wal_offset offset) stored ∙ get-put_unlocked key j value m in
    elim (Bool-cases (MemTable.is_full noted)) [
      | inl full ↦ rw full (get-rotate_unlocked j noted ∙ reads)
      | inr room ↦ rw room reads
    ]

-- Two engines over the same files and levels answer alike where their tables in memory do.
pub get-same :
    (j : Bytes) (s s' : Engine)
    → s'.files ≡ s.files
    → s'.manifest.levels ≡ s.manifest.levels
    → MemTable.get j s'.memtable ≡ MemTable.get j s.memtable
    → get j s' ≡ get j s
get-same j s s' files levels reads =
    get-answer j s'
    ∙ ap₂ (answer j (MemTable.get j s'.memtable)) files levels
    ∙ ap (λ o. answer j o s.files s.manifest.levels) reads
    ∙ sym (get-answer j s)

-- A read that the table in memory answers.
pub get-some :
    (j value : Bytes) (s : Engine)
    → MemTable.get j s.memtable ≡ some value
    → get j s ≡ found (some value)
unfolding stored
get-some j value s h = get-answer j s ∙ ap (λ o. answer j o s.files s.manifest.levels) h

-- A write of one key over the same files and levels.
pub get-written :
    (key j value : Bytes) (s s' : Engine)
    → s'.files ≡ s.files
    → s'.manifest.levels ≡ s.manifest.levels
    → MemTable.get j s'.memtable ≡ (if key == j then some value else MemTable.get j s.memtable)
    → get j s' ≡ (if key == j then found (some value) else get j s)
get-written key j value s s' files levels reads = elim (Bool-cases (key == j)) [
  | inl q ↦ rw q (get-some j value s' (rw q at reads))
  | inr q ↦ rw q (get-same j s s' files levels (rw q at reads))
]

pub get-put_logged :
    (key j value : Bytes) (r : Result ℕ) (w : Wal) (s : Engine)
    → (put_logged key value (r, w) s).0 ≡ ok tt
    → get j (put_logged key value (r, w) s).1 ≡ (if key == j then found (some value) else get j s)
unfolding put_logged
get-put_logged key j value (raise e) w s h = absurd (ground arith)
get-put_logged key j value (ok offset) w s h =
    get-written key j value s (put_logged key value (ok offset, w) s).1 refl refl
      (get-put_locked key j value offset s.memtable)

-- After a put that reports success, a read of its key returns the value put, or raises KeyError if
-- the value is the tombstone's bytes, and a read of any other key answers as before the put.
pub get-put_engine :
    (key j value : Bytes) (s : Engine)
    → (put key value s).0 ≡ ok tt
    → get j (put key value s).1 ≡ (if key == j then found (some value) else get j s)
unfolding put
get-put_engine key j value s h =
    let (r, w) = Log.append operation_put key value s.wal in get-put_logged key j value r w s h

pub get-delete_logged :
    (key j : Bytes) (r : Result ℕ) (w : Wal) (s : Engine)
    → (delete_logged key (r, w) s).0 ≡ ok tt
    → get j (delete_logged key (r, w) s).1 ≡ (if key == j then found (some tombstone) else get j s)
unfolding delete_logged
get-delete_logged key j (raise e) w s h = absurd (ground arith)
get-delete_logged key j (ok offset) w s h =
    get-written key j tombstone s (delete_logged key (ok offset, w) s).1 refl refl (
      unfold MemTable.set_max_wal_offset in
      get-noted j (max (MemTable.delete key s.memtable).max_wal_offset offset)
        (MemTable.delete key s.memtable)
      ∙ get-delete key j s.memtable)

-- The tombstone's bytes are not a value.
pub found-tombstone : found (some tombstone) ≡ raise key_error
unfolding found bytes_beq
found-tombstone = refl

-- After a delete that reports success, a read of its key raises KeyError, and a read of any other
-- key answers as before the delete.
pub get-delete_engine :
    (key j : Bytes) (s : Engine)
    → (delete key s).0 ≡ ok tt
    → get j (delete key s).1 ≡ (if key == j then raise key_error else get j s)
unfolding delete
get-delete_engine key j s h =
    let (r, w) = Log.append operation_delete key [] s.wal in
    get-delete_logged key j r w s h
    ∙ ap (λ (o : Result Bytes). if key == j then o else get j s) found-tombstone
