-- ===== src/Engine/Makes.antt =====
-- What each call and each thread of src/storage/engine.py does to the map that the engine is.
use logvine.Prelude.{
  ℕ, ◌≡◌, refl, ap, ◌∙◌, Bool, Option, none, some, List, [], ◌∷◌, arith, All, inl, inr,
  if◌then◌else◌, ◌==◌, Bool-cases, or_else, max,
}
use logvine.Prelude.Bytes.{Bytes, IsBytes, bytes_eq, bytes_beq}
use logvine.Prelude.Result.{Result, ok, raise, key_error, ◌>>=◌}
use logvine.MemTable
use logvine.MemTable.{MemTable, Difference, tombstone}
use logvine.Wal.Log
use logvine.Wal.Log.{Wal}
use logvine.Wal.{operation_put, operation_delete}
use logvine.SsTable.{Files}
use logvine.SsTableManager
use logvine.Manifest.{Manifest}
use logvine.Compaction.Reads.{get-compact}
use logvine.Engine.{
  Engine, get, get_stored, found, put, put_logged, delete, delete_logged, batch_put, batch_logged,
}
use logvine.Engine.Reads.{get-same, get-put_logged, get-delete_logged}
use logvine.Engine.Batches.{
  last_pair, over, get-batch_logged, is_accepted, batch_size, batch_put_accepted,
  batch_put_rejected,
}
use logvine.Engine.Buffers.{
  put_locked-Buffers, noted-Buffers, delete-Buffers, batch_locked-Buffers,
  get_frozen_items-IsBuffer,
}
use logvine.Engine.FlushReads.{get-flush}
use logvine.Engine.FlushSound.{Healthy, flush-Healthy}
use logvine.Engine.System.{
  Change, Map, Step, batch_changes, change, compact, made, put_change, seen, shown, shared,
  put_step, delete_step, batch_step, flush_step, compact_step,
}

-- What `get` does with what a map has at the key.
unfoldable pub answer : Option Bytes → Result Bytes
answer none = raise key_error
answer (some value) = ok value

-- Every read of the engine is that of the map.
abbrev pub Implements : Engine → Map → Type 0
Implements s d = (j : Bytes) → get j s ≡ answer (d j)

-- The engine stays healthy, and makes the changes, as they are seen.
abbrev pub Makes : Engine → List Change → Engine → Type 0
Makes s changes s' =
    Healthy s' × ((d : Map) → Implements s d → Implements s' (change (seen changes) d))

-- A call that raises leaves all but the log.
only_log-Makes : (s : Engine) (w : Wal) → Healthy s → Makes s [] (record s { wal = w })
unfolding change seen
only_log-Makes s w h = (
  record { buffers = h.buffers; sound = h.sound },
  λ d reads j. get-same j s (record s { wal = w }) refl refl refl ∙ reads j,
)

put_logged-Makes :
    (key value : Bytes) (r : Result ℕ) (w : Wal) (s : Engine)
    → IsBytes key
    → Healthy s
    → Makes s
        (made (put_logged key value (r, w) s).0 (put_change key value ∷ []))
        (put_logged key value (r, w) s).1
unfolding put_logged
put_logged-Makes key value (raise e) w s new h = only_log-Makes s w h
put_logged-Makes key value (ok offset) w s new h = (
  record {
    buffers = put_locked-Buffers key value offset s.memtable new h.buffers;
    sound = h.sound;
  },
  λ d reads j.
      get-put_logged key j value (ok offset) w s (unfold put_logged in refl)
      ∙ unfold put_change change seen shown found answer in ground (arith, reads j),
)

delete_logged-Makes :
    (key : Bytes) (r : Result ℕ) (w : Wal) (s : Engine)
    → IsBytes key
    → Healthy s
    → Makes s
        (made (delete_logged key (r, w) s).0 ((key, none) ∷ []))
        (delete_logged key (r, w) s).1
unfolding delete_logged MemTable.set_max_wal_offset
delete_logged-Makes key (raise e) w s new h = only_log-Makes s w h
delete_logged-Makes key (ok offset) w s new h =
    let m = MemTable.delete key s.memtable in
    (
      record {
        buffers =
            noted-Buffers (max m.max_wal_offset offset) m
              (delete-Buffers key s.memtable new h.buffers);
        sound = h.sound;
      },
      λ d reads j.
          get-delete_logged key j (ok offset) w s (unfold delete_logged in refl)
          ∙ unfold change seen shown found bytes_beq answer in ground (arith, reads j),
    )

-- The changes of a batch, one by one, are its last pair of each key.
over-batch_changes :
    (j : Bytes) (keys values : List Bytes) (r : Result Bytes) (d : Map)
    → r ≡ answer (d j)
    → over (last_pair j keys values) r ≡ answer (change (seen (batch_changes keys values)) d j)
unfolding last_pair batch_changes change put_change seen shown
over-batch_changes j [] values r d h = h
over-batch_changes j (key ∷ keys) [] r d h = h
over-batch_changes j (key ∷ keys) (value ∷ values) r d h =
    let d' : Map = λ i. if key == i then shown (some value) else d i in
    let first : over (if key == j then some value else none) r ≡ answer (d' j) =
      unfold found answer in ground (arith, h) in
    over-or_else (last_pair j keys values) (if key == j then some value else none) r
    ∙ over-batch_changes j keys values (over (if key == j then some value else none) r) d' first
  where
    over-or_else :
        (a b : Option Bytes) (r : Result Bytes) → over (or_else a b) r ≡ over a (over b r)
    over-or_else none b r = refl
    over-or_else (some v) b r = refl

batch_logged-Makes :
    (keys values : List Bytes) (size : Difference) (r : Result ℕ) (w : Wal) (s : Engine)
    → All IsBytes keys
    → Healthy s
    → Makes s
        (made (batch_logged keys values size (r, w) s).0 (batch_changes keys values))
        (batch_logged keys values size (r, w) s).1
unfolding batch_logged
batch_logged-Makes keys values size (raise e) w s new h = only_log-Makes s w h
batch_logged-Makes keys values size (ok offset) w s new h = (
  record {
    buffers = batch_locked-Buffers keys values size offset s.memtable new h.buffers;
    sound = h.sound;
  },
  λ d reads j.
      get-batch_logged j keys values size (ok offset) w s (unfold batch_logged in refl)
      ∙ over-batch_changes j keys values (get j s) d (reads j),
)

batch_put-Makes :
    (keys values : List Bytes) (s : Engine)
    → All IsBytes keys
    → Healthy s
    → Makes s
        (made (batch_put keys values s).0 (batch_changes keys values))
        (batch_put keys values s).1
batch_put-Makes keys values s new h = elim (Bool-cases (is_accepted keys values s)) [
  | inl accepted ↦
      let (r, w) = Log.append_batch operation_put keys values s.wal in
      rw (batch_put_accepted keys values s accepted)
        (batch_logged-Makes keys values (batch_size keys values s) r w s new h)
  | inr rejected ↦ rw (batch_put_rejected keys values s rejected) (only_log-Makes s s.wal h)
]

-- Other tables and files that answer alike change no read.
get-tables :
    (j : Bytes) (s : Engine) (m : Manifest) (files : Files) (running : Bool)
    → SsTableManager.get j files m ≡ SsTableManager.get j s.files s.manifest
    → get j (record s { manifest = m; files = files; compaction_in_progress = running }) ≡ get j s
unfolding get get_stored
get-tables j s m files running same =
    ap (λ (r : Result (Option Bytes)). r >>= found) (stored (MemTable.get j s.memtable))
  where
    stored :
        (o : Option Bytes)
        → get_stored j o
            (record s { manifest = m; files = files; compaction_in_progress = running })
          ≡ get_stored j o s
    stored none = same
    stored (some value) = refl

pub Step-Makes :
    (s s' : Engine) (changes : List Change) → Step s changes s' → Healthy s → Makes s changes s'
unfolding put delete compact change seen
Step-Makes s s' changes (put_step key value new) h =
    let (r, w) = Log.append operation_put key value s.wal in put_logged-Makes key value r w s new h
Step-Makes s s' changes (delete_step key new) h =
    let (r, w) = Log.append operation_delete key [] s.wal in delete_logged-Makes key r w s new h
Step-Makes s s' changes (batch_step keys values new) h = batch_put-Makes keys values s new h
Step-Makes s s' changes (flush_step now created unused newer) h =
    let (distinct, are_bytes) = get_frozen_items-IsBuffer s.memtable h.buffers in
    (
      flush-Healthy now created s unused newer h,
      λ d reads j. get-flush now created j s unused newer distinct are_bytes ∙ reads j,
    )
Step-Makes s s' changes (compact_step time_ns now unused newer) h =
    let after = compact time_ns now s in
    let (sound, same) = get-compact s.storage_path time_ns now (shared s) unused newer h.sound in
    (
      record { buffers = h.buffers; sound = sound },
      λ d reads j.
          get-tables j s after.manifest after.files after.compaction_in_progress (same j) ∙ reads j,
    )
