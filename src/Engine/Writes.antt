-- ===== src/Engine/Writes.antt =====
-- Sequences of `put` and `delete` of src/storage/engine.py, and a restart after them.
use logvine.Prelude.{
  ℕ, ◌+◌, ◌<◌, ◌^◌, ◌≡◌, refl, none, some, List, [], ◌∷◌, ◌++◌, arith, length, if◌then◌else◌, ◌==◌,
  All,
}
use logvine.Prelude.Bytes.{Bytes, bytes_eq}
use logvine.Prelude.Result.{Result, ok, raise}
use logvine.MemTable
use logvine.MemTable.{MemTable, tombstone, get_frozen}
use logvine.MemTable.Reads.{get-delete}
use logvine.Wal.{operation_put, operation_delete}
use logvine.Wal.Replay.{LogOp}
use logvine.Wal.Append.{Holds, append-Holds, log_end}
use logvine.Wal.Fits.{construct_record_total}
use logvine.Wal.Log
use logvine.Wal.Log.{Wal, replay_log, absent}
use logvine.Engine
use logvine.Engine.{
  Engine, replay_entry, replay_entries, end_result, put_logged, put_locked, delete_logged, get,
}
use logvine.Engine.Reads.{get-put_locked}
use logvine.Engine.Recovery.{
  IsRecoverable, logged_by, last_logged-append, get-set_max_wal_offset, get-restart,
}

-- The operations that `put` and `delete` log.
abbrev pub put_op : Bytes → Bytes → LogOp
put_op key value = record { operation = operation_put; key = key; value = value }

abbrev pub delete_op : Bytes → LogOp
delete_op key = record { operation = operation_delete; key = key; value = [] }

logged_by-put_op :
    (j key value : Bytes) → logged_by j (put_op key value) ≡ (if key == j then some value else none)
unfolding logged_by
logged_by-put_op j key value = refl

logged_by-delete_op :
    (j key : Bytes) → logged_by j (delete_op key) ≡ (if key == j then some tombstone else none)
unfolding logged_by
logged_by-delete_op j key = refl

put_logged-IsRecoverable :
    (ops : List LogOp) (key value : Bytes) (r : Result ℕ) (w : Wal) (s : Engine) (offset : ℕ)
    → IsRecoverable ops s
    → r ≡ ok offset
    → Holds (ops ++ put_op key value ∷ []) w
    → ((put_logged key value (r, w) s).0 ≡ ok tt)
      × IsRecoverable (ops ++ put_op key value ∷ []) (put_logged key value (r, w) s).1
unfolding put_logged
put_logged-IsRecoverable ops key value (raise e) w s offset v done held = absurd (ground arith)
put_logged-IsRecoverable ops key value (ok n) w s offset v done held = (
  refl,
  record {
    holds = held;
    reads = λ j. ground (
      arith,
      get-put_locked key j value n s.memtable,
      last_logged-append j ops (put_op key value),
      logged_by-put_op j key value,
      v.reads j,
    );
    saved = v.saved;
  },
)

-- A put of a pair that fits in a record succeeds and is recoverable: the log has it last.
pub put-IsRecoverable :
    (ops : List LogOp) (key value : Bytes) (s : Engine)
    → IsRecoverable ops s
    → 13 + length key + length value < 256 ^ 4
    → ((Engine.put key value s).0 ≡ ok tt)
      × IsRecoverable (ops ++ put_op key value ∷ []) (Engine.put key value s).1
unfolding Engine.put
put-IsRecoverable ops key value s v fits =
    let (bytes, made) = construct_record_total operation_put key value (omega arith) fits in
    let (returned, held) = append-Holds ops (put_op key value) s.wal bytes v.holds made in
    let (r, w) = Log.append operation_put key value s.wal in
    put_logged-IsRecoverable ops key value r w s (log_end 0 ops) v returned held

delete_logged-IsRecoverable :
    (ops : List LogOp) (key : Bytes) (r : Result ℕ) (w : Wal) (s : Engine) (offset : ℕ)
    → IsRecoverable ops s
    → r ≡ ok offset
    → Holds (ops ++ delete_op key ∷ []) w
    → ((delete_logged key (r, w) s).0 ≡ ok tt)
      × IsRecoverable (ops ++ delete_op key ∷ []) (delete_logged key (r, w) s).1
unfolding delete_logged
delete_logged-IsRecoverable ops key (raise e) w s offset v done held = absurd (ground arith)
delete_logged-IsRecoverable ops key (ok n) w s offset v done held = (
  refl,
  record {
    holds = held;
    reads = λ j. ground (
      arith,
      get-set_max_wal_offset j n (MemTable.delete key s.memtable),
      get-delete key j s.memtable,
      last_logged-append j ops (delete_op key),
      logged_by-delete_op j key,
      v.reads j,
    );
    saved = v.saved;
  },
)

-- A delete of a key that fits in a record succeeds and is recoverable: the log has it last.
pub delete-IsRecoverable :
    (ops : List LogOp) (key : Bytes) (s : Engine)
    → IsRecoverable ops s
    → 13 + length key < 256 ^ 4
    → ((Engine.delete key s).0 ≡ ok tt)
      × IsRecoverable (ops ++ delete_op key ∷ []) (Engine.delete key s).1
unfolding Engine.delete
delete-IsRecoverable ops key s v fits =
    let (bytes, made) =
      construct_record_total operation_delete key [] (omega arith) (omega arith) in
    let (returned, held) = append-Holds ops (delete_op key) s.wal bytes v.holds made in
    let (r, w) = Log.append operation_delete key [] s.wal in
    delete_logged-IsRecoverable ops key r w s (log_end 0 ops) v returned held

-- Calls of the engine, and what they leave.
pub data Write : Type 0 where
  put : Bytes → Bytes → Write
  delete : Bytes → Write

unfoldable pub apply : Write → Engine → Engine
apply (put key value) s = (Engine.put key value s).1
apply (delete key) s = (Engine.delete key s).1

unfoldable pub run : List Write → Engine → Engine
run [] s = s
run (c ∷ cs) s = run cs (apply c s)

-- The key and the value leave room for the frame of a record in 32 bits.
abbrev pub Fits : Write → Type 0
Fits (put key value) = 13 + length key + length value < 256 ^ 4
Fits (delete key) = 13 + length key < 256 ^ 4

abbrev pub op_of : Write → LogOp
op_of (put key value) = put_op key value
op_of (delete key) = delete_op key

apply-IsRecoverable :
    (c : Write) (ops : List LogOp) (s : Engine)
    → Fits c
    → IsRecoverable ops s
    → IsRecoverable (ops ++ op_of c ∷ []) (apply c s)
unfolding apply
apply-IsRecoverable (put key value) ops s fits v = (put-IsRecoverable ops key value s v fits).1
apply-IsRecoverable (delete key) ops s fits v = (delete-IsRecoverable ops key s v fits).1

run-IsRecoverable :
    (cs : List Write) (ops : List LogOp) (s : Engine)
    → All Fits cs
    → IsRecoverable ops s
    → (all : List LogOp) × IsRecoverable all (run cs s)
unfolding run
run-IsRecoverable [] ops s fits v = (ops, v)
run-IsRecoverable (c ∷ cs) ops s fits v =
    run-IsRecoverable cs (ops ++ op_of c ∷ []) (apply c s) fits.1
      (apply-IsRecoverable c ops s fits.0 v)

-- From an engine that is recoverable, such as a fresh one, any sequence of puts and deletes that fit
-- in records is durable with no flush: if the process stops after it, a start over what is on disk
-- succeeds, and each read then answers as it did before the stop.
pub get-run_restart :
    (cs : List Write) (ops : List LogOp) (s : Engine) (max_size : ℕ)
    → All Fits cs
    → IsRecoverable ops s
    → (s' : Engine) × (Engine.init
          (run cs s).storage_path
          max_size
          (run cs s).wal.content
          (run cs s).manifest.file
          (run cs s).files
        ≡ ok s')
      × ((j : Bytes) → get j s' ≡ get j (run cs s))
get-run_restart cs ops s max_size fits v =
    let (all, after) = run-IsRecoverable cs ops s fits v in
    let (s', start, valid, same) = get-restart all (run cs s) max_size after in (s', start, same)
