-- ===== src/Engine/Flush.antt =====
-- `flush` and `flush_all` of src/storage/engine.py.
use logvine.Prelude.{ℕ, ◌≡◌, refl, ◌∙◌, ap, ap₂, none, List, [], ◌∷◌, ◌++◌, arith, true}
use logvine.Prelude.Bytes.{Bytes}
use logvine.Prelude.Order.{sorted}
use logvine.Prelude.Result.{Result, ok, raise}
use logvine.Prelude.Dict.{Dict}
use logvine.MemTable
use logvine.MemTable.{MemTable, Difference, pair_lt, oldest_items}
use logvine.Wal.{operation_put}
use logvine.Wal.Log
use logvine.Wal.Log.{Wal}
use logvine.Engine.{
  Engine, flush, flush_items, flush_all, batch_put, batch_logged, batch_locked, put_all,
}
use logvine.Engine.Batches.{batch_size, batch_put_accepted, batch_put-ok}

-- An empty buffer at the head of the queue is not taken off it: the flush does nothing.
flush_stuck :
    (now created : ℕ) (s : Engine)
    → MemTable.get_frozen_items s.memtable ≡ []
    → flush now created s ≡ s
unfolding flush flush_items sorted
flush_stuck now created s h = rw h refl

-- With an empty buffer at the head of the queue, `flush_all` does not end, however many rounds it
-- has.
pub flush_all_stuck :
    (clock : List (ℕ × ℕ)) (offset : ℕ) (rest : List (Dict Bytes Bytes × ℕ)) (s : Engine)
    → s.memtable.frozen_queue ≡ ([], offset) ∷ rest
    → flush_all clock s ≡ none
unfolding flush_all MemTable.get_frozen_queue_depth
flush_all_stuck [] offset rest s h = rw h (ground arith)
flush_all_stuck ((now, created) ∷ clock) offset rest s h =
    let same : flush now created s ≡ s =
      flush_stuck now created s
        (unfold MemTable.get_frozen_items MemTable.oldest_items in rw h refl) in
    let later : flush_all clock (flush now created s) ≡ none =
      ap (flush_all clock) same ∙ flush_all_stuck clock offset rest s h in
    rw (later, h) (ground arith)

frozen-put_all :
    (keys values : List Bytes) (m : MemTable)
    → (put_all keys values m).frozen_queue ≡ m.frozen_queue
unfolding put_all MemTable.put_unlocked
frozen-put_all [] values m = refl
frozen-put_all (key ∷ keys) [] m = refl
frozen-put_all (key ∷ keys) (value ∷ values) m =
    frozen-put_all keys values (MemTable.put_unlocked key value m)

frozen-batch_logged :
    (keys values : List Bytes) (size : Difference) (r : Result ℕ) (w : Wal) (s : Engine)
    → (batch_logged keys values size (r, w) s).0 ≡ ok tt
    → MemTable.batch_would_exceed size s.memtable ≡ true
    → (batch_logged keys values size (r, w) s).1.memtable.frozen_queue
      ≡ s.memtable.frozen_queue ++ (s.memtable.active, s.memtable.max_wal_offset) ∷ []
unfolding batch_logged batch_locked MemTable.rotate_unlocked
frozen-batch_logged keys values size (raise e) w s h full = absurd (ground arith)
frozen-batch_logged keys values size (ok offset) w s h full =
    rw full (frozen-put_all keys values (MemTable.rotate_unlocked s.memtable))

-- A batch that is accepted by an engine with nothing in memory and nothing frozen, and that alone
-- reaches the size at which the table is rotated, freezes an empty buffer before it stores its
-- pairs: `flush_all` does not end after it, however many rounds it has.
pub batch_put_blocks :
    (keys values : List Bytes) (s : Engine) (clock : List (ℕ × ℕ))
    → (batch_put keys values s).0 ≡ ok tt
    → s.memtable.active ≡ []
    → s.memtable.frozen_queue ≡ []
    → MemTable.batch_would_exceed (batch_size keys values s) s.memtable ≡ true
    → flush_all clock (batch_put keys values s).1 ≡ none
batch_put_blocks keys values s clock h empty unfrozen full =
    let size = batch_size keys values s in
    let (r, w) = Log.append_batch operation_put keys values s.wal in
    let accepted = batch_put_accepted keys values s (batch_put-ok keys values s h) in
    let queue = frozen-batch_logged keys values size r w s (rw accepted at h) full in
    flush_all_stuck clock s.memtable.max_wal_offset [] (batch_put keys values s).1 (
      ap (λ (p : Result Unit × Engine). p.1.memtable.frozen_queue) accepted
      ∙ queue
      ∙ ap₂
          (λ (q : List (Dict Bytes Bytes × ℕ)) (d : Dict Bytes Bytes).
            q ++ (d, s.memtable.max_wal_offset) ∷ [])
          unfrozen empty)
