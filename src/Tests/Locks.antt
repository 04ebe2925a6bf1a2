-- ===== src/Tests/Locks.antt =====
-- The theorems about the reader-writer lock, each in a state that two threads reach.
use logvine.Prelude.{true, false, ℕ, ◌≡◌, ◌≢◌, refl, arith}
use logvine.MemTable.Lock.{
  System, Reach, here, next, pick, writing, reading, idle, update, start_writing, enter, count,
  is_first, entered, counted, first,
}
use logvine.MemTable.Lock.Safety
use logvine.MemTable.Lock.Safety.{Progress}

-- Thread 0 writes.
abbrev one_writes : System
one_writes = record {
  shared = record { read_lock = false; write_lock = true; read_count = 0 };
  pc = update (λ i. idle) 0 writing;
}

one_writes-Reach : Reach 2 one_writes
one_writes-Reach = next here (pick 0 (omega arith) (start_writing refl))

mutual_exclusion_example :
    (one_writes.pc 1 ≡ writing → ◌≡◌ {A = ℕ} 0 1) × (one_writes.pc 1 ≢ reading)
mutual_exclusion_example =
    Safety.mutual_exclusion 0 1 one_writes-Reach (omega arith) (omega arith) refl

-- Thread 1 is the first reader, and waits for thread 0.
abbrev one_waits : System
one_waits = record {
  shared = record { read_lock = true; write_lock = true; read_count = 1 };
  pc = update (update (update one_writes.pc 1 entered) 1 counted) 1 first;
}

one_waits-Reach : Reach 2 one_waits
one_waits-Reach =
    next
      (next (next one_writes-Reach (pick 1 (omega arith) (enter refl)))
        (pick 1 (omega arith) count))
      (pick 1 (omega arith) (is_first refl))

no_deadlock_example : Progress 2 one_waits
no_deadlock_example = Safety.no_deadlock 1 one_waits-Reach (omega arith) (ground arith)
