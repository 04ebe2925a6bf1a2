-- ===== src/MemTable/Lock.antt =====
-- The reader-writer lock of src/storage/memtable.py: `n` threads that call `_acquire_read` with
-- `_release_read` and `_acquire_write` with `_release_write`, interleaved in any order.
pub mod Totals
pub mod Invariant
pub mod Safety
use logvine.Prelude.{ℕ, ◌+◌, ◌-◌, ◌<◌, ◌≡◌, ◌≢◌, Bool, true, false, if◌then◌else◌, nat_beq}

-- The two locks of the threading library, true where they are held, and the count of readers.
pub record Shared : Type 0 where
  pub read_lock : Bool
  pub write_lock : Bool
  pub read_count : ℕ

-- Where a thread stands.
pub data Pc : Type 0 where
  idle : Pc
  -- `_acquire_read`: the read lock is taken, the reader is counted, the count was 1, the write lock is
  -- the readers'.
  entered : Pc
  counted : Pc
  first : Pc
  admitted : Pc
  reading : Pc
  -- `_release_read`: the read lock is taken, the reader is not counted any more, the count was 0, the
  -- write lock is given back where that is due.
  leaving : Pc
  uncounted : Pc
  last : Pc
  gone : Pc
  writing : Pc

-- One step of one thread: an `acquire` waits for a lock that is free. What a thread does between the
-- calls is left open, and an idle thread may read or write next.
pub data Move (m : Shared) : Pc → Shared → Pc → Type 0 where
  enter : m.read_lock ≡ false → Move m idle (record m { read_lock = true }) entered
  count : Move m entered (record m { read_count = m.read_count + 1 }) counted
  is_first : m.read_count ≡ 1 → Move m counted m first
  is_not_first : m.read_count ≢ 1 → Move m counted m admitted
  exclude_writers : m.write_lock ≡ false → Move m first (record m { write_lock = true }) admitted
  start_reading : Move m admitted (record m { read_lock = false }) reading
  leave : m.read_lock ≡ false → Move m reading (record m { read_lock = true }) leaving
  uncount : Move m leaving (record m { read_count = m.read_count - 1 }) uncounted
  is_last : m.read_count ≡ 0 → Move m uncounted m last
  is_not_last : m.read_count ≢ 0 → Move m uncounted m gone
  admit_writers : Move m last (record m { write_lock = false }) gone
  stop_reading : Move m gone (record m { read_lock = false }) idle
  start_writing : m.write_lock ≡ false → Move m idle (record m { write_lock = true }) writing
  stop_writing : Move m writing (record m { write_lock = false }) idle

abbrev pub update {ℓ} : {A : Type ℓ} → (ℕ → A) → ℕ → A → ℕ → A
update f i a j = if nat_beq i j then a else f j

pub record System : Type 0 where
  pub shared : Shared
  pub pc : ℕ → Pc

-- What `__init__` leaves, with every thread idle.
abbrev pub start : System
start = record {
  shared = record { read_lock = false; write_lock = false; read_count = 0 };
  pc = λ i. idle;
}

pub data Step (n : ℕ) (s : System) : System → Type 0 where
  pick :
      (i : ℕ) {m : Shared} {p : Pc}
      → i < n
      → Move s.shared (s.pc i) m p
      → Step n s (record { shared = m; pc = update s.pc i p })

-- The states that `n` threads reach.
pub data Reach (n : ℕ) : System → Type 0 where
  here : Reach n start
  next : {s t : System} → Reach n s → Step n s t → Reach n t
