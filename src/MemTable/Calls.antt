-- ===== src/MemTable/Calls.antt =====
-- Sequences of calls on the table of src/storage/memtable.py, and what they add up to.
use logvine.Prelude.{
  ℕ, ◌≡◌, refl, Option, none, some, List, [], ◌∷◌, arith, if◌then◌else◌, or_else, ◌==◌,
}
use logvine.Prelude.Bytes.{Bytes, bytes_eq}
use logvine.MemTable
use logvine.MemTable.{MemTable, tombstone}
use logvine.MemTable.Reads.{get-put, get-delete, get-rotate}
use logvine.MemTable.Size.{IsExact, put-IsExact, delete-IsExact}

-- The calls that add to the table or move its data.
pub data Call : Type 0 where
  put : Bytes → Bytes → Call
  delete : Bytes → Call
  rotate : Call
  set_max_wal_offset : ℕ → Call

unfoldable pub apply : Call → MemTable → MemTable
apply (put k v) m = MemTable.put k v m
apply (delete k) m = MemTable.delete k m
apply rotate m = MemTable.rotate m
apply (set_max_wal_offset n) m = MemTable.set_max_wal_offset n m

unfoldable pub run : List Call → MemTable → MemTable
unfolding apply
run [] m = m
run (c ∷ cs) m = run cs (apply c m)

-- The specification: what one call writes to a key, and the last write to it.
unfoldable pub write_of : Bytes → Call → Option Bytes
write_of j (put k v) = if k == j then some v else none
write_of j (delete k) = if k == j then some tombstone else none
write_of j rotate = none
write_of j (set_max_wal_offset n) = none

unfoldable pub last_write : Bytes → List Call → Option Bytes
unfolding write_of
last_write j [] = none
last_write j (c ∷ cs) = or_else (last_write j cs) (write_of j c)

get-apply :
    (j : Bytes) (c : Call) (m : MemTable)
    → MemTable.get j (apply c m) ≡ or_else (write_of j c) (MemTable.get j m)
unfolding apply write_of
get-apply j (put k v) m = ground (arith, get-put k j v m)
get-apply j (delete k) m = ground (arith, get-delete k j m)
get-apply j rotate m = get-rotate j m
get-apply j (set_max_wal_offset n) m = unfold MemTable.set_max_wal_offset MemTable.get in refl

-- After any sequence of puts, deletes, rotations and offset updates, a read returns the last write
-- to its key in the sequence, and what it returned before where there is none.
pub get-run :
    (j : Bytes) (cs : List Call) (m : MemTable)
    → MemTable.get j (run cs m) ≡ or_else (last_write j cs) (MemTable.get j m)
unfolding run last_write
get-run j [] m = refl
get-run j (c ∷ cs) m = ground (arith, get-run j cs (apply c m), get-apply j c m)

apply-IsExact : (c : Call) (m : MemTable) → IsExact m → IsExact (apply c m)
unfolding apply
apply-IsExact (put k v) m h = (put-IsExact k v m h).1
apply-IsExact (delete k) m h = delete-IsExact k m h
apply-IsExact rotate m h = unfold MemTable.rotate in refl
apply-IsExact (set_max_wal_offset n) m h = unfold MemTable.set_max_wal_offset in h

-- From a table whose count is exact, any such sequence leads to one whose count is exact.
pub run-IsExact : (cs : List Call) (m : MemTable) → IsExact m → IsExact (run cs m)
unfolding run
run-IsExact [] m h = h
run-IsExact (c ∷ cs) m h = run-IsExact cs (apply c m) (apply-IsExact c m h)
