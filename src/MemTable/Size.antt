-- ===== src/MemTable/Size.antt =====
-- The byte count of src/storage/memtable.py against the values that the active buffer holds.
use logvine.Prelude.{ℕ, ◌+◌, ◌≤◌, ◌≡◌, Option, none, some, [], ◌∷◌, arith, length}
use logvine.Prelude.Bytes.{Bytes, bytes_eq}
use logvine.Prelude.Dict
use logvine.Prelude.Dict.{Dict}
use logvine.MemTable.{MemTable, put, delete, tombstone}

-- The bytes of all values of a buffer.
abbrev pub total : Dict Bytes Bytes → ℕ
total [] = 0
total ((k, v) ∷ d) = length v + total d

abbrev pub value_size : Option Bytes → ℕ
value_size none = 0
value_size (some v) = length v

abbrev pub IsExact : MemTable → Type 0
IsExact m = m.current_size ≡ total m.active

pub size-le-total : (k : Bytes) (d : Dict Bytes Bytes) → value_size (Dict.get k d) ≤ total d
unfolding Dict.get
size-le-total k [] = omega arith
size-le-total k ((j, v) ∷ d) = ground (arith, size-le-total k d)

total-set :
    (k v : Bytes) (d : Dict Bytes Bytes)
    → total (Dict.set k v d) + value_size (Dict.get k d) ≡ total d + length v
unfolding Dict.get Dict.set
total-set k v [] = omega arith
total-set k v ((j, w) ∷ d) = ground (arith, total-set k v d)

-- Where the count is exact, the size that a put takes away first is at most the count, so the
-- subtraction does not go below zero, and the count after the put is exact again.
pub put-IsExact :
    (k v : Bytes) (m : MemTable)
    → IsExact m
    → (value_size (Dict.get k m.active) ≤ m.current_size) × IsExact (put k v m)
unfolding put
put-IsExact k v m h = ground (arith, size-le-total k m.active, total-set k v m.active)

pub delete-IsExact : (k : Bytes) (m : MemTable) → IsExact m → IsExact (delete k m)
unfolding delete
delete-IsExact k m h = (put-IsExact k tombstone m h).1
