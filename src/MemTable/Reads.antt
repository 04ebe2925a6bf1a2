-- ===== src/MemTable/Reads.antt =====
-- What `get` of src/storage/memtable.py returns after each operation that changes the table.
use logvine.Prelude.{
  ◌≡◌, refl, sym, some, List, [], ◌∷◌, ◌++◌, arith, if◌then◌else◌, or_else, ◌==◌, ℕ,
}
use logvine.Prelude.Bytes.{Bytes, bytes_eq}
use logvine.Prelude.Dict
use logvine.Prelude.Dict.{Dict, get-set}
use logvine.MemTable.{
  MemTable, tombstone, put, get, get_frozen, delete, rotate, clear_frozen, pop_oldest, oldest_items,
  get_frozen_items,
}
use mathlib.Core.List.{reverse, reverse-append}

-- A read is the first hit among the active buffer and the frozen ones.
pub get-or_else :
    (key : Bytes) (m : MemTable)
    → get key m ≡ or_else (Dict.get key m.active) (get_frozen key (reverse m.frozen_queue))
unfolding get
get-or_else key m = ground arith

pub get_frozen-append :
    (key : Bytes) (xs ys : List (Dict Bytes Bytes × ℕ))
    → get_frozen key (xs ++ ys) ≡ or_else (get_frozen key xs) (get_frozen key ys)
unfolding get_frozen
get_frozen-append key [] ys = refl
get_frozen-append key ((d, o) ∷ xs) ys = ground (arith, get_frozen-append key xs ys)

-- After a put, a read of the same key has the value put, and a read of any other key has what it
-- had before.
pub get-put :
    (key j value : Bytes) (m : MemTable)
    → get j (put key value m) ≡ (if key == j then some value else get j m)
unfolding get put
get-put key j value m = ground (arith, get-set key j value m.active)

-- After a delete, a read of the same key has the tombstone, and a read of any other key has what
-- it had before.
pub get-delete :
    (key j : Bytes) (m : MemTable)
    → get j (delete key m) ≡ (if key == j then some tombstone else get j m)
unfolding delete
get-delete key j m = get-put key j tombstone m

-- A rotation changes no read.
pub get-rotate : (key : Bytes) (m : MemTable) → get key (rotate m) ≡ get key m
unfolding rotate get_frozen Dict.get
get-rotate key m =
    rw (get-or_else, get-or_else)
      (rw (reverse-append m.frozen_queue ((m.active, m.max_wal_offset) ∷ [])) (ground arith))

clear_oldest :
    (key : Bytes) (queue : List (Dict Bytes Bytes × ℕ))
    → or_else (get_frozen key (reverse (pop_oldest queue))) (Dict.get key (oldest_items queue))
      ≡ get_frozen key (reverse queue)
unfolding pop_oldest oldest_items get_frozen Dict.get
clear_oldest key [] = refl
clear_oldest key ((d, o) ∷ rest) =
    rw (reverse-append ((d, o) ∷ []) rest)
      (rw (get_frozen-append key (reverse rest) ((d, o) ∷ [])) (ground arith))

-- Dropping the oldest frozen buffer loses only what that buffer holds: a read before the drop is a
-- read after it, and where that misses, a read of the dropped buffer.
pub get-clear_frozen :
    (key : Bytes) (m : MemTable)
    → get key m ≡ or_else (get key (clear_frozen m)) (Dict.get key (get_frozen_items m))
unfolding clear_frozen get_frozen_items
get-clear_frozen key m =
    rw (get-or_else, get-or_else) (rw (sym (clear_oldest key m.frozen_queue)) (ground arith))
