-- ===== src/MemTable.antt =====
-- src/storage/memtable.py: the in-memory write buffer and its queue of frozen buffers. Every method
-- is one function on the state that its lock protects.
pub mod Reads
pub mod Size
pub mod Range
pub mod Calls
pub mod Lock
use logvine.Prelude.{
  ℕ, ◌+◌, ◌-◌, ◌≡◌, Bool, true, false, ◌&&◌, Option, none, some, List, [], ◌∷◌, ◌++◌, max, length,
  leb, if◌then◌else◌,
}
use logvine.Prelude.Bytes.{Bytes, bytes_lt, bytes_le, bytes_eq}
use logvine.Prelude.Order.{sorted}
use logvine.Prelude.Dict
use logvine.Prelude.Dict.{Dict, keys, has, items_at}
use mathlib.Core.List.{reverse}

-- b"__TOMBSTONE__"
abbrev pub tombstone : Bytes
tombstone = 95 ∷ 95 ∷ 84 ∷ 79 ∷ 77 ∷ 66 ∷ 83 ∷ 84 ∷ 79 ∷ 78 ∷ 69 ∷ 95 ∷ 95 ∷ []

-- `active` is the source's `_data`.
pub record MemTable : Type 0 where
  pub max_size : ℕ
  pub active : Dict Bytes Bytes
  pub frozen_queue : List (Dict Bytes Bytes × ℕ)
  pub current_size : ℕ
  pub max_wal_offset : ℕ

unfoldable pub init : ℕ → MemTable
init max_size = record {
  max_size = max_size;
  active = [];
  frozen_queue = [];
  current_size = 0;
  max_wal_offset = 0;
}

unfoldable pub set_max_wal_offset : ℕ → MemTable → MemTable
set_max_wal_offset offset m = record m { max_wal_offset = max m.max_wal_offset offset }

-- `current_size` after `if key in self._data: self._current_size -= len(self._data[key])`
unfoldable pub size_without : Option Bytes → ℕ → ℕ
size_without none size = size
size_without (some old) size = size - length old

unfoldable pub put_unlocked : Bytes → Bytes → MemTable → MemTable
unfolding size_without
put_unlocked key value m = record m {
  active = Dict.set key value m.active;
  current_size = size_without (Dict.get key m.active) m.current_size + length value;
}

unfoldable pub put : Bytes → Bytes → MemTable → MemTable
unfolding put_unlocked
put key value m = put_unlocked key value m

-- The loop over the frozen buffers, newest first.
unfoldable pub get_frozen : Bytes → List (Dict Bytes Bytes × ℕ) → Option Bytes
get_frozen key [] = none
get_frozen key ((frozen_data, offset) ∷ rest) =
    if has key frozen_data then Dict.get key frozen_data else get_frozen key rest

unfoldable pub get : Bytes → MemTable → Option Bytes
unfolding get_frozen
get key m =
    if has key m.active then Dict.get key m.active else get_frozen key (reverse m.frozen_queue)

unfoldable pub delete : Bytes → MemTable → MemTable
unfolding put
delete key m = put key tombstone m

unfoldable pub is_full : MemTable → Bool
is_full m = leb m.max_size m.current_size

unfoldable pub rotate_unlocked : MemTable → MemTable
rotate_unlocked m = record m {
  frozen_queue = m.frozen_queue ++ (m.active, m.max_wal_offset) ∷ [];
  active = [];
  current_size = 0;
  max_wal_offset = 0;
}

unfoldable pub rotate : MemTable → MemTable
unfolding rotate_unlocked
rotate m = rotate_unlocked m

-- `if queue: queue.pop(0)`
unfoldable pub pop_oldest : List (Dict Bytes Bytes × ℕ) → List (Dict Bytes Bytes × ℕ)
pop_oldest [] = []
pop_oldest (head ∷ rest) = rest

unfoldable pub clear_frozen : MemTable → MemTable
unfolding pop_oldest
clear_frozen m = record m { frozen_queue = pop_oldest m.frozen_queue }

-- A batch size can be negative: it is an integer, as the difference of two numbers.
pub record Difference : Type 0 where
  pub plus : ℕ
  pub minus : ℕ

unfoldable pub batch_would_exceed : Difference → MemTable → Bool
batch_would_exceed batch_size m =
    leb (m.max_size + batch_size.minus) (m.current_size + batch_size.plus)

unfoldable pub oldest_items : List (Dict Bytes Bytes × ℕ) → Dict Bytes Bytes
oldest_items [] = []
oldest_items ((frozen_data, offset) ∷ rest) = frozen_data

unfoldable pub get_frozen_items : MemTable → Dict Bytes Bytes
unfolding oldest_items
get_frozen_items m = oldest_items m.frozen_queue

unfoldable pub oldest_offset : List (Dict Bytes Bytes × ℕ) → ℕ
oldest_offset [] = 0
oldest_offset ((frozen_data, offset) ∷ rest) = offset

unfoldable pub get_max_wal_offset_frozen : MemTable → ℕ
unfolding oldest_offset
get_max_wal_offset_frozen m = oldest_offset m.frozen_queue

unfoldable pub get_frozen_queue_depth : MemTable → ℕ
get_frozen_queue_depth m = length m.frozen_queue

-- One buffer's loop in `get_range`: it copies the pairs of a range and stops at the first key past
-- its end. `none` is a KeyError.
unfoldable pub copy_range :
    Bytes → Bytes → Dict Bytes Bytes → List Bytes → Dict Bytes Bytes → Option (Dict Bytes Bytes)
copy_range start_key end_key source [] result = some result
copy_range start_key end_key source (key ∷ rest) result =
    let next =
      if bytes_le start_key key && bytes_lt key end_key
      then elim (Dict.get key source) [
        | none ↦ none
        | some value ↦ copy_range start_key end_key source rest (Dict.set key value result)
      ]
      else copy_range start_key end_key source rest result in
    if bytes_le end_key key then some result else next

-- The loop over the frozen buffers, oldest first.
unfoldable pub copy_frozen :
    Bytes → Bytes → List (Dict Bytes Bytes × ℕ) → Dict Bytes Bytes → Option (Dict Bytes Bytes)
unfolding copy_range
copy_frozen start_key end_key [] result = some result
copy_frozen start_key end_key ((frozen_data, offset) ∷ rest) result =
    elim (copy_range start_key end_key frozen_data (sorted bytes_lt (keys frozen_data)) result) [
      | none ↦ none
      | some copied ↦ copy_frozen start_key end_key rest copied
    ]

-- The `except Exception` of the method answers with an empty dictionary.
unfoldable pub get_range : Bytes → Bytes → MemTable → Dict Bytes Bytes
unfolding copy_frozen
get_range start_key end_key m = elim (copy_frozen start_key end_key m.frozen_queue []) [
  | none ↦ []
  | some result ↦
      elim (copy_range start_key end_key m.active (sorted bytes_lt (keys m.active)) result) [
        | none ↦ []
        | some copied ↦ copied
      ]
]

-- The pairs of one buffer in key order; `none` is a KeyError.
unfoldable pub snapshot : Dict Bytes Bytes → Option (Dict Bytes Bytes)
snapshot source = items_at source (sorted bytes_lt (keys source))

unfoldable pub snapshots : List (Dict Bytes Bytes × ℕ) → Option (Dict Bytes Bytes)
unfolding snapshot
snapshots [] = some []
snapshots ((frozen_data, offset) ∷ rest) = elim (snapshot frozen_data) [
  | none ↦ none
  | some items ↦ elim (snapshots rest) [ none ↦ none | some others ↦ some (items ++ others) ]
]

abbrev pub pair_lt : Bytes × Bytes → Bytes × Bytes → Bool
pair_lt a b = bytes_lt a.0 b.0

unfoldable pub iter_sorted : MemTable → Option (Dict Bytes Bytes)
unfolding snapshots
iter_sorted m = elim (snapshot m.active) [
  | none ↦ none
  | some items ↦ elim (snapshots m.frozen_queue) [
    | none ↦ none
    | some others ↦ some (sorted pair_lt (items ++ others))
  ]
]
