-- ===== src/Engine/Buffers.antt =====
-- The buffers of src/storage/memtable.py as src/storage/engine.py fills them: dictionaries of bytes.
use logvine.Prelude.{ℕ, List, [], ◌∷◌, ◌++◌, All, max, ◌==◌, Bool-cases, inl, inr}
use logvine.Prelude.Bytes.{Bytes, IsBytes, bytes_eq}
use logvine.Prelude.Dict
use logvine.Prelude.Dict.{Dict, keys, IsDistinct, set-IsDistinct}
use logvine.MemTable
use logvine.MemTable.{MemTable, Difference, tombstone}
use logvine.Engine.{put_locked, put_all, batch_locked}

-- Keys that differ and are bytes.
abbrev pub IsBuffer : Dict Bytes Bytes → Type 0
IsBuffer d = IsDistinct d × All IsBytes (keys d)

pub record Buffers (m : MemTable) : Type 0 where
  pub active : IsBuffer m.active
  pub frozen : All (λ b. IsBuffer b.0) m.frozen_queue

keys-set :
    (key value : Bytes) (d : Dict Bytes Bytes)
    → IsBytes key
    → All IsBytes (keys d)
    → All IsBytes (keys (Dict.set key value d))
unfolding Dict.set
keys-set key value [] new h = (new, tt)
keys-set key value ((j, w) ∷ d) new h = elim (Bool-cases (j == key)) [
  | inl q ↦ rw q h
  | inr q ↦ rw q (h.0, keys-set key value d new h.1)
]

pub put_unlocked-Buffers :
    (key value : Bytes) (m : MemTable)
    → IsBytes key
    → Buffers m
    → Buffers (MemTable.put_unlocked key value m)
unfolding MemTable.put_unlocked
put_unlocked-Buffers key value m new b = record {
  active =
      (set-IsDistinct key value m.active b.active.0, keys-set key value m.active new b.active.1);
  frozen = b.frozen;
}

-- The offset is no part of the buffers.
pub noted-Buffers : (n : ℕ) (m : MemTable) → Buffers m → Buffers (record m { max_wal_offset = n })
noted-Buffers n m b = record { active = b.active; frozen = b.frozen }

All-snoc {ℓ κ} :
    {A : Type ℓ} (P : A → Type κ) (xs : List A) (x : A) → All P xs → P x → All P (xs ++ x ∷ [])
All-snoc P [] x h p = (p, tt)
All-snoc P (y ∷ xs) x h p = (h.0, All-snoc P xs x h.1 p)

rotate_unlocked-Buffers : (m : MemTable) → Buffers m → Buffers (MemTable.rotate_unlocked m)
unfolding MemTable.rotate_unlocked
rotate_unlocked-Buffers m b = record {
  active = (tt, tt);
  frozen =
      All-snoc (λ b. IsBuffer b.0) m.frozen_queue (m.active, m.max_wal_offset) b.frozen b.active;
}

pub put_locked-Buffers :
    (key value : Bytes) (offset : ℕ) (m : MemTable)
    → IsBytes key
    → Buffers m
    → Buffers (put_locked key value offset m).0
unfolding put_locked
put_locked-Buffers key value offset m new b =
    let stored = MemTable.put_unlocked key value m in
    let n = max stored.max_wal_offset offset in
    let noted = record stored { max_wal_offset = n } in
    let b' = noted-Buffers n stored (put_unlocked-Buffers key value m new b) in
    elim (Bool-cases (MemTable.is_full noted)) [
      | inl full ↦ rw full (rotate_unlocked-Buffers noted b')
      | inr room ↦ rw room b'
    ]

put_all-Buffers :
    (keys values : List Bytes) (m : MemTable)
    → All IsBytes keys
    → Buffers m
    → Buffers (put_all keys values m)
unfolding put_all
put_all-Buffers [] values m new b = b
put_all-Buffers (key ∷ keys) [] m new b = b
put_all-Buffers (key ∷ keys) (value ∷ values) m new b =
    put_all-Buffers keys values (MemTable.put_unlocked key value m) new.1
      (put_unlocked-Buffers key value m new.0 b)

pub batch_locked-Buffers :
    (keys values : List Bytes) (size : Difference) (offset : ℕ) (m : MemTable)
    → All IsBytes keys
    → Buffers m
    → Buffers (batch_locked keys values size offset m).0
unfolding batch_locked
batch_locked-Buffers keys values size offset m new b =
    elim (Bool-cases (MemTable.batch_would_exceed size m)) [
      | inl full ↦
          let room = MemTable.rotate_unlocked m in
          rw full (
            noted-Buffers offset (put_all keys values room)
              (put_all-Buffers keys values room new (rotate_unlocked-Buffers m b)))
      | inr fits ↦
          rw fits
            (noted-Buffers offset (put_all keys values m) (put_all-Buffers keys values m new b))
    ]

pub delete-Buffers :
    (key : Bytes) (m : MemTable) → IsBytes key → Buffers m → Buffers (MemTable.delete key m)
unfolding MemTable.delete MemTable.put
delete-Buffers key m new b = put_unlocked-Buffers key tombstone m new b

pub clear_frozen-Buffers : (m : MemTable) → Buffers m → Buffers (MemTable.clear_frozen m)
unfolding MemTable.clear_frozen MemTable.pop_oldest
clear_frozen-Buffers m b = record { active = b.active; frozen = later m.frozen_queue b.frozen }
  where
    later :
        (queue : List (Dict Bytes Bytes × ℕ))
        → All (λ b. IsBuffer b.0) queue
        → All (λ b. IsBuffer b.0) (MemTable.pop_oldest queue)
    later [] h = tt
    later (oldest ∷ queue) h = h.1

pub get_frozen_items-IsBuffer : (m : MemTable) → Buffers m → IsBuffer (MemTable.get_frozen_items m)
unfolding MemTable.get_frozen_items MemTable.oldest_items
get_frozen_items-IsBuffer m b = oldest m.frozen_queue b.frozen
  where
    oldest :
        (queue : List (Dict Bytes Bytes × ℕ))
        → All (λ b. IsBuffer b.0) queue
        → IsBuffer (MemTable.oldest_items queue)
    oldest [] h = (tt, tt)
    oldest ((d, offset) ∷ queue) h = h.0
