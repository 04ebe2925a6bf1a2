-- ===== src/Engine/Ranges.antt =====
-- `read_key_range` of src/storage/engine.py against `get`.
use logvine.Prelude.{
  ◌≡◌, refl, sym, ap, ◌∙◌, Bool, true, false, Option, none, some, List, [], ◌∷◌, arith, Bool-cases,
  inl, inr, if◌then◌else◌, or_else, subst,
}
use logvine.Prelude.Bytes.{Bytes, bytes_eq, bytes_lt}
use logvine.Prelude.Order.{sorted, insert_sorted, contains}
use logvine.Prelude.Interval.{in_range}
use logvine.Prelude.Result.{Result, ok, ◌>>=◌}
use logvine.Prelude.Dict
use logvine.Prelude.Dict.{Dict, keys, IsDistinct}
use logvine.Prelude.Dict.Sorted.{sorted_same}
use logvine.MemTable
use logvine.MemTable.{pair_lt, tombstone}
use logvine.MemTable.Range.{get-get_range}
use logvine.SsTable.Items.{IsStrict, sorted-keys-IsStrict}
use logvine.SsTableManager
use logvine.SsTableManager.{get_overlapping_sstables, iter_sstable_metadata}
use logvine.Engine.{Engine, get, get_stored, found, collect, read_key_range}
use logvine.Engine.System.{shown, Map}
use logvine.Engine.FlushSound.{Healthy}
use logvine.Engine.Makes.{Implements, answer}
use logvine.Engine.Collect.{Sees, collect-Sees}
use logvine.Engine.Overlap.{Standing-Overlaps}

keys-insert_sorted :
    (k v : Bytes) (d : Dict Bytes Bytes)
    → keys (insert_sorted pair_lt (k, v) d) ≡ insert_sorted bytes_lt k (keys d)
unfolding insert_sorted
keys-insert_sorted k v [] = refl
keys-insert_sorted k v ((j, w) ∷ d) = elim (Bool-cases (bytes_lt j k)) [
  | inl below ↦ rw (below, keys-insert_sorted k v d) refl
  | inr above ↦ rw above refl
]

pub keys-sorted : (d : Dict Bytes Bytes) → keys (sorted pair_lt d) ≡ sorted bytes_lt (keys d)
unfolding sorted
keys-sorted [] = refl
keys-sorted ((k, v) ∷ d) =
    keys-insert_sorted k v (sorted pair_lt d) ∙ ap (insert_sorted bytes_lt k) (keys-sorted d)

answer-shown : (o : Option Bytes) → found o ≡ answer (shown o)
unfolding found answer shown
answer-shown none = refl
answer-shown (some value) = ground arith

answer_injective : (a b : Option Bytes) → answer a ≡ answer b → a ≡ b
unfolding answer
answer_injective none none h = refl
answer_injective none (some v) h = absurd (ground arith)
answer_injective (some v) none h = absurd (ground arith)
answer_injective (some v) (some w) h = ground arith

-- What a read finds, where the tables hold `stored`.
get_stored-ok :
    (j : Bytes) (o stored : Option Bytes) (s : Engine)
    → SsTableManager.get j s.files s.manifest ≡ ok stored
    → get_stored j o s ≡ ok (or_else o stored)
unfolding get_stored
get_stored-ok j none stored s h = h
get_stored-ok j (some value) stored s h = refl

get-shown :
    (j : Bytes) (stored : Option Bytes) (s : Engine)
    → SsTableManager.get j s.files s.manifest ≡ ok stored
    → get j s ≡ answer (shown (or_else (MemTable.get j s.memtable) stored))
unfolding get
get-shown j stored s h =
    ap (λ (r : Result (Option Bytes)). r >>= found)
      (get_stored-ok j (MemTable.get j s.memtable) stored s h)
    ∙ answer-shown (or_else (MemTable.get j s.memtable) stored)

nothing_seen : Sees (λ j. none) ([], [])
nothing_seen = record {
  seen = λ j. unfold contains in refl;
  reads = λ j. unfold Dict.get shown in refl;
  distinct = tt;
}

-- The keys and values that both loops see.
in_both :
    (a b : Option Bytes) (within : Bool)
    → shown (or_else (or_else none (if within then a else none)) (if within then b else none))
      ≡ (if within then shown (or_else a b) else none)
unfolding shown
in_both a b true = refl
in_both a b false = refl

-- A range read of a healthy engine agrees with its point reads, which are those of a map: it raises
-- nothing, and gives the keys of the range that have a value, each once and going up, with that value.
pub read_key_range-Implements :
    (start_key end_key : Bytes) (s : Engine) (d : Map)
    → Healthy s
    → Implements s d
    → (pairs : List (Bytes × Bytes)) × (read_key_range start_key end_key s ≡ ok pairs)
      × IsStrict (keys pairs)
      × ((j : Bytes) → Dict.get j pairs ≡ (if in_range start_key end_key j then d j else none))
unfolding read_key_range get_overlapping_sstables SsTableManager.get
read_key_range-Implements start_key end_key s d h reads =
    let ts = iter_sstable_metadata none true s.manifest in
    let o = Standing-Overlaps start_key end_key s.files ts h.sound.stand in
    let copied = MemTable.get_range start_key end_key s.memtable in
    let (after, done, sees) =
      o.collects (λ j. or_else none (Dict.get j copied)) (collect copied ([], []))
        (collect-Sees (λ j. none) copied ([], []) nothing_seen) in
    let (distinct, same) = sorted_same pair_lt after.1 sees.distinct in
    let value : (j : Bytes) → shown (or_else (MemTable.get j s.memtable) (o.stored j)) ≡ d j =
      λ j. answer_injective _ _ (sym (get-shown j (o.stored j) s (o.reads j)) ∙ reads j) in
    (
      sorted pair_lt after.1,
      rw (o.made, done) refl,
      subst IsStrict (sym (keys-sorted after.1)) (sorted-keys-IsStrict after.1 sees.distinct),
      λ j.
          same j
          ∙ sees.reads j
          ∙ rw (get-get_range start_key end_key j s.memtable)
              (in_both (MemTable.get j s.memtable) (o.stored j) (in_range start_key end_key j))
          ∙ ap (λ (x : Option Bytes). if in_range start_key end_key j then x else none) (value j),
    )
