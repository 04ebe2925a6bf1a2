-- ===== src/Engine/Overlap.antt =====
-- The tables that `read_key_range` of src/storage/engine.py reads, against those that `get` asks.
use logvine.Prelude.{
  ℕ, ◌≡◌, refl, ap, ◌∙◌, Bool, true, false, ◌||◌, Option, none, some, List, [], ◌∷◌, arith,
  Bool-cases, inl, inr, if◌then◌else◌, or_else,
}
use logvine.Prelude.Bytes.{Bytes, bytes_eq, bytes_lt, bytes_le}
use logvine.Prelude.Text.{fromhex}
use logvine.Prelude.Order.{bytes_le_trans}
use logvine.Prelude.Interval.{in_range}
use logvine.Prelude.Result.{ok, >>=-ok}
use logvine.Prelude.Dict
use logvine.Prelude.Dict.{set_all}
use logvine.SsTable.{SsTable, Files, init}
use logvine.SsTable.Scan.{range_scan-Written}
use logvine.Manifest.{Metadata}
use logvine.SsTableManager.{get_from, get_first, metadata_to_sstable, overlapping}
use logvine.Compaction.Tables.{IsTable, answer, get_first-answer}
use logvine.Compaction.Sound.{Standing}
use logvine.Engine.{collect, collect_tables}
use logvine.Engine.Collect.{Seen, Sees, collect-Sees, same-Sees}

-- The key range of a table, outside of which it has nothing.
record Bounds (files : Files) (meta : Metadata) (t : IsTable files meta) : Type 0 where
  low : Bytes
  high : Bytes
  low_is : fromhex meta.min_key_hex ≡ ok low
  high_is : fromhex meta.max_key_hex ≡ ok high
  outside :
      (k : Bytes)
      → (bytes_lt k low || bytes_lt high k) ≡ true
      → Dict.get k (set_all t.pairs []) ≡ none

IsTable-Bounds : (files : Files) (meta : Metadata) (t : IsTable files meta) → Bounds files meta t
unfolding get_from
IsTable-Bounds files meta t =
    let (low, low_is, h) = >>=-ok (fromhex meta.min_key_hex) _ (t.reads []) in
    let (high, high_is, h') = >>=-ok (fromhex meta.max_key_hex) _ h in
    record {
      low = low;
      high = high;
      low_is = low_is;
      high_is = high_is;
      outside = λ k out.
          let reads : ok none ≡ ok (Dict.get k (set_all t.pairs [])) =
            rw (low_is, high_is, out) at (t.reads k) in
          ground arith;
    }

module _ (start_key end_key : Bytes) where
  -- A table that is skipped has no key of the range.
  skipped :
      (low high j : Bytes)
      → (bytes_le end_key low || bytes_lt high start_key) ≡ true
      → in_range start_key end_key j ≡ true
      → (bytes_lt j low || bytes_lt high j) ≡ true
  skipped low high j skip within =
      ground (arith, bytes_le_trans end_key low j, bytes_le_trans start_key j high)

  -- What the tables hold at the keys of the range.
  pub record Overlaps (files : Files) (ts : List (ℕ × Metadata)) : Type 0 where
    pub stored : Bytes → Option Bytes
    pub reads : (k : Bytes) → get_first k files ts ≡ ok (stored k)
    pub tables : List SsTable
    pub made : overlapping start_key end_key ts ≡ ok tables
    pub collects :
        (f : Bytes → Option Bytes) (acc : Seen)
        → Sees f acc
        → (after : Seen) × (collect_tables start_key end_key files tables acc ≡ ok after)
          × Sees
              (λ j. or_else (f j) (if in_range start_key end_key j then stored j else none))
              after

  answer-ok : (a b : Option Bytes) → answer a (ok b) ≡ ok (or_else a b)
  answer-ok none b = refl
  answer-ok (some v) b = refl

  or_else-in_range :
      (a b c : Option Bytes) (within : Bool)
      → or_else (or_else a (if within then b else none)) (if within then c else none)
        ≡ or_else a (if within then or_else b c else none)
  or_else-in_range none none c true = refl
  or_else-in_range none (some v) c true = refl
  or_else-in_range (some v) b c within = refl
  or_else-in_range none b c false = refl

  skip-Overlaps :
      (files : Files) (level : ℕ) (meta : Metadata) (ts : List (ℕ × Metadata))
      (t : IsTable files meta) (b : Bounds files meta t)
      → (bytes_le end_key b.low || bytes_lt b.high start_key) ≡ true
      → Overlaps files ts
      → Overlaps files ((level, meta) ∷ ts)
  unfolding overlapping
  skip-Overlaps files level meta ts t b skip o =
      let d = set_all t.pairs [] in
      record {
        stored = λ k. or_else (Dict.get k d) (o.stored k);
        reads = λ k.
            get_first-answer k files level meta ts (Dict.get k d) (t.reads k)
            ∙ ap (answer (Dict.get k d)) (o.reads k)
            ∙ answer-ok (Dict.get k d) (o.stored k);
        tables = o.tables;
        made = rw (b.low_is, b.high_is, o.made, skip) refl;
        collects = λ f acc s.
            let (after, done, sees) = o.collects f acc s in
            (
              after,
              done,
              same-Sees _ _ after
                  (λ j. ap (or_else (f j)) (elim (Bool-cases (in_range start_key end_key j)) [
                    | inl within ↦
                        rw (within, b.outside j (skipped b.low b.high j skip within)) refl
                    | inr out ↦ rw out refl
                  ]))
                  sees,
            );
      }

  take-Overlaps :
      (files : Files) (level : ℕ) (meta : Metadata) (ts : List (ℕ × Metadata))
      (t : IsTable files meta) (b : Bounds files meta t)
      → (bytes_le end_key b.low || bytes_lt b.high start_key) ≡ false
      → Overlaps files ts
      → Overlaps files ((level, meta) ∷ ts)
  unfolding overlapping collect_tables
  take-Overlaps files level meta ts t b take o =
      let d = set_all t.pairs [] in
      let (items, scanned, items_are) =
        range_scan-Written start_key end_key t.pairs t.file t.index files (metadata_to_sstable meta)
          t.written (unfold metadata_to_sstable init in t.stands)
          (unfold metadata_to_sstable init in refl) in
      record {
        stored = λ k. or_else (Dict.get k d) (o.stored k);
        reads = λ k.
            get_first-answer k files level meta ts (Dict.get k d) (t.reads k)
            ∙ ap (answer (Dict.get k d)) (o.reads k)
            ∙ answer-ok (Dict.get k d) (o.stored k);
        tables = metadata_to_sstable meta ∷ o.tables;
        made = rw (b.low_is, b.high_is, o.made, take) refl;
        collects = λ f acc s.
            let (after, done, sees) =
              o.collects (λ j. or_else (f j) (Dict.get j items)) (collect items acc)
                (collect-Sees f items acc s) in
            (
              after,
              rw scanned done,
              same-Sees _ _ after
                  (λ j. rw (items_are j) (
                    or_else-in_range (f j) (Dict.get j d) (o.stored j)
                      (in_range start_key end_key j)))
                  sees,
            );
      }

  pub Standing-Overlaps :
      (files : Files) (ts : List (ℕ × Metadata)) → Standing files ts → Overlaps files ts
  unfolding get_first overlapping collect_tables
  Standing-Overlaps files [] h = record {
    stored = λ k. none;
    reads = λ k. refl;
    tables = [];
    made = refl;
    collects = λ f acc s. (acc, refl, same-Sees _ _ acc (λ j. ground arith) s);
  }
  Standing-Overlaps files ((level, meta) ∷ ts) h =
      let b = IsTable-Bounds files meta h.0 in
      elim (Bool-cases (bytes_le end_key b.low || bytes_lt b.high start_key)) [
        | inl skip ↦ skip-Overlaps files level meta ts h.0 b skip (Standing-Overlaps files ts h.1)
        | inr take ↦ take-Overlaps files level meta ts h.0 b take (Standing-Overlaps files ts h.1)
      ]
