-- ===== src/Compaction/Tables.antt =====
-- What `merge_sstables` of src/storage/compaction.py reads from tables that stand on the disk.
use logvine.Prelude.{
  ℕ, ◌≡◌, refl, sym, ap, ◌∙◌, true, Option, none, some, List, [], ◌∷◌, ◌++◌, arith, All, or_else,
  is_some,
}
use logvine.Prelude.Bytes.{Bytes, IsBytes, bytes_eq, bytes_lt}
use logvine.Prelude.Result.{Result, ok}
use logvine.Prelude.Dict
use logvine.Prelude.Dict.{Dict, keys, has, set_all, get-set_all, IsDistinct}
use logvine.SsTable.{SsTable, Files, init, file_bytes}
use logvine.SsTable.Lookup.{Written, file_bytes-Written}
use logvine.SsTable.Items.{IsStrict, iter_items-Written}
use logvine.Manifest.{Metadata}
use logvine.SsTableManager.{at_level, get_from, get_first, metadata_to_sstable, build_metadata}
use logvine.SsTableManager.Covers.{get_from-build_metadata}
use logvine.Compaction.{Items, read_all, merge_sstables}
use logvine.Compaction.Heap.{IsAscending}
use logvine.Compaction.Merge.{get-above}
use logvine.Compaction.Inputs.{first_input, merge_items_lem}

-- A table of the manifest whose file was written from pairs, and whose key range hides none of them.
pub record IsTable (files : Files) (meta : Metadata) : Type 0 where
  pub pairs : List (Bytes × Bytes)
  pub file : Bytes
  pub index : Dict Bytes ℕ
  pub written : Written pairs file index
  pub stands : Dict.get meta.path files ≡ some file
  pub reads : (k : Bytes) → get_from k files meta ≡ ok (Dict.get k (set_all pairs []))
  pub are_bytes : (k : Bytes) → has k (set_all pairs []) ≡ true → IsBytes k

-- A table that was just written, with the metadata that is built of it.
pub build_metadata-IsTable :
    (pairs : List (Bytes × Bytes)) (file : Bytes) (index : Dict Bytes ℕ) (files : Files)
    (t : SsTable) (created level : ℕ) (meta : Metadata)
    → file_bytes pairs ≡ ok (file, index)
    → Dict.get t.path files ≡ some file
    → t.index ≡ index
    → ((k : Bytes) → has k (set_all pairs []) ≡ true → IsBytes k)
    → build_metadata created t level files ≡ ok meta
    → IsTable files meta × (meta.path ≡ t.path) × (meta.created_at_ms ≡ created)
build_metadata-IsTable pairs file index files t created level meta made stands indexed all_bytes
      built =
    let w = file_bytes-Written pairs file index made in
    let covered = λ (k : Bytes).
      get_from-build_metadata pairs file index files t w stands indexed all_bytes k created level
        meta built in
    let (reads, path_is, created_is) = covered [] in
    (
      record {
        pairs = pairs;
        file = file;
        index = index;
        written = w;
        stands = ap (λ (p : Bytes). Dict.get p files) path_is ∙ stands;
        reads = λ k. (covered k).0;
        are_bytes = all_bytes;
      },
      path_is,
      created_is,
    )

above_keys :
    (k : Bytes) (items : Items)
    → All (λ j. bytes_lt k j ≡ true) (keys items)
    → All (λ p. bytes_lt k p.0 ≡ true) items
above_keys k [] h = tt
above_keys k ((j, v) ∷ items) h = (h.0, above_keys k items h.1)

strict-IsAscending : (items : Items) → IsStrict (keys items) → IsAscending items
strict-IsAscending [] h = tt
strict-IsAscending ((k, v) ∷ items) h = (above_keys k items h.0, strict-IsAscending items h.1)

ascending-IsDistinct : (items : Items) → IsAscending items → IsDistinct items
ascending-IsDistinct [] h = tt
ascending-IsDistinct ((k, v) ∷ items) h =
    (ap is_some (get-above k items h.0), ascending-IsDistinct items h.1)

or_else-none : (o : Option Bytes) → or_else o none ≡ o
or_else-none none = refl
or_else-none (some v) = refl

-- A dictionary made of pairs that go up reads as the pairs.
pub get-set_all-ascending :
    (k : Bytes) (items : Items)
    → IsAscending items
    → Dict.get k (set_all items []) ≡ Dict.get k items
unfolding Dict.get
get-set_all-ascending k items h =
    get-set_all k items [] (ascending-IsDistinct items h) ∙ or_else-none (Dict.get k items)

-- A read that found an answer, or goes on.
abbrev pub answer : Option Bytes → Result (Option Bytes) → Result (Option Bytes)
answer none later = later
answer (some value) later = ok (some value)

pub get_first-answer :
    (k : Bytes) (files : Files) (level : ℕ) (meta : Metadata) (rest : List (ℕ × Metadata))
    (o : Option Bytes)
    → get_from k files meta ≡ ok o
    → get_first k files ((level, meta) ∷ rest) ≡ answer o (get_first k files rest)
unfolding get_first
get_first-answer k files level meta rest none h = rw (get_first, h) refl
get_first-answer k files level meta rest (some value) h = rw (get_first, h) refl

answer-or_else :
    (a b : Option Bytes) (later : Result (Option Bytes))
    → answer a (answer b later) ≡ answer (or_else a b) later
answer-or_else none b later = refl
answer-or_else (some v) b later = refl

-- The inputs of a merge: they go up, and a read of the tables and then of others finds what the
-- first input has that has the key.
pub record Inputs (files : Files) (level0 : List Metadata) (inputs : List Items) : Type 0 where
  pub are_read : read_all files level0 ≡ ok inputs
  pub ascending : All IsAscending inputs
  pub reads :
      (k : Bytes) (rest : List (ℕ × Metadata))
      → get_first k files (at_level 0 level0 ++ rest)
        ≡ answer (first_input k inputs) (get_first k files rest)
  pub are_bytes : (k : Bytes) → is_some (first_input k inputs) ≡ true → IsBytes k

or_else-IsBytes :
    (k : Bytes) (a b : Option Bytes)
    → (is_some a ≡ true → IsBytes k)
    → (is_some b ≡ true → IsBytes k)
    → is_some (or_else a b) ≡ true
    → IsBytes k
or_else-IsBytes k none b f g h = g h
or_else-IsBytes k (some v) b f g h = f h

tables-Inputs :
    (files : Files) (level0 : List Metadata)
    → All (IsTable files) level0
    → (inputs : List Items) × Inputs files level0 inputs
unfolding read_all at_level
tables-Inputs files [] h = (
  [],
  record {
    are_read = refl;
    ascending = tt;
    reads = λ k rest. refl;
    are_bytes = λ k q. absurd (ground arith);
  },
)
tables-Inputs files (meta ∷ level0) h =
    let t = h.0 in
    let (items, made, strict, same) =
      iter_items-Written t.pairs t.file t.index files (metadata_to_sstable meta) t.written
        (unfold metadata_to_sstable init in t.stands) (unfold metadata_to_sstable init in refl) in
    let (inputs, p) = tables-Inputs files level0 h.1 in
    (
      items ∷ inputs,
      record {
        are_read = rw (made, p.are_read) refl;
        ascending = (strict-IsAscending items strict, p.ascending);
        reads = λ k rest.
            get_first-answer k files 0 meta (at_level 0 level0 ++ rest) (Dict.get k items)
              (t.reads k ∙ ap ok (sym (same k)))
            ∙ ap (answer (Dict.get k items)) (p.reads k rest)
            ∙ answer-or_else (Dict.get k items) (first_input k inputs) (get_first k files rest);
        are_bytes = λ k.
            or_else-IsBytes k (Dict.get k items) (first_input k inputs)
              (λ q. t.are_bytes k (ap is_some (sym (same k)) ∙ q)) (p.are_bytes k);
      },
    )

-- What a merge of tables gives.
pub record MergedTables (files : Files) (level0 : List Metadata) (items : Items) : Type 0 where
  pub result_is : merge_sstables files level0 ≡ ok items
  pub ascending : IsAscending items
  pub reads :
      (k : Bytes) (rest : List (ℕ × Metadata))
      → get_first k files (at_level 0 level0 ++ rest)
        ≡ answer (Dict.get k items) (get_first k files rest)
  pub are_bytes : (k : Bytes) → has k (set_all items []) ≡ true → IsBytes k

pub merge_sstables-MergedTables :
    (files : Files) (level0 : List Metadata)
    → All (IsTable files) level0
    → (items : Items) × MergedTables files level0 items
unfolding merge_sstables
merge_sstables-MergedTables files level0 h =
    let (inputs, p) = tables-Inputs files level0 h in
    let (items, merged, up, same) = merge_items_lem inputs p.ascending in
    (
      items,
      record {
        result_is = rw (p.are_read, merged) refl;
        ascending = up;
        reads = λ k rest.
            p.reads k rest
            ∙ ap (λ (o : Option Bytes). answer o (get_first k files rest)) (sym (same k));
        are_bytes =
            λ k q. p.are_bytes k (ap is_some (sym (get-set_all-ascending k items up ∙ same k)) ∙ q);
      },
    )
