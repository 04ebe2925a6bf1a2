-- ===== src/Engine/FlushReads.antt =====
-- `flush` of src/storage/engine.py changes no read.
use logvine.Prelude.{
  ℕ, ◌≡◌, refl, sym, ap, ◌∙◌, true, Option, none, some, List, [], ◌∷◌, arith, All, inl, inr,
  or_else, is_some, ==_refl, subst,
}
use logvine.Prelude.Bytes.{Bytes, IsBytes, bytes_eq}
use logvine.Prelude.Order.{sorted, All-contains}
use logvine.Prelude.Result.{Result, ok, ◌>>=◌, Result-cases}
use logvine.Prelude.Dict
use logvine.Prelude.Dict.{Dict, keys, has, set_all, IsDistinct, contains-keys, get-set}
use logvine.Prelude.Dict.Sorted.{get-set_all-sorted}
use logvine.MemTable
use logvine.MemTable.{MemTable, pair_lt}
use logvine.MemTable.Reads.{get-clear_frozen}
use logvine.SsTable
use logvine.SsTable.{SsTable, Files, FilePath, unlink, file_bytes, write_done}
use logvine.SsTable.Lookup.{file_bytes-Written}
use logvine.Manifest
use logvine.Manifest.{Manifest, Metadata, get_level_sstables}
use logvine.SsTableManager
use logvine.SsTableManager.{iter_sstable_metadata, get_first, get_from, build_metadata}
use logvine.SsTableManager.Newest.{OlderThan, iter-add_sstable}
use logvine.SsTableManager.Locality.{Unused, get_first-set, get_first-unlink}
use logvine.SsTableManager.Covers.{get_from-build_metadata}
use logvine.Engine.{
  Engine, get, get_stored, found, flush, flush_items, flush_written, flush_recorded, flushed_path,
  start_compaction,
}

-- The tables that a read asks where the table in memory has no answer.
abbrev tables : Engine → List (ℕ × Metadata)
tables s = iter_sstable_metadata none true s.manifest

-- What a read finds, where the table in memory answers `o`.
abbrev look : Bytes → Option Bytes → Files → List (ℕ × Metadata) → Result (Option Bytes)
look j none files ts = get_first j files ts
look j (some value) files ts = ok (some value)

get_stored-look :
    (j : Bytes) (o : Option Bytes) (s : Engine) → get_stored j o s ≡ look j o s.files (tables s)
unfolding get_stored SsTableManager.get
get_stored-look j none s = refl
get_stored-look j (some value) s = refl

get-look :
    (j : Bytes) (s : Engine)
    → get j s ≡ (look j (MemTable.get j s.memtable) s.files (tables s) >>= found)
unfolding get
get-look j s = rw (get_stored-look j (MemTable.get j s.memtable) s) refl

look-same :
    (j : Bytes) (o : Option Bytes) (files files' : Files) (ts : List (ℕ × Metadata))
    → get_first j files' ts ≡ get_first j files ts
    → look j o files' ts ≡ look j o files ts
look-same j none files files' ts same = same
look-same j (some value) files files' ts same = refl

-- Other files change no read where the loop over the tables answers alike.
get-files :
    (j : Bytes) (files : Files) (s : Engine)
    → get_first j files (tables s) ≡ get_first j s.files (tables s)
    → get j (record s { files = files }) ≡ get j s
get-files j files s same =
    get-look j (record s { files = files })
    ∙ ap (λ (r : Result (Option Bytes)). r >>= found)
        (look-same j (MemTable.get j s.memtable) s.files files (tables s) same)
    ∙ sym (get-look j s)

-- A table that holds the oldest frozen buffer, asked first, takes that buffer's place.
look-flushed :
    (j : Bytes) (files files' : Files) (metadata : Metadata) (ts : List (ℕ × Metadata))
    (rest oldest : Option Bytes)
    → get_from j files' metadata ≡ ok oldest
    → get_first j files' ts ≡ get_first j files ts
    → look j rest files' ((0, metadata) ∷ ts) ≡ look j (or_else rest oldest) files ts
unfolding get_first
look-flushed j files files' metadata ts (some value) oldest h same = refl
look-flushed j files files' metadata ts none none h same = ground arith
look-flushed j files files' metadata ts none (some value) h same = ground arith

module _ (created : ℕ) (path : FilePath) (j : Bytes) (s : Engine) (unused : Unused path (tables s))
    (newer : OlderThan created (get_level_sstables 0 s.manifest)) where
  -- A table that was written and recorded, and the oldest frozen buffer dropped.
  get-flush_recorded :
      (metadata : Metadata) (file : Bytes)
      → metadata.created_at_ms ≡ created
      → get_from j (Dict.set path file s.files) metadata
        ≡ ok (Dict.get j (MemTable.get_frozen_items s.memtable))
      → get j (flush_recorded metadata (record s { files = Dict.set path file s.files })) ≡ get j s
  unfolding flush_recorded start_compaction Manifest.save Manifest.add_sstable
  get-flush_recorded metadata file at reads =
      let files = Dict.set path file s.files in
      let newer' = subst (λ c. OlderThan c (get_level_sstables 0 s.manifest)) (sym at) newer in
      let s' = flush_recorded metadata (record s { files = files }) in
      let m' = MemTable.clear_frozen s.memtable in
      let tables_are : tables s' ≡ (0, metadata) ∷ tables s =
        iter-add_sstable metadata s.manifest newer' in
      get-look j s'
      ∙ ap (λ (ts : List (ℕ × Metadata)). look j (MemTable.get j m') files ts >>= found) tables_are
      ∙ ap (λ (r : Result (Option Bytes)). r >>= found)
          (look-flushed j s.files files metadata (tables s) (MemTable.get j m')
            (Dict.get j (MemTable.get_frozen_items s.memtable)) reads
            (get_first-set j path file s.files (tables s) unused))
      ∙ ap (λ (o : Option Bytes). look j o s.files (tables s) >>= found)
          (sym (get-clear_frozen j s.memtable))
      ∙ sym (get-look j s)

  get-flush_built :
      (pairs : List (Bytes × Bytes)) (file : Bytes) (index : Dict Bytes ℕ)
      → ((k : Bytes) → has k (set_all pairs []) ≡ true → IsBytes k)
      → Dict.get j (set_all pairs []) ≡ Dict.get j (MemTable.get_frozen_items s.memtable)
      → file_bytes pairs ≡ ok (file, index)
      → get j (
          flush_written created
            (ok (record (SsTable.init path 0) { index = index }), Dict.set path file s.files)
            s)
        ≡ get j s
  unfolding flush_written SsTable.init
  get-flush_built pairs file index all_bytes oldest made =
      let t : SsTable = record (SsTable.init path 0) { index = index } in
      let files = Dict.set path file s.files in
      let stands : Dict.get path files ≡ some file =
        ground (arith, get-set path path file s.files, ==_refl path) in
      elim (Result-cases (build_metadata created t 0 files)) [
        | inr (e, failing) ↦
            rw (flush_written, failing)
              (get-files j files s (get_first-set j path file s.files (tables s) unused))
        | inl (metadata, built) ↦
            let (reads, path_is, at) =
              get_from-build_metadata pairs file index files t
                (file_bytes-Written pairs file index made) stands refl all_bytes j created 0
                metadata built in
            rw (flush_written, built) (get-flush_recorded metadata file at (reads ∙ ap ok oldest))
      ]

  get-flush_written :
      (pairs : List (Bytes × Bytes))
      → ((k : Bytes) → has k (set_all pairs []) ≡ true → IsBytes k)
      → Dict.get j (set_all pairs []) ≡ Dict.get j (MemTable.get_frozen_items s.memtable)
      → get j (flush_written created (SsTable.write pairs (SsTable.init path 0) s.files) s)
        ≡ get j s
  unfolding flush_written SsTable.write write_done SsTable.init
  get-flush_written pairs all_bytes oldest = elim (Result-cases (file_bytes pairs)) [
    | inr (e, failing) ↦
        rw (failing, SsTable.init)
          (get-files j (unlink path s.files) s (get_first-unlink j path s.files (tables s) unused))
    | inl ((file, index), made) ↦ rw made (get-flush_built pairs file index all_bytes oldest made)
  ]

get-flush_items :
    (now created : ℕ) (j : Bytes) (s : Engine)
    → Unused (flushed_path s.storage_path now) (tables s)
    → OlderThan created (get_level_sstables 0 s.manifest)
    → (pairs : List (Bytes × Bytes)) → ((k : Bytes) → has k (set_all pairs []) ≡ true → IsBytes k)
    → Dict.get j (set_all pairs []) ≡ Dict.get j (MemTable.get_frozen_items s.memtable)
    → get j (flush_items now created pairs s) ≡ get j s
unfolding flush_items
get-flush_items now created j s unused newer [] all_bytes oldest = refl
get-flush_items now created j s unused newer (pair ∷ pairs) all_bytes oldest =
    get-flush_written created (flushed_path s.storage_path now) j s unused newer (pair ∷ pairs)
      all_bytes oldest

-- A flush changes no read, whether it writes a table, fails at any point, or has nothing to flush:
-- where the path that it takes from the clock is that of no table in the manifest, the tables of level
-- 0 are older than the one that it makes, and the keys of the buffer are bytes and differ.
pub get-flush :
    (now created : ℕ) (j : Bytes) (s : Engine)
    → Unused (flushed_path s.storage_path now) (tables s)
    → OlderThan created (get_level_sstables 0 s.manifest)
    → IsDistinct (MemTable.get_frozen_items s.memtable)
    → All IsBytes (keys (MemTable.get_frozen_items s.memtable))
    → get j (flush now created s) ≡ get j s
unfolding flush
get-flush now created j s unused newer distinct all_bytes =
    let items = MemTable.get_frozen_items s.memtable in
    get-flush_items now created j s unused newer (sorted pair_lt items)
      (λ k h. All-contains IsBytes k (keys items) all_bytes (
        contains-keys k items ∙ sym (ap is_some (get-set_all-sorted pair_lt k items distinct)) ∙ h))
      (get-set_all-sorted pair_lt j items distinct)
