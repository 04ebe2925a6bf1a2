-- ===== src/Engine/FlushSound.antt =====
-- `flush` of src/storage/engine.py keeps the manifest, the files and the buffers in order.
use logvine.Prelude.{
  ℕ, ◌≡◌, refl, sym, ap, ◌∙◌, true, none, some, List, [], ◌∷◌, arith, inl, inr, ==_refl, is_some,
  subst,
}
use logvine.Prelude.Bytes.{Bytes, IsBytes, bytes_eq}
use logvine.Prelude.Order.{sorted, All-contains}
use logvine.Prelude.Result.{ok, Result-cases}
use logvine.Prelude.Dict
use logvine.Prelude.Dict.{Dict, keys, has, set_all, contains-keys, get-set}
use logvine.Prelude.Dict.Sorted.{get-set_all-sorted}
use logvine.MemTable
use logvine.MemTable.{pair_lt}
use logvine.SsTable
use logvine.SsTable.{SsTable, FilePath, file_bytes, write_done}
use logvine.Manifest.{Metadata, get_level_sstables}
use logvine.SsTableManager.{iter_sstable_metadata, build_metadata}
use logvine.SsTableManager.Newest.{OlderThan}
use logvine.SsTableManager.Locality.{Unused}
use logvine.Compaction.Levels.{upper}
use logvine.Compaction.Tables.{IsTable, build_metadata-IsTable}
use logvine.Compaction.Sound.{Sound, Unused-upper, set-Sound, unlink-Sound, add_sstable-Sound}
use logvine.Engine.{
  Engine, flush, flush_items, flush_written, flush_recorded, flushed_path, start_compaction,
}
use logvine.Engine.Buffers.{Buffers, IsBuffer, clear_frozen-Buffers, get_frozen_items-IsBuffer}

-- An engine whose buffers hold bytes, and whose manifest and files are sound.
pub record Healthy (s : Engine) : Type 0 where
  pub buffers : Buffers s.memtable
  pub sound : Sound s.manifest s.files

module _ (created : ℕ) (path : FilePath) (s : Engine) (healthy : Healthy s)
    (unused : Unused path (iter_sstable_metadata none true s.manifest))
    (newer : OlderThan created (get_level_sstables 0 s.manifest)) where
  recorded-Healthy :
      (metadata : Metadata) (file : Bytes)
      → IsTable (Dict.set path file s.files) metadata
      → metadata.path ≡ path
      → metadata.created_at_ms ≡ created
      → Healthy (flush_recorded metadata (record s { files = Dict.set path file s.files }))
  unfolding flush_recorded start_compaction
  recorded-Healthy metadata file new at created_is = record {
    buffers = clear_frozen-Buffers s.memtable healthy.buffers;
    sound =
        add_sstable-Sound metadata s.manifest (Dict.set path file s.files) new
          (subst (λ (p : FilePath). Unused p (upper s.manifest)) (sym at)
            (Unused-upper path s.manifest unused))
          (subst (λ c. OlderThan c (get_level_sstables 0 s.manifest)) (sym created_is) newer)
          (set-Sound path file s.manifest s.files unused healthy.sound);
  }

  built-Healthy :
      (pairs : List (Bytes × Bytes)) (file : Bytes) (index : Dict Bytes ℕ)
      → ((k : Bytes) → has k (set_all pairs []) ≡ true → IsBytes k)
      → file_bytes pairs ≡ ok (file, index)
      → Healthy (
          flush_written created
            (ok (record (SsTable.init path 0) { index = index }), Dict.set path file s.files)
            s)
  unfolding flush_written SsTable.init
  built-Healthy pairs file index all_bytes made =
      let t : SsTable = record (SsTable.init path 0) { index = index } in
      let files = Dict.set path file s.files in
      let stands : Dict.get path files ≡ some file =
        ground (arith, get-set path path file s.files, ==_refl path) in
      elim (Result-cases (build_metadata created t 0 files)) [
        | inr (e, failing) ↦
            rw (flush_written, failing)
              (record {
                buffers = healthy.buffers;
                sound = set-Sound path file s.manifest s.files unused healthy.sound;
              })
        | inl (metadata, built) ↦
            let (new, at, created_is) =
              build_metadata-IsTable pairs file index files t created 0 metadata made stands refl
                all_bytes built in
            rw (flush_written, built) (recorded-Healthy metadata file new at created_is)
      ]

  written-Healthy :
      (pairs : List (Bytes × Bytes))
      → ((k : Bytes) → has k (set_all pairs []) ≡ true → IsBytes k)
      → Healthy (flush_written created (SsTable.write pairs (SsTable.init path 0) s.files) s)
  unfolding flush_written SsTable.write write_done SsTable.init
  written-Healthy pairs all_bytes = elim (Result-cases (file_bytes pairs)) [
    | inr (e, failing) ↦
        rw (failing, SsTable.init)
          (record {
            buffers = healthy.buffers;
            sound = unlink-Sound path s.manifest s.files unused healthy.sound;
          })
    | inl ((file, index), made) ↦ rw made (built-Healthy pairs file index all_bytes made)
  ]

flush_items-Healthy :
    (now created : ℕ) (pairs : List (Bytes × Bytes)) (s : Engine)
    → Unused (flushed_path s.storage_path now) (iter_sstable_metadata none true s.manifest)
    → OlderThan created (get_level_sstables 0 s.manifest)
    → ((k : Bytes) → has k (set_all pairs []) ≡ true → IsBytes k)
    → Healthy s
    → Healthy (flush_items now created pairs s)
unfolding flush_items
flush_items-Healthy now created [] s unused newer all_bytes healthy = healthy
flush_items-Healthy now created (pair ∷ pairs) s unused newer all_bytes healthy =
    written-Healthy created (flushed_path s.storage_path now) s healthy unused newer (pair ∷ pairs)
      all_bytes

-- Keys of a sorted buffer are keys of the buffer.
pub sorted_keys-IsBytes :
    (d : Dict Bytes Bytes)
    → IsBuffer d
    → (k : Bytes) → has k (set_all (sorted pair_lt d) []) ≡ true
    → IsBytes k
sorted_keys-IsBytes d b k h =
    All-contains IsBytes k (keys d) b.1
      (contains-keys k d ∙ sym (ap is_some (get-set_all-sorted pair_lt k d b.0)) ∙ h)

pub flush-Healthy :
    (now created : ℕ) (s : Engine)
    → Unused (flushed_path s.storage_path now) (iter_sstable_metadata none true s.manifest)
    → OlderThan created (get_level_sstables 0 s.manifest)
    → Healthy s
    → Healthy (flush now created s)
unfolding flush
flush-Healthy now created s unused newer healthy =
    let items = MemTable.get_frozen_items s.memtable in
    flush_items-Healthy now created (sorted pair_lt items) s unused newer
      (sorted_keys-IsBytes items (get_frozen_items-IsBuffer s.memtable healthy.buffers)) healthy
