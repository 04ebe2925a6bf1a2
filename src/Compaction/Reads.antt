-- ===== src/Compaction/Reads.antt =====
-- `compact` of src/storage/compaction.py changes no read of the tables.
use logvine.Prelude.{
  ℕ, ◌≡◌, refl, sym, ap, ◌∙◌, true, none, some, List, [], ◌∷◌, ◌++◌, arith, All, nat_eq, inl, inr,
  ==_refl, subst,
}
use logvine.Prelude.Bytes.{Bytes, bytes_eq}
use logvine.Prelude.Result.{ok, Result-cases}
use logvine.Prelude.Dict
use logvine.Prelude.Dict.{Dict, has, set_all, IsDistinct, get-set}
use logvine.SsTable
use logvine.SsTable.{SsTable, Files, FilePath, unlink, init, file_bytes, write_done}
use logvine.SsTable.Lookup.{file_bytes-Written}
use logvine.Manifest.{Manifest, Metadata, add_sstable, get_level_sstables}
use logvine.SsTableManager
use logvine.SsTableManager.{
  at_level, ordered_entries, metadata_of, iter_sstable_metadata, get_from, get_first,
  build_metadata,
}
use logvine.SsTableManager.Newest.{OlderThan}
use logvine.SsTableManager.Locality.{Unused, get_first-set, get_first-unlink}
use logvine.SsTableManager.Covers.{get_from-build_metadata}
use logvine.Compaction.{
  Items, State, compact, compact_tables, compacted_path, finish_compaction, remove_all,
  remove_old_sstable_files,
}
use logvine.SsTableManager.Ordered.{All-ordered}
use logvine.Compaction.Levels.{
  compacted_tables, upper, iter-upper, iter-compacted, level0-compacted, add_sstable-IsDistinct,
  remove_all-IsDistinct,
}
use logvine.Compaction.Sound.{
  Sound, Standing, NotAt, Unused-levels, Standing-levels, set-Standing, set-Sound, unlink-Sound,
}
use logvine.Compaction.Removed.{get_first-remove_old, Unused-new, Standing-remove_old}
use logvine.Compaction.Tables.{
  IsTable, build_metadata-IsTable, get-set_all-ascending, answer, get_first-answer, MergedTables,
  merge_sstables-MergedTables,
}

-- A change of the manifest and the files that keeps them sound and changes no read.
abbrev Keeps : Manifest → Files → Manifest × Files → Type 0
Keeps m files (m', files') =
    Sound m' files' × ((j : Bytes) → SsTableManager.get j files' m' ≡ SsTableManager.get j files m)

module _ (now : ℕ) (path : FilePath) (m : Manifest) (files : Files) (level0 : List Metadata)
    (level0_is : ordered_entries true (get_level_sstables 0 m) ≡ level0)
    (unused : Unused path (iter_sstable_metadata none true m))
    (newer : OlderThan now (get_level_sstables 1 m)) (sound : Sound m files) where
  tables_are : iter_sstable_metadata none true m ≡ at_level 0 level0 ++ upper m
  tables_are = iter-upper m ∙ ap (λ (es : List Metadata). at_level 0 es ++ upper m) level0_is

  NotAt-path : NotAt path level0 × Unused path (upper m)
  NotAt-path = Unused-levels path level0 (upper m) (subst (Unused path) tables_are unused)

  apart_level0 : All (λ info. Unused info.path (upper m)) level0
  apart_level0 =
      subst (All (λ info. Unused info.path (upper m))) level0_is
        (All-ordered (λ info. Unused info.path (upper m)) (get_level_sstables 0 m) sound.apart)

  tables_after :
      (metadata : Metadata)
      → metadata.created_at_ms ≡ now
      → iter_sstable_metadata none true (remove_all level0 (add_sstable 1 metadata m))
        ≡ (1, metadata) ∷ upper m
  tables_after metadata created =
      ap
        (λ (es : List Metadata).
          iter_sstable_metadata none true (remove_all es (add_sstable 1 metadata m)))
        (sym level0_is)
      ∙ iter-compacted metadata m sound.distinct
          (subst (λ c. OlderThan c (get_level_sstables 1 m)) (sym created) newer)

  recorded-Sound :
      (metadata : Metadata) (file : Bytes)
      → IsTable (Dict.set path file files) metadata
      → metadata.path ≡ path
      → metadata.created_at_ms ≡ now
      → Sound
          (remove_all level0 (add_sstable 1 metadata m))
          (remove_old_sstable_files level0 (Dict.set path file files))
  recorded-Sound metadata file new at created =
      let m' = remove_all level0 (add_sstable 1 metadata m) in
      let files' = Dict.set path file files in
      let above = subst (Standing files) tables_are sound.stand in
      let empty : get_level_sstables 0 m' ≡ [] =
        ap (λ (es : List Metadata). get_level_sstables 0 (remove_all es (add_sstable 1 metadata m)))
          (sym level0_is)
        ∙ level0-compacted metadata m in
      record {
        stand =
            subst (Standing (remove_old_sstable_files level0 files'))
              (sym (tables_after metadata created))
              (Standing-remove_old level0 files' ((1, metadata) ∷ upper m)
                (Unused-new path metadata level0 (upper m) at NotAt-path.0 apart_level0)
                (
                  new,
                  set-Standing path file files (upper m) NotAt-path.1
                      (Standing-levels files level0 (upper m) above).1,
                ));
        apart = subst (All (λ info. Unused info.path (upper m'))) (sym empty) tt;
        distinct =
            remove_all-IsDistinct level0 (add_sstable 1 metadata m)
              (add_sstable-IsDistinct 1 metadata m sound.distinct);
      }

  -- The new table answers for those of level 0, and the tables above stay.
  reads-recorded :
      (j : Bytes) (metadata : Metadata) (file : Bytes) (items : Items)
      → metadata.path ≡ path
      → metadata.created_at_ms ≡ now
      → get_from j (Dict.set path file files) metadata ≡ ok (Dict.get j items)
      → MergedTables files level0 items
      → SsTableManager.get j
          (remove_old_sstable_files level0 (Dict.set path file files))
          (remove_all level0 (add_sstable 1 metadata m))
        ≡ SsTableManager.get j files m
  unfolding SsTableManager.get
  reads-recorded j metadata file items at created reads merged =
      let files' = Dict.set path file files in
      ap (get_first j (remove_old_sstable_files level0 files')) (tables_after metadata created)
      ∙ get_first-remove_old j level0 files' ((1, metadata) ∷ upper m)
          (Unused-new path metadata level0 (upper m) at NotAt-path.0 apart_level0)
      ∙ get_first-answer j files' 1 metadata (upper m) (Dict.get j items) reads
      ∙ ap (answer (Dict.get j items)) (get_first-set j path file files (upper m) NotAt-path.1)
      ∙ sym (merged.reads j (upper m))
      ∙ ap (get_first j files) (sym tables_are)

  built-Keeps :
      (file : Bytes) (index : Dict Bytes ℕ) (items : Items)
      → file_bytes items ≡ ok (file, index)
      → MergedTables files level0 items
      → Keeps m files (
          finish_compaction now level0 m
            (ok (record (SsTable.init path 1) { index = index }), Dict.set path file files))
  unfolding SsTable.init SsTableManager.get finish_compaction
  built-Keeps file index items made merged =
      let t : SsTable = record (SsTable.init path 1) { index = index } in
      let files' = Dict.set path file files in
      let stands : Dict.get path files' ≡ some file =
        ground (arith, get-set path path file files, ==_refl path) in
      elim (Result-cases (build_metadata now t 1 files')) [
        | inr (e, failing) ↦
            rw (finish_compaction, failing)
              (
                set-Sound path file m files unused sound,
                λ j. get_first-set j path file files (iter_sstable_metadata none true m) unused,
              )
        | inl (metadata, built) ↦
            let (new, at, created) =
              build_metadata-IsTable items file index files' t now 1 metadata made stands refl
                merged.are_bytes built in
            let reads : (j : Bytes)
                → get_from j files' metadata ≡ ok (Dict.get j (set_all items [])) =
              λ j.
                (get_from-build_metadata items file index files' t
                  (file_bytes-Written items file index made) stands refl merged.are_bytes j now 1
                  metadata built).0 in
            rw (finish_compaction, built)
              (
                recorded-Sound metadata file new at created,
                λ j.
                    reads-recorded j metadata file items at created
                      (reads j ∙ ap ok (get-set_all-ascending j items merged.ascending)) merged,
              )
      ]

  written-Keeps :
      (items : Items)
      → MergedTables files level0 items
      → Keeps m files
          (finish_compaction now level0 m (SsTable.write items (SsTable.init path 1) files))
  unfolding SsTable.write write_done SsTable.init finish_compaction SsTableManager.get
  written-Keeps items merged = elim (Result-cases (file_bytes items)) [
    | inr (e, failing) ↦
        rw (failing, SsTable.init)
          (
            unlink-Sound path m files unused sound,
            λ j. get_first-unlink j path files (iter_sstable_metadata none true m) unused,
          )
    | inl ((file, index), made) ↦ rw made (built-Keeps file index items made merged)
  ]

compact_tables-Keeps :
    (storage_path : FilePath) (time_ns now : ℕ) (m : Manifest) (files : Files)
    (level0 : List Metadata)
    → ordered_entries true (get_level_sstables 0 m) ≡ level0
    → Unused (compacted_path storage_path time_ns) (iter_sstable_metadata none true m)
    → OlderThan now (get_level_sstables 1 m)
    → Sound m files
    → Keeps m files (compact_tables storage_path time_ns now level0 m files)
unfolding compact_tables
compact_tables-Keeps storage_path time_ns now m files [] are unused newer sound = (sound, λ j. refl)
compact_tables-Keeps storage_path time_ns now m files (info ∷ infos) are unused newer sound =
    let stand =
      (Standing-levels files (info ∷ infos) (upper m) (
        subst (Standing files)
          (iter-upper m ∙ ap (λ (es : List Metadata). at_level 0 es ++ upper m) are)
          sound.stand)).0 in
    let (items, merged) = merge_sstables-MergedTables files (info ∷ infos) stand in
    rw (compact_tables, merged.result_is)
      (written-Keeps now (compacted_path storage_path time_ns) m files (info ∷ infos) are unused
        newer sound items merged)

-- A compaction changes no read of the tables, whether it makes a table, fails at any point, or finds
-- nothing to do, and keeps the manifest and the files sound: all tables stand as they were written,
-- those of level 0 at paths of no other level, and each level is in the manifest once. The path of the new
-- table is that of no table in the manifest, and the tables of level 1 are older than the new one. This
-- compares a read after the compaction with one before it; a read at the same time, which opens the
-- tables of the manifest of before among the files of after, is not covered.
pub get-compact :
    (storage_path : FilePath) (time_ns now : ℕ) (s : State)
    → Unused (compacted_path storage_path time_ns) (iter_sstable_metadata none true s.manifest)
    → OlderThan now (get_level_sstables 1 s.manifest)
    → Sound s.manifest s.files
    → Sound (compact storage_path time_ns now s).manifest (compact storage_path time_ns now s).files
      × ((j : Bytes)
          → SsTableManager.get j
              (compact storage_path time_ns now s).files
              (compact storage_path time_ns now s).manifest
            ≡ SsTableManager.get j s.files s.manifest)
unfolding compact
get-compact storage_path time_ns now s unused newer sound =
    subst
      (λ (level0 : List Metadata).
        Keeps s.manifest s.files
          (compact_tables storage_path time_ns now level0 s.manifest s.files))
      (sym (compacted_tables s.manifest))
      (compact_tables-Keeps storage_path time_ns now s.manifest s.files
        (ordered_entries true (get_level_sstables 0 s.manifest)) refl unused newer sound)
