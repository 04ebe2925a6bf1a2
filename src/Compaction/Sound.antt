-- ===== src/Compaction/Sound.antt =====
-- What the manifest and the files keep through the flushes of src/storage/engine.py and the
-- compactions of src/storage/compaction.py.
use logvine.Prelude.{
  ℕ, ◌≡◌, sym, ◌∙◌, true, false, none, List, [], ◌∷◌, ◌++◌, arith, All, ◌==◌, nat_eq, subst,
}
use logvine.Prelude.Bytes.{Bytes, bytes_eq}
use logvine.Prelude.Dict
use logvine.Prelude.Dict.{IsDistinct, get-set}
use logvine.SsTable.{Files, FilePath, unlink}
use logvine.Manifest.{Manifest, Metadata, add_sstable, save, get_level_sstables, iter_levels}
use logvine.SsTableManager.{at_level, ordered_entries, iter_sstable_metadata, level_entries}
use logvine.SsTableManager.Locality.{Unused, get_from-SameFile, get-unlink}
use logvine.SsTableManager.Newest.{OlderThan, iter-add_sstable}
use logvine.Compaction.Levels.{
  upper, iter-upper, upper-flushed, level0-flushed, add_sstable-IsDistinct,
}
use logvine.Compaction.Tables.{IsTable}

-- The tables stand on the disk as they were written.
abbrev pub Standing : Files → List (ℕ × Metadata) → Type 0
Standing files = All (λ t. IsTable files t.1)

-- Each table of the manifest stands on the disk as it was written, those of level 0 at paths that no
-- table above level 0 has, and each level is in the manifest once.
pub record Sound (m : Manifest) (files : Files) : Type 0 where
  pub stand : Standing files (iter_sstable_metadata none true m)
  pub apart : All (λ info. Unused info.path (upper m)) (get_level_sstables 0 m)
  pub distinct : IsDistinct m.levels

same_file-IsTable :
    (files files' : Files) (meta : Metadata)
    → Dict.get meta.path files' ≡ Dict.get meta.path files
    → IsTable files meta
    → IsTable files' meta
same_file-IsTable files files' meta same t = record {
  pairs = t.pairs;
  file = t.file;
  index = t.index;
  written = t.written;
  stands = same ∙ t.stands;
  reads = λ k. get_from-SameFile k files files' meta same ∙ t.reads k;
  are_bytes = t.are_bytes;
}

-- A path that is none of the tables'.
abbrev pub NotAt : FilePath → List Metadata → Type 0
NotAt path = All (λ info. (path == info.path) ≡ false)

pub Unused-levels :
    (path : FilePath) (level0 : List Metadata) (above : List (ℕ × Metadata))
    → Unused path (at_level 0 level0 ++ above)
    → NotAt path level0 × Unused path above
unfolding at_level
Unused-levels path [] above h = (tt, h)
Unused-levels path (info ∷ level0) above h =
    let (others, rest) = Unused-levels path level0 above h.1 in ((h.0, others), rest)

pub Unused-upper :
    (path : FilePath) (m : Manifest)
    → Unused path (iter_sstable_metadata none true m)
    → Unused path (upper m)
Unused-upper path m h =
    (Unused-levels path (ordered_entries true (get_level_sstables 0 m)) (upper m)
      (subst (Unused path) (iter-upper m) h)).1

-- The tables of level 0 and those above stand, where all do.
pub Standing-levels :
    (files : Files) (level0 : List Metadata) (above : List (ℕ × Metadata))
    → Standing files (at_level 0 level0 ++ above)
    → All (IsTable files) level0 × Standing files above
unfolding at_level
Standing-levels files [] above h = (tt, h)
Standing-levels files (info ∷ level0) above h =
    let (others, rest) = Standing-levels files level0 above h.1 in ((h.0, others), rest)

pub set-Standing :
    (path : FilePath) (file : Bytes) (files : Files) (tables : List (ℕ × Metadata))
    → Unused path tables
    → Standing files tables
    → Standing (Dict.set path file files) tables
set-Standing path file files [] unused h = tt
set-Standing path file files ((level, info) ∷ tables) unused h = (
  same_file-IsTable files (Dict.set path file files) info
      (ground (arith, get-set path info.path file files, unused.0)) h.0,
  set-Standing path file files tables unused.1 h.1,
)

pub unlink-Standing :
    (path : FilePath) (files : Files) (tables : List (ℕ × Metadata))
    → Unused path tables
    → Standing files tables
    → Standing (unlink path files) tables
unlink-Standing path files [] unused h = tt
unlink-Standing path files ((level, info) ∷ tables) unused h = (
  same_file-IsTable files (unlink path files) info (get-unlink path info.path files unused.0) h.0,
  unlink-Standing path files tables unused.1 h.1,
)

-- A file that is written or removed at a path of no table.
pub set-Sound :
    (path : FilePath) (file : Bytes) (m : Manifest) (files : Files)
    → Unused path (iter_sstable_metadata none true m)
    → Sound m files
    → Sound m (Dict.set path file files)
set-Sound path file m files unused s = record {
  stand = set-Standing path file files (iter_sstable_metadata none true m) unused s.stand;
  apart = s.apart;
  distinct = s.distinct;
}

pub unlink-Sound :
    (path : FilePath) (m : Manifest) (files : Files)
    → Unused path (iter_sstable_metadata none true m)
    → Sound m files
    → Sound m (unlink path files)
unlink-Sound path m files unused s = record {
  stand = unlink-Standing path files (iter_sstable_metadata none true m) unused s.stand;
  apart = s.apart;
  distinct = s.distinct;
}

All-snoc {ℓ} :
    (P : Metadata → Type ℓ) (xs : List Metadata) (x : Metadata)
    → All P xs
    → P x
    → All P (xs ++ x ∷ [])
All-snoc P [] x h p = (p, tt)
All-snoc P (y ∷ xs) x h p = (h.0, All-snoc P xs x h.1 p)

iter-flushed :
    (metadata : Metadata) (m : Manifest)
    → OlderThan metadata.created_at_ms (get_level_sstables 0 m)
    → iter_sstable_metadata none true (save (add_sstable 0 metadata m))
      ≡ (0, metadata) ∷ iter_sstable_metadata none true m
unfolding save iter_sstable_metadata level_entries iter_levels
iter-flushed metadata m older = iter-add_sstable metadata m older

-- A table that a flush adds.
pub add_sstable-Sound :
    (metadata : Metadata) (m : Manifest) (files : Files)
    → IsTable files metadata
    → Unused metadata.path (upper m)
    → OlderThan metadata.created_at_ms (get_level_sstables 0 m)
    → Sound m files
    → Sound (save (add_sstable 0 metadata m)) files
add_sstable-Sound metadata m files new unused older s =
    let entries = get_level_sstables 0 m in
    let m' = save (add_sstable 0 metadata m) in
    let Apart : List (ℕ × Metadata) → Metadata → Type 0 = λ above info. Unused info.path above in
    record {
      stand = subst (Standing files) (sym (iter-flushed metadata m older)) (new, s.stand);
      apart =
          subst (λ (above : List (ℕ × Metadata)). All (Apart above) (get_level_sstables 0 m'))
            (sym (upper-flushed metadata m))
            (subst (All (Apart (upper m))) (sym (level0-flushed metadata m))
              (All-snoc (Apart (upper m)) entries metadata s.apart unused));
      distinct = unfold save in add_sstable-IsDistinct 0 metadata m s.distinct;
    }
