-- ===== src/Compaction/Removed.antt =====
-- `_remove_old_sstable_files` of src/storage/compaction.py: the tables that stay.
use logvine.Prelude.{ℕ, ◌≡◌, refl, ap, ◌∙◌, List, [], ◌∷◌, All, ◌==◌, nat_eq, ==_comm}
use logvine.Prelude.Bytes.{Bytes, bytes_eq}
use logvine.SsTable.{Files, FilePath, unlink}
use logvine.Manifest.{Metadata}
use logvine.SsTableManager.{get_first}
use logvine.SsTableManager.Locality.{Unused, get_first-unlink}
use logvine.Compaction.{remove_old_sstable_files}
use logvine.Compaction.Sound.{Standing, NotAt, unlink-Standing}

-- The files of tables that a read does not ask are removed.
pub get_first-remove_old :
    (j : Bytes) (infos : List Metadata) (files : Files) (tables : List (ℕ × Metadata))
    → All (λ info. Unused info.path tables) infos
    → get_first j (remove_old_sstable_files infos files) tables ≡ get_first j files tables
unfolding remove_old_sstable_files
get_first-remove_old j [] files tables h = refl
get_first-remove_old j (info ∷ infos) files tables h =
    get_first-remove_old j infos (unlink info.path files) tables h.1
    ∙ get_first-unlink j info.path files tables h.0

-- The new table is at none of the paths that are removed.
pub Unused-new :
    (path : FilePath) (metadata : Metadata) (level0 : List Metadata) (above : List (ℕ × Metadata))
    → metadata.path ≡ path
    → NotAt path level0
    → All (λ info. Unused info.path above) level0
    → All (λ info. Unused info.path ((1, metadata) ∷ above)) level0
Unused-new path metadata [] above at new apart = tt
Unused-new path metadata (info ∷ level0) above at new apart = (
  (ap (λ (p : FilePath). info.path == p) at ∙ ==_comm info.path path ∙ new.0, apart.0),
  Unused-new path metadata level0 above at new.1 apart.1,
)

pub Standing-remove_old :
    (infos : List Metadata) (files : Files) (tables : List (ℕ × Metadata))
    → All (λ info. Unused info.path tables) infos
    → Standing files tables
    → Standing (remove_old_sstable_files infos files) tables
unfolding remove_old_sstable_files
Standing-remove_old [] files tables unused h = h
Standing-remove_old (info ∷ infos) files tables unused h =
    Standing-remove_old infos (unlink info.path files) tables unused.1
      (unlink-Standing info.path files tables unused.0 h)
