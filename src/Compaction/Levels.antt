-- ===== src/Compaction/Levels.antt =====
-- The levels after a compaction of src/storage/compaction.py: the new table is asked first, and level
-- 0 is empty.
use logvine.Prelude.{
  ℕ, ◌≡◌, ◌≢◌, refl, sym, ap, ◌∙◌, Bool, true, false, Option, none, some, List, [], ◌∷◌, ◌++◌,
  arith, All, All-implies, ◌==◌, nat_eq, nat_beq_iff, Bool-cases, inl, inr, ◌||◌, ==_refl, subst,
}
use logvine.Prelude.Bytes.{bytes_eq, bytes_beq_iff}
use logvine.Prelude.Order.{sorted}
use logvine.Prelude.Dict
use logvine.Prelude.Dict.{IsDistinct, get-set, set-IsDistinct}
use logvine.SsTable.{FilePath}
use logvine.Manifest.{
  Manifest, Metadata, Levels, level_lt, or_empty, save, add_sstable, remove_sstable, without_path,
  iter_levels, get_level_sstables,
}
use logvine.SsTableManager.{
  enumerate_from, metadata_of, ordered_entries, at_level, each_level, level_entries,
  iter_sstable_metadata,
}
use logvine.SsTableManager.Newest.{
  others, From, From-zero, each_level-least, each_level-set, OlderThan, ordered_entries-newest,
}
use logvine.SsTableManager.Ordered.{All-unordered}
use logvine.Compaction.{remove_all}

-- Whether one of the tables is at the path.
unfoldable pub has_path : FilePath → List Metadata → Bool
has_path path [] = false
has_path path (entry ∷ entries) = entry.path == path || has_path path entries

-- What removing tables one after the other leaves.
unfoldable pub strip : List Metadata → List Metadata → List Metadata
strip [] entries = entries
strip (info ∷ infos) entries = strip infos (without_path info.path entries)

Removed : List Metadata → List Metadata → Type 0
Removed infos = All (λ e. has_path e.path infos ≡ true)

without_path-Removed :
    (info : Metadata) (infos entries : List Metadata)
    → Removed (info ∷ infos) entries
    → Removed infos (without_path info.path entries)
unfolding Removed without_path has_path
without_path-Removed info infos [] h = tt
without_path-Removed info infos (e ∷ entries) h = elim (Bool-cases (e.path == info.path)) [
  | inl q ↦ rw q (without_path-Removed info infos entries h.1)
  | inr q ↦ rw q (
    ground (arith, h.0, bytes_beq_iff info.path e.path, bytes_beq_iff e.path info.path),
    without_path-Removed info infos entries h.1,
  )
]

strip-Removed : (infos entries : List Metadata) → Removed infos entries → strip infos entries ≡ []
unfolding strip Removed has_path
strip-Removed [] [] h = refl
strip-Removed [] (e ∷ entries) h = absurd (ground (arith, h.0))
strip-Removed (info ∷ infos) entries h =
    strip-Removed infos (without_path info.path entries)
      (unfold Removed has_path in without_path-Removed info infos entries h)

has_path-later :
    (info : Metadata) (infos entries : List Metadata)
    → Removed infos entries
    → Removed (info ∷ infos) entries
unfolding Removed has_path
has_path-later info infos entries h =
    All-implies (λ e. has_path e.path infos ≡ true) (λ e. has_path e.path (info ∷ infos) ≡ true)
      entries (λ e g. ground arith) h

Removed-self : (entries : List Metadata) → Removed entries entries
unfolding Removed has_path
Removed-self [] = tt
Removed-self (e ∷ entries) = (
  rw (==_refl e.path) refl,
  unfold Removed has_path in has_path-later e entries entries (Removed-self entries),
)

-- The tables of a level are all among the ordered ones.
Removed-ordered_entries : (entries : List Metadata) → Removed (ordered_entries true entries) entries
unfolding Removed
Removed-ordered_entries entries =
    All-unordered (λ e. has_path e.path (ordered_entries true entries) ≡ true) entries
      (unfold Removed in Removed-self (ordered_entries true entries))

metadata_of-at_level :
    (n : ℕ) (entries : List Metadata) → metadata_of (at_level n entries ++ []) ≡ entries
unfolding at_level
metadata_of-at_level n [] = refl
metadata_of-at_level n (e ∷ entries) = ap (◌∷◌ e) (metadata_of-at_level n entries)

-- The tables that `compact` takes: those of level 0, newest first.
pub compacted_tables :
    (m : Manifest)
    → metadata_of (iter_sstable_metadata (some 0) true m)
      ≡ ordered_entries true (get_level_sstables 0 m)
unfolding iter_sstable_metadata level_entries each_level
compacted_tables m = metadata_of-at_level 0 (ordered_entries true (get_level_sstables 0 m))

get-others : (n k : ℕ) (levels : Levels) → n ≢ k → Dict.get k (others n levels) ≡ Dict.get k levels
unfolding others Dict.get
get-others n k [] h = refl
get-others n k ((level, entries) ∷ levels) h =
    ground (arith, get-others n k levels h, nat_beq_iff level n, nat_beq_iff level k)

others-set_same :
    (n : ℕ) (x : List Metadata) (levels : Levels) → others n (Dict.set n x levels) ≡ others n levels
unfolding others Dict.set
others-set_same n x [] = rw (==_refl n) refl
others-set_same n x ((level, entries) ∷ levels) = elim (Bool-cases (level == n)) [
  | inl q ↦ rw q (rw q refl)
  | inr q ↦ rw q (rw q (ap (◌∷◌ (level, entries)) (others-set_same n x levels)))
]

others-set_other :
    (n k : ℕ) (x : List Metadata) (levels : Levels)
    → n ≢ k
    → others n (Dict.set k x levels) ≡ Dict.set k x (others n levels)
unfolding others Dict.set
others-set_other n k x [] h = ground (arith, nat_beq_iff k n)
others-set_other n k x ((level, entries) ∷ levels) h =
    ground (arith, others-set_other n k x levels h, nat_beq_iff level n, nat_beq_iff level k)

From-has : (levels : Levels) → Dict.has 0 levels ≡ false → From 1 levels
unfolding Dict.get
From-has [] h = tt
From-has ((level, entries) ∷ levels) h =
    (ground (arith, nat_beq_iff level 0), From-has levels (ground arith))

-- Where each level is there once, none but level 0 is below level 1.
From-others : (levels : Levels) → IsDistinct levels → From 1 (others 0 levels)
unfolding others
From-others [] h = tt
From-others ((level, entries) ∷ levels) h = elim (Bool-cases (level == 0)) [
  | inl q ↦
      let same : level ≡ 0 = (nat_beq_iff level 0).0 q in
      rw q (From-has levels (subst (λ n. Dict.has n levels ≡ false) same h.0))
  | inr q ↦ rw q (ground (arith, nat_beq_iff level 0), From-others levels h.1)
]

pub remove_all-level :
    (infos : List Metadata) (m : Manifest)
    → get_level_sstables 0 (remove_all infos m) ≡ strip infos (get_level_sstables 0 m)
unfolding remove_all strip
remove_all-level [] m = refl
remove_all-level (info ∷ infos) m =
    remove_all-level infos (remove_sstable 0 info.path m)
    ∙ unfold remove_sstable save get_level_sstables in
      ap (λ (o : Option (List Metadata)). strip infos (or_empty o))
        (get-set 0 0 (without_path info.path (or_empty (Dict.get 0 m.levels))) m.levels)

remove_all-others :
    (infos : List Metadata) (m : Manifest)
    → others 0 (remove_all infos m).levels ≡ others 0 m.levels
unfolding remove_all
remove_all-others [] m = refl
remove_all-others (info ∷ infos) m =
    remove_all-others infos (remove_sstable 0 info.path m)
    ∙ unfold remove_sstable save in
      others-set_same 0 (without_path info.path (get_level_sstables 0 m)) m.levels

-- The tables above level 0, in the order of a read.
unfoldable pub upper : Manifest → List (ℕ × Metadata)
upper m = each_level true (sorted level_lt (others 0 m.levels))

pub iter-upper :
    (m : Manifest)
    → iter_sstable_metadata none true m
      ≡ at_level 0 (ordered_entries true (get_level_sstables 0 m)) ++ upper m
unfolding iter_sstable_metadata level_entries iter_levels get_level_sstables upper
iter-upper m = each_level-least 0 m.levels (From-zero m.levels)

upper-add_sstable :
    (metadata : Metadata) (m : Manifest)
    → IsDistinct m.levels
    → OlderThan metadata.created_at_ms (get_level_sstables 1 m)
    → upper (add_sstable 1 metadata m) ≡ (1, metadata) ∷ upper m
unfolding upper add_sstable save get_level_sstables
upper-add_sstable metadata m distinct older =
    let entries = or_empty (Dict.get 1 m.levels) in
    let above = others 0 m.levels in
    let there : or_empty (Dict.get 1 above) ≡ entries =
      ap or_empty (get-others 0 1 m.levels (λ q. omega arith)) in
    ap (λ (ls : Levels). each_level true (sorted level_lt ls))
      (others-set_other 0 1 (entries ++ metadata ∷ []) m.levels (λ q. omega arith))
    ∙ each_level-set 1 (entries ++ metadata ∷ []) above (From-others m.levels distinct)
    ∙ ap
        (λ (es : List Metadata).
          at_level 1 es ++ each_level true (sorted level_lt (others 1 above)))
        (ordered_entries-newest entries metadata older)
    ∙ unfold at_level in
      ap (◌∷◌ (1, metadata)) (
        ap
          (λ (es : List Metadata).
            at_level 1 (ordered_entries true es)
            ++ each_level true (sorted level_lt (others 1 above)))
          (sym there)
        ∙ sym (each_level-least 1 above (From-others m.levels distinct)))

-- A compaction leaves no table of level 0.
pub level0-compacted :
    (metadata : Metadata) (m : Manifest)
    → get_level_sstables 0
        (remove_all (ordered_entries true (get_level_sstables 0 m)) (add_sstable 1 metadata m))
      ≡ []
level0-compacted metadata m =
    let infos = ordered_entries true (get_level_sstables 0 m) in
    let added = add_sstable 1 metadata m in
    let kept : get_level_sstables 0 added ≡ get_level_sstables 0 m =
      unfold add_sstable save get_level_sstables in
      ap or_empty (get-set 1 0 (or_empty (Dict.get 1 m.levels) ++ metadata ∷ []) m.levels) in
    remove_all-level infos added
    ∙ ap (strip infos) kept
    ∙ strip-Removed infos (get_level_sstables 0 m)
        (Removed-ordered_entries (get_level_sstables 0 m))

-- After a compaction a read asks the new table and then those above level 0.
pub iter-compacted :
    (metadata : Metadata) (m : Manifest)
    → IsDistinct m.levels
    → OlderThan metadata.created_at_ms (get_level_sstables 1 m)
    → iter_sstable_metadata none true
        (remove_all (ordered_entries true (get_level_sstables 0 m)) (add_sstable 1 metadata m))
      ≡ (1, metadata) ∷ upper m
iter-compacted metadata m distinct older =
    let infos = ordered_entries true (get_level_sstables 0 m) in
    let added = add_sstable 1 metadata m in
    let after = remove_all infos added in
    let none_left : at_level 0 (ordered_entries true []) ≡ [] =
      unfold at_level ordered_entries enumerate_from sorted in refl in
    let above : upper after ≡ upper added =
      unfold upper in
      ap (λ (ls : Levels). each_level true (sorted level_lt ls)) (remove_all-others infos added) in
    iter-upper after
    ∙ ap (λ (es : List Metadata). at_level 0 (ordered_entries true es) ++ upper after)
        (level0-compacted metadata m)
    ∙ ap (λ (ts : List (ℕ × Metadata)). ts ++ upper after) none_left
    ∙ above
    ∙ upper-add_sstable metadata m distinct older

pub upper-flushed :
    (metadata : Metadata) (m : Manifest) → upper (save (add_sstable 0 metadata m)) ≡ upper m
unfolding upper add_sstable save get_level_sstables
upper-flushed metadata m =
    ap (λ (ls : Levels). each_level true (sorted level_lt ls))
      (others-set_same 0 (or_empty (Dict.get 0 m.levels) ++ metadata ∷ []) m.levels)

pub level0-flushed :
    (metadata : Metadata) (m : Manifest)
    → get_level_sstables 0 (save (add_sstable 0 metadata m))
      ≡ get_level_sstables 0 m ++ metadata ∷ []
unfolding add_sstable save get_level_sstables
level0-flushed metadata m =
    ap or_empty (get-set 0 0 (or_empty (Dict.get 0 m.levels) ++ metadata ∷ []) m.levels)

pub add_sstable-IsDistinct :
    (level : ℕ) (metadata : Metadata) (m : Manifest)
    → IsDistinct m.levels
    → IsDistinct (add_sstable level metadata m).levels
unfolding add_sstable save
add_sstable-IsDistinct level metadata m h =
    set-IsDistinct level (get_level_sstables level m ++ metadata ∷ []) m.levels h

pub remove_all-IsDistinct :
    (infos : List Metadata) (m : Manifest)
    → IsDistinct m.levels
    → IsDistinct (remove_all infos m).levels
unfolding remove_all remove_sstable save
remove_all-IsDistinct [] m h = h
remove_all-IsDistinct (info ∷ infos) m h =
    remove_all-IsDistinct infos (remove_sstable 0 info.path m)
      (set-IsDistinct 0 (without_path info.path (get_level_sstables 0 m)) m.levels h)
