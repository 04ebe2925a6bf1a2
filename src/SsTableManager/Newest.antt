-- ===== src/SsTableManager/Newest.antt =====
-- The order of `iter_sstable_metadata` of src/storage/sstable_manager.py after a table is added.
use logvine.Prelude.{
  ℕ, suc, ◌+◌, ◌<◌, ◌≡◌, refl, sym, ap, ◌∙◌, Bool, true, none, some, List, [], ◌∷◌, ◌++◌, arith,
  All, if◌then◌else◌, length, ◌==◌, nat_eq, nat_beq_iff, ◌≤◌, Bool-cases, inl, inr, lt→ltb,
  Option-cases,
}
use logvine.Prelude.Order.{insert_sorted, sorted, sorted-All}
use logvine.Prelude.Dict
use logvine.Manifest.{
  Manifest, Metadata, Levels, level_lt, or_empty, add_sstable, save, iter_levels,
  get_level_sstables,
}
use logvine.SsTableManager.{
  enumerate_from, older, newer, metadata_of, ordered_entries, at_level, each_level, level_entries,
  iter_sstable_metadata,
}

-- An item at the end that is below all others is sorted to the front.
sorted-least {ℓ} :
    {A : Type ℓ} (lt : A → A → Bool) (x : A) (xs : List A)
    → All (λ y. lt x y ≡ true) xs
    → sorted lt (xs ++ x ∷ []) ≡ x ∷ sorted lt xs
unfolding sorted insert_sorted
sorted-least lt x [] h = refl
sorted-least lt x (y ∷ ys) h = ap (insert_sorted lt y) (sorted-least lt x ys h.1) ∙ rw h.0 refl

enumerate_from-append :
    (i : ℕ) (xs : List Metadata) (x : Metadata)
    → enumerate_from i (xs ++ x ∷ []) ≡ enumerate_from i xs ++ (i + length xs, x) ∷ []
unfolding enumerate_from
enumerate_from-append i [] x = ap (λ (k : ℕ). (k, x) ∷ []) (omega arith)
enumerate_from-append i (y ∷ ys) x =
    let index : suc i + length ys ≡ i + suc (length ys) = omega arith in
    rw (← index) (ap (◌∷◌ (i, y)) (enumerate_from-append (suc i) ys x))

-- All tables of a list are older than a time.
abbrev pub OlderThan : ℕ → List Metadata → Type 0
OlderThan created = All (λ entry. entry.created_at_ms < created)

enumerate_from-older :
    (i j : ℕ) (xs : List Metadata) (x : Metadata)
    → OlderThan x.created_at_ms xs
    → All (λ e. newer (j, x) e ≡ true) (enumerate_from i xs)
unfolding enumerate_from older
enumerate_from-older i j [] x h = tt
enumerate_from-older i j (y ∷ ys) x h =
    (rw (lt→ltb y.created_at_ms x.created_at_ms h.0) refl, enumerate_from-older (suc i) j ys x h.1)

-- A newer table comes before the tables of its level.
pub ordered_entries-newest :
    (xs : List Metadata) (x : Metadata)
    → OlderThan x.created_at_ms xs
    → ordered_entries true (xs ++ x ∷ []) ≡ x ∷ ordered_entries true xs
unfolding ordered_entries
ordered_entries-newest xs x h =
    ap (λ (es : List (ℕ × Metadata)). metadata_of (sorted newer es)) (enumerate_from-append 0 xs x)
    ∙ ap metadata_of (
        sorted-least newer (0 + length xs, x) (enumerate_from 0 xs)
          (enumerate_from-older 0 (0 + length xs) xs x h))

-- The levels but one.
unfoldable pub others : ℕ → Levels → Levels
others n [] = []
others n ((level, entries) ∷ levels) =
    if level == n then levels else (level, entries) ∷ others n levels

abbrev pub From : ℕ → Levels → Type 0
From n = All (λ l. n ≤ l.0)

others-absent : (n : ℕ) (levels : Levels) → Dict.get n levels ≡ none → others n levels ≡ levels
unfolding others Dict.get
others-absent n [] h = refl
others-absent n ((level, entries) ∷ levels) h = elim (Bool-cases (level == n)) [
  | inl q ↦ absurd (ground arith)
  | inr q ↦ rw q (ap (◌∷◌ (level, entries)) (others-absent n levels (rw q at h)))
]

set_same :
    (n : ℕ) (levels : Levels) (entries : List Metadata)
    → Dict.get n levels ≡ some entries
    → Dict.set n entries levels ≡ levels
unfolding Dict.get Dict.set
set_same n [] entries h = absurd (ground arith)
set_same n ((level, es) ∷ levels) entries h = elim (Bool-cases (level == n)) [
  | inl q ↦ let same : es ≡ entries = ground arith in rw (q, same) refl
  | inr q ↦ rw q (ap (◌∷◌ (level, es)) (set_same n levels entries (rw q at h)))
]

-- The least level comes first.
insert-least :
    (n : ℕ) (x : List Metadata) (levels : Levels)
    → From n levels
    → insert_sorted level_lt (n, x) levels ≡ (n, x) ∷ levels
unfolding insert_sorted
insert-least n x [] h = refl
insert-least n x ((level, entries) ∷ levels) h = ground (arith, h.0)

insert-above :
    (n level : ℕ) (entries x : List Metadata) (levels : Levels)
    → n < level
    → insert_sorted level_lt (level, entries) ((n, x) ∷ levels)
      ≡ (n, x) ∷ insert_sorted level_lt (level, entries) levels
unfolding insert_sorted
insert-above n level entries x levels h = ground arith

sorted-set_least :
    (n : ℕ) (x : List Metadata) (levels : Levels)
    → From n levels
    → sorted level_lt (Dict.set n x levels) ≡ (n, x) ∷ sorted level_lt (others n levels)
unfolding sorted Dict.set others
sorted-set_least n x [] h = insert-least n x [] tt
sorted-set_least n x ((level, entries) ∷ levels) h = elim (Bool-cases (level == n)) [
  | inl q ↦
      let same : level ≡ n = (nat_beq_iff level n).0 q in
      rw (q, same)
        (insert-least n x (sorted level_lt levels) (sorted-All level_lt (λ l. n ≤ l.0) levels h.1))
  | inr q ↦ rw q (
      ap (insert_sorted level_lt (level, entries)) (sorted-set_least n x levels h.1)
      ∙ insert-above n level entries x (sorted level_lt (others n levels))
          (ground (arith, h.0, nat_beq_iff level n)))
]

-- The tables in the order of a read, with those of the least level first.
pub each_level-least :
    (n : ℕ) (levels : Levels)
    → From n levels
    → each_level true (sorted level_lt levels)
      ≡ at_level n (ordered_entries true (or_empty (Dict.get n levels)))
        ++ each_level true (sorted level_lt (others n levels))
each_level-least n levels h = elim (Option-cases (Dict.get n levels)) [
  | inl absent ↦
      rw (absent, others-absent n levels absent)
        (unfold ordered_entries at_level enumerate_from sorted in refl)
  | inr (entries, there) ↦ rw there (
      ap (λ (ls : Levels). each_level true (sorted level_lt ls))
        (sym (set_same n levels entries there))
      ∙ ap (each_level true) (sorted-set_least n entries levels h)
      ∙ unfold each_level in refl)
]

-- The same where that level is set.
pub each_level-set :
    (n : ℕ) (x : List Metadata) (levels : Levels)
    → From n levels
    → each_level true (sorted level_lt (Dict.set n x levels))
      ≡ at_level n (ordered_entries true x) ++ each_level true (sorted level_lt (others n levels))
each_level-set n x levels h =
    ap (each_level true) (sorted-set_least n x levels h) ∙ unfold each_level in refl

pub From-zero : (levels : Levels) → From 0 levels
From-zero [] = tt
From-zero (l ∷ levels) = (omega arith, From-zero levels)

-- A table that is added at level 0 and newer than all others there is the first that a read asks.
pub iter-add_sstable :
    (metadata : Metadata) (m : Manifest)
    → OlderThan metadata.created_at_ms (get_level_sstables 0 m)
    → iter_sstable_metadata none true (add_sstable 0 metadata m)
      ≡ (0, metadata) ∷ iter_sstable_metadata none true m
unfolding iter_sstable_metadata level_entries iter_levels add_sstable save get_level_sstables
iter-add_sstable metadata m h =
    let entries = or_empty (Dict.get 0 m.levels) in
    each_level-set 0 (entries ++ metadata ∷ []) m.levels (From-zero m.levels)
    ∙ ap
        (λ (es : List Metadata).
          at_level 0 es ++ each_level true (sorted level_lt (others 0 m.levels)))
        (ordered_entries-newest entries metadata h)
    ∙ unfold at_level in
      ap (◌∷◌ (0, metadata)) (sym (each_level-least 0 m.levels (From-zero m.levels)))
