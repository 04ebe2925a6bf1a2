-- ===== src/SsTableManager/Ordered.antt =====
-- The order that src/storage/sstable_manager.py gives the tables of a level loses none of them.
use logvine.Prelude.{ℕ, suc, Bool, true, List, [], ◌∷◌, All, Bool-cases, inl, inr}
use logvine.Prelude.Order.{insert_sorted, sorted, sorted-All}
use logvine.Manifest.{Metadata}
use logvine.SsTableManager.{enumerate_from, newer, metadata_of, ordered_entries}

module _ {ℓ κ} {A : Type ℓ} (lt : A → A → Bool) (P : A → Type κ) where
  All-uninsert : (x : A) (xs : List A) → All P (insert_sorted lt x xs) → All P (x ∷ xs)
  unfolding insert_sorted
  All-uninsert x [] h = h
  All-uninsert x (y ∷ ys) h = elim (Bool-cases (lt y x)) [
    | inl below ↦
        let (here, later) : All P (y ∷ insert_sorted lt x ys) = rw below at h in
        let (px, rest) = All-uninsert x ys later in (px, (here, rest))
    | inr above ↦ rw above at h
  ]

  -- What holds of all items of the sorted list holds of all items.
  All-unsorted : (xs : List A) → All P (sorted lt xs) → All P xs
  unfolding sorted
  All-unsorted [] h = tt
  All-unsorted (x ∷ xs) h =
      let (px, rest) = All-uninsert x (sorted lt xs) h in (px, All-unsorted xs rest)

All-metadata_of :
    (P : Metadata → Type 0) (xs : List (ℕ × Metadata))
    → All P (metadata_of xs)
    → All (λ e. P e.1) xs
All-metadata_of P [] h = tt
All-metadata_of P ((i, e) ∷ xs) h = (h.0, All-metadata_of P xs h.1)

All-enumerate_from :
    (P : Metadata → Type 0) (i : ℕ) (xs : List Metadata)
    → All (λ e. P e.1) (enumerate_from i xs)
    → All P xs
unfolding enumerate_from
All-enumerate_from P i [] h = tt
All-enumerate_from P i (e ∷ xs) h = (h.0, All-enumerate_from P (suc i) xs h.1)

All-sorted_metadata :
    (P : Metadata → Type 0) (xs : List (ℕ × Metadata))
    → All (λ e. P e.1) xs
    → All P (metadata_of xs)
All-sorted_metadata P [] h = tt
All-sorted_metadata P ((i, e) ∷ xs) h = (h.0, All-sorted_metadata P xs h.1)

All-numbered :
    (P : Metadata → Type 0) (i : ℕ) (xs : List Metadata)
    → All P xs
    → All (λ e. P e.1) (enumerate_from i xs)
unfolding enumerate_from
All-numbered P i [] h = tt
All-numbered P i (e ∷ xs) h = (h.0, All-numbered P (suc i) xs h.1)

-- What holds of all ordered tables holds of all tables, and the other way round.
pub All-unordered :
    (P : Metadata → Type 0) (entries : List Metadata)
    → All P (ordered_entries true entries)
    → All P entries
unfolding ordered_entries
All-unordered P entries h =
    let numbered = enumerate_from 0 entries in
    All-enumerate_from P 0 entries
      (All-unsorted newer (λ e. P e.1) numbered (All-metadata_of P (sorted newer numbered) h))

pub All-ordered :
    (P : Metadata → Type 0) (entries : List Metadata)
    → All P entries
    → All P (ordered_entries true entries)
unfolding ordered_entries
All-ordered P entries h =
    let numbered = enumerate_from 0 entries in
    All-sorted_metadata P (sorted newer numbered)
      (sorted-All newer (λ e. P e.1) numbered (All-numbered P 0 entries h))
