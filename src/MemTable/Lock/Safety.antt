-- ===== src/MemTable/Lock/Safety.antt =====
-- What the reader-writer lock of the table in memory gives to the threads that use it.
use logvine.Prelude.{
  sym, ◌∙◌, List, [], ◌∷◌, All, ℕ, ◌+◌, ◌≤◌, ◌<◌, ◌≡◌, ◌≢◌, inl, inr, refl, true, false, nat_beq,
  nat_beq_iff, Bool-cases, arith,
}
use logvine.MemTable.Lock.{
  Shared, Pc, idle, entered, counted, first, admitted, reading, leaving, uncounted, last, gone,
  writing, Move, count, is_first, is_not_first, exclude_writers, start_reading, leave, uncount,
  is_last, is_not_last, admit_writers, stop_reading, stop_writing, System, Reach,
}
use logvine.MemTable.Lock.Totals.{weight-le-sum_below, weights-le-sum_below, some_weight}
use logvine.MemTable.Lock.Invariant.{is, at, Inv, Reach-Inv}

module _ {n : ℕ} {s : System} (r : Reach n s) (i : ℕ) (below : i < n) where
  -- A thread that stands at a place is counted there.
  here-le-at : (p : Pc) → is p (s.pc i) ≤ at n s.pc p
  unfolding at
  here-le-at p = weight-le-sum_below (is p) n i s.pc below

  both-le-at : (j : ℕ) → j < n → i ≢ j → (p : Pc) → is p (s.pc i) + is p (s.pc j) ≤ at n s.pc p
  unfolding at
  both-le-at j j_below ne p = weights-le-sum_below (is p) n i j s.pc below j_below ne

-- A thread that writes is alone: in no state that threads reach does another thread write.
pub one_writer :
    {n : ℕ} {s : System} (i j : ℕ)
    → Reach n s
    → i < n
    → j < n
    → s.pc i ≡ writing
    → s.pc j ≡ writing
    → i ≡ j
one_writer {n} {s} i j r hi hj wi wj = elim (Bool-cases (nat_beq i j)) [
  | inl same ↦ (nat_beq_iff i j).0 same
  | inr other ↦
      let inv = Reach-Inv r in
      let ne : i ≢ j = λ q. ground (arith, nat_beq_iff i j) in
      let two = both-le-at r i hi j hj ne writing in
      let in_i : is writing (s.pc i) ≡ 1 = rw wi refl in
      let in_j : is writing (s.pc j) ≡ 1 = rw wj refl in absurd (ground (arith, inv.writers))
]

pub no_reader_with_writer :
    {n : ℕ} {s : System} (i j : ℕ) → Reach n s → i < n → j < n → s.pc i ≡ writing → s.pc j ≢ reading
no_reader_with_writer {n} {s} i j r hi hj wi rj =
    let inv = Reach-Inv r in
    let writer = here-le-at r i hi writing in
    let reader = here-le-at r j hj reading in
    let in_i : is writing (s.pc i) ≡ 1 = rw wi refl in
    let in_j : is reading (s.pc j) ≡ 1 = rw rj refl in
    ground (arith, inv.writers, inv.readers, inv.inside, inv.first_alone)

-- While a thread writes, no other thread writes and none reads, in every state that threads reach.
pub mutual_exclusion :
    {n : ℕ} {s : System} (i j : ℕ)
    → Reach n s
    → i < n
    → j < n
    → s.pc i ≡ writing
    → (s.pc j ≡ writing → i ≡ j) × (s.pc j ≢ reading)
mutual_exclusion i j r hi hj wi = (one_writer i j r hi hj wi, no_reader_with_writer i j r hi hj wi)

-- The threads that wait for no lock can move, and so can the others where their lock is free.
can_move :
    (m : Shared) (p : Pc)
    → p ≢ idle
    → (p ≡ first → m.write_lock ≡ false)
    → (p ≡ reading → m.read_lock ≡ false)
    → (m' : Shared) × (p' : Pc) × Move m p m' p'
can_move m idle h f g = absurd (h refl)
can_move m entered h f g = (_, _, count)
can_move m counted h f g = elim (Bool-cases (nat_beq m.read_count 1)) [
  | inl one ↦ (_, _, is_first ((nat_beq_iff m.read_count 1).0 one))
  | inr other ↦ (_, _, is_not_first (λ q. ground (arith, nat_beq_iff m.read_count 1)))
]
can_move m first h f g = (_, _, exclude_writers (f refl))
can_move m admitted h f g = (_, _, start_reading)
can_move m reading h f g = (_, _, leave (g refl))
can_move m leaving h f g = (_, _, uncount)
can_move m uncounted h f g = elim (Bool-cases (nat_beq m.read_count 0)) [
  | inl none_left ↦ (_, _, is_last ((nat_beq_iff m.read_count 0).0 none_left))
  | inr other ↦ (_, _, is_not_last (λ q. ground (arith, nat_beq_iff m.read_count 0)))
]
can_move m last h f g = (_, _, admit_writers)
can_move m gone h f g = (_, _, stop_reading)
can_move m writing h f g = (_, _, stop_writing)

is-eq : (p q : Pc) → 0 < is p q → q ≡ p
is-eq p q h = ground arith

find : (n : ℕ) (pc : ℕ → Pc) (p : Pc) → 0 < at n pc p → (j : ℕ) × (j < n) × (pc j ≡ p)
unfolding at
find n pc p h =
    let (j, below, heavy) = some_weight (is p) n pc h in (j, below, is-eq p (pc j) heavy)

-- Some thread is in the midst of a call and can take its next step.
abbrev pub Progress : ℕ → System → Type 0
Progress n s =
    (j : ℕ) × (j < n) × (s.pc j ≢ idle) × (m : Shared) × (p : Pc) × Move s.shared (s.pc j) m p

module _ (n : ℕ) (s : System) where
  Progress-by :
      (j : ℕ)
      → j < n
      → s.pc j ≢ idle
      → (m : Shared) × (p : Pc) × Move s.shared (s.pc j) m p
      → Progress n s
  Progress-by j below busy (m, p, mv) = (j, below, busy, m, p, mv)

  Progress-at :
      (p : Pc)
      → p ≢ idle
      → (p ≡ first → s.shared.write_lock ≡ false)
      → (p ≡ reading → s.shared.read_lock ≡ false)
      → 0 < at n s.pc p
      → Progress n s
  Progress-at p h f g some_there =
      let (j, below, q) = find n s.pc p some_there in
      Progress-by j below (λ e. h (sym q ∙ e))
        (can_move s.shared (s.pc j) (λ e. h (sym q ∙ e)) (λ e. f (sym q ∙ e)) (λ e. g (sym q ∙ e)))

  -- The threads at some of the places.
  abbrev at_any : List Pc → ℕ
  at_any [] = 0
  at_any (p ∷ ps) = at n s.pc p + at_any ps

  Progress-at_any :
      (ps : List Pc) → All (λ p. 0 < at n s.pc p → Progress n s) ps → 0 < at_any ps → Progress n s
  Progress-at_any [] h some_there = absurd (omega arith)
  Progress-at_any (p ∷ ps) h some_there = elim (Bool-cases (nat_beq (at n s.pc p) 0)) [
    | inl empty ↦ Progress-at_any ps h.1 (ground arith)
    | inr some_here ↦ h.0 (ground arith)
  ]

  -- The places in the section of the read lock where a thread waits for nothing.
  Progress-inside : (p : Pc) → p ≢ idle → p ≢ first → p ≢ reading → 0 < at n s.pc p → Progress n s
  Progress-inside p h f g = Progress-at p h (λ e. absurd (f e)) (λ e. absurd (g e))

  -- A first reader that waits for the write lock waits for a writer.
  Progress-first : Inv n s.shared s.pc → 0 < at n s.pc first → Progress n s
  Progress-first inv some_first = elim (Bool-cases s.shared.write_lock) [
    | inr free ↦ Progress-at first (λ e. cc) (λ e. free) (λ e. cc) some_first
    | inl taken ↦
        Progress-at writing (λ e. cc) (λ e. cc) (λ e. cc)
          (ground (arith, inv.writers, inv.readers, inv.inside, inv.first_alone))
  ]

  Progress-taken : Inv n s.shared s.pc → s.shared.read_lock ≡ true → Progress n s
  Progress-taken inv taken =
      Progress-at_any
        (first ∷ entered ∷ counted ∷ admitted ∷ leaving ∷ uncounted ∷ last ∷ gone ∷ [])
        (
          Progress-first inv,
          (
            Progress-inside entered (λ e. cc) (λ e. cc) (λ e. cc),
            (
              Progress-inside counted (λ e. cc) (λ e. cc) (λ e. cc),
              (
                Progress-inside admitted (λ e. cc) (λ e. cc) (λ e. cc),
                (
                  Progress-inside leaving (λ e. cc) (λ e. cc) (λ e. cc),
                  (
                    Progress-inside uncounted (λ e. cc) (λ e. cc) (λ e. cc),
                    (
                      Progress-inside last (λ e. cc) (λ e. cc) (λ e. cc),
                      (Progress-inside gone (λ e. cc) (λ e. cc) (λ e. cc), tt),
                    ),
                  ),
                ),
              ),
            ),
          ),
        )
        (ground (arith, inv.inside))

-- The lock has no deadlock: in every state that threads reach, where some thread is in the midst of a
-- read or a write, a thread that is can take a step.
pub no_deadlock : {n : ℕ} {s : System} (i : ℕ) → Reach n s → i < n → s.pc i ≢ idle → Progress n s
no_deadlock {n} {s} i r below busy = elim (Bool-cases s.shared.read_lock) [
  | inl taken ↦ Progress-taken n s (Reach-Inv r) taken
  | inr free ↦
      let inv = Reach-Inv r in
      let firsts = here-le-at r i below first in
      Progress-by n s i below busy (
        can_move s.shared (s.pc i) busy
          (λ e. let in_i : is first (s.pc i) ≡ 1 = rw e refl in absurd (ground (arith, inv.inside)))
          (λ e. free))
]
