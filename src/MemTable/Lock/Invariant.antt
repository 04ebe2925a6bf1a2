-- ===== src/MemTable/Lock/Invariant.antt =====
-- Who holds the two locks of the table in memory, in every state that threads reach.
use logvine.Prelude.{
  ℕ, zero, suc, ◌+◌, ◌<◌, ◌≡◌, refl, Bool, true, false, ltb, nat_beq, if◌then◌else◌, arith,
}
use logvine.MemTable.Lock.{
  Shared, Pc, idle, entered, counted, first, admitted, reading, leaving, uncounted, last, gone,
  writing, Move, enter, count, is_first, is_not_first, exclude_writers, start_reading, leave,
  uncount, is_last, is_not_last, admit_writers, stop_reading, start_writing, stop_writing, update,
  System, start, Step, pick, Reach, here, next,
}
use logvine.MemTable.Lock.Totals.{sum_below, sum_below-update}

-- 1 where the second thread's place is the first.
abbrev pub is : Pc → Pc → ℕ
is entered entered = 1
is counted counted = 1
is first first = 1
is admitted admitted = 1
is reading reading = 1
is leaving leaving = 1
is uncounted uncounted = 1
is last last = 1
is gone gone = 1
is writing writing = 1
is _ _ = 0

abbrev pub bit : Bool → ℕ
bit false = 0
bit true = 1

-- Whether the readers hold the write lock: from the first reader's `acquire` to the last one's
-- `release`. `joining` threads are counted and may still have to take it, `parting` ones are not
-- counted any more and may still have to give it back.
abbrev pub held : (readers joining parting : ℕ) → ℕ
held readers joining parting =
    if ltb 0 parting
    then 1
    else if nat_beq readers 0
    then 0
    else if nat_beq readers 1
    then if ltb 0 joining then 0 else 1
    else 1

-- How many of the `n` threads stand at a place.
unfoldable pub at : ℕ → (ℕ → Pc) → Pc → ℕ
at n pc p = sum_below (is p) n pc

pub record Inv (n : ℕ) (m : Shared) (pc : ℕ → Pc) : Type 0 where
  pub inside :
      at n pc entered
        + at n pc counted
        + at n pc first
        + at n pc admitted
        + at n pc leaving
        + at n pc uncounted
        + at n pc last
        + at n pc gone
      ≡ bit m.read_lock
  pub readers :
      m.read_count
      ≡ at n pc counted + at n pc first + at n pc admitted + at n pc reading + at n pc leaving
  pub writers :
      bit m.write_lock
      ≡ at n pc writing
        + held m.read_count (at n pc counted + at n pc first) (at n pc uncounted + at n pc last)
  pub first_alone : 0 < at n pc first → m.read_count ≡ 1
  pub last_alone : 0 < at n pc last → m.read_count ≡ 0

module _ {n : ℕ} {m : Shared} {pc : ℕ → Pc} (inv : Inv n m pc) (i : ℕ) where
  -- What a thread's move from `p` to `p'` does to the numbers.
  abbrev Moved : Pc → Pc → Pc → Type 0
  Moved p p' q = at n (update pc i p') q + is q p ≡ at n pc q + is q p'

  record Mover (p p' : Pc) : Type 0 where
    entered_moved : Moved p p' entered
    counted_moved : Moved p p' counted
    first_moved : Moved p p' first
    admitted_moved : Moved p p' admitted
    reading_moved : Moved p p' reading
    leaving_moved : Moved p p' leaving
    uncounted_moved : Moved p p' uncounted
    last_moved : Moved p p' last
    gone_moved : Moved p p' gone
    writing_moved : Moved p p' writing

  moved : i < n → (p' q : Pc) → Moved (pc i) p' q
  unfolding at
  moved below p' q = sum_below-update (is q) n i p' pc below

  mover : i < n → (p' : Pc) → Mover (pc i) p'
  mover below p' = record {
    entered_moved = moved below p' entered;
    counted_moved = moved below p' counted;
    first_moved = moved below p' first;
    admitted_moved = moved below p' admitted;
    reading_moved = moved below p' reading;
    leaving_moved = moved below p' leaving;
    uncounted_moved = moved below p' uncounted;
    last_moved = moved below p' last;
    gone_moved = moved below p' gone;
    writing_moved = moved below p' writing;
  }

  Move-Inv : {p p' : Pc} {m' : Shared} → Move m p m' p' → Mover p p' → Inv n m' (update pc i p')
  Move-Inv (enter free) f = ground arith
  Move-Inv count f = ground arith
  Move-Inv (is_first q) f = ground arith
  Move-Inv (is_not_first q) f = ground arith
  Move-Inv (exclude_writers free) f = ground arith
  Move-Inv start_reading f = ground arith
  Move-Inv (leave free) f = ground arith
  Move-Inv uncount f = ground arith
  Move-Inv (is_last q) f = ground arith
  Move-Inv (is_not_last q) f = ground arith
  Move-Inv admit_writers f = ground arith
  Move-Inv stop_reading f = ground arith
  Move-Inv (start_writing free) f = ground arith
  Move-Inv stop_writing f = ground arith

at-start : (n : ℕ) (p : Pc) → is p idle ≡ 0 → at n (λ i. idle) p ≡ 0
unfolding at sum_below
at-start zero p h = refl
at-start (suc n) p h = omega (arith, at-start n p h)

start-Inv : (n : ℕ) → Inv n start.shared start.pc
start-Inv n = ground (
  arith,
  at-start n entered refl,
  at-start n counted refl,
  at-start n first refl,
  at-start n admitted refl,
  at-start n reading refl,
  at-start n leaving refl,
  at-start n uncounted refl,
  at-start n last refl,
  at-start n gone refl,
  at-start n writing refl,
)

Step-Inv : {n : ℕ} {s t : System} → Step n s t → Inv n s.shared s.pc → Inv n t.shared t.pc
Step-Inv (pick i {p} below mv) inv = Move-Inv inv i mv (mover inv i below p)

-- In every state that threads reach: the read lock is held by exactly one of those that are inside
-- its section, the count of readers is right, and the write lock is held by exactly one writer or by
-- the readers together.
pub Reach-Inv : {n : ℕ} {s : System} → Reach n s → Inv n s.shared s.pc
Reach-Inv {n} here = start-Inv n
Reach-Inv (next r st) = Step-Inv st (Reach-Inv r)
