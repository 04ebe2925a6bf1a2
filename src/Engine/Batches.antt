-- ===== src/Engine/Batches.antt =====
-- What `batch_put` of src/storage/engine.py leaves, on each of its ways out.
use logvine.Prelude.{
  ℕ, ◌+◌, ◌≡◌, refl, sym, ◌∙◌, ap, Option, none, some, List, [], ◌∷◌, arith, if◌then◌else◌, ◌==◌,
  or_else, not, length, ltb, nat_beq, true, false, Bool, Bool-cases, inl, inr, Option-cases, ◌&&◌,
  ◌⊎◌, ◌-◌,
}
use logvine.Prelude.Bytes.{Bytes, bytes_eq}
use logvine.Prelude.Result.{Result, ok, raise, Error, value_error, batch_too_large}
use logvine.MemTable
use logvine.MemTable.{MemTable, Difference, batch_would_exceed}
use logvine.Wal.{operation_put}
use logvine.Wal.Log
use logvine.Wal.Log.{Wal}
use logvine.Engine.{Engine, get, found, put_all, batch_locked, batch_logged, batch_put, input_size}
use logvine.Engine.Reads.{get-noted, get-put_unlocked, get-rotate_unlocked, get-same, get-some}

-- The value of the last pair of a batch with the key.
unfoldable pub last_pair : Bytes → List Bytes → List Bytes → Option Bytes
last_pair j [] values = none
last_pair j (key ∷ keys) [] = none
last_pair j (key ∷ keys) (value ∷ values) =
    or_else (last_pair j keys values) (if key == j then some value else none)

-- A read of what a batch wrote, or of what was there.
abbrev pub over : Option Bytes → Result Bytes → Result Bytes
over none before = before
over (some value) before = found (some value)

get-put_all :
    (j : Bytes) (keys values : List Bytes) (m : MemTable)
    → MemTable.get j (put_all keys values m) ≡ or_else (last_pair j keys values) (MemTable.get j m)
unfolding put_all last_pair
get-put_all j [] values m = refl
get-put_all j (key ∷ keys) [] m = refl
get-put_all j (key ∷ keys) (value ∷ values) m = ground (
  arith,
  get-put_all j keys values (MemTable.put_unlocked key value m),
  get-put_unlocked key j value m,
)

get-batch_locked :
    (j : Bytes) (keys values : List Bytes) (size : Difference) (offset : ℕ) (m : MemTable)
    → MemTable.get j (batch_locked keys values size offset m).0
      ≡ or_else (last_pair j keys values) (MemTable.get j m)
unfolding batch_locked
get-batch_locked j keys values size offset m = elim (Bool-cases (batch_would_exceed size m)) [
  | inl full ↦ rw full (
      get-noted j offset (put_all keys values (MemTable.rotate_unlocked m))
      ∙ get-put_all j keys values (MemTable.rotate_unlocked m)
      ∙ ap (or_else (last_pair j keys values)) (get-rotate_unlocked j m))
  | inr room ↦ rw room (get-noted j offset (put_all keys values m) ∙ get-put_all j keys values m)
]

pub get-batch_logged :
    (j : Bytes) (keys values : List Bytes) (size : Difference) (r : Result ℕ) (w : Wal) (s : Engine)
    → (batch_logged keys values size (r, w) s).0 ≡ ok tt
    → get j (batch_logged keys values size (r, w) s).1 ≡ over (last_pair j keys values) (get j s)
unfolding batch_logged
get-batch_logged j keys values size (raise e) w s h = absurd (ground arith)
get-batch_logged j keys values size (ok offset) w s h =
    let s' = (batch_logged keys values size (ok offset, w) s).1 in
    let reads = get-batch_locked j keys values size offset s.memtable in
    elim (Option-cases (last_pair j keys values)) [
      | inl p ↦ rw p (get-same j s s' refl refl (rw p at reads))
      | inr (value, p) ↦ rw p (get-some j value s' (rw p at reads))
    ]

-- The size of a batch, as `batch_put` computes it from the values in the table in memory.
abbrev pub batch_size : List Bytes → List Bytes → Engine → Difference
batch_size keys values s = input_size keys values s.memtable (record { plus = 0; minus = 0 })

-- The tests of `batch_put` before it logs.
abbrev pub is_accepted : List Bytes → List Bytes → Engine → Bool
is_accepted keys values s =
    nat_beq (length keys) (length values)
    && not (
        ltb (s.memtable_max_size + (batch_size keys values s).minus)
          (batch_size keys values s).plus)

pub batch_put_accepted :
    (keys values : List Bytes) (s : Engine)
    → is_accepted keys values s ≡ true
    → batch_put keys values s
      ≡ batch_logged keys values
          (batch_size keys values s)
          (Log.append_batch operation_put keys values s.wal)
          s
unfolding batch_put
batch_put_accepted keys values s h = ground arith

pub batch_put-ok :
    (keys values : List Bytes) (s : Engine)
    → (batch_put keys values s).0 ≡ ok tt
    → is_accepted keys values s ≡ true
unfolding batch_put
batch_put-ok keys values s h = ground arith

-- After a batch that reports success, with or without a rotation before it, a read of any key
-- returns the value of the last pair of the batch with that key (or raises KeyError if that is the
-- tombstone's bytes), and answers as before the batch where it has no such pair.
pub get-batch_put :
    (j : Bytes) (keys values : List Bytes) (s : Engine)
    → (batch_put keys values s).0 ≡ ok tt
    → get j (batch_put keys values s).1 ≡ over (last_pair j keys values) (get j s)
get-batch_put j keys values s h =
    let (r, w) = Log.append_batch operation_put keys values s.wal in
    let accepted = batch_put_accepted keys values s (batch_put-ok keys values s h) in
    rw accepted (get-batch_logged j keys values (batch_size keys values s) r w s (rw accepted at h))

batch_logged_failed :
    (keys values : List Bytes) (size : Difference) (r : Result ℕ) (w : Wal) (s : Engine) (e : Error)
    → (batch_logged keys values size (r, w) s).0 ≡ raise e
    → (batch_logged keys values size (r, w) s ≡ (raise e, record s { wal = w })) × (r ≡ raise e)
unfolding batch_logged
batch_logged_failed keys values size (raise x) w s e h = (ground arith, ground arith)
batch_logged_failed keys values size (ok offset) w s e h = absurd (ground arith)

-- The exception of a batch that is not accepted.
abbrev pub rejection : List Bytes → List Bytes → Engine → Error
rejection keys values s =
    if nat_beq (length keys) (length values)
    then batch_too_large ((batch_size keys values s).plus - (batch_size keys values s).minus)
        s.memtable_max_size
    else value_error

pub batch_put_rejected :
    (keys values : List Bytes) (s : Engine)
    → is_accepted keys values s ≡ false
    → batch_put keys values s ≡ (raise (rejection keys values s), s)
unfolding batch_put
batch_put_rejected keys values s h = ground arith

-- A batch that raises changes nothing but the log object. It raises ValueError for keys and values
-- of different number and BatchTooLargeException, with the two sizes, for a size above the setting,
-- and then leaves the log object too. Otherwise both tests passed, and the exception and the log
-- object are those that `append_batch` of the log gave.
pub batch_put_failed :
    (keys values : List Bytes) (s : Engine) (e : Error)
    → (batch_put keys values s).0 ≡ raise e
    → (w : Wal) × (batch_put keys values s ≡ (raise e, record s { wal = w }))
      × (((is_accepted keys values s ≡ true)
            × (Log.append_batch operation_put keys values s.wal ≡ (raise e, w)))
          ⊎ ((is_accepted keys values s ≡ false) × (w ≡ s.wal) × (e ≡ rejection keys values s)))
batch_put_failed keys values s e h = elim (Bool-cases (is_accepted keys values s)) [
  | inl accepted ↦
      let (r, w) = Log.append_batch operation_put keys values s.wal in
      let accept = batch_put_accepted keys values s accepted in
      let (left, failed) =
        batch_logged_failed keys values (batch_size keys values s) r w s e (rw accept at h) in
      (w, accept ∙ left, inl (accepted, ap (λ (x : Result ℕ). (x, w)) failed))
  | inr refused ↦
      let reject = batch_put_rejected keys values s refused in
      let same : ◌≡◌ {A = Result Unit} (raise (rejection keys values s)) (raise e) =
        sym (ap (λ (p : Result Unit × Engine). p.0) reject) ∙ h in
      let error : e ≡ rejection keys values s = ground arith in
      (s.wal, reject ∙ ap (λ r. (r, s)) same, inr (refused, refl, error))
]
