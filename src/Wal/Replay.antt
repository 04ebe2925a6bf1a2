-- ===== src/Wal/Replay.antt =====
-- The replay loop of src/storage/wal.py over whole logs.
use logvine.Prelude.{
  ℕ, zero, suc, ◌+◌, ◌-◌, ◌≤◌, ◌<◌, ◌≡◌, ◌≢◌, refl, sym, ◌∙◌, ap, ap₂, Option, some, none, List, [],
  ◌∷◌, ◌++◌, arith, length, take, drop, length-append, length-drop, drop-append, append_assoc, ◌⊎◌,
  inl, inr,
}
use logvine.Prelude.Bytes.{Bytes}
use logvine.Prelude.Struct.{unpack}
use logvine.Prelude.Result.{Result, ok, raise, Error}
use logvine.Wal.{
  construct_record, Entry, decoded, read_record, read_payload, check_payload, Round, yielded,
  broken, failed, Replayed, out_of_fuel, yield, replay_loop, replay,
}
use logvine.Wal.Record.{entry_at, read_record-construct_record, length-construct_record}

-- One logged operation, and the log that holds a sequence of them and nothing else.
pub record LogOp : Type 0 where
  pub operation : ℕ
  pub key : Bytes
  pub value : Bytes

abbrev pub record_size : LogOp → ℕ
record_size o = 17 + length o.key + length o.value

abbrev pub IsLog : List LogOp → Bytes → Type 0
IsLog [] log = log ≡ []
IsLog (o ∷ os) log =
    (r : Bytes) × (rest : Bytes) × (construct_record o.operation o.key o.value ≡ ok r)
    × IsLog os rest
    × (log ≡ r ++ rest)

-- The entries of such a log, each with the offset of its record.
abbrev pub entries_from : ℕ → List LogOp → List Entry
entries_from offset [] = []
entries_from offset (o ∷ os) =
    entry_at offset o.operation o.key o.value ∷ entries_from (offset + record_size o) os

abbrev pub after : List Entry → Replayed → Replayed
after es r = record { entries = es ++ r.entries; ending = r.ending }

-- Every record that is read takes four bytes at least.
check_payload-size :
    (offset : ℕ) (payload : Bytes) (stored : Result ℕ) (e : Entry) (size : ℕ)
    → check_payload offset payload stored ≡ yielded e size
    → 4 ≤ size
unfolding check_payload decoded
check_payload-size offset payload (raise x) e size h = absurd (ground arith)
check_payload-size offset payload (ok s) e size h = ground arith

read_payload-size :
    (offset : ℕ) (rest : Bytes) (n : Result ℕ) (e : Entry) (size : ℕ)
    → read_payload offset rest n ≡ yielded e size
    → 4 ≤ size
unfolding read_payload
read_payload-size offset rest (raise x) e size h = absurd (ground arith)
read_payload-size offset rest (ok n) e size h =
    let payload = take n (drop 4 rest) in
    ground (
      arith,
      check_payload-size offset payload (unpack 4 (drop (length payload - 4) payload)) e size,
    )

pub read_record-size :
    (offset : ℕ) (rest : Bytes) (e : Entry) (size : ℕ)
    → read_record offset rest ≡ yielded e size
    → 4 ≤ size
unfolding read_record
read_record-size offset rest e size h =
    read_payload-size offset rest (unpack 4 (take 4 rest)) e size h

Round-cases :
    (r : Round)
    → ((e : Entry) × (size : ℕ) × (r ≡ yielded e size))
      ⊎ ((r ≡ broken) ⊎ ((x : Error) × (r ≡ failed x)))
Round-cases (yielded e size) = inl (e, size, refl)
Round-cases broken = inr (inl refl)
Round-cases (failed x) = inr (inr (x, refl))

rest-shrinks :
    (offset b : ℕ) (bs : Bytes) (e : Entry) (size : ℕ)
    → read_record offset (b ∷ bs) ≡ yielded e size
    → length (drop size (b ∷ bs)) ≤ length bs
rest-shrinks offset b bs e size h =
    omega (arith, length-drop size (b ∷ bs), read_record-size offset (b ∷ bs) e size h)

replay_loop_step :
    (f offset : ℕ) (rest : Bytes) (e : Entry) (size : ℕ)
    → 0 < length rest
    → read_record offset rest ≡ yielded e size
    → replay_loop (suc f) offset rest ≡ yield e (replay_loop f (offset + size) (drop size rest))
unfolding replay_loop
replay_loop_step f offset [] e size h y = absurd (omega arith)
replay_loop_step f offset (b ∷ bs) e size h y = ground arith

-- Any fuel that covers what is left gives the same replay.
pub replay_loop_fuel :
    (f g offset : ℕ) (rest : Bytes)
    → length rest ≤ f
    → length rest ≤ g
    → replay_loop f offset rest ≡ replay_loop g offset rest
unfolding replay_loop
replay_loop_fuel f g offset [] hf hg = refl
replay_loop_fuel zero g offset (b ∷ bs) hf hg = absurd (omega arith)
replay_loop_fuel (suc f) zero offset (b ∷ bs) hf hg = absurd (omega arith)
replay_loop_fuel (suc f) (suc g) offset (b ∷ bs) hf hg =
    elim (Round-cases (read_record offset (b ∷ bs))) [
      | inl (e, size, h) ↦
          let shorter = rest-shrinks offset b bs e size h in
          replay_loop_step f offset (b ∷ bs) e size (omega arith) h
          ∙ ap (yield e) (
              replay_loop_fuel f g (offset + size) (drop size (b ∷ bs)) (omega arith) (omega arith))
          ∙ sym (replay_loop_step g offset (b ∷ bs) e size (omega arith) h)
      | inr (inl h) ↦ ground arith
      | inr (inr (x, h)) ↦ ground arith
    ]

-- With fuel for what is left, the loop never runs out of it.
pub replay_loop_total :
    (f offset : ℕ) (rest : Bytes)
    → length rest ≤ f
    → (replay_loop f offset rest).ending ≢ out_of_fuel
unfolding replay_loop
replay_loop_total f offset [] h = λ p. ground arith
replay_loop_total zero offset (b ∷ bs) h = absurd (omega arith)
replay_loop_total (suc f) offset (b ∷ bs) h = elim (Round-cases (read_record offset (b ∷ bs))) [
  | inl (e, size, y) ↦ rw (replay_loop_step f offset (b ∷ bs) e size (omega arith) y) (
      replay_loop_total f (offset + size) (drop size (b ∷ bs))
        (omega (arith, rest-shrinks offset b bs e size y)))
  | inr (inl h) ↦ ground arith
  | inr (inr (x, h)) ↦ ground arith
]

-- The loop reads a log of whole records and goes on with what follows it.
pub replay_loop-IsLog :
    (ops : List LogOp) (log tail : Bytes) (f offset : ℕ)
    → IsLog ops log
    → length log + length tail ≤ f
    → replay_loop f offset (log ++ tail)
      ≡ after (entries_from offset ops) (replay_loop (length tail) (offset + length log) tail)
replay_loop-IsLog [] log tail f offset h enough = rw h (
    replay_loop_fuel f (length tail) offset tail (omega (arith, ap length h)) (omega arith)
    ∙ ap (λ (n : ℕ). replay_loop (length tail) n tail) (omega arith))
replay_loop-IsLog (o ∷ os) log tail zero offset (r, rest, made, is_rest, split) enough =
    let size = length-construct_record o.operation o.key o.value r made in
    absurd (omega (arith, ap length split, length-append r rest))
replay_loop-IsLog (o ∷ os) log tail (suc f) offset (r, rest, made, is_rest, split) enough =
    let size = length-construct_record o.operation o.key o.value r made in
    let total : length log ≡ length r + length rest = rw split (length-append r rest) in
    let whole : log ++ tail ≡ r ++ (rest ++ tail) = rw split (append_assoc r rest tail) in
    let e = entry_at offset o.operation o.key o.value in
    let read : read_record offset (r ++ (rest ++ tail)) ≡ yielded e (length r) =
      read_record-construct_record o.operation o.key o.value r offset (rest ++ tail) made in
    rw whole (
      replay_loop_step f offset (r ++ (rest ++ tail)) e (length r)
        (omega (arith, length-append r (rest ++ tail))) read
      ∙ ap (λ (xs : Bytes). yield e (replay_loop f (offset + length r) xs))
          (drop-append r (rest ++ tail) refl)
      ∙ ap (yield e) (replay_loop-IsLog os rest tail f (offset + length r) is_rest (omega arith))
      ∙ ap₂ (λ (a b : ℕ). after (e ∷ entries_from a os) (replay_loop (length tail) b tail))
          (omega arith) (omega arith))

-- The whole file.
pub replay-IsLog :
    (ops : List LogOp) (log tail : Bytes)
    → IsLog ops log
    → replay (some (log ++ tail))
      ≡ after (entries_from 0 ops) (replay_loop (length tail) (0 + length log) tail)
unfolding replay
replay-IsLog ops log tail h =
    replay_loop-IsLog ops log tail (length (log ++ tail)) 0 h
      (omega (arith, length-append log tail))

-- A replay ends on every file, whatever its bytes are: the fuel that it is given suffices.
pub replay_total : (content : Option Bytes) → (replay content).ending ≢ out_of_fuel
unfolding replay
replay_total none = λ p. ground arith
replay_total (some content) = replay_loop_total (length content) 0 content (omega arith)
