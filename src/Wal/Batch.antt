-- ===== src/Wal/Batch.antt =====
-- What `append_batch` of src/storage/wal.py leaves in the log.
use logvine.Prelude.{
  ℕ, ◌+◌, ◌-◌, ◌<◌, ◌≡◌, refl, ◌∙◌, ap, inr, some, List, [], ◌∷◌, ◌++◌, arith, length,
  length-append, append_assoc, append-nil, true, false, nat_beq,
}
use logvine.Prelude.Bytes.{Bytes}
use logvine.Prelude.Result.{ok, >>=-ok}
use logvine.Wal.{construct_record}
use logvine.Wal.Record.{length-construct_record}
use logvine.Wal.Replay.{LogOp, IsLog}
use logvine.Wal.Log.{
  Wal, linked, ensure_open, tell, write_by, write_result, construct_batch, append_nonempty,
  append_batch,
}
use logvine.Wal.Append.{log_end, last_offset, IsLog-append, length-IsLog, Holds, ensured}

-- The records of a batch, in the order of its keys.
abbrev pub batch_ops : ℕ → List Bytes → List Bytes → List LogOp
batch_ops operation [] values = []
batch_ops operation (key ∷ keys) [] = []
batch_ops operation (key ∷ keys) (value ∷ values) =
    record { operation = operation; key = key; value = value } ∷ batch_ops operation keys values

-- The loop of `append_batch` adds the records of the batch, and keeps the last one apart.
construct_batch_lem :
    (operation : ℕ) (keys values : List Bytes) (acc last b l : Bytes)
    → construct_batch operation keys values (acc, last) ≡ ok (b, l)
    → (added : Bytes) × (b ≡ acc ++ added) × IsLog (batch_ops operation keys values) added
unfolding construct_batch
construct_batch_lem operation [] values acc last b l h = ([], rw append-nil (ground arith), refl)
construct_batch_lem operation (key ∷ keys) [] acc last b l h =
    ([], rw append-nil (ground arith), refl)
construct_batch_lem operation (key ∷ keys) (value ∷ values) acc last b l h =
    let (r, made, h1) = >>=-ok (construct_record operation key value) _ h in
    let (added, whole, is_log) = construct_batch_lem operation keys values (acc ++ r) r b l h1 in
    (r ++ added, whole ∙ append_assoc acc r added, (r, added, made, is_log, refl))

-- The last record of a batch starts where the whole batch without it ends.
construct_batch_last :
    (operation : ℕ) (key value : Bytes) (keys values : List Bytes) (acc last b l : Bytes)
    (offset : ℕ)
    → construct_batch operation (key ∷ keys) (value ∷ values) (acc, last) ≡ ok (b, l)
    → length keys ≡ length values
    → (offset + length b - length l
        ≡ last_offset (offset + length acc) (batch_ops operation (key ∷ keys) (value ∷ values)))
unfolding construct_batch
construct_batch_last operation key value [] [] acc last b l offset h same =
    let (r, made, h1) = >>=-ok (construct_record operation key value) _ h in
    let whole : b ≡ acc ++ r = ground arith in
    let final : l ≡ r = ground arith in
    omega (arith, ap length whole, ap length final, length-append acc r)
construct_batch_last operation key value (k ∷ ks) (v ∷ vs) acc last b l offset h same =
    let (r, made, h1) = >>=-ok (construct_record operation key value) _ h in
    construct_batch_last operation k v ks vs (acc ++ r) r b l offset h1 (omega arith)
    ∙ ap (λ (n : ℕ). last_offset n (batch_ops operation (k ∷ ks) (v ∷ vs)))
        (omega (arith, length-append acc r, length-construct_record operation key value r made))
construct_batch_last operation key value [] (v ∷ vs) acc last b l offset h same =
    absurd (omega arith)
construct_batch_last operation key value (k ∷ ks) [] acc last b l offset h same =
    absurd (omega arith)

nat_beq_refl : (n : ℕ) → nat_beq n n ≡ true
nat_beq_refl n = ground arith

nat_beq_zero : (n : ℕ) → 0 < n → nat_beq n 0 ≡ false
nat_beq_zero n h = ground arith

batch_to :
    (operation : ℕ) (keys values : List Bytes) (w : Wal) (log b l : Bytes)
    → construct_batch operation keys values ([], []) ≡ ok (b, l)
    → 0 < length keys
    → length keys ≡ length values
    → ensure_open w ≡ record { content = some log; handle = linked (length log) }
    → append_batch operation keys values w ≡ (
      ok (length log + length b - length l),
      record { content = some (log ++ b); handle = linked (length (log ++ b)) },
    )
unfolding append_batch append_nonempty write_result tell write_by
batch_to operation keys values w log b l made some_keys same opened =
    rw
      (opened, same, nat_beq_refl (length values), nat_beq_zero (length values) (omega arith), made)
      refl

-- A batch of at least one pair, where each record can be built, is logged as a whole: `append_batch`
-- returns the offset of its last record, and the log then holds what it held before and the records
-- of all pairs, in order.
pub append_batch-durable :
    (ops : List LogOp) (operation : ℕ) (keys values : List Bytes) (w : Wal) (b l : Bytes)
    → Holds ops w
    → 0 < length keys
    → length keys ≡ length values
    → construct_batch operation keys values ([], []) ≡ ok (b, l)
    → ((append_batch operation keys values w).0
        ≡ ok (last_offset (log_end 0 ops) (batch_ops operation keys values)))
      × Holds (ops ++ batch_ops operation keys values) (append_batch operation keys values w).1
append_batch-durable ops operation [] values w b l h some_keys same made = absurd (omega arith)
append_batch-durable ops operation (k ∷ ks) [] w b l h some_keys same made = absurd (omega arith)
append_batch-durable ops operation (k ∷ ks) (v ∷ vs) w b l h some_keys same made =
    let done =
      batch_to operation (k ∷ ks) (v ∷ vs) w h.log b l made some_keys same
        (ensured w h.log h.content_is h.handle_is) in
    let (added, whole, is_log) = construct_batch_lem operation (k ∷ ks) (v ∷ vs) [] [] b l made in
    let place : length h.log + 0 ≡ log_end 0 ops =
      omega (arith, length-IsLog ops h.log 0 h.is_log) in
    (
      ap (λ p. p.0) done
          ∙ ap ok (
              construct_batch_last operation k v ks vs [] [] b l (length h.log) made (omega arith)
              ∙ ap (λ (n : ℕ). last_offset n (batch_ops operation (k ∷ ks) (v ∷ vs))) place),
      rw done (record {
        log = h.log ++ b;
        content_is = refl;
        is_log =
            IsLog-append ops (batch_ops operation (k ∷ ks) (v ∷ vs)) h.log b h.is_log
              (rw whole is_log);
        handle_is = inr refl;
      }),
    )
