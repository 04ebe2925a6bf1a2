-- ===== src/Wal/Append.antt =====
-- What `append` of src/storage/wal.py leave in the log.
use logvine.Prelude.{
  ℕ, ◌+◌, ◌≡◌, refl, sym, ◌∙◌, ap, ◌⊎◌, inl, inr, some, List, [], ◌∷◌, ◌++◌, arith, length,
  length-append, append_assoc, append-nil,
}
use logvine.Prelude.Bytes.{Bytes}
use logvine.Prelude.Result.{ok}
use logvine.Wal.{construct_record, Replayed, finished, replay, replay_loop}
use logvine.Wal.Record.{entry_at, length-construct_record}
use logvine.Wal.Replay.{LogOp, IsLog, record_size, entries_from, replay-IsLog}
use logvine.Wal.Log.{
  Wal, absent, linked, open_file, ensure_by, ensure_open, tell, write, write_by, write_result,
  append, replay_log,
}

-- The offset behind a sequence of records.
abbrev pub log_end : ℕ → List LogOp → ℕ
log_end offset [] = offset
log_end offset (o ∷ os) = log_end (offset + record_size o) os

-- The offset of the last of them.
abbrev pub last_offset : ℕ → List LogOp → ℕ
last_offset offset [] = offset
last_offset offset (o ∷ []) = offset
last_offset offset (o ∷ o' ∷ os) = last_offset (offset + record_size o) (o' ∷ os)

pub IsLog-append :
    (xs ys : List LogOp) (a b : Bytes) → IsLog xs a → IsLog ys b → IsLog (xs ++ ys) (a ++ b)
IsLog-append [] ys a b ha hb = rw ha hb
IsLog-append (x ∷ xs) ys a b (r, rest, made, is_rest, split) hb =
    (r, rest ++ b, made, IsLog-append xs ys rest b is_rest hb, rw split (append_assoc r rest b))

pub length-IsLog :
    (ops : List LogOp) (log : Bytes) (offset : ℕ)
    → IsLog ops log
    → log_end offset ops ≡ offset + length log
length-IsLog [] log offset h = omega (arith, ap length h)
length-IsLog (o ∷ os) log offset (r, rest, made, is_rest, split) = omega (
  arith,
  length-IsLog os rest (offset + record_size o) is_rest,
  length-construct_record o.operation o.key o.value r made,
  ap length split,
  length-append r rest,
)

pub entries_from-append :
    (xs ys : List LogOp) (offset : ℕ)
    → entries_from offset (xs ++ ys) ≡ entries_from offset xs ++ entries_from (log_end offset xs) ys
entries_from-append [] ys offset = refl
entries_from-append (x ∷ xs) ys offset =
    ap (◌∷◌ (entry_at offset x.operation x.key x.value))
      (entries_from-append xs ys (offset + record_size x))

-- A log file of whole records is replayed to all of them, and to nothing else.
pub replay_whole :
    (ops : List LogOp) (log : Bytes)
    → IsLog ops log
    → replay (some log) ≡ record { entries = entries_from 0 ops; ending = finished }
replay_whole ops log h =
    ap (λ (l : Bytes). replay (some l)) (sym (append-nil log))
    ∙ replay-IsLog ops log [] h
    ∙ unfold replay_loop in
      ap (λ es. record { entries = es; ending = finished }) (append-nil (entries_from 0 ops))

-- The log holds these operations, and the object has no handle or one at the end of the file.
pub record Holds (ops : List LogOp) (w : Wal) : Type 0 where
  pub log : Bytes
  pub content_is : w.content ≡ some log
  pub is_log : IsLog ops log
  pub handle_is : (w.handle ≡ absent) ⊎ (w.handle ≡ linked (length log))

pub ensured :
    (w : Wal) (log : Bytes)
    → w.content ≡ some log
    → (w.handle ≡ absent) ⊎ (w.handle ≡ linked (length log))
    → ensure_open w ≡ record { content = some log; handle = linked (length log) }
unfolding ensure_by open_file
ensured w log c (inl h) = rw h (ground arith)
ensured w log c (inr h) = rw h (ground arith)

written :
    (bytes log : Bytes) (position : ℕ)
    → write bytes (record { content = some log; handle = linked position })
      ≡ record { content = some (log ++ bytes); handle = linked (length (log ++ bytes)) }
unfolding write_by
written bytes log position = refl

append_to :
    (o : LogOp) (w : Wal) (log r : Bytes)
    → construct_record o.operation o.key o.value ≡ ok r
    → ensure_open w ≡ record { content = some log; handle = linked (length log) }
    → append o.operation o.key o.value w
      ≡ (ok (length log), record { content = some (log ++ r); handle = linked (length (log ++ r)) })
unfolding append write_result tell write_by
append_to o w log r made opened = rw (opened, made) refl

-- What a log holds is what its replay yields.
pub replay_log-Holds :
    (ops : List LogOp) (w : Wal)
    → Holds ops w
    → replay_log w ≡ record { entries = entries_from 0 ops; ending = finished }
unfolding replay_log
replay_log-Holds ops w h = rw h.content_is (replay_whole ops h.log h.is_log)

pub append-Holds :
    (ops : List LogOp) (o : LogOp) (w : Wal) (r : Bytes)
    → Holds ops w
    → construct_record o.operation o.key o.value ≡ ok r
    → ((append o.operation o.key o.value w).0 ≡ ok (log_end 0 ops))
      × Holds (ops ++ o ∷ []) (append o.operation o.key o.value w).1
append-Holds ops o w r h made =
    let done = append_to o w h.log r made (ensured w h.log h.content_is h.handle_is) in
    (
      ap (λ p. p.0) done ∙ ap ok (omega (arith, length-IsLog ops h.log 0 h.is_log)),
      rw done (record {
        log = h.log ++ r;
        content_is = refl;
        is_log = IsLog-append ops (o ∷ []) h.log r h.is_log (r, [], made, refl, sym (append-nil r));
        handle_is = inr refl;
      }),
    )

-- An append to a log that holds some operations, where the record can be built, returns the offset
-- behind them, and the log then holds them and the new one. Its replay yields the entries that it
-- yielded before, then the new one with the returned offset, and ends without an exception.
pub append-durable :
    (ops : List LogOp) (o : LogOp) (w : Wal) (r : Bytes)
    → Holds ops w
    → construct_record o.operation o.key o.value ≡ ok r
    → ((append o.operation o.key o.value w).0 ≡ ok (log_end 0 ops))
      × Holds (ops ++ o ∷ []) (append o.operation o.key o.value w).1
      × (replay_log (append o.operation o.key o.value w).1 ≡ record {
        entries = (replay_log w).entries ++ entry_at (log_end 0 ops) o.operation o.key o.value ∷ [];
        ending = finished;
      })
append-durable ops o w r h made =
    let (returned, holds) = append-Holds ops o w r h made in
    (
      returned,
      holds,
      replay_log-Holds (ops ++ o ∷ []) (append o.operation o.key o.value w).1 holds
          ∙ ap (λ es. record { entries = es; ending = finished })
              (entries_from-append ops (o ∷ []) 0
                ∙ ap (λ es. es ++ entries_from (log_end 0 ops) (o ∷ []))
                    (sym (ap (λ (p : Replayed). p.entries) (replay_log-Holds ops w h)))),
    )
