-- ===== src/Wal/Truncate.antt =====
-- What `truncate_upto` of src/storage/wal.py leaves in the log.
use logvine.Prelude.{
  ℕ, ◌<◌, ◌≡◌, refl, sym, ◌∙◌, ap, some, List, [], ◌∷◌, ◌++◌, arith, length, length-append,
  drop-append, append_assoc,
}
use logvine.Prelude.Bytes.{Bytes}
use logvine.Prelude.Result.{ok}
use logvine.Wal.{construct_record, finished, replay}
use logvine.Wal.Replay.{LogOp, IsLog, entries_from}
use logvine.Wal.Append.{log_end, Holds, length-IsLog, replay_whole}
use logvine.Wal.Log.{
  Wal, linked, orphan, ensure_by, tell, write_by, write_result, append, truncate_upto,
  truncate_content, unlink_by, replay_log,
}

-- A log of two sequences is cut in two.
IsLog-split :
    (xs ys : List LogOp) (log : Bytes)
    → IsLog (xs ++ ys) log
    → (a : Bytes) × (b : Bytes) × (log ≡ a ++ b) × IsLog xs a × IsLog ys b
IsLog-split [] ys log h = ([], log, refl, refl, h)
IsLog-split (x ∷ xs) ys log (r, rest, made, is_rest, split) =
    let (a, b, cut, ha, hb) = IsLog-split xs ys rest is_rest in
    (
      r ++ a,
      b,
      split ∙ ap (λ (l : Bytes). r ++ l) cut ∙ sym (append_assoc r a b),
      (r, a, made, ha, refl),
      hb,
    )

-- A cut of at least one byte removes just the bytes before it.
truncated :
    (a b : Bytes) (offset : ℕ) (w : Wal)
    → w.content ≡ some (a ++ b)
    → offset ≡ length a
    → 0 < offset
    → (truncate_upto offset w).content ≡ some b
unfolding truncate_upto truncate_content
truncated a [] offset w content_is at pos = rw content_is (ground (arith, length-append a []))
truncated a (y ∷ ys) offset w content_is at pos =
    rw content_is (rw (drop-append a (y ∷ ys) at) (ground (arith, length-append a (y ∷ ys))))

-- A cut before the end leaves an open handle on the file that it unlinks.
unlinked :
    (a b : Bytes) (offset position : ℕ) (w : Wal)
    → w.content ≡ some (a ++ b)
    → w.handle ≡ linked position
    → offset ≡ length a
    → 0 < offset
    → 0 < length b
    → (truncate_upto offset w).handle ≡ orphan (a ++ b) position
unfolding truncate_upto truncate_content unlink_by
unlinked a b offset position w content_is handle_is at pos more =
    rw (content_is, handle_is) (ground (arith, length-append a b))

-- A log of whole records that is cut at a boundary between two of them, past its beginning, is
-- replayed to the records behind the boundary, with offsets that count from it.
pub truncate_upto-boundary :
    (xs ys : List LogOp) (w : Wal)
    → Holds (xs ++ ys) w
    → 0 < log_end 0 xs
    → replay_log (truncate_upto (log_end 0 xs) w)
      ≡ record { entries = entries_from 0 ys; ending = finished }
unfolding replay_log
truncate_upto-boundary xs ys w h pos =
    let (a, b, cut, ha, hb) = IsLog-split xs ys h.log h.is_log in
    rw
      (truncated a b (log_end 0 xs) w (h.content_is ∙ ap some cut)
        (omega (arith, length-IsLog xs a 0 ha)) pos)
      (replay_whole ys b hb)

append-orphan :
    (o : LogOp) (w : Wal) (c r : Bytes) (position : ℕ)
    → w.handle ≡ orphan c position
    → construct_record o.operation o.key o.value ≡ ok r
    → ((append o.operation o.key o.value w).0 ≡ ok position)
      × ((append o.operation o.key o.value w).1.content ≡ w.content)
unfolding append write_result tell write_by ensure_by
append-orphan o w c r position h made = ground arith

-- After a cut at a boundary strictly inside of the log, made while the object has its file open, an
-- append reports success and is not in the log: it returns the position of the handle before the
-- cut, and a replay yields what it would have yielded without the append.
pub append-truncate_upto :
    (xs ys : List LogOp) (o : LogOp) (w : Wal) (position : ℕ) (r : Bytes)
    → Holds (xs ++ ys) w
    → w.handle ≡ linked position
    → 0 < log_end 0 xs
    → log_end 0 xs < log_end 0 (xs ++ ys)
    → construct_record o.operation o.key o.value ≡ ok r
    → ((append o.operation o.key o.value (truncate_upto (log_end 0 xs) w)).0 ≡ ok position)
      × (replay_log (append o.operation o.key o.value (truncate_upto (log_end 0 xs) w)).1
          ≡ record { entries = entries_from 0 ys; ending = finished })
append-truncate_upto xs ys o w position r h open_at pos inside made =
    let (a, b, cut, ha, hb) = IsLog-split xs ys h.log h.is_log in
    let w' = truncate_upto (log_end 0 xs) w in
    let orphaned =
      unlinked a b (log_end 0 xs) position w (h.content_is ∙ ap some cut) open_at
        (omega (arith, length-IsLog xs a 0 ha)) pos
        (omega (
          arith,
          ap length cut,
          length-append a b,
          length-IsLog xs a 0 ha,
          length-IsLog (xs ++ ys) h.log 0 h.is_log,
        )) in
    let (returned, same) = append-orphan o w' (a ++ b) r position orphaned made in
    (returned, unfold replay_log in ap replay same ∙ (truncate_upto-boundary xs ys w h pos))
