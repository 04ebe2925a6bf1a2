-- ===== src/Wal/Torn.antt =====
-- The replay loop of src/storage/wal.py over logs that are torn or damaged.
use logvine.Prelude.{
  ℕ, zero, suc, ◌+◌, ◌-◌, ◌≤◌, ◌<◌, ◌≡◌, ◌≢◌, refl, sym, ◌∙◌, ap, some, List, [], ◌∷◌, ◌++◌, arith,
  length, take, drop, length-append, length-take, length-drop, take-append, drop-append, append-nil,
  slice_lem, if◌then◌else◌, ltb, nat_beq, inl, inr, Bool-cases, ltb→lt, take_past, nat_beq_iff,
}
use logvine.Prelude.Bytes.{Bytes}
use logvine.Prelude.Crc.{crc32}
use logvine.Prelude.Struct.{pack, unpack, pack_lem, unpack_short}
use logvine.Prelude.Result.{ok, raise, struct_error}
use logvine.Wal.{
  construct_record, read_record, read_payload, check_payload, broken, failed, Ending, finished,
  raised, replay_loop, replay,
}
use logvine.Wal.Record.{construct_record-Parts, read_record_lem}
use logvine.Wal.Replay.{LogOp, IsLog, entries_from, replay-IsLog}

-- How the replay of a log ends that stops after `n` bytes of its last record.
abbrev pub torn_ending : ℕ → Ending
torn_ending n = if nat_beq n 0 then finished else if ltb n 4 then raised struct_error else finished

short_header :
    (f offset : ℕ) (rest : Bytes)
    → 0 < length rest
    → length rest < 4
    → length rest ≤ f
    → replay_loop f offset rest ≡ record { entries = []; ending = raised struct_error }
unfolding replay_loop
short_header f offset [] p q h = absurd (omega arith)
short_header zero offset (b ∷ bs) p q h = absurd (omega arith)
short_header (suc f) offset (b ∷ bs) p q h =
    let short : unpack 4 (take 4 (b ∷ bs)) ≡ raise struct_error =
      unpack_short 4 (take 4 (b ∷ bs)) (omega (arith, length-take 4 (b ∷ bs))) in
    let failing : read_record offset (b ∷ bs) ≡ failed struct_error =
      unfold read_record read_payload in ground arith in
    ground arith

-- A break of the loop ends the replay.
broken_end :
    (f offset : ℕ) (rest : Bytes)
    → length rest ≤ f
    → 0 < length rest
    → read_record offset rest ≡ broken
    → replay_loop f offset rest ≡ record { entries = []; ending = finished }
unfolding replay_loop
broken_end f offset [] h p b = absurd (omega arith)
broken_end zero offset (x ∷ xs) h p b = absurd (omega arith)
broken_end (suc f) offset (x ∷ xs) h p b = ground arith

short_payload :
    (offset n : ℕ) (rest : Bytes)
    → unpack 4 (take 4 rest) ≡ ok n
    → length rest < 4 + n
    → 4 ≤ length rest
    → read_record offset rest ≡ broken
unfolding read_record read_payload
short_payload offset n rest head p q =
    rw head (ground (arith, length-take n (drop 4 rest), length-drop 4 rest))

check_damaged :
    (offset : ℕ) (payload content : Bytes) (checksum : ℕ)
    → take (length payload - 4) payload ≡ content
    → crc32 content ≢ checksum
    → check_payload offset payload (ok checksum) ≡ broken
unfolding check_payload
check_damaged offset payload content checksum content_is differ =
    rw content_is (ground (arith, nat_beq_iff (crc32 content) checksum))

cut_record :
    (o : LogOp) (r : Bytes) (offset n : ℕ)
    → construct_record o.operation o.key o.value ≡ ok r
    → 4 ≤ n
    → n < length r
    → read_record offset (take n r) ≡ broken
cut_record o r offset n made enough cut =
    let p = construct_record-Parts o.operation o.key o.value r made in
    let payload = p.content ++ p.checksum in
    let packed = pack_lem 4 (length payload) p.record_length p.length_packed in
    let size : length r ≡ 4 + length payload =
      rw p.record_is (omega (arith, packed, length-append p.record_length payload)) in
    let taken : take n r ≡ p.record_length ++ take (n - length p.record_length) payload =
      rw p.record_is (take_past p.record_length payload (omega (arith, packed))) in
    let head : unpack 4 (take 4 (take n r)) ≡ ok (length payload) = rw taken (
      rw (take-append p.record_length (take (n - length p.record_length) payload) (sym packed.0))
        packed.1) in
    short_payload offset (length payload) (take n r) head (omega (arith, length-take n r))
      (omega (arith, length-take n r))

torn_loop :
    (o : LogOp) (r : Bytes) (offset n : ℕ)
    → construct_record o.operation o.key o.value ≡ ok r
    → n < length r
    → replay_loop (length (take n r)) offset (take n r)
      ≡ record { entries = []; ending = torn_ending n }
torn_loop o r offset zero made cut = unfold take replay_loop in refl
torn_loop o r offset (suc m) made cut =
    let size = length-take (suc m) r in
    elim (Bool-cases (ltb (suc m) 4)) [
      | inl short ↦
          short_header (length (take (suc m) r)) offset (take (suc m) r) (omega (arith, size))
            (omega (arith, size, ltb→lt (suc m) 4 short)) (omega arith)
          ∙ ground arith
      | inr long ↦
          broken_end (length (take (suc m) r)) offset (take (suc m) r) (omega arith)
            (omega (arith, size)) (cut_record o r offset (suc m) made (ground arith) cut)
          ∙ ground arith
    ]

-- A log that was cut within a record replays to the entries of the whole records before the cut.
-- The replay ends without an exception where nothing or at least the length field of the cut record
-- is there; a cut within that field (one to three bytes) raises struct.error.
pub replay_torn :
    (ops : List LogOp) (log r : Bytes) (o : LogOp) (n : ℕ)
    → IsLog ops log
    → construct_record o.operation o.key o.value ≡ ok r
    → n < length r
    → replay (some (log ++ take n r))
      ≡ record { entries = entries_from 0 ops; ending = torn_ending n }
replay_torn ops log r o n h made cut =
    rw (replay-IsLog ops log (take n r) h, torn_loop o r (0 + length log) n made cut)
      (ap (λ es. record { entries = es; ending = torn_ending n }) (append-nil (entries_from 0 ops)))

-- A frame whose stored checksum is not that of its content ends the replay: the entries before it
-- are yielded, and nothing of it or after it.
pub replay_damaged :
    (ops : List LogOp) (log head content stored rest : Bytes) (checksum : ℕ)
    → IsLog ops log
    → pack 4 (length (content ++ stored)) ≡ ok head
    → unpack 4 stored ≡ ok checksum
    → length stored ≡ 4
    → crc32 content ≢ checksum
    → replay (some (log ++ (head ++ ((content ++ stored) ++ rest))))
      ≡ record { entries = entries_from 0 ops; ending = finished }
replay_damaged ops log head content stored rest checksum h framed kept size differ =
    let frame = head ++ ((content ++ stored) ++ rest) in
    let packed = pack_lem 4 (length (content ++ stored)) head framed in
    let n : length (content ++ stored) - 4 ≡ length content =
      omega (arith, length-append content stored) in
    let payload_is : take (length (content ++ stored)) (drop 4 frame) ≡ content ++ stored =
      slice_lem frame head (content ++ stored) rest refl (sym packed.0) refl in
    let stops : read_record (0 + length log) frame ≡ broken =
      read_record_lem (0 + length log) frame (length (content ++ stored)) (content ++ stored)
        (rw (take-append head ((content ++ stored) ++ rest) (sym packed.0)) packed.1) payload_is
        refl
      ∙ rw (drop-append content stored n) (
          rw kept (
            check_damaged (0 + length log) (content ++ stored) content checksum
              (take-append content stored n) differ)) in
    rw (replay-IsLog ops log frame h) (
      rw
        (broken_end (length frame) (0 + length log) frame (omega arith)
          (omega (arith, packed, length-append head ((content ++ stored) ++ rest))) stops)
        (ap (λ es. record { entries = es; ending = finished }) (append-nil (entries_from 0 ops))))
