-- ===== src/Server/Refines.antt =====
-- src/server.py on the engine of src/storage/engine.py, against a dictionary: the lines of any number of
-- clients, with the flushes and compactions of the engine's threads between them. The controller
-- handles a request to its end before the next one is started: it waits for nothing between reading
-- the request and its last use of the engine.
use logvine.Prelude.{
  ℕ, ◌≡◌, refl, sym, ◌∙◌, arith, true, Option, some, List, [], ◌∷◌, ◌++◌, none, map, inl, inr,
}
use logvine.Prelude.Bytes.{Bytes, bytes_eq}
use logvine.Prelude.Text.{Text}
use logvine.Prelude.Utf8.{decode}
use logvine.Prelude.Result.{Result, ok, raise, Error, Result-cases}
use logvine.Json.{Json}
use logvine.Operations.{Operation, from_json}
use logvine.Controller.{Reply, except_reply, handle_request}
use logvine.Controller.Replies.{handle_request-replies}
use logvine.Controller.Refines.{
  is_write, writes_tombstone, erased, tombstone_put, Handles, as_dictionary, write_refused,
  handle_request-Handles,
}
use logvine.StorageEngine.Dictionary.{Dictionary, dictionary_engine}
use logvine.Manifest.{get_level_sstables}
use logvine.SsTableManager.{iter_sstable_metadata}
use logvine.SsTableManager.Newest.{OlderThan}
use logvine.SsTableManager.Locality.{Unused}
use logvine.Compaction.{compacted_path}
use logvine.Engine.{Engine, flush, flushed_path}
use logvine.Engine.Lsm.{lsm_engine}
use logvine.Engine.Holds.{Holds}
use logvine.Engine.System
use logvine.Engine.System.{compact, change, seen}
use logvine.Engine.Makes.{Step-Makes}
use logvine.Prelude.Dict
use logvine.Server.Replies.{handle_line-decoded, handle_line-undecoded}
use logvine.Server.{Written, reply, strip, written, handle_line}

-- A line of a client, and what was written to that client for it.
pub record Exchange : Type 0 where
  pub client : ℕ
  pub request : Bytes
  pub lines : List Written

written-state : {S : Type 0} (r : Result (List Reply) × S) → (written r).1 ≡ r.1
unfolding written
written-state (raise e, s) = refl
written-state (ok replies, s) = refl

written-lines :
    {S T : Type 0} (r : Result (List Reply) × S) (u : Result (List Reply) × T)
    → r.0 ≡ u.0
    → (written r).0 ≡ (written u).0
unfolding written
written-lines (raise e, s) (raise f, u) h = ground arith
written-lines (raise e, s) (ok replies, u) h = absurd (ground arith)
written-lines (ok replies, s) (raise e, u) h = absurd (ground arith)
written-lines (ok replies, s) (ok others, u) h = ground arith

written-ok :
    {S : Type 0} (r : Result (List Reply) × S) (replies : List Reply)
    → r.0 ≡ ok replies
    → (written r).0 ≡ map reply replies
unfolding written
written-ok (r, s) replies h = rw h refl

-- A step that makes no change keeps the contents.
unchanged-Holds : (s s' : Engine) (d : Dictionary) → System.Step s [] s' → Holds s d → Holds s' d
unfolding change seen
unchanged-Holds s s' d first h =
    let (healthy, makes) = Step-Makes s s' [] first h.healthy in
    record { healthy = healthy; reads = makes (λ j. Dict.get j d) h.reads; distinct = h.distinct }

module _ (loads : Text → Option Json) where
  -- A line of a client, or the run of a thread of the engine. Where a table is written, the clock gives
  -- a path that no table has, and a time after those of the tables of its level.
  pub data Step (s : Engine) : List Exchange → Engine → Type 0 where
    line_step :
        (client : ℕ) (request : Bytes)
        → Step s
            (record { client = client; request = request; lines = (handle_line loads request s).0 }
              ∷ [])
            (handle_line loads request s).1
    flush_step :
        (now created : ℕ)
        → Unused (flushed_path s.storage_path now) (iter_sstable_metadata none true s.manifest)
        → OlderThan created (get_level_sstables 0 s.manifest)
        → Step s [] (flush now created s)
    compact_step :
        (time_ns now : ℕ)
        → Unused
            (compacted_path s.storage_path time_ns)
            (iter_sstable_metadata none true s.manifest)
        → OlderThan now (get_level_sstables 1 s.manifest)
        → Step s [] (compact time_ns now s)

  -- The exchanges of a run, in order.
  pub data Run : Engine → List Exchange → Engine → Type 0 where
    stop : (s : Engine) → Run s [] s
    step :
        (s s' s'' : Engine) (exchanges later : List Exchange)
        → Step s exchanges s'
        → Run s' later s''
        → Run s (exchanges ++ later) s''

  -- The write that a line asks for.
  unfoldable pub Asks : Bytes → Operation → Type 0
  Asks request operation =
      (text : Text) × (decode request ≡ ok text)
      × (from_json (loads (strip text)) ≡ ok operation)
      × (is_write operation ≡ true)

  -- The put of the tombstone's bytes that a line asks for.
  unfoldable pub AsksTombstone : Bytes → Operation → Type 0
  AsksTombstone request operation =
      (text : Text) × (decode request ≡ ok text)
      × (from_json (loads (strip text)) ≡ ok operation)
      × (writes_tombstone operation ≡ true)

  -- A dictionary explains exchanges: each has the lines that it gives itself, and makes its change; or
  -- has these lines and is a put of the tombstone's bytes, which takes the keys away; or is a write
  -- that was refused with the reply of an exception, and changes nothing.
  pub data Explains : Dictionary → List Exchange → Dictionary → Type 0 where
    done : (d : Dictionary) → Explains d [] d
    answered :
        (d d' : Dictionary) (client : ℕ) (request : Bytes) (later : List Exchange)
        → Explains (handle_line loads request d).1 later d'
        → Explains d
            (record { client = client; request = request; lines = (handle_line loads request d).0 }
              ∷ later)
            d'
    erases :
        (d d' : Dictionary) (client : ℕ) (request : Bytes) (operation : Operation)
        (later : List Exchange)
        → AsksTombstone request operation
        → Explains (erased operation d) later d'
        → Explains d
            (record { client = client; request = request; lines = (handle_line loads request d).0 }
              ∷ later)
            d'
    refused :
        (d d' : Dictionary) (client : ℕ) (request : Bytes) (lines : List Written)
        (operation : Operation) (e : Error) (replies : List Reply) (later : List Exchange)
        → Asks request operation
        → except_reply (some operation) e ≡ ok replies
        → lines ≡ map reply replies
        → Explains d later d'
        → Explains d (record { client = client; request = request; lines = lines } ∷ later) d'

  -- What a line does: as on the dictionary, a put of the tombstone's bytes, or a refused write.
  data Line (request : Bytes) (d : Dictionary) (now : List Written × Engine)
      (ideal : List Written × Dictionary) : Type 0 where
    as_on : now.0 ≡ ideal.0 → Holds now.1 ideal.1 → Line request d now ideal
    takes_away :
        (operation : Operation)
        → AsksTombstone request operation
        → now.0 ≡ ideal.0
        → Holds now.1 (erased operation d)
        → Line request d now ideal
    refuses :
        (operation : Operation) (e : Error) (replies : List Reply)
        → Asks request operation
        → except_reply (some operation) e ≡ ok replies
        → now.0 ≡ map reply replies
        → Holds now.1 d
        → Line request d now ideal

  written-Line :
      (request : Bytes) (text : Text) (s : Engine) (d : Dictionary)
      → decode request ≡ ok text
      → Handles (loads (strip text)) s d
      → Line request d
          (written (handle_request (loads (strip text)) s))
          (written (handle_request (loads (strip text)) d))
  written-Line request text s d decoded (as_dictionary replies holds) =
      as_on
        (written-lines (handle_request (loads (strip text)) s)
          (handle_request (loads (strip text)) d) replies)
        (rw
          (
            written-state (handle_request (loads (strip text)) s),
            written-state (handle_request (loads (strip text)) d),
          )
          holds)
  written-Line request text s d decoded (tombstone_put operation parsed t replies holds) =
      takes_away operation (unfold AsksTombstone in (text, decoded, parsed, t))
        (written-lines (handle_request (loads (strip text)) s)
          (handle_request (loads (strip text)) d) replies)
        (rw (written-state (handle_request (loads (strip text)) s)) holds)
  written-Line request text s d decoded (write_refused operation e parsed w raises replies holds) =
      let (lines, is, framed) = handle_request-replies (loads (strip text)) s in
      refuses operation e lines (unfold Asks in (text, decoded, parsed, w)) (sym replies ∙ is)
        (written-ok (handle_request (loads (strip text)) s) lines is)
        (rw (written-state (handle_request (loads (strip text)) s)) holds)

  handle_line-Line :
      (request : Bytes) (s : Engine) (d : Dictionary)
      → Holds s d
      → Line request d (handle_line loads request s) (handle_line loads request d)
  handle_line-Line request s d h = elim (Result-cases (decode request)) [
    | inr (e, wrong) ↦
        rw
          (
            handle_line-undecoded loads request e s wrong,
            handle_line-undecoded loads request e d wrong,
          )
          (as_on refl h)
    | inl (text, decoded) ↦
        rw
          (
            handle_line-decoded loads request text s decoded,
            handle_line-decoded loads request text d decoded,
          )
          (written-Line request text s d decoded
            (handle_request-Handles (loads (strip text)) s d h))
  ]

  -- A server on a healthy engine with the contents of a dictionary is a server on the dictionary. In
  -- any order of the lines of any clients, with flushes and compactions between them that complete or
  -- fail (where a table is written, the clock gives a path that no table has and a time after those of
  -- its level), each line is answered as on the dictionary, which its write changes, but for two
  -- kinds of lines: a write may be answered by the reply of an exception, and then changes nothing; and
  -- a put or a batch of values that are the bytes of the tombstone, answered as on the dictionary,
  -- takes the keys of these values away. The engine has the dictionary's contents at the end. What two
  -- threads do in the midst of their runs is not covered.
  pub Run-Explains :
      (s s' : Engine) (exchanges : List Exchange) (d : Dictionary)
      → Run s exchanges s'
      → Holds s d
      → (d' : Dictionary) × Explains d exchanges d' × Holds s' d'
  Run-Explains s s' exchanges d (stop t) h = (d, done d, h)
  Run-Explains s s' _ d (step t _ v _ later (line_step client request) rest) h =
      elim (handle_line-Line request s d h) [
        | as_on lines holds ↦
            let (d', explains, holds') =
              Run-Explains _ v later (handle_line loads request d).1 rest holds in
            (d', rw lines (answered d d' client request later explains), holds')
        | takes_away operation asked lines holds ↦
            let (d', explains, holds') = Run-Explains _ v later (erased operation d) rest holds in
            (d', rw lines (erases d d' client request operation later asked explains), holds')
        | refuses operation e replies asked given lines holds ↦
            let (d', explains, holds') = Run-Explains _ v later d rest holds in
            (
              d',
              refused d d' client request _ operation e replies later asked given lines explains,
              holds',
            )
      ]
  Run-Explains s s' _ d (step t _ v _ later (flush_step now created unused newer) rest) h =
      Run-Explains _ v later d rest
        (unchanged-Holds s _ d (System.flush_step now created unused newer) h)
  Run-Explains s s' _ d (step t _ v _ later (compact_step time_ns now unused newer) rest) h =
      Run-Explains _ v later d rest
        (unchanged-Holds s _ d (System.compact_step time_ns now unused newer) h)
