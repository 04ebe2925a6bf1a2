-- ===== src/Server/Replies.antt =====
-- `handle_client` of src/server.py: every line is answered, in order.
use logvine.Prelude.{
  Bool, ◌≡◌, refl, ap, ◌∙◌, Option, List, [], ◌∷◌, ◌++◌, map, All, true, false, inl, inr,
}
use logvine.Prelude.Bytes.{Bytes}
use logvine.Prelude.Text.{Text}
use logvine.Prelude.Utf8.{decode}
use logvine.Prelude.Result.{Result, ok, raise, Error, Result-cases}
use logvine.Json.{Json}
use logvine.Controller.{Reply, handle_request}
use logvine.Controller.Replies
use logvine.Controller.Replies.{is_chunk, handle_request-replies}
use logvine.StorageEngine.{StorageEngine}
use logvine.Server.{
  Input, line, failed, Written, reply, error_line, strip, written, handle_line, handle_client,
}

-- The lines before the first empty one and the first exception.
unfoldable pub requests : List Input → List Bytes
requests [] = []
requests (failed e ∷ inputs) = []
requests (line [] ∷ inputs) = []
requests (line (b ∷ bs) ∷ inputs) = (b ∷ bs) ∷ requests inputs

unfoldable pub goes_on : Written → Bool
goes_on (reply r) = is_chunk r
goes_on (error_line e) = false

-- An answer: lines of which the last one alone is no chunk.
pub record Answer : Type 0 where
  pub chunks : List Written
  pub last : Written
  pub all_chunks : All (λ w. goes_on w ≡ true) chunks
  pub no_chunk : goes_on last ≡ false

abbrev pub lines : Answer → List Written
lines a = a.chunks ++ a.last ∷ []

abbrev pub all_lines : List Answer → List Written
all_lines [] = []
all_lines (a ∷ answers) = lines a ++ all_lines answers

map-append : (xs : List Reply) (x : Reply) → map reply (xs ++ x ∷ []) ≡ map reply xs ++ reply x ∷ []
map-append [] x = refl
map-append (y ∷ xs) x = ap (◌∷◌ (reply y)) (map-append xs x)

All-goes_on :
    (xs : List Reply) → All (λ r. is_chunk r ≡ true) xs → All (λ w. goes_on w ≡ true) (map reply xs)
unfolding goes_on
All-goes_on [] h = tt
All-goes_on (x ∷ xs) h = (h.0, All-goes_on xs h.1)

module _ {ℓ} {S : Type ℓ} ⦃engine : StorageEngine S⦄ (loads : Text → Option Json) where
  written-answer :
      (streamed : Bool) (r : Result (List Reply) × S)
      → (replies : List Reply) × (r.0 ≡ ok replies) × Replies.Framed streamed replies
      → (a : Answer) × ((written r).0 ≡ lines a)
  unfolding written goes_on
  written-answer streamed (r, s) (replies, is, f) = (
    record {
      chunks = map reply f.chunks;
      last = reply f.last;
      all_chunks = All-goes_on f.chunks f.all_chunks;
      no_chunk = f.no_chunk;
    },
    rw (is, f.replies_are) (map-append f.chunks f.last),
  )

  pub handle_line-decoded :
      (request : Bytes) (text : Text) (s : S)
      → decode request ≡ ok text
      → handle_line loads request s ≡ written (handle_request (loads (strip text)) s)
  unfolding handle_line
  handle_line-decoded request text s decoded = rw (handle_line, decoded) refl

  pub handle_line-undecoded :
      (request : Bytes) (e : Error) (s : S)
      → decode request ≡ raise e
      → handle_line loads request s ≡ (error_line e ∷ [], s)
  unfolding handle_line
  handle_line-undecoded request e s wrong = rw (handle_line, wrong) refl

  handle_line-answer :
      (request : Bytes) (s : S) → (a : Answer) × ((handle_line loads request s).0 ≡ lines a)
  unfolding goes_on
  handle_line-answer request s = elim (Result-cases (decode request)) [
    | inr (e, wrong) ↦ (
      record { chunks = []; last = error_line e; all_chunks = tt; no_chunk = refl },
      ap (λ (r : List Written × S). r.0) (handle_line-undecoded request e s wrong),
    )
    | inl (text, decoded) ↦
        let (a, is) =
          written-answer _ (handle_request (loads (strip text)) s)
            (handle_request-replies (loads (strip text)) s) in
        (a, ap (λ (r : List Written × S). r.0) (handle_line-decoded request text s decoded) ∙ is)
  ]

  -- The answers to requests, each with the lines of its own request, in the state that the requests
  -- before it left; the last one leaves the state at the end.
  pub data Answered : List Bytes → S → List Answer → S → Type ℓ where
    at_end : (s : S) → Answered [] s [] s
    next :
        (request : Bytes) (later : List Bytes) (s : S) (a : Answer) (answers : List Answer) (s' : S)
        → (handle_line loads request s).0 ≡ lines a
        → Answered later (handle_line loads request s).1 answers s'
        → Answered (request ∷ later) s (a ∷ answers) s'

  -- A connection stays open until the client closes it or a read of it fails. Whatever its lines hold,
  -- what is written is the answers to the lines before that, in the order of the lines: each answer is
  -- what its own line gives in the state that the lines before it left, with one line at its end that
  -- is no chunk of a stream, and only chunks before it. The engine is left as by the last line.
  pub handle_client-answers :
      (inputs : List Input) (s : S)
      → (answers : List Answer) × ((handle_client loads inputs s).0 ≡ all_lines answers)
        × Answered (requests inputs) s answers (handle_client loads inputs s).1
  unfolding requests handle_client
  handle_client-answers [] s = ([], refl, at_end s)
  handle_client-answers (failed e ∷ inputs) s = ([], refl, at_end s)
  handle_client-answers (line [] ∷ inputs) s = ([], refl, at_end s)
  handle_client-answers (line (b ∷ bs) ∷ inputs) s =
      let (first, first_is) = handle_line-answer (b ∷ bs) s in
      let (rest, rest_is, answered) =
        handle_client-answers inputs (handle_line loads (b ∷ bs) s).1 in
      (
        first ∷ rest,
        rw (first_is, rest_is) refl,
        next (b ∷ bs) (requests inputs) s first rest _ first_is answered,
      )
