-- ===== src/Controller/Replies.antt =====
-- `handle_request` of src/controller.py: every request is answered.
use logvine.Prelude.{
  Bool, true, false, All, suc, subst, ◌⊎◌, ℕ, ◌≡◌, ◌≢◌, refl, ap, List, [], ◌∷◌, ◌++◌, Option, none,
  some, leb, length, Bool-cases, inl, inr,
}
use logvine.Prelude.Bytes.{Bytes}
use logvine.Prelude.Text.{Text}
use logvine.Prelude.Result.{
  Result, ok, raise, ◌>>=◌, Error, struct_error, index_error, value_error, key_error, os_error,
  type_error, attribute_error, batch_too_large, Result-cases,
}
use logvine.Json.{Json}
use logvine.Operations.{
  Operation, put, get, delete, read_key_range, batch_put, Outcome, answer, iterator, value_read,
  from_json, execute, then_return,
}
use logvine.Operations.Parse.{from_json-NoKeyError}
use logvine.Controller.{
  Reply, response, chunk, stream_done, stream_error, refused, refused_batch, decode_pair,
  chunk_size, last_chunk, stream_loop, stream_response, except_reply, answered, handled,
  handle_request,
}
use logvine.StorageEngine.{StorageEngine}

unfoldable pub is_chunk : Reply → Bool
is_chunk (response json) = false
is_chunk (chunk start_key end_key items chunk_id) = true
is_chunk (stream_done start_key end_key) = false
is_chunk (stream_error start_key end_key e) = false
is_chunk (refused e) = false
is_chunk (refused_batch size limit) = false

-- Lines of which the last one alone is no chunk; where nothing is streamed there is no other.
pub record Framed (streamed : Bool) (replies : List Reply) : Type 0 where
  pub chunks : List Reply
  pub last : Reply
  pub replies_are : replies ≡ chunks ++ last ∷ []
  pub all_chunks : All (λ reply. is_chunk reply ≡ true) chunks
  pub no_chunk : is_chunk last ≡ false
  pub alone : (chunks ≡ []) ⊎ (streamed ≡ true)

abbrev one_line :
    {streamed : Bool} (reply : Reply) → is_chunk reply ≡ false → Framed streamed (reply ∷ [])
one_line reply h = record {
  chunks = [];
  last = reply;
  replies_are = refl;
  all_chunks = tt;
  no_chunk = h;
  alone = inl refl;
}

abbrev after_chunk :
    (reply : Reply) (replies : List Reply)
    → is_chunk reply ≡ true
    → Framed true replies
    → Framed true (reply ∷ replies)
after_chunk reply replies h f = record {
  chunks = reply ∷ f.chunks;
  last = f.last;
  replies_are = ap (◌∷◌ reply) f.replies_are;
  all_chunks = (h, f.all_chunks);
  no_chunk = f.no_chunk;
  alone = inr refl;
}

-- Lines are written, framed, and no exception leaves.
abbrev Replied : Bool → Result (List Reply) → Type 0
Replied streamed r = (replies : List Reply) × (r ≡ ok replies) × Framed streamed replies

except_some-Replied :
    {streamed : Bool} (operation : Operation) (e : Error)
    → Replied streamed (except_reply (some operation) e)
unfolding except_reply is_chunk
except_some-Replied operation struct_error = (_, refl, one_line _ refl)
except_some-Replied operation index_error = (_, refl, one_line _ refl)
except_some-Replied operation value_error = (_, refl, one_line _ refl)
except_some-Replied operation key_error = (_, refl, one_line _ refl)
except_some-Replied operation os_error = (_, refl, one_line _ refl)
except_some-Replied operation type_error = (_, refl, one_line _ refl)
except_some-Replied operation attribute_error = (_, refl, one_line _ refl)
except_some-Replied operation (batch_too_large size limit) = (_, refl, one_line _ refl)

except_none-Replied :
    {streamed : Bool} (e : Error) → e ≢ key_error → Replied streamed (except_reply none e)
unfolding except_reply is_chunk
except_none-Replied struct_error h = (_, refl, one_line _ refl)
except_none-Replied index_error h = (_, refl, one_line _ refl)
except_none-Replied value_error h = (_, refl, one_line _ refl)
except_none-Replied key_error h = absurd (h refl)
except_none-Replied os_error h = (_, refl, one_line _ refl)
except_none-Replied type_error h = (_, refl, one_line _ refl)
except_none-Replied attribute_error h = (_, refl, one_line _ refl)
except_none-Replied (batch_too_large size limit) h = (_, refl, one_line _ refl)

module _ (start_key end_key : Bytes) where
  stream_loop-Framed :
      (pairs : List (Bytes × Bytes)) (items : List (Text × Text)) (chunk_id : ℕ)
      → Framed true (stream_loop start_key end_key pairs items chunk_id)
  unfolding stream_loop last_chunk is_chunk
  stream_loop-Framed [] [] chunk_id = one_line _ refl
  stream_loop-Framed [] (item ∷ items) chunk_id = after_chunk _ _ refl (one_line _ refl)
  stream_loop-Framed (pair ∷ pairs) items chunk_id = elim (Result-cases (decode_pair pair)) [
    | inr (e, failed) ↦ rw (stream_loop, failed) (one_line _ refl)
    | inl (text, decoded) ↦
        rw (stream_loop, decoded)
          (elim (Bool-cases (leb chunk_size (length (items ++ text ∷ [])))) [
            | inl full ↦
                rw (stream_loop, full)
                  (after_chunk _ _ refl (stream_loop-Framed pairs [] (suc chunk_id)))
            | inr room ↦
                rw (stream_loop, room) (stream_loop-Framed pairs (items ++ text ∷ []) chunk_id)
          ])
  ]

  stream_response-Framed :
      (r : Result (List (Bytes × Bytes))) → Framed true (stream_response start_key end_key r)
  unfolding stream_response is_chunk
  stream_response-Framed (raise e) = one_line _ refl
  stream_response-Framed (ok pairs) = stream_loop-Framed pairs [] 1

-- The request of a range.
unfoldable pub is_range : Operation → Bool
is_range (put key value) = false
is_range (get key) = false
is_range (delete key) = false
is_range (read_key_range start_key end_key) = true
is_range (batch_put keys values) = false

abbrev pub asks_range : Result Operation → Bool
asks_range (raise e) = false
asks_range (ok operation) = is_range operation

abbrev is_stream : Result Outcome → Bool
is_stream (raise e) = false
is_stream (ok (answer result)) = false
is_stream (ok (iterator start_key end_key pairs)) = true

is_stream-value : (r : Result Bytes) → is_stream (do v ← r; ok (answer (value_read v))) ≡ false
is_stream-value (raise e) = refl
is_stream-value (ok v) = refl

module _ {ℓ} {S : Type ℓ} where
  answered-Replied :
      (operation : Operation) (r : Result Outcome × S)
      → Replied (is_stream r.0) (answered operation r).0
  unfolding answered is_chunk
  answered-Replied operation (raise e, s) = except_some-Replied operation e
  answered-Replied operation (ok (answer result), s) = (_, refl, one_line _ refl)
  answered-Replied operation (ok (iterator start_key end_key pairs), s) =
      (_, refl, stream_response-Framed start_key end_key pairs)

  is_stream-then_return :
      (text : Text) (r : Result (Unit {0}) × S) → is_stream (then_return text r).0 ≡ false
  is_stream-then_return text (raise e, s) = refl
  is_stream-then_return text (ok done, s) = refl

  module _ ⦃engine : StorageEngine S⦄ where
    is_stream-execute :
        (operation : Operation) (s : S) → is_stream (execute operation s).0 ≡ is_range operation
    unfolding execute is_range
    is_stream-execute (put key value) s = is_stream-then_return _ (engine.put key value s)
    is_stream-execute (get key) s = is_stream-value (engine.get key s)
    is_stream-execute (delete key) s = is_stream-then_return _ (engine.delete key s)
    is_stream-execute (read_key_range start_key end_key) s = refl
    is_stream-execute (batch_put keys values) s =
        is_stream-then_return _ (engine.batch_put keys values s)

    handled-Replied :
        (r : Result Operation) (s : S)
        → r ≢ raise key_error
        → Replied (asks_range r) (handled r s).0
    unfolding handled
    handled-Replied (raise e) s h = except_none-Replied e (λ q. h (ap raise q))
    handled-Replied (ok operation) s h =
        subst (λ (b : Bool). Replied b (answered operation (execute operation s)).0)
          (is_stream-execute operation s) (answered-Replied operation (execute operation s))

    -- Whatever a request holds, in whatever state the engine is, and whichever engine of the abstract
    -- class it is, no exception leaves `handle_request`, and it writes lines of which the last one
    -- alone is no chunk of a stream; for a request that is no range, it writes exactly one line. So a
    -- client knows where the answer to its request ends.
    pub handle_request-replies :
        (request : Option Json) (s : S)
        → (replies : List Reply) × ((handle_request request s).0 ≡ ok replies)
          × Framed (asks_range (from_json request)) replies
    unfolding handle_request
    handle_request-replies request s =
        handled-Replied (from_json request) s (from_json-NoKeyError request)
