-- ===== src/Controller.antt =====
-- src/controller.py: what a request writes to its connection, and the engine behind it.
pub mod Stream
pub mod Replies
pub mod Refines
pub mod Requests
use logvine.Prelude.{
  ℕ, suc, true, false, Option, none, some, List, [], ◌∷◌, ◌++◌, leb, length, if◌then◌else◌,
}
use logvine.Prelude.Bytes.{Bytes}
use logvine.Prelude.Text.{Text}
use logvine.Prelude.Utf8.{decode}
use logvine.Prelude.Result.{
  Result, ok, raise, ◌>>=◌, Error, key_error, batch_too_large, attribute_error,
}
use logvine.Json.{Json, JsonFields, object, string, field, no_fields}
use logvine.Operations.{Operation, Outcome, answer, iterator, from_json, execute}
use logvine.Operations.Words.{
  error_field, error_type_field, failed_text, not_found_text, status_field, too_large_text,
}
use logvine.Operations.Responses.{
  to_response, to_error_response, to_stream_response, to_stream_done, to_stream_error,
}
use logvine.StorageEngine.{StorageEngine}

-- A line written. A reply names the exception whose text it has.
pub data Reply : Type 0 where
  response : Json → Reply
  chunk : (start_key end_key : Bytes) (items : List (Text × Text)) (chunk_id : ℕ) → Reply
  stream_done : (start_key end_key : Bytes) → Reply
  stream_error : (start_key end_key : Bytes) → Error → Reply
  refused : Error → Reply
  refused_batch : (batch_size limit : ℕ) → Reply

-- json.dumps({"status": "error", "error": str(e)})
abbrev pub refusal : Text → JsonFields → Json
refusal text rest =
    object (field status_field (string failed_text) (field error_field (string text) rest))

-- The value given to `json.dumps`; `str` gives the text of an exception.
unfoldable pub reply_json : (Error → Text) → Reply → Json
reply_json str (response json) = json
reply_json str (chunk start_key end_key items chunk_id) =
    to_stream_response start_key end_key items chunk_id
reply_json str (stream_done start_key end_key) = to_stream_done start_key end_key
reply_json str (stream_error start_key end_key e) = to_stream_error start_key end_key (str e)
reply_json str (refused e) = refusal (str e) no_fields
reply_json str (refused_batch size limit) =
    refusal (str (batch_too_large size limit))
      (field error_type_field (string too_large_text) no_fields)

-- [key.decode(), value.decode()]
unfoldable pub decode_pair : Bytes × Bytes → Result (Text × Text)
decode_pair (key, value) = do k ← decode key; v ← decode value; ok (k, v)

abbrev pub chunk_size : ℕ
chunk_size = 100

module _ (start_key end_key : Bytes) where
  -- `if chunk:` behind the loop
  unfoldable pub last_chunk : List (Text × Text) → ℕ → List Reply
  last_chunk [] chunk_id = []
  last_chunk (pair ∷ pairs) chunk_id = chunk start_key end_key (pair ∷ pairs) chunk_id ∷ []

  -- The loop of `_stream_response`, with the chunk and the number of the next one.
  unfoldable pub stream_loop : List (Bytes × Bytes) → List (Text × Text) → ℕ → List Reply
  stream_loop [] items chunk_id = last_chunk items chunk_id ++ stream_done start_key end_key ∷ []
  stream_loop (pair ∷ pairs) items chunk_id = elim (decode_pair pair) [
    | raise e ↦ stream_error start_key end_key e ∷ []
    | ok text ↦ elim (leb chunk_size (length (items ++ text ∷ []))) [
      | true ↦
          chunk start_key end_key (items ++ text ∷ []) chunk_id
          ∷ stream_loop pairs [] (suc chunk_id)
      | false ↦ stream_loop pairs (items ++ text ∷ []) chunk_id
    ]
  ]

  -- A range is read whole before its first pair is yielded.
  unfoldable pub stream_response : Result (List (Bytes × Bytes)) → List Reply
  stream_response (raise e) = stream_error start_key end_key e ∷ []
  stream_response (ok pairs) = stream_loop pairs [] 1

-- The `except` clauses; a KeyError before there is an operation leaves `handle_request` with an
-- AttributeError.
unfoldable pub except_reply : Option Operation → Error → Result (List Reply)
except_reply (some operation) key_error =
    ok (response (to_error_response operation not_found_text) ∷ [])
except_reply none key_error = raise attribute_error
except_reply operation (batch_too_large size limit) = ok (refused_batch size limit ∷ [])
except_reply operation e = ok (refused e ∷ [])

module _ {ℓ} {S : Type ℓ} where
  unfoldable pub answered : Operation → Result Outcome × S → Result (List Reply) × S
  answered operation (raise e, s) = (except_reply (some operation) e, s)
  answered operation (ok (answer result), s) =
      (ok (response (to_response operation result) ∷ []), s)
  answered operation (ok (iterator start_key end_key pairs), s) =
      (ok (stream_response start_key end_key pairs), s)

  module _ ⦃engine : StorageEngine S⦄ where
    unfoldable pub handled : Result Operation → S → Result (List Reply) × S
    handled (raise e) s = (except_reply none e, s)
    handled (ok operation) s = answered operation (execute operation s)

    -- On the result of `json.loads`, `none` where that raises.
    unfoldable pub handle_request : Option Json → S → Result (List Reply) × S
    handle_request data_ s = handled (from_json data_) s
