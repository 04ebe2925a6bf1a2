-- ===== src/Operations/Responses.antt =====
-- src/operations.py: the responses of the operations, as the values that are given to `json.dumps`.
use logvine.Prelude.{ℕ, true, Option, none, some, List, [], ◌∷◌, length}
use logvine.Prelude.Bytes.{Bytes}
use logvine.Prelude.Text.{Text}
use logvine.Prelude.Utf8.{decode_replace}
use logvine.Json.{
  Json, null, boolean, number, string, array, object, JsonFields, field, no_fields, from_list,
}
use logvine.Operations.{
  Operation, put, get, delete, read_key_range, batch_put, Answer, returned, value_read,
}
use logvine.Operations.Words.{
  batch_text, chunk_id_field, count_field, delete_text, done_text, end_key_field, error_field,
  get_text, in_progress_text, items_field, key_field, ok_text, operation_field, put_text,
  range_text, results_field, terminated_text, start_key_field, status_field, stream_status_field,
  success_field, value_field,
}

abbrev pub answer_json : Answer → Json
answer_json (returned text) = string text
answer_json (value_read bytes) = string (decode_replace bytes)

unfoldable pub range_fields : Bytes → Bytes → JsonFields → JsonFields
range_fields start_key end_key rest = field operation_field (string range_text) (
    field start_key_field (string (decode_replace start_key))
      (field end_key_field (string (decode_replace end_key)) rest))

abbrev pub key_fields : Text → Bytes → JsonFields → JsonFields
key_fields name key rest =
    field operation_field (string name) (field key_field (string (decode_replace key)) rest)

-- The fields that come first in every response of an operation, of each class.
abbrev pub put_fields : Bytes → JsonFields → JsonFields
put_fields key rest = key_fields put_text key rest

abbrev pub get_fields : Bytes → JsonFields → JsonFields
get_fields key rest = key_fields get_text key rest

abbrev pub delete_fields : Bytes → JsonFields → JsonFields
delete_fields key rest = key_fields delete_text key rest

abbrev pub batch_fields : List Bytes → JsonFields → JsonFields
batch_fields keys rest =
    field operation_field (string batch_text) (field count_field (number (length keys)) rest)

-- What follows the head: `error` where it is given and not empty, else `result`, which is None where
-- none is given.
unfoldable pub outcome_fields : Text → Option Answer → Option Text → JsonFields
outcome_fields name result (some (c ∷ cs)) = field error_field (string (c ∷ cs)) no_fields
outcome_fields name (some a) (some []) =
    field success_field (boolean true) (field name (answer_json a) no_fields)
outcome_fields name none (some []) = field success_field (boolean true) (field name null no_fields)
outcome_fields name (some a) none =
    field success_field (boolean true) (field name (answer_json a) no_fields)
outcome_fields name none none = field success_field (boolean true) (field name null no_fields)

-- `to_response` of each class. No result of a range is given to it: a range is streamed.
abbrev pub put_response : Bytes → Option Answer → Option Text → Json
put_response key result error = object (put_fields key (outcome_fields value_field result error))

abbrev pub get_response : Bytes → Option Answer → Option Text → Json
get_response key result error = object (get_fields key (outcome_fields value_field result error))

abbrev pub delete_response : Bytes → Option Answer → Option Text → Json
delete_response key result error =
    object (delete_fields key (outcome_fields value_field result error))

abbrev pub batch_response : List Bytes → Option Answer → Option Text → Json
batch_response keys result error =
    object (batch_fields keys (outcome_fields value_field result error))

abbrev pub range_response : Bytes → Bytes → Option Answer → Option Text → Json
range_response start_key end_key result error =
    object (range_fields start_key end_key (outcome_fields results_field result error))

unfoldable pub respond : Operation → Option Answer → Option Text → Json
respond (put key value) result error = put_response key result error
respond (get key) result error = get_response key result error
respond (delete key) result error = delete_response key result error
respond (read_key_range start_key end_key) result error =
    range_response start_key end_key result error
respond (batch_put keys values) result error = batch_response keys result error

-- operation.to_response(result=result)
abbrev pub to_response : Operation → Answer → Json
to_response operation result = respond operation (some result) none

-- operation.to_response(error=error)
abbrev pub to_error_response : Operation → Text → Json
to_error_response operation error = respond operation none (some error)

abbrev pub pair_json : Text × Text → Json
pair_json (key, value) = array (from_list (string key ∷ string value ∷ []))

abbrev pub pairs_json : List (Text × Text) → List Json
pairs_json [] = []
pairs_json (pair ∷ pairs) = pair_json pair ∷ pairs_json pairs

unfoldable pub to_stream_response : Bytes → Bytes → List (Text × Text) → ℕ → Json
to_stream_response start_key end_key items chunk_id = object (
    range_fields start_key end_key (
      field status_field (string ok_text) (
        field stream_status_field (string in_progress_text) (
          field chunk_id_field (number chunk_id)
            (field items_field (array (from_list (pairs_json items))) no_fields)))))

unfoldable pub to_stream_done : Bytes → Bytes → Json
to_stream_done start_key end_key = object (
    range_fields start_key end_key (
      field status_field (string ok_text) (field stream_status_field (string done_text) no_fields)))

unfoldable pub to_stream_error : Bytes → Bytes → Text → Json
to_stream_error start_key end_key error = object (
    range_fields start_key end_key (
      field error_field (string error)
        (field stream_status_field (string terminated_text) no_fields)))
