-- ===== src/Client.antt =====
-- src/client.py: the requests of `LogvineClient`, and how it reads the lines that answer them.
pub mod Calls
pub mod Connection
pub mod Ranges
pub mod Stream
use logvine.Prelude.{
  ℕ, Bool, true, false, ◌||◌, not, Option, none, some, List, [], ◌∷◌, nat_beq, length,
  if◌then◌else◌, ◌==◌, is_some,
}
use logvine.Prelude.Bytes.{bytes_eq}
use logvine.Prelude.Text.{Text}
use logvine.Prelude.Result.{Error, Result, ok, raise, ◌>>=◌, value_error, attribute_error}
use logvine.Json.{
  Json, null, boolean, string, array, object, no_items, JsonFields, field, no_fields, from_list,
  get_field, iterate,
}
use logvine.Operations.Words.{
  batch_text, delete_text, done_text, end_key_field, error_field, failed_text, get_text,
  items_field, key_field, keys_field, operation_field, put_text, range_text, start_key_field,
  status_field, stream_status_field, success_field, terminated_text, value_field, values_field,
}

-- {"operation": "put", "key": key, "value": value}
abbrev pub put_request : Text → Text → Json
put_request key value = object (
    field operation_field (string put_text)
      (field key_field (string key) (field value_field (string value) no_fields)))

-- {"operation": "get", "key": key}
abbrev pub get_request : Text → Json
get_request key =
    object (field operation_field (string get_text) (field key_field (string key) no_fields))

-- {"operation": "delete", "key": key}
abbrev pub delete_request : Text → Json
delete_request key =
    object (field operation_field (string delete_text) (field key_field (string key) no_fields))

abbrev texts : List Text → List Json
texts [] = []
texts (t ∷ ts) = string t ∷ texts ts

-- {"operation": "batch_put", "keys": keys, "values": values}
abbrev pub batch_request : List Text → List Text → Json
batch_request keys values = object (
    field operation_field (string batch_text) (
      field keys_field (array (from_list (texts keys)))
        (field values_field (array (from_list (texts values))) no_fields)))

-- {"operation": "read_key_range", "start_key": start_key, "end_key": end_key}
abbrev pub range_request : Text → Text → Json
range_request start_key end_key = object (
    field operation_field (string range_text)
      (field start_key_field (string start_key) (field end_key_field (string end_key) no_fields)))

-- A RuntimeError with its argument, or another exception.
pub data Failure : Type 0 where
  runtime_error : Json → Failure
  raised : Error → Failure

-- "Server closed connection"
abbrev pub closed : Failure
closed = runtime_error (
    string (
      83 ∷ 101 ∷ 114 ∷ 118 ∷ 101 ∷ 114 ∷ 32 ∷ 99 ∷ 108 ∷ 111 ∷ 115 ∷ 101 ∷ 100 ∷ 32 ∷ 99 ∷ 111 ∷ 110
      ∷ 110 ∷ 101 ∷ 99 ∷ 116 ∷ 105 ∷ 111 ∷ 110 ∷ []))

-- "Unknown error"
abbrev unknown_error : Json
unknown_error =
    string (85 ∷ 110 ∷ 107 ∷ 110 ∷ 111 ∷ 119 ∷ 110 ∷ 32 ∷ 101 ∷ 114 ∷ 114 ∷ 111 ∷ 114 ∷ [])

-- "Stream error"
abbrev stream_error_default : Json
stream_error_default =
    string (83 ∷ 116 ∷ 114 ∷ 101 ∷ 97 ∷ 109 ∷ 32 ∷ 101 ∷ 114 ∷ 114 ∷ 111 ∷ 114 ∷ [])

-- msg.get(name, default)
abbrev pub get_or : Json → Option Json → Json
get_or default none = default
get_or default (some v) = v

-- msg.get(name) == text
abbrev pub is_text : Text → Option Json → Bool
is_text text (some (string t)) = t == text
is_text text v = false

-- What a call gives to its caller.
pub data Returned : Type 0 where
  returned : Json → Returned
  failed : Failure → Returned

-- The line that answers a request, and the field of it that the call returns. No line is a closed
-- connection; a value that is no object has no `get`.
unfoldable pub read_response : (JsonFields → Json) → List Json → Returned
read_response result [] = failed closed
read_response result (object response ∷ lines) =
    if is_text failed_text (get_field status_field response)
      || is_some (get_field error_field response)
    then failed (runtime_error (get_or unknown_error (get_field error_field response)))
    else returned (result response)
read_response result (v ∷ lines) = failed (raised attribute_error)

-- resp.get("success", False) and resp.get("value")
abbrev pub success : JsonFields → Json
success response = get_or (boolean false) (get_field success_field response)

abbrev pub value_of : JsonFields → Json
value_of response = get_or null (get_field value_field response)

-- The calls, on a server that takes a request in a state to the lines of its answer.
module _ {ℓ} {S : Type ℓ} (serve : Json → S → List Json × S) where
  unfoldable pub send_request : (JsonFields → Json) → Json → S → Returned × S
  send_request result request s =
      let (lines, after) = serve request s in (read_response result lines, after)

  unfoldable pub put : Text → Text → S → Returned × S
  put key value s = send_request success (put_request key value) s

  unfoldable pub get : Text → S → Returned × S
  get key s = send_request value_of (get_request key) s

  unfoldable pub delete : Text → S → Returned × S
  delete key s = send_request success (delete_request key) s

  unfoldable pub batch_put : List Text → List Text → S → Returned × S
  batch_put keys values s =
      if nat_beq (length keys) (length values)
      then send_request success (batch_request keys values) s
      else (failed (raised value_error), s)

-- What a streamed range yields, and how it ends: `none` is its end, `some` an exception.
pub record Yielded : Type 0 where
  pub items : List (Json × Json)
  pub ending : Option Failure

abbrev pub only : List (Json × Json) → Failure → Yielded
only items failure = record { items = items; ending = some failure }

-- for k, v in ...
unfoldable pub unpack : List Json → Result (Json × Json)
unpack (k ∷ v ∷ []) = ok (k, v)
unpack vs = raise value_error

abbrev pub prepend : Json × Json → Yielded → Yielded
prepend pair y = record { items = pair ∷ y.items; ending = y.ending }

-- The loop over the items of a message, and then what comes after it.
unfoldable pub yield_items : List Json → Yielded → Yielded
yield_items [] later = later
yield_items (v ∷ vs) later =
    let rest = yield_items vs later in
    elim (do pair ← iterate v; unpack pair) [
      | raise e ↦ only [] (raised e)
      | ok pair ↦ prepend pair rest
    ]

unfoldable pub read_items : Json → Yielded → Yielded
read_items items later = elim (iterate items) [
  | raise e ↦ only [] (raised e)
  | ok vs ↦ yield_items vs later
]

-- The loop of `read_key_range`, over the lines that the server writes.
unfoldable pub read_stream : List Json → Yielded
read_stream [] = only [] closed
read_stream (object msg ∷ lines) =
    let rest = read_stream lines in
    if is_text done_text (get_field stream_status_field msg)
    then record { items = []; ending = none }
    else if is_text terminated_text (get_field stream_status_field msg)
        || is_text failed_text (get_field status_field msg)
    then only [] (runtime_error (get_or stream_error_default (get_field error_field msg)))
    else read_items (get_or (array no_items) (get_field items_field msg)) rest
read_stream (v ∷ lines) = only [] (raised attribute_error)

module _ {ℓ} {S : Type ℓ} (serve : Json → S → List Json × S) where
  unfoldable pub read_key_range : Text → Text → S → Yielded × S
  read_key_range start_key end_key s =
      let (lines, after) = serve (range_request start_key end_key) s in (read_stream lines, after)
