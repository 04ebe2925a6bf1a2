-- ===== src/Operations.antt =====
-- src/operations.py: requests as values, with their parsing, validation, execution and responses.
pub mod Words
pub mod Responses
pub mod Parse
pub mod Validate
pub mod Keys
use logvine.Prelude.{
  ℕ, ◌+◌, ◌-◌, Bool, true, false, ◌&&◌, ◌||◌, not, Option, none, some, List, [], ◌∷◌, ◌++◌, nat_beq,
  leb, length, if◌then◌else◌, ◌==◌,
}
use logvine.Prelude.Bytes.{Bytes, bytes_eq}
use logvine.Prelude.Text.{Text, decimal}
use logvine.Prelude.Utf8.{encode, decode_replace}
use logvine.Prelude.Result.{Result, ok, raise, ◌>>=◌, value_error, attribute_error, Error}
use logvine.Json.{
  Json, null, boolean, number, string, array, object, JsonFields, field, no_fields, get_field,
  truthy, iterate, other_number,
}
use logvine.StorageEngine.{StorageEngine}
use Words.*

-- One constructor for each class of `OperationType`, with the fields of its objects.
pub data Operation : Type 0 where
  put : (key value : Bytes) → Operation
  get : (key : Bytes) → Operation
  delete : (key : Bytes) → Operation
  read_key_range : (start_key end_key : Bytes) → Operation
  batch_put : (keys values : List Bytes) → Operation

unfoldable pub ensure_bytes : Json → Result Bytes
ensure_bytes (string text) = encode text
ensure_bytes null = raise value_error
ensure_bytes (boolean b) = raise value_error
ensure_bytes (number n) = raise value_error
ensure_bytes (other_number b) = raise value_error
ensure_bytes (array items) = raise value_error
ensure_bytes (object _) = raise value_error

unfoldable pub ensure_all : List Json → Result (List Bytes)
ensure_all [] = ok []
ensure_all (v ∷ vs) = do bytes ← ensure_bytes v; rest ← ensure_all vs; ok (bytes ∷ rest)

-- `if not value: raise ValueError(...)`, for the result of a lookup
unfoldable pub required : Option Json → Result Json
required none = raise value_error
required (some v) = if truthy v then ok v else raise value_error

-- `if value is None: raise ValueError(...)`
unfoldable pub present : Option Json → Result Json
present none = raise value_error
present (some null) = raise value_error
present (some v) = ok v

unfoldable pub parse_put : JsonFields → Result Operation
parse_put data_ = do
  k ← required (get_field key_field data_)
  v ← present (get_field value_field data_)
  key ← ensure_bytes k
  value ← ensure_bytes v
  ok (put key value)

unfoldable pub parse_get : JsonFields → Result Operation
parse_get data_ = do k ← required (get_field key_field data_); key ← ensure_bytes k; ok (get key)

unfoldable pub parse_delete : JsonFields → Result Operation
parse_delete data_ = do
  k ← required (get_field key_field data_)
  key ← ensure_bytes k
  ok (delete key)

unfoldable pub parse_range : JsonFields → Result Operation
parse_range data_ = do
  start ← required (get_field start_key_field data_)
  end ← required (get_field end_key_field data_)
  start_key ← ensure_bytes start
  end_key ← ensure_bytes end
  ok (read_key_range start_key end_key)

unfoldable pub parse_batch : JsonFields → Result Operation
parse_batch data_ = do
  ks ← required (get_field keys_field data_)
  vs ← required (get_field values_field data_)
  key_items ← iterate ks
  value_items ← iterate vs
  let parsed : Result Operation = do
    keys ← ensure_all key_items
    values ← ensure_all value_items
    ok (batch_put keys values)
  if nat_beq (length key_items) (length value_items) then parsed else raise value_error

-- The letters of str.upper() that matter: no other character becomes a letter of an operation's name.
unfoldable pub upper : Text → Text
upper [] = []
upper (c ∷ cs) = (if leb 97 c && leb c 122 then c - 32 else c) ∷ upper cs

-- `OperationType[op_name].value.parse(request_data)`
unfoldable pub parse : Text → JsonFields → Result Operation
parse op_name data_ =
    if op_name == put_name
    then parse_put data_
    else if op_name == get_name
    then parse_get data_
    else if op_name == delete_name
    then parse_delete data_
    else if op_name == range_name
    then parse_range data_
    else if op_name == batch_name
    then parse_batch data_
    else raise value_error

-- `not key`
abbrev pub empty {ℓ} : {A : Type ℓ} → List A → Bool
empty [] = true
empty (x ∷ xs) = false

abbrev pub refuse_if : Bool → Result (Unit {0})
refuse_if true = raise value_error
refuse_if false = ok tt

-- `validate` of each class; a value of bytes is never None.
abbrev pub validate_put : Bytes → Bytes → Result (Unit {0})
validate_put key value = refuse_if (empty key)

abbrev pub validate_get : Bytes → Result (Unit {0})
validate_get key = refuse_if (empty key)

abbrev pub validate_delete : Bytes → Result (Unit {0})
validate_delete key = refuse_if (empty key)

abbrev pub validate_range : Bytes → Bytes → Result (Unit {0})
validate_range start_key end_key = refuse_if (empty start_key || empty end_key)

abbrev pub validate_batch : List Bytes → List Bytes → Result (Unit {0})
validate_batch keys values =
    refuse_if (empty keys || empty values || not (nat_beq (length keys) (length values)))

unfoldable pub validate : Operation → Result (Unit {0})
validate (put key value) = validate_put key value
validate (get key) = validate_get key
validate (delete key) = validate_delete key
validate (read_key_range start_key end_key) = validate_range start_key end_key
validate (batch_put keys values) = validate_batch keys values

-- `request_data.get("operation", "").upper()`: a name that is no string has no `upper`.
unfoldable pub operation_name : Option Json → Result Text
operation_name none = ok []
operation_name (some (string name)) = ok (upper name)
operation_name (some v) = raise attribute_error

-- On the result of `json.loads`, `none` where that raises; a value other than an object has no `get`.
unfoldable pub from_json : Option Json → Result Operation
from_json none = raise value_error
from_json (some (object request_data)) = do
  op_name ← operation_name (get_field operation_field request_data)
  operation ← parse op_name request_data
  _ ← validate operation
  ok operation
from_json (some v) = raise attribute_error

-- The results of `execute`: a text, the value of a key, or the iterator of a range, which has read
-- nothing yet when it is returned and yields its pairs or an exception.
pub data Answer : Type 0 where
  returned : Text → Answer
  value_read : Bytes → Answer

pub data Outcome : Type 0 where
  answer : Answer → Outcome
  iterator : (start_key end_key : Bytes) → Result (List (Bytes × Bytes)) → Outcome

module _ {ℓ} {S : Type ℓ} where
  abbrev pub then_return : Text → Result (Unit {0}) × S → Result Outcome × S
  then_return text (raise e, s) = (raise e, s)
  then_return text (ok done, s) = (ok (answer (returned text)), s)

  -- `execute` of each class, on an engine of the abstract class.
  module _ ⦃engine : StorageEngine S⦄ where
    abbrev pub execute_put : Bytes → Bytes → S → Result Outcome × S
    execute_put key value s = then_return returned_text (engine.put key value s)

    abbrev pub execute_get : Bytes → S → Result Outcome × S
    execute_get key s = ((do v ← engine.get key s; ok (answer (value_read v))), s)

    abbrev pub execute_delete : Bytes → S → Result Outcome × S
    execute_delete key s = then_return returned_text (engine.delete key s)

    abbrev pub execute_range : Bytes → Bytes → S → Result Outcome × S
    execute_range start_key end_key s =
        (ok (iterator start_key end_key (engine.read_key_range start_key end_key s)), s)

    abbrev pub execute_batch : List Bytes → List Bytes → S → Result Outcome × S
    execute_batch keys values s =
        then_return (batch_start ++ (decimal (length keys) ++ batch_end))
          (engine.batch_put keys values s)

    unfoldable pub execute : Operation → S → Result Outcome × S
    execute (put key value) s = execute_put key value s
    execute (get key) s = execute_get key s
    execute (delete key) s = execute_delete key s
    execute (read_key_range start_key end_key) s = execute_range start_key end_key s
    execute (batch_put keys values) s = execute_batch keys values s
