-- ===== src/Operations/Parse.antt =====
-- `parse`, `validate` and `from_json` of src/operations.py: the kinds of their exceptions.
use logvine.Prelude.{ℕ, ◌≢◌, List, [], ◌∷◌, Option, none, some, arith}
use logvine.Prelude.Bytes.{Bytes, bytes_eq}
use logvine.Prelude.Text.{Text}
use logvine.Prelude.Utf8.{encode, encode_char}
use logvine.Prelude.Result.{Result, ok, raise, ◌>>=◌, key_error}
use logvine.Json.{
  Json, null, boolean, number, other_number, string, array, object, JsonFields, get_field, iterate,
}
use logvine.Operations.{
  Operation, put, get, delete, read_key_range, batch_put, ensure_bytes, ensure_all, required,
  present, parse_put, parse_get, parse_delete, parse_range, parse_batch, parse, validate,
  operation_name, from_json,
}
use logvine.Operations.Words.{key_field}

-- A result that is not a KeyError.
abbrev pub NoKeyError {ℓ} : {A : Type ℓ} → Result A → Type ℓ
NoKeyError r = r ≢ raise key_error

bind-NoKeyError {ℓ κ} :
    {A : Type ℓ} {B : Type κ} (first : Result A) (next : A → Result B)
    → NoKeyError first
    → ((a : A) → NoKeyError (next a))
    → NoKeyError (first >>= next)
bind-NoKeyError (ok a) next h g = g a
bind-NoKeyError (raise e) next h g = λ q. h (ground arith)

encode_char-NoKeyError : (c : ℕ) → NoKeyError (encode_char c)
unfolding encode_char
encode_char-NoKeyError c = ground arith

encode-NoKeyError : (text : Text) → NoKeyError (encode text)
unfolding encode
encode-NoKeyError [] = ground arith
encode-NoKeyError (c ∷ cs) =
    bind-NoKeyError (encode_char c) _ (encode_char-NoKeyError c)
      (λ b. bind-NoKeyError (encode cs) _ (encode-NoKeyError cs) (λ rest. ground arith))

ensure_bytes-NoKeyError : (v : Json) → NoKeyError (ensure_bytes v)
unfolding ensure_bytes
ensure_bytes-NoKeyError null = ground arith
ensure_bytes-NoKeyError (boolean b) = ground arith
ensure_bytes-NoKeyError (number n) = ground arith
ensure_bytes-NoKeyError (other_number b) = ground arith
ensure_bytes-NoKeyError (string text) = encode-NoKeyError text
ensure_bytes-NoKeyError (array items) = ground arith
ensure_bytes-NoKeyError (object _) = ground arith

ensure_all-NoKeyError : (vs : List Json) → NoKeyError (ensure_all vs)
unfolding ensure_all
ensure_all-NoKeyError [] = ground arith
ensure_all-NoKeyError (v ∷ vs) =
    bind-NoKeyError (ensure_bytes v) _ (ensure_bytes-NoKeyError v)
      (λ b. bind-NoKeyError (ensure_all vs) _ (ensure_all-NoKeyError vs) (λ rest. ground arith))

required-NoKeyError : (v : Option Json) → NoKeyError (required v)
unfolding required
required-NoKeyError none = ground arith
required-NoKeyError (some v) = ground arith

present-NoKeyError : (v : Option Json) → NoKeyError (present v)
unfolding present
present-NoKeyError none = ground arith
present-NoKeyError (some v) = ground arith

iterate-NoKeyError : (v : Json) → NoKeyError (iterate v)
unfolding iterate
iterate-NoKeyError v = ground arith

-- One key: what `parse_get` and `parse_delete` read.
key-NoKeyError :
    (v : Option Json) (make : Bytes → Operation)
    → NoKeyError (do k ← required v; key ← ensure_bytes k; ok (make key))
key-NoKeyError v make =
    bind-NoKeyError (required v) _ (required-NoKeyError v)
      (λ k. bind-NoKeyError (ensure_bytes k) _ (ensure_bytes-NoKeyError k) (λ key. ground arith))

-- Two values that are read one after the other.
both-NoKeyError :
    (u v : Json) (make : Bytes → Bytes → Operation)
    → NoKeyError (do a ← ensure_bytes u; b ← ensure_bytes v; ok (make a b))
both-NoKeyError u v make =
    bind-NoKeyError (ensure_bytes u) _ (ensure_bytes-NoKeyError u)
      (λ a. bind-NoKeyError (ensure_bytes v) _ (ensure_bytes-NoKeyError v) (λ b. ground arith))

batch-NoKeyError :
    (us vs : List Json)
    → NoKeyError (do keys ← ensure_all us; values ← ensure_all vs; ok (batch_put keys values))
batch-NoKeyError us vs =
    bind-NoKeyError (ensure_all us) _ (ensure_all-NoKeyError us) (λ keys.
      bind-NoKeyError (ensure_all vs) _ (ensure_all-NoKeyError vs) (λ values. ground arith))

parse_batch-NoKeyError : (d : JsonFields) → NoKeyError (parse_batch d)
unfolding parse_batch
parse_batch-NoKeyError d = bind-NoKeyError (required _) _ (required-NoKeyError _) (λ ks.
    bind-NoKeyError (required _) _ (required-NoKeyError _) (λ vs.
      bind-NoKeyError (iterate ks) _ (iterate-NoKeyError ks) (λ us.
        bind-NoKeyError (iterate vs) _ (iterate-NoKeyError vs)
          (λ ws. ground (arith, batch-NoKeyError us ws)))))

parse_put-NoKeyError : (d : JsonFields) → NoKeyError (parse_put d)
unfolding parse_put
parse_put-NoKeyError d =
    bind-NoKeyError (required _) _ (required-NoKeyError _)
      (λ k. bind-NoKeyError (present _) _ (present-NoKeyError _) (λ v. both-NoKeyError k v put))

parse_range-NoKeyError : (d : JsonFields) → NoKeyError (parse_range d)
unfolding parse_range
parse_range-NoKeyError d = bind-NoKeyError (required _) _ (required-NoKeyError _) (λ k.
    bind-NoKeyError (required _) _ (required-NoKeyError _)
      (λ v. both-NoKeyError k v read_key_range))

pub parse-NoKeyError : (name : Text) (d : JsonFields) → NoKeyError (parse name d)
unfolding parse parse_get parse_delete
parse-NoKeyError name d = ground (
  arith,
  parse_put-NoKeyError d,
  key-NoKeyError (get_field key_field d) get,
  key-NoKeyError (get_field key_field d) delete,
  parse_range-NoKeyError d,
  parse_batch-NoKeyError d,
)

validate-NoKeyError : (operation : Operation) → NoKeyError (validate operation)
unfolding validate
validate-NoKeyError operation = ground arith

operation_name-NoKeyError : (v : Option Json) → NoKeyError (operation_name v)
unfolding operation_name
operation_name-NoKeyError none = ground arith
operation_name-NoKeyError (some v) = ground arith

pub from_json-NoKeyError : (d : Option Json) → NoKeyError (from_json d)
unfolding from_json
from_json-NoKeyError none = ground arith
from_json-NoKeyError (some (object d)) =
    bind-NoKeyError (operation_name _) _ (operation_name-NoKeyError _) (λ name.
      bind-NoKeyError (parse name d) _ (parse-NoKeyError name d) (λ operation.
        bind-NoKeyError (validate operation) _ (validate-NoKeyError operation) (λ u. ground arith)))
from_json-NoKeyError (some v) = ground arith
