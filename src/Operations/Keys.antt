-- ===== src/Operations/Keys.antt =====
-- The keys of a request that src/operations.py parses are bytes.
use logvine.Prelude.{
  ◌≡◌, List, [], ◌∷◌, Option, none, some, All, Bool-cases, inl, inr, arith, length, nat_beq,
}
use logvine.Prelude.Bytes.{Bytes, IsBytes}
use logvine.Prelude.Text.{Text}
use logvine.Prelude.Utf8.RoundTrip.{encode-IsBytes}
use logvine.Prelude.Result.{ok, ◌>>=◌, >>=-ok}
use logvine.Json.{
  Json, null, boolean, number, other_number, string, array, object, JsonFields, get_field, iterate,
}
use logvine.Operations.{
  Operation, put, get, delete, read_key_range, batch_put, ensure_bytes, ensure_all, required,
  present, parse_put, parse_get, parse_delete, parse_range, parse_batch, parse, validate,
  operation_name, from_json,
}
use logvine.Operations.Words.{
  key_field, value_field, keys_field, values_field, start_key_field, end_key_field, operation_field,
}

-- The keys that an operation writes or reads are bytes.
abbrev pub HasByteKeys : Operation → Type 0
HasByteKeys (put key value) = IsBytes key
HasByteKeys (get key) = IsBytes key
HasByteKeys (delete key) = IsBytes key
HasByteKeys (read_key_range start_key end_key) = IsBytes start_key × IsBytes end_key
HasByteKeys (batch_put keys values) = All IsBytes keys

ensure_bytes-IsBytes : (v : Json) (bytes : Bytes) → ensure_bytes v ≡ ok bytes → IsBytes bytes
unfolding ensure_bytes
ensure_bytes-IsBytes (string text) bytes h = encode-IsBytes text bytes h
ensure_bytes-IsBytes null bytes h = absurd (ground arith)
ensure_bytes-IsBytes (boolean b) bytes h = absurd (ground arith)
ensure_bytes-IsBytes (number n) bytes h = absurd (ground arith)
ensure_bytes-IsBytes (other_number b) bytes h = absurd (ground arith)
ensure_bytes-IsBytes (array items) bytes h = absurd (ground arith)
ensure_bytes-IsBytes (object _) bytes h = absurd (ground arith)

ensure_all-IsBytes :
    (vs : List Json) (keys : List Bytes) → ensure_all vs ≡ ok keys → All IsBytes keys
unfolding ensure_all
ensure_all-IsBytes [] keys h = let none_left : keys ≡ [] = ground arith in rw none_left tt
ensure_all-IsBytes (v ∷ vs) keys h =
    let (b, made, h1) = >>=-ok (ensure_bytes v) _ h in
    let (rest, rest_made, h2) = >>=-ok (ensure_all vs) _ h1 in
    let keys_are : keys ≡ b ∷ rest = ground arith in
    rw keys_are (ensure_bytes-IsBytes v b made, ensure_all-IsBytes vs rest rest_made)

parse_put-HasByteKeys : (d : JsonFields) (op : Operation) → parse_put d ≡ ok op → HasByteKeys op
unfolding parse_put
parse_put-HasByteKeys d op h =
    let (k, k_is, h1) = >>=-ok (required (get_field key_field d)) _ h in
    let (v, v_is, h2) = >>=-ok (present (get_field value_field d)) _ h1 in
    let (key, key_is, h3) = >>=-ok (ensure_bytes k) _ h2 in
    let (value, value_is, h4) = >>=-ok (ensure_bytes v) _ h3 in
    let op_is : op ≡ put key value = ground arith in rw op_is (ensure_bytes-IsBytes k key key_is)

-- A request of one key.
key-HasByteKeys :
    (v : Option Json) (make : Bytes → Operation) (op : Operation)
    → ((key : Bytes) → IsBytes key → HasByteKeys (make key))
    → (do k ← required v; key ← ensure_bytes k; ok (make key)) ≡ ok op
    → HasByteKeys op
key-HasByteKeys v make op made h =
    let (k, k_is, h1) = >>=-ok (required v) _ h in
    let (key, key_is, h2) = >>=-ok (ensure_bytes k) _ h1 in
    let op_is : op ≡ make key = ground arith in
    rw op_is (made key (ensure_bytes-IsBytes k key key_is))

parse_range-HasByteKeys : (d : JsonFields) (op : Operation) → parse_range d ≡ ok op → HasByteKeys op
unfolding parse_range
parse_range-HasByteKeys d op h =
    let (k, k_is, h1) = >>=-ok (required (get_field start_key_field d)) _ h in
    let (v, v_is, h2) = >>=-ok (required (get_field end_key_field d)) _ h1 in
    let (start_key, start_is, h3) = >>=-ok (ensure_bytes k) _ h2 in
    let (end_key, end_is, h4) = >>=-ok (ensure_bytes v) _ h3 in
    let op_is : op ≡ read_key_range start_key end_key = ground arith in
    rw op_is (ensure_bytes-IsBytes k start_key start_is, ensure_bytes-IsBytes v end_key end_is)

batch-HasByteKeys :
    (us vs : List Json) (op : Operation)
    → (do keys ← ensure_all us; values ← ensure_all vs; ok (batch_put keys values)) ≡ ok op
    → HasByteKeys op
batch-HasByteKeys us vs op h =
    let (keys, keys_are, h1) = >>=-ok (ensure_all us) _ h in
    let (values, values_are, h2) = >>=-ok (ensure_all vs) _ h1 in
    let op_is : op ≡ batch_put keys values = ground arith in
    rw op_is (ensure_all-IsBytes us keys keys_are)

parse_batch-HasByteKeys : (d : JsonFields) (op : Operation) → parse_batch d ≡ ok op → HasByteKeys op
unfolding parse_batch
parse_batch-HasByteKeys d op h =
    let (ks, ks_is, h1) = >>=-ok (required (get_field keys_field d)) _ h in
    let (vs, vs_is, h2) = >>=-ok (required (get_field values_field d)) _ h1 in
    let (us, us_are, h3) = >>=-ok (iterate ks) _ h2 in
    let (ws, ws_are, h4) = >>=-ok (iterate vs) _ h3 in
    elim (Bool-cases (nat_beq (length us) (length ws))) [
      | inl same ↦ batch-HasByteKeys us ws op (rw same at h4)
      | inr other ↦ absurd (ground arith)
    ]

parse-HasByteKeys :
    (name : Text) (d : JsonFields) (op : Operation) → parse name d ≡ ok op → HasByteKeys op
unfolding parse parse_get parse_delete
parse-HasByteKeys name d op h = ground (
  arith,
  parse_put-HasByteKeys d op,
  key-HasByteKeys (get_field key_field d) get op (λ key is. is),
  key-HasByteKeys (get_field key_field d) delete op (λ key is. is),
  parse_range-HasByteKeys d op,
  parse_batch-HasByteKeys d op,
)

pub from_json-HasByteKeys :
    (d : Option Json) (op : Operation) → from_json d ≡ ok op → HasByteKeys op
unfolding from_json
from_json-HasByteKeys none op h = absurd (ground arith)
from_json-HasByteKeys (some (object d)) op h =
    let (name, named, h1) = >>=-ok (operation_name (get_field operation_field d)) _ h in
    let (parsed, parsed_is, h2) = >>=-ok (parse name d) _ h1 in
    let (u, validated, h3) = >>=-ok (validate parsed) _ h2 in
    let op_is : op ≡ parsed = ground arith in rw op_is (parse-HasByteKeys name d parsed parsed_is)
from_json-HasByteKeys (some null) op h = absurd (ground arith)
from_json-HasByteKeys (some (boolean b)) op h = absurd (ground arith)
from_json-HasByteKeys (some (number n)) op h = absurd (ground arith)
from_json-HasByteKeys (some (other_number b)) op h = absurd (ground arith)
from_json-HasByteKeys (some (string t)) op h = absurd (ground arith)
from_json-HasByteKeys (some (array items)) op h = absurd (ground arith)
