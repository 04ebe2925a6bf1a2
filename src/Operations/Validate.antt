-- ===== src/Operations/Validate.antt =====
-- `parse` against `validate` of src/operations.py.
use logvine.Prelude.{
  true, false, ◌≡◌, ◌≢◌, refl, sym, ap, ◌∙◌, List, [], ◌∷◌, Option, none, some, length, nat_beq,
  nat_beq_iff, Bool-cases, inl, inr, arith,
}
use logvine.Prelude.Bytes.{Bytes, bytes_eq}
use logvine.Prelude.Text.{Text}
use logvine.Prelude.Utf8.RoundTrip.{encode-nonempty}
use logvine.Prelude.Result.{Result, ok, ◌>>=◌, >>=-ok}
use logvine.Json.{
  Json, null, boolean, number, other_number, string, array, object, JsonFields, no_items, item,
  no_fields, field, get_field, truthy, iterate,
}
use logvine.Operations.{
  Operation, put, get, delete, read_key_range, batch_put, ensure_bytes, ensure_all, required,
  present, parse_put, parse_get, parse_delete, parse_range, parse_batch, parse, validate, empty,
  refuse_if,
}
use logvine.Operations.Words.{
  key_field, value_field, keys_field, values_field, start_key_field, end_key_field,
}

-- A value that is there and not empty has bytes, where it is a string.
key_nonempty :
    (v : Option Json) (k : Json) (key : Bytes)
    → required v ≡ ok k
    → ensure_bytes k ≡ ok key
    → empty key ≡ false
unfolding required ensure_bytes truthy
key_nonempty none k key h g = absurd (ground arith)
key_nonempty (some (string [])) k key h g = absurd (ground arith)
key_nonempty (some (string (c ∷ cs))) k key h g =
    let k_is : k ≡ string (c ∷ cs) = ground arith in
    let g' : ensure_bytes (string (c ∷ cs)) ≡ ok key = ap ensure_bytes (sym k_is) ∙ g in
    let (b, bs, key_is) = encode-nonempty c cs key g' in rw key_is refl
key_nonempty (some null) k key h g = absurd (ground arith)
key_nonempty (some (boolean b)) k key h g = absurd (ground arith)
key_nonempty (some (number n)) k key h g = absurd (ground arith)
key_nonempty (some (other_number b)) k key h g = absurd (ground arith)
key_nonempty (some (array items)) k key h g = absurd (ground arith)
key_nonempty (some (object _)) k key h g = absurd (ground arith)

length-ensure_all :
    (vs : List Json) (bytes : List Bytes) → ensure_all vs ≡ ok bytes → length bytes ≡ length vs
unfolding ensure_all
length-ensure_all [] bytes h = ground arith
length-ensure_all (v ∷ vs) bytes h =
    let (b, made, h1) = >>=-ok (ensure_bytes v) _ h in
    let (rest, rest_made, h2) = >>=-ok (ensure_all vs) _ h1 in
    ground (arith, length-ensure_all vs rest rest_made)

-- A required value is the one that was looked up.
required_same : (v k : Json) → required (some v) ≡ ok k → k ≡ v
unfolding required
required_same v k h = ground arith

required_no_items :
    (v k : Json) (items : List Json)
    → required (some v) ≡ ok k
    → iterate k ≡ ok items
    → ((xs : List Json) → iterate v ≢ ok xs)
    → ⊥
required_no_items v k items h g no_items_of =
    no_items_of items (ap iterate (sym (required_same v k h)) ∙ g)

filled :
    (v k x : Json) (xs items : List Json)
    → required (some v) ≡ ok k
    → iterate k ≡ ok items
    → iterate v ≡ ok (x ∷ xs)
    → empty items ≡ false
filled v k x xs items h g some_items =
    let same : ◌≡◌ {A = Result (List Json)} (ok items) (ok (x ∷ xs)) =
      sym g ∙ ap iterate (required_same v k h) ∙ some_items in
    ground arith

items_nonempty :
    (v : Option Json) (k : Json) (items : List Json)
    → required v ≡ ok k
    → iterate k ≡ ok items
    → empty items ≡ false
unfolding required iterate truthy
items_nonempty none k items h g = ground arith
items_nonempty (some (string [])) k items h g = absurd (ground arith)
items_nonempty (some (string (c ∷ cs))) k items h g = filled (string (c ∷ cs)) k _ _ items h g refl
items_nonempty (some (array no_items)) k items h g = absurd (ground arith)
items_nonempty (some (array (item v vs))) k items h g =
    filled (array (item v vs)) k _ _ items h g refl
items_nonempty (some (object no_fields)) k items h g = absurd (ground arith)
items_nonempty (some (object (field n v vs))) k items h g =
    filled (object (field n v vs)) k _ _ items h g refl
items_nonempty (some null) k items h g = absurd (ground arith)
items_nonempty (some (boolean b)) k items h g =
    absurd (required_no_items (boolean b) k items h g (λ xs. ground arith))
items_nonempty (some (number n)) k items h g =
    absurd (required_no_items (number n) k items h g (λ xs. ground arith))
items_nonempty (some (other_number b)) k items h g =
    absurd (required_no_items (other_number b) k items h g (λ xs. ground arith))

parse_put-valid : (d : JsonFields) (op : Operation) → parse_put d ≡ ok op → validate op ≡ ok tt
unfolding parse_put validate
parse_put-valid d op h =
    let (k, k_is, h1) = >>=-ok (required (get_field key_field d)) _ h in
    let (v, v_is, h2) = >>=-ok (present (get_field value_field d)) _ h1 in
    let (key, key_is, h3) = >>=-ok (ensure_bytes k) _ h2 in
    let (value, value_is, h4) = >>=-ok (ensure_bytes v) _ h3 in
    let op_is : op ≡ put key value = ground arith in
    rw op_is (ap refuse_if (key_nonempty (get_field key_field d) k key k_is key_is))

-- A request of one key.
key-valid :
    (v : Option Json) (make : Bytes → Operation) (op : Operation)
    → ((key : Bytes) → validate (make key) ≡ refuse_if (empty key))
    → (do k ← required v; key ← ensure_bytes k; ok (make key)) ≡ ok op
    → validate op ≡ ok tt
key-valid v make op validated h =
    let (k, k_is, h1) = >>=-ok (required v) _ h in
    let (key, key_is, h2) = >>=-ok (ensure_bytes k) _ h1 in
    let op_is : op ≡ make key = ground arith in
    rw op_is (validated key ∙ ap refuse_if (key_nonempty v k key k_is key_is))

parse_range-valid : (d : JsonFields) (op : Operation) → parse_range d ≡ ok op → validate op ≡ ok tt
unfolding parse_range validate
parse_range-valid d op h =
    let (k, k_is, h1) = >>=-ok (required (get_field start_key_field d)) _ h in
    let (v, v_is, h2) = >>=-ok (required (get_field end_key_field d)) _ h1 in
    let (start_key, start_is, h3) = >>=-ok (ensure_bytes k) _ h2 in
    let (end_key, end_is, h4) = >>=-ok (ensure_bytes v) _ h3 in
    let op_is : op ≡ read_key_range start_key end_key = ground arith in
    let starts = key_nonempty (get_field start_key_field d) k start_key k_is start_is in
    let ends = key_nonempty (get_field end_key_field d) v end_key v_is end_is in
    rw op_is (rw (starts, ends) refl)

same_emptiness :
    {A B : Type 0} (xs : List A) (ys : List B) → length xs ≡ length ys → empty xs ≡ empty ys
same_emptiness [] [] h = refl
same_emptiness [] (y ∷ ys) h = absurd (omega arith)
same_emptiness (x ∷ xs) [] h = absurd (omega arith)
same_emptiness (x ∷ xs) (y ∷ ys) h = refl

batch-valid :
    (us vs : List Json) (op : Operation)
    → empty us ≡ false
    → empty vs ≡ false
    → length us ≡ length vs
    → (do keys ← ensure_all us; values ← ensure_all vs; ok (batch_put keys values)) ≡ ok op
    → validate op ≡ ok tt
unfolding validate
batch-valid us vs op hu hv same h =
    let (keys, keys_are, h1) = >>=-ok (ensure_all us) _ h in
    let (values, values_are, h2) = >>=-ok (ensure_all vs) _ h1 in
    let op_is : op ≡ batch_put keys values = ground arith in
    let ku = length-ensure_all us keys keys_are in
    let kv = length-ensure_all vs values values_are in
    let lengths : nat_beq (length keys) (length values) ≡ true =
      (nat_beq_iff (length keys) (length values)).1 (ku ∙ same ∙ sym kv) in
    rw op_is (rw (same_emptiness keys us ku ∙ hu, same_emptiness values vs kv ∙ hv, lengths) refl)

parse_batch-valid : (d : JsonFields) (op : Operation) → parse_batch d ≡ ok op → validate op ≡ ok tt
unfolding parse_batch
parse_batch-valid d op h =
    let (ks, ks_is, h1) = >>=-ok (required (get_field keys_field d)) _ h in
    let (vs, vs_is, h2) = >>=-ok (required (get_field values_field d)) _ h1 in
    let (us, us_are, h3) = >>=-ok (iterate ks) _ h2 in
    let (ws, ws_are, h4) = >>=-ok (iterate vs) _ h3 in
    elim (Bool-cases (nat_beq (length us) (length ws))) [
      | inl same ↦
          batch-valid us ws op (items_nonempty (get_field keys_field d) ks us ks_is us_are)
            (items_nonempty (get_field values_field d) vs ws vs_is ws_are)
            ((nat_beq_iff (length us) (length ws)).0 same) (rw same at h4)
      | inr other ↦ absurd (ground arith)
    ]

-- Whatever `parse` accepts, `validate` accepts: the keys of a request that is no batch are not empty,
-- and a batch has as many values as keys, at least one.
pub parse-validate :
    (name : Text) (d : JsonFields) (op : Operation) → parse name d ≡ ok op → validate op ≡ ok tt
unfolding parse parse_get parse_delete
parse-validate name d op h = ground (
  arith,
  parse_put-valid d op,
  key-valid (get_field key_field d) get op (λ key. unfold validate in refl),
  key-valid (get_field key_field d) delete op (λ key. unfold validate in refl),
  parse_range-valid d op,
  parse_batch-valid d op,
)
