-- ===== src/Controller/Requests.antt =====
-- Requests one after the other through `handle_request` of src/controller.py.
use logvine.Prelude.{ℕ, ◌≡◌, refl, ap, ◌∙◌, false, some, List, [], ◌∷◌, ◌==◌, ==_refl}
use logvine.Prelude.Bytes.{Bytes, bytes_eq, bytes_beq}
use logvine.Prelude.Text.{Text}
use logvine.Prelude.Utf8.{encode, decode_replace}
use logvine.Prelude.Utf8.RoundTrip.{decode-encode, encode-nonempty, decode_replace-decode}
use logvine.Prelude.Result.{Result, ok}
use logvine.MemTable.{tombstone}
use logvine.Json.{get_field, truthy}
use logvine.Operations.{
  put, get, read_key_range, parse_range, returned, value_read, ensure_bytes, required, present,
  parse_put, parse_get, parse, validate, operation_name, upper, from_json, execute, then_return,
}
use logvine.Operations.Words.{returned_text}
use logvine.Operations.Responses.{to_response, respond, outcome_fields}
use logvine.Client.{put_request, get_request, range_request}
use logvine.Controller.{Reply, response, answered, handled, handle_request}
use logvine.Engine
use logvine.Engine.Lsm.{lsm_engine}
use logvine.Engine.{Engine, found}
use logvine.Engine.Reads.{get-put_engine}

pair_eq : (r : Result (Unit {0}) × Engine) → r.0 ≡ ok tt → r ≡ (ok tt, r.1)
pair_eq (a, s) h = ap (λ (x : Result (Unit {0})). (x, s)) h

-- The response with the value of a key is the one with the text that the value decodes to.
answer_same :
    (key value : Bytes) (text : Text)
    → decode_replace value ≡ text
    → ◌≡◌ {A = Result (List Reply)}
        (ok (response (to_response (get key) (value_read value)) ∷ []))
        (ok (response (to_response (get key) (returned text)) ∷ []))
unfolding respond outcome_fields
answer_same key value text decoded = rw decoded refl

module _ (c : ℕ) (cs : Text) (key : Bytes) (key_encoded : encode (c ∷ cs) ≡ ok key) where
  from_json-get : from_json (some (get_request (c ∷ cs))) ≡ ok (get key)
  unfolding from_json operation_name upper get_field parse parse_get required truthy ensure_bytes
      validate bytes_beq
  from_json-get =
      let (b, bs, key_is) = encode-nonempty c cs key key_encoded in rw key_encoded (rw key_is refl)

  from_json-put :
      (text : Text) (value : Bytes)
      → encode text ≡ ok value
      → from_json (some (put_request (c ∷ cs) text)) ≡ ok (put key value)
  unfolding from_json operation_name upper get_field parse parse_put required present truthy
      ensure_bytes validate bytes_beq
  from_json-put text value value_encoded =
      let (b, bs, key_is) = encode-nonempty c cs key key_encoded in
      rw (key_encoded, value_encoded) (rw key_is refl)

  handle_request-put :
      (text : Text) (value : Bytes) (s : Engine)
      → encode text ≡ ok value
      → (Engine.put key value s).0 ≡ ok tt
      → handle_request (some (put_request (c ∷ cs) text)) s ≡ (
        ok (response (to_response (put key value) (returned returned_text)) ∷ []),
        (Engine.put key value s).1,
      )
  unfolding handle_request handled answered execute
  handle_request-put text value s value_encoded taken =
      rw (from_json-put text value value_encoded) (
        ap
          (λ (r : Result (Unit {0}) × Engine).
            answered (put key value) (then_return returned_text r))
          (pair_eq (Engine.put key value s) taken))

  handle_request-get :
      (value : Bytes) (s : Engine)
      → Engine.get key s ≡ ok value
      → (handle_request (some (get_request (c ∷ cs))) s).0
        ≡ ok (response (to_response (get key) (value_read value)) ∷ [])
  unfolding handle_request handled answered execute
  handle_request-get value s read = rw (from_json-get, read) refl

  -- A put request whose key is not empty, whose key and value encode, and which the engine takes, is
  -- answered "OK"; a get request of the same key, sent next, is answered with the text that was put,
  -- where that is not the tombstone's.
  pub get-put_requests :
      (text : Text) (value : Bytes) (s : Engine)
      → encode text ≡ ok value
      → (value == tombstone) ≡ false
      → (Engine.put key value s).0 ≡ ok tt
      → let after : Result (List Reply) × Engine =
          handle_request (some (put_request (c ∷ cs) text)) s in
        (after.0 ≡ ok (response (to_response (put key value) (returned returned_text)) ∷ []))
        × ((handle_request (some (get_request (c ∷ cs))) after.1).0
            ≡ ok (response (to_response (get key) (returned text)) ∷ []))
  unfolding found
  get-put_requests text value s value_encoded no_tombstone taken =
      let stored = handle_request-put text value s value_encoded taken in
      let read : Engine.get key (Engine.put key value s).1 ≡ ok value =
        get-put_engine key key value s taken ∙ rw (==_refl key, no_tombstone) refl in
      let decoded = decode_replace-decode value text (decode-encode text value value_encoded) in
      (
        ap (λ (r : Result (List Reply) × Engine). r.0) stored,
        rw stored (
            handle_request-get value (Engine.put key value s).1 read
            ∙ answer_same key value text decoded),
      )

-- The operation of a range request.
pub from_json-range :
    (c : ℕ) (cs : Text) (e : ℕ) (es : Text) (start_key end_key : Bytes)
    → encode (c ∷ cs) ≡ ok start_key
    → encode (e ∷ es) ≡ ok end_key
    → from_json (some (range_request (c ∷ cs) (e ∷ es))) ≡ ok (read_key_range start_key end_key)
unfolding from_json operation_name upper get_field parse parse_range required truthy ensure_bytes
    validate bytes_beq
from_json-range c cs e es start_key end_key starts ends =
    let (b, bs, start_is) = encode-nonempty c cs start_key starts in
    let (f, fs, end_is) = encode-nonempty e es end_key ends in
    rw (starts, ends) (rw (start_is, end_is) refl)
