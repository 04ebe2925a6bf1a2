-- ===== src/Client/Ranges.antt =====
-- A range call of src/client.py, through src/controller.py and the engine, against a dictionary.
use logvine.Prelude.{ℕ, ◌≡◌, refl, ap, ◌∙◌, none, some, List, ◌∷◌}
use logvine.Prelude.Bytes.{Bytes}
use logvine.Prelude.Text.{Text}
use logvine.Prelude.Utf8.{encode}
use logvine.Prelude.Order.{sorted}
use logvine.Prelude.Interval.{in_range}
use logvine.Prelude.Result.{Error, Result, ok}
use logvine.MemTable.{pair_lt}
use logvine.Operations.{execute}
use logvine.Controller.{Reply, answered, handled, handle_request, stream_response}
use logvine.Controller.Requests.{from_json-range}
use logvine.Controller.Stream.{Pairs, decode_pairs}
use logvine.Client
use logvine.Client.{Yielded, range_request, read_stream}
use logvine.Client.Calls.{serve, written}
use logvine.Client.Stream.{string_pairs, read_stream-stream_response}
use logvine.Engine.Lsm.{lsm_engine}
use logvine.Engine.{Engine}
use logvine.Engine.Holds.{Holds, read_key_range-sorted}
use logvine.StorageEngine.Dictionary.{Dictionary, kept}

handle_request-range :
    (c : ℕ) (cs : Text) (e : ℕ) (es : Text) (start_key end_key : Bytes) (s : Engine)
    (d : Dictionary)
    → encode (c ∷ cs) ≡ ok start_key
    → encode (e ∷ es) ≡ ok end_key
    → Holds s d
    → (handle_request (some (range_request (c ∷ cs) (e ∷ es))) s).0
      ≡ ok (
          stream_response start_key end_key
            (ok (sorted pair_lt (kept (in_range start_key end_key) d))))
unfolding handle_request handled answered execute
handle_request-range c cs e es start_key end_key s d starts ends h =
    rw
      (
        from_json-range c cs e es start_key end_key starts ends,
        read_key_range-sorted s d h start_key end_key,
      )
      refl

module _ (str : Error → Text) where
  -- A range call of a client on a healthy engine that has the contents of a dictionary ends without an
  -- exception and yields the pairs of the dictionary whose keys are in the range, in the order of
  -- their keys, where its two keys are not empty and encode, and the pairs decode.
  pub read_key_range-Holds :
      (c : ℕ) (cs : Text) (e : ℕ) (es : Text) (start_key end_key : Bytes) (s : Engine)
      (d : Dictionary) (texts : Pairs)
      → encode (c ∷ cs) ≡ ok start_key
      → encode (e ∷ es) ≡ ok end_key
      → Holds s d
      → decode_pairs (sorted pair_lt (kept (in_range start_key end_key) d)) ≡ ok texts
      → (Client.read_key_range (serve str) (c ∷ cs) (e ∷ es) s).0
        ≡ record { items = string_pairs texts; ending = none }
  unfolding Client.read_key_range
  read_key_range-Holds c cs e es start_key end_key s d texts starts ends h decoded =
      ap (λ (r : Result (List Reply)). read_stream (written str r))
        (handle_request-range c cs e es start_key end_key s d starts ends h)
      ∙ read_stream-stream_response str start_key end_key
          (sorted pair_lt (kept (in_range start_key end_key) d)) texts decoded
