-- ===== src/Client/Stream.antt =====
-- The lines that `_stream_response` of src/controller.py writes, read by `read_key_range` of
-- src/client.py.
use logvine.Prelude.{ℕ, suc, ◌≡◌, refl, ap, ◌∙◌, none, List, [], ◌∷◌, ◌++◌}
use logvine.Prelude.Bytes.{Bytes, bytes_eq, bytes_beq}
use logvine.Prelude.Text.{Text}
use logvine.Prelude.Result.{Error, ok}
use logvine.Json.{Json, string, item_list, from_list, get_field, iterate}
use logvine.Operations.Responses.{range_fields, to_stream_response, to_stream_done, pairs_json}
use logvine.Controller.{Reply, chunk, stream_done, reply_json, stream_response}
use logvine.Controller.Stream.{Pairs, decode_pairs, joined, numbered, stream_response-chunks}
use logvine.Client.{Yielded, unpack, yield_items, read_items, read_stream}

-- The lines of replies.
abbrev pub lines_of : (Error → Text) → List Reply → List Json
lines_of str [] = []
lines_of str (reply ∷ replies) = reply_json str reply ∷ lines_of str replies

abbrev pub string_pairs : Pairs → List (Json × Json)
string_pairs [] = []
string_pairs ((k, v) ∷ pairs) = (string k, string v) ∷ string_pairs pairs

abbrev pub before : List (Json × Json) → Yielded → Yielded
before items later = record { items = items ++ later.items; ending = later.ending }

items_of_list : (vs : List Json) → item_list (from_list vs) ≡ vs
items_of_list [] = refl
items_of_list (v ∷ vs) = ap (◌∷◌ v) (items_of_list vs)

yield_items-pairs :
    (pairs : Pairs) (later : Yielded)
    → yield_items (pairs_json pairs) later ≡ before (string_pairs pairs) later
unfolding yield_items unpack iterate
yield_items-pairs [] later = refl
yield_items-pairs ((k, v) ∷ pairs) later =
    ap (λ (y : Yielded). record { items = (string k, string v) ∷ y.items; ending = y.ending })
      (yield_items-pairs pairs later)

module _ (str : Error → Text) (start_key end_key : Bytes) where
  read_stream-chunk :
      (pairs : Pairs) (chunk_id : ℕ) (lines : List Json)
      → read_stream (reply_json str (chunk start_key end_key pairs chunk_id) ∷ lines)
        ≡ before (string_pairs pairs) (read_stream lines)
  unfolding read_stream reply_json to_stream_response range_fields get_field bytes_beq read_items
      iterate
  read_stream-chunk pairs chunk_id lines =
      ap (λ (vs : List Json). yield_items vs (read_stream lines)) (items_of_list (pairs_json pairs))
      ∙ yield_items-pairs pairs (read_stream lines)

  read_stream-done :
      read_stream (reply_json str (stream_done start_key end_key) ∷ [])
      ≡ record { items = []; ending = none }
  unfolding read_stream reply_json to_stream_done range_fields get_field bytes_beq
  read_stream-done = refl

  read_stream-numbered :
      (chunks : List Pairs) (chunk_id : ℕ)
      → read_stream (
          lines_of str
            (numbered start_key end_key chunk_id chunks ++ stream_done start_key end_key ∷ []))
        ≡ record { items = string_pairs (joined chunks); ending = none }
  unfolding numbered
  read_stream-numbered [] chunk_id = read_stream-done
  read_stream-numbered (pairs ∷ chunks) chunk_id =
      read_stream-chunk pairs chunk_id (
        lines_of str
          (numbered start_key end_key (suc chunk_id) chunks ++ stream_done start_key end_key ∷ []))
      ∙ ap (before (string_pairs pairs)) (read_stream-numbered chunks (suc chunk_id))
      ∙ ap (λ (items : List (Json × Json)). record { items = items; ending = none })
          (string_pairs-append pairs (joined chunks))
    where
      string_pairs-append :
          (ps qs : Pairs) → string_pairs ps ++ string_pairs qs ≡ string_pairs (ps ++ qs)
      string_pairs-append [] qs = refl
      string_pairs-append ((k, v) ∷ ps) qs =
          ap (◌∷◌ (string k, string v)) (string_pairs-append ps qs)

  -- The client reads what the controller streams: where all pairs of a range decode, it yields their
  -- texts, each pair once and in order, whatever chunks they came in, and then ends with no exception.
  pub read_stream-stream_response :
      (pairs : List (Bytes × Bytes)) (decoded : Pairs)
      → decode_pairs pairs ≡ ok decoded
      → read_stream (lines_of str (stream_response start_key end_key (ok pairs)))
        ≡ record { items = string_pairs decoded; ending = none }
  read_stream-stream_response pairs decoded h =
      let (chunks, replies_are, joined_are, sizes) =
        stream_response-chunks start_key end_key pairs decoded h in
      ap (λ (rs : List Reply). read_stream (lines_of str rs)) replies_are
      ∙ read_stream-numbered chunks 1
      ∙ ap (λ (ps : Pairs). record { items = string_pairs ps; ending = none }) joined_are
