-- ===== src/Controller/Stream.antt =====
-- `_stream_response` of src/controller.py: the chunks of a streamed range.
use logvine.Prelude.{
  ℕ, suc, ◌≤◌, ◌<◌, ◌≡◌, refl, ap, leb, List, [], ◌∷◌, ◌++◌, append_assoc, append-nil, length,
  length-append, All, Bool-cases, inl, inr, arith,
}
use logvine.Prelude.Bytes.{Bytes}
use logvine.Prelude.Text.{Text}
use logvine.Prelude.Result.{Result, ok, ◌>>=◌, >>=-ok}
use logvine.Controller.{
  Reply, chunk, stream_done, decode_pair, chunk_size, last_chunk, stream_loop, stream_response,
}

abbrev pub Pairs : Type 0
Pairs = List (Text × Text)

-- The texts of all pairs.
unfoldable pub decode_pairs : List (Bytes × Bytes) → Result Pairs
decode_pairs [] = ok []
decode_pairs (pair ∷ pairs) = do
  text ← decode_pair pair
  texts ← decode_pairs pairs
  ok (text ∷ texts)

decode_pairs-cons :
    (pair : Bytes × Bytes) (pairs : List (Bytes × Bytes)) (texts : Pairs)
    → decode_pairs (pair ∷ pairs) ≡ ok texts
    → (text : Text × Text) × (rest : Pairs) × (texts ≡ text ∷ rest)
      × (decode_pair pair ≡ ok text)
      × (decode_pairs pairs ≡ ok rest)
unfolding decode_pairs
decode_pairs-cons pair pairs texts h =
    let (text, decoded, h1) = >>=-ok (decode_pair pair) _ h in
    let (rest, rest_decoded, h2) = >>=-ok (decode_pairs pairs) _ h1 in
    (text, rest, ground arith, decoded, rest_decoded)

abbrev pub joined : List Pairs → Pairs
joined [] = []
joined (c ∷ chunks) = c ++ joined chunks

module _ (start_key end_key : Bytes) where
  -- Chunk replies with consecutive numbers.
  unfoldable pub numbered : ℕ → List Pairs → List Reply
  numbered chunk_id [] = []
  numbered chunk_id (c ∷ chunks) =
      chunk start_key end_key c chunk_id ∷ numbered (suc chunk_id) chunks

  -- Replies that are chunks of the pairs `texts`, numbered from `chunk_id`, and the end of a stream.
  pub record Streams (texts : Pairs) (chunk_id : ℕ) (replies : List Reply) : Type 0 where
    pub chunks : List Pairs
    pub replies_are : replies ≡ numbered chunk_id chunks ++ stream_done start_key end_key ∷ []
    pub joined_are : joined chunks ≡ texts
    pub sizes : All (λ c. (0 < length c) × (length c ≤ chunk_size)) chunks

  last_chunk-Streams :
      (items : Pairs) (chunk_id : ℕ)
      → length items < chunk_size
      → Streams items chunk_id
          (last_chunk start_key end_key items chunk_id ++ stream_done start_key end_key ∷ [])
  unfolding last_chunk numbered
  last_chunk-Streams [] chunk_id small = record {
    chunks = [];
    replies_are = refl;
    joined_are = refl;
    sizes = tt;
  }
  last_chunk-Streams (pair ∷ pairs) chunk_id small = record {
    chunks = (pair ∷ pairs) ∷ [];
    replies_are = refl;
    joined_are = append-nil (pair ∷ pairs);
    sizes = ((omega arith, omega arith), tt);
  }

  -- A full chunk before the chunks of the rest.
  full_chunk :
      (items texts : Pairs) (chunk_id : ℕ) (replies : List Reply)
      → 0 < length items
      → length items ≤ chunk_size
      → Streams texts (suc chunk_id) replies
      → Streams (items ++ texts) chunk_id (chunk start_key end_key items chunk_id ∷ replies)
  unfolding numbered
  full_chunk items texts chunk_id replies some_items small later = record {
    chunks = items ∷ later.chunks;
    replies_are = ap (◌∷◌ (chunk start_key end_key items chunk_id)) later.replies_are;
    joined_are = ap (◌++◌ items) later.joined_are;
    sizes = ((some_items, small), later.sizes);
  }

  stream_loop-Streams :
      (pairs : List (Bytes × Bytes)) (texts items : Pairs) (chunk_id : ℕ)
      → decode_pairs pairs ≡ ok texts
      → length items < chunk_size
      → Streams (items ++ texts) chunk_id (stream_loop start_key end_key pairs items chunk_id)
  unfolding decode_pairs stream_loop
  stream_loop-Streams [] texts items chunk_id h small =
      let none_left : texts ≡ [] = ground arith in
      rw (none_left, append-nil items) (last_chunk-Streams items chunk_id small)
  stream_loop-Streams (pair ∷ pairs) texts items chunk_id h small =
      let (text, rest, texts_are, decoded, rest_decoded) = decode_pairs-cons pair pairs texts h in
      let size : length (items ++ text ∷ []) ≡ suc (length items) =
        omega (arith, length-append items (text ∷ [])) in
      rw (texts_are, stream_loop, decoded, ← append_assoc items (text ∷ []) rest)
        (elim (Bool-cases (leb chunk_size (length (items ++ text ∷ [])))) [
          | inl full ↦
              rw (stream_loop, full)
                (full_chunk (items ++ text ∷ []) rest chunk_id _ (omega arith) (omega arith)
                  (stream_loop-Streams pairs rest [] (suc chunk_id) rest_decoded (omega arith)))
          | inr room ↦
              rw (stream_loop, room)
                (stream_loop-Streams pairs rest (items ++ text ∷ []) chunk_id rest_decoded
                  (ground arith))
        ])

  -- Where all pairs of a range decode, the stream is chunks numbered from 1, each of at least one and
  -- at most 100 pairs, and then the end of the stream; the chunks joined are the pairs of the range.
  pub stream_response-chunks :
      (pairs : List (Bytes × Bytes)) (texts : Pairs)
      → decode_pairs pairs ≡ ok texts
      → (chunks : List Pairs) × (stream_response start_key end_key (ok pairs)
          ≡ numbered 1 chunks ++ stream_done start_key end_key ∷ [])
        × (joined chunks ≡ texts)
        × All (λ c. (0 < length c) × (length c ≤ chunk_size)) chunks
  unfolding stream_response
  stream_response-chunks pairs texts h =
      let r = stream_loop-Streams pairs texts [] 1 h (omega arith) in
      (r.chunks, r.replies_are, r.joined_are, r.sizes)
