-- ===== src/Wal/Record.antt =====
-- The bytes of one record of src/storage/wal.py, written and read back.
use logvine.Prelude.{
  ℕ, ◌+◌, ◌-◌, ◌≡◌, refl, sym, ◌∙◌, ap, [], ◌∷◌, ◌++◌, arith, length, take, drop, length-append,
  take-append, drop-append, append_assoc, append-nil, ap₂, slice_lem, nat_beq_iff, le→ltb_false,
}
use logvine.Prelude.Bytes.{Bytes}
use logvine.Prelude.Crc.{crc32}
use logvine.Prelude.Struct.{pack, unpack, pack_lem}
use logvine.Prelude.Result.{ok, >>=-ok}
use logvine.Wal.{
  byte, record_data, construct_record, Entry, decode, first_byte, read_record, read_payload,
  check_payload, decoded, yielded,
}

abbrev pub entry_at : ℕ → ℕ → Bytes → Bytes → Entry
entry_at offset operation key value = record {
  operation = operation;
  key = key;
  value = value;
  offset = offset;
}

-- The parts of a record that was constructed.
pub record Parts (operation : ℕ) (key value r : Bytes) : Type 0 where
  pub content : Bytes
  pub key_len : Bytes
  pub value_len : Bytes
  pub checksum : Bytes
  pub record_length : Bytes
  pub key_len_packed : pack 4 (length key) ≡ ok key_len
  pub value_len_packed : pack 4 (length value) ≡ ok value_len
  pub content_is : content ≡ operation ∷ (key_len ++ (key ++ (value_len ++ value)))
  pub checksum_packed : pack 4 (crc32 content) ≡ ok checksum
  pub length_packed : pack 4 (length (content ++ checksum)) ≡ ok record_length
  pub record_is : r ≡ record_length ++ (content ++ checksum)

byte-eq-ok : (b : ℕ) (bs : Bytes) → byte b ≡ ok bs → bs ≡ b ∷ []
unfolding byte
byte-eq-ok b bs h = ground arith

-- A record that was constructed has its parts.
pub construct_record-Parts :
    (operation : ℕ) (key value r : Bytes)
    → construct_record operation key value ≡ ok r
    → Parts operation key value r
unfolding construct_record record_data
construct_record-Parts operation key value r h =
    let (content, packed, h1) = >>=-ok (record_data operation key value) _ h in
    let (op, op_packed, h2) = >>=-ok (byte operation) _ packed in
    let (key_len, key_len_packed, h3) = >>=-ok (pack 4 (length key)) _ h2 in
    let (value_len, value_len_packed, h4) = >>=-ok (pack 4 (length value)) _ h3 in
    let (checksum, checksum_packed, h5) = >>=-ok (pack 4 (crc32 content)) _ h1 in
    let (record_length, length_packed, h6) = >>=-ok (pack 4 (length (content ++ checksum))) _ h5 in
    record {
      content = content;
      key_len = key_len;
      value_len = value_len;
      checksum = checksum;
      record_length = record_length;
      key_len_packed = key_len_packed;
      value_len_packed = value_len_packed;
      content_is = ground (arith, byte-eq-ok operation op op_packed);
      checksum_packed = checksum_packed;
      length_packed = length_packed;
      record_is = ground arith;
    }

decode_lem :
    (offset : ℕ) (content : Bytes) (operation key_len value_len : ℕ)
    → first_byte content ≡ ok operation
    → unpack 4 (take 4 (drop 1 content)) ≡ ok key_len
    → unpack 4 (take 4 (drop (5 + key_len) content)) ≡ ok value_len
    → decode offset content
      ≡ ok (
          entry_at offset operation
            (take key_len (drop 5 content))
            (take value_len (drop (5 + key_len + 4) content)))
unfolding decode
decode_lem offset content operation key_len value_len op_is key_is value_is =
    rw (op_is, key_is, value_is)

check_payload_lem :
    (offset : ℕ) (payload content : Bytes) (stored : ℕ) (entry : Entry)
    → take (length payload - 4) payload ≡ content
    → unpack 4 (drop (length payload - 4) payload) ≡ ok stored
    → crc32 content ≡ stored
    → decode offset content ≡ ok entry
    → check_payload offset payload (unpack 4 (drop (length payload - 4) payload))
      ≡ yielded entry (4 + length payload)
unfolding check_payload decoded
check_payload_lem offset payload content stored entry content_is stored_is same decoded_is =
    rw stored_is (rw (content_is, same, decoded_is) (rw ((nat_beq_iff stored stored).1 refl) refl))

pub read_record_lem :
    (offset : ℕ) (rest : Bytes) (n : ℕ) (payload : Bytes)
    → unpack 4 (take 4 rest) ≡ ok n
    → take n (drop 4 rest) ≡ payload
    → length payload ≡ n
    → read_record offset rest
      ≡ check_payload offset payload (unpack 4 (drop (length payload - 4) payload))
unfolding read_record read_payload
read_record_lem offset rest n payload n_is payload_is size =
    rw n_is (rw payload_is (rw (le→ltb_false (length payload) n (omega arith)) refl))

module _ {operation : ℕ} {key value r : Bytes} (p : Parts operation key value r) where
  open p use {
    content, key_len, value_len, checksum, record_length, key_len_packed, value_len_packed,
    content_is, checksum_packed, length_packed, record_is,
  }

  length-content : length content ≡ 9 + length key + length value
  length-content = rw content_is (
      omega (
        arith,
        pack_lem 4 (length key) key_len key_len_packed,
        pack_lem 4 (length value) value_len value_len_packed,
        length-append key_len (key ++ (value_len ++ value)),
        length-append key (value_len ++ value),
        length-append value_len value,
      ))

  key_len_slice : take 4 (drop 1 content) ≡ key_len
  key_len_slice =
      slice_lem content (operation ∷ []) key_len (key ++ (value_len ++ value)) content_is refl
        (sym (pack_lem 4 (length key) key_len key_len_packed).0)

  key_slice : take (length key) (drop 5 content) ≡ key
  key_slice =
      slice_lem content (operation ∷ key_len) key (value_len ++ value) content_is
        (omega (arith, pack_lem 4 (length key) key_len key_len_packed)) refl

  value_len_slice : take 4 (drop (5 + length key) content) ≡ value_len
  value_len_slice =
      slice_lem content (operation ∷ (key_len ++ key)) value_len value
        (rw content_is (simp append_assoc))
        (omega (arith, pack_lem 4 (length key) key_len key_len_packed, length-append key_len key))
        (sym (pack_lem 4 (length value) value_len value_len_packed).0)

  value_slice : take (length value) (drop (5 + length key + 4) content) ≡ value
  value_slice =
      slice_lem content (operation ∷ (key_len ++ (key ++ value_len))) value []
        (rw content_is (simp (append_assoc, append-nil)))
        (omega (
          arith,
          pack_lem 4 (length key) key_len key_len_packed,
          pack_lem 4 (length value) value_len value_len_packed,
          length-append key_len (key ++ value_len),
          length-append key value_len,
        ))
        refl

  -- The fields of the content are read back.
  decode_content : (offset : ℕ) → decode offset content ≡ ok (entry_at offset operation key value)
  decode_content offset =
      decode_lem offset content operation (length key) (length value)
        (rw content_is (unfold first_byte in refl))
        (rw key_len_slice (pack_lem 4 (length key) key_len key_len_packed).1)
        (rw value_len_slice (pack_lem 4 (length value) value_len value_len_packed).1)
      ∙ ap₂ (λ k v. ok (entry_at offset operation k v)) key_slice value_slice

  length-Parts : length r ≡ 17 + length key + length value
  length-Parts = rw record_is (
      omega (
        arith,
        length-content,
        pack_lem 4 (crc32 content) checksum checksum_packed,
        pack_lem 4 (length (content ++ checksum)) record_length length_packed,
        length-append record_length (content ++ checksum),
        length-append content checksum,
      ))

  checked :
      (offset : ℕ)
      → check_payload offset
          (content ++ checksum)
          (unpack 4 (drop (length (content ++ checksum) - 4) (content ++ checksum)))
        ≡ yielded (entry_at offset operation key value) (4 + length (content ++ checksum))
  checked offset =
      let packed = pack_lem 4 (crc32 content) checksum checksum_packed in
      let size : length (content ++ checksum) - 4 ≡ length content =
        omega (arith, packed, length-append content checksum) in
      check_payload_lem offset (content ++ checksum) content (crc32 content)
        (entry_at offset operation key value) (take-append content checksum size)
        (rw (drop-append content checksum size) packed.1) refl (decode_content offset)

  -- A record that stands at the head of what is left of the log is read back whole.
  read_record-Parts :
      (offset : ℕ) (rest : Bytes)
      → read_record offset (r ++ rest) ≡ yielded (entry_at offset operation key value) (length r)
  read_record-Parts offset rest =
      let packed = pack_lem 4 (length (content ++ checksum)) record_length length_packed in
      let payload_is : take (length (content ++ checksum)) (drop 4 (r ++ rest))
          ≡ content ++ checksum =
        slice_lem (r ++ rest) record_length (content ++ checksum) rest
          (rw record_is (append_assoc record_length (content ++ checksum) rest)) (sym packed.0)
          refl in
      let head_is : take 4 (r ++ rest) ≡ record_length =
        rw (record_is, append_assoc) (take-append record_length _ (sym packed.0)) in
      let size : 4 + length (content ++ checksum) ≡ length r =
        rw record_is (omega (arith, packed, length-append record_length (content ++ checksum))) in
      read_record_lem offset (r ++ rest) (length (content ++ checksum)) (content ++ checksum)
        (rw head_is packed.1) payload_is refl
      ∙ checked offset
      ∙ ap (yielded (entry_at offset operation key value)) size

-- What was constructed from an operation, a key and a value is read back as that entry, with the
-- whole of its bytes taken, whatever follows in the log.
pub read_record-construct_record :
    (operation : ℕ) (key value r : Bytes) (offset : ℕ) (rest : Bytes)
    → construct_record operation key value ≡ ok r
    → read_record offset (r ++ rest) ≡ yielded (entry_at offset operation key value) (length r)
read_record-construct_record operation key value r offset rest h =
    read_record-Parts (construct_record-Parts operation key value r h) offset rest

-- A record is 17 bytes longer than its key and its value.
pub length-construct_record :
    (operation : ℕ) (key value r : Bytes)
    → construct_record operation key value ≡ ok r
    → length r ≡ 17 + length key + length value
length-construct_record operation key value r h =
    length-Parts (construct_record-Parts operation key value r h)
