-- ===== src/Wal/Fits.antt =====
-- When `construct_record` of src/storage/wal.py succeeds.
use logvine.Prelude.{
  ℕ, ◌+◌, ◌≤◌, ◌<◌, ◌^◌, ◌≡◌, ◌↔◌, ◌∙◌, sym, refl, ◌++◌, ◌∷◌, arith, length, length-append, lt→ltb,
}
use native.Mathlib.Decide.{dec_lt}
use logvine.Prelude.Bytes.{Bytes}
use logvine.Prelude.Crc.{crc32, crc32-lt}
use logvine.Prelude.Struct.{pack_lem, pack_total, pack_too_large, be_bytes}
use logvine.Prelude.Result.{Result, ok, raise, struct_error}
use logvine.Wal.{byte, record_data, construct_record}

-- The content of a record whose lengths fit in 32 bits.
content_total :
    (operation : ℕ) (key value : Bytes)
    → operation < 256
    → length key < 256 ^ 4
    → length value < 256 ^ 4
    → (content : Bytes) × (record_data operation key value ≡ ok content)
      × (length content ≡ 9 + length key + length value)
unfolding record_data byte
content_total operation key value hop hk hv =
    let kp = pack_lem 4 (length key) (be_bytes 4 (length key)) (pack_total 4 (length key) hk) in
    let vp =
      pack_lem 4 (length value) (be_bytes 4 (length value)) (pack_total 4 (length value) hv) in
    (
      operation ∷ (be_bytes 4 (length key) ++ (key ++ (be_bytes 4 (length value) ++ value))),
      rw (lt→ltb operation 256 hop, pack_total 4 (length key) hk, pack_total 4 (length value) hv)
          refl,
      omega (
        arith,
        kp,
        vp,
        length-append (be_bytes 4 (length key)) (key ++ (be_bytes 4 (length value) ++ value)),
        length-append key (be_bytes 4 (length value) ++ value),
        length-append (be_bytes 4 (length value)) value,
      ),
    )

content_key_too_large :
    (operation : ℕ) (key value : Bytes)
    → operation < 256
    → 256 ^ 4 ≤ length key
    → record_data operation key value ≡ raise struct_error
unfolding record_data byte
content_key_too_large operation key value hop big =
    rw (lt→ltb operation 256 hop, pack_too_large 4 (length key) big) refl

content_value_too_large :
    (operation : ℕ) (key value : Bytes)
    → operation < 256
    → length key < 256 ^ 4
    → 256 ^ 4 ≤ length value
    → record_data operation key value ≡ raise struct_error
unfolding record_data byte
content_value_too_large operation key value hop fits big =
    rw
      (
        lt→ltb operation 256 hop,
        pack_total 4 (length key) fits,
        pack_too_large 4 (length value) big,
      )
      refl

-- A record is built whenever its operation is a byte and its key and value leave room for the rest
-- of the frame in 32 bits.
pub construct_record_total :
    (operation : ℕ) (key value : Bytes)
    → operation < 256
    → 13 + length key + length value < 256 ^ 4
    → (r : Bytes) × (construct_record operation key value ≡ ok r)
unfolding construct_record
construct_record_total operation key value hop fits =
    let (content, made, size) = content_total operation key value hop (omega arith) (omega arith) in
    let checksum = be_bytes 4 (crc32 content) in
    let packed = pack_total 4 (crc32 content) (crc32-lt content) in
    let n : length (content ++ checksum) < 256 ^ 4 =
      omega
        (arith, size, length-append content checksum, pack_lem 4 (crc32 content) checksum packed) in
    (
      be_bytes 4 (length (content ++ checksum)) ++ (content ++ checksum),
      rw (made, packed, pack_total 4 (length (content ++ checksum)) n) refl,
    )

-- A key and a value that leave no such room are refused with struct.error.
pub construct_record_too_large :
    (operation : ℕ) (key value : Bytes)
    → operation < 256
    → 256 ^ 4 ≤ 13 + length key + length value
    → construct_record operation key value ≡ raise struct_error
unfolding construct_record
construct_record_too_large operation key value hop big = elim (dec_lt (length key) (256 ^ 4)) [
  | no k ↦ rw (content_key_too_large operation key value hop (omega arith)) refl
  | yes k ↦ elim (dec_lt (length value) (256 ^ 4)) [
    | no v ↦ rw (content_value_too_large operation key value hop k (omega arith)) refl
    | yes v ↦
        let (content, made, size) = content_total operation key value hop k v in
        let checksum = be_bytes 4 (crc32 content) in
        let packed = pack_total 4 (crc32 content) (crc32-lt content) in
        let n : 256 ^ 4 ≤ length (content ++ checksum) = omega (
          arith,
          size,
          length-append content checksum,
          pack_lem 4 (crc32 content) checksum packed,
        ) in
        rw (made, packed, pack_too_large 4 (length (content ++ checksum)) n) refl
  ]
]

-- With an operation that is a byte, a record can be built exactly when its frame, 13 bytes and the
-- key and the value, has a length below 2 ^ 32.
pub construct_record_fits :
    (operation : ℕ) (key value : Bytes)
    → operation < 256
    → ((r : Bytes) × (construct_record operation key value ≡ ok r))
      ↔ (13 + length key + length value < 2 ^ 32)
construct_record_fits operation key value hop = (
  λ built. elim (dec_lt (13 + length key + length value) (256 ^ 4)) [
    | yes fits ↦ fits
    | no big ↦ absurd (
        raised_no_record built.0
          (sym (construct_record_too_large operation key value hop (omega arith)) ∙ built.1))
  ],
  λ fits. construct_record_total operation key value hop fits,
)
  where
    raised_no_record : (r : Bytes) → ◌≡◌ {A = Result Bytes} (raise struct_error) (ok r) → ⊥
    raised_no_record r h = ground arith
