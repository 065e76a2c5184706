-- ===== src/Tlv/Wire.antt =====
-- tlv.go, the wire format of one item: the header (type, length format, length in 1, 2, 4 or 8
-- bytes, little-endian) and the item with its value. A reader is the list of the bytes that are
-- left to read. Writing to a bytes.Buffer does not fail, so the encoders have no error result.
pub mod RoundTrip
pub mod Malformed
use fragmenta.Base.{ℕ, List, [], ◌∷◌, ◌++◌, length, bit_and, leb, ltb, ◌==◌, if◌then◌else◌}
use fragmenta.Base.{Result, ok, err, ◌>>=◌, map_err}
use fragmenta.Base.Bytes.{le_bytes, le_value, ReadError, read_full}
use fragmenta.Tlv.Types

-- What the decoders return as an error: the step that failed, with the reader's error.
pub data TlvError : Type 0 where
  reading_type reading_format reading_length reading_value : ReadError → TlvError
  invalid_length invalid_type unsupported_element unsupported_value missing_value : TlvError
  key_not_string : ℕ → TlvError

-- A decoder fails with an error, or it panics in `make`. `out_of_fuel` is no outcome of the program.
pub data Fault : Type 0 where
  failed : TlvError → Fault
  panicked out_of_fuel : Fault

pub record TlvHeader : Type 0 where
  pub type : ℕ
  pub length : ℕ

pub record TlvItem : Type 0 where
  pub header : TlvHeader
  pub value : List ℕ

unfoldable pub length_format : ℕ → ℕ
length_format n =
    if leb n Types.max_short_len
    then Types.len_short
    else if leb n Types.max_medium_len
    then Types.len_medium
    else if leb n Types.max_long_len
    then Types.len_long
    else Types.len_very_long

-- The switch on `lenFormat`: how many bytes hold the length.
unfoldable pub format_width : ℕ → ℕ
format_width f =
    if f == Types.len_short
    then 1
    else if f == Types.len_medium
    then 2
    else if f == Types.len_long
    then 4
    else 8

-- EncodeTLVHeader.
unfoldable pub encode_tlv_header : ℕ → ℕ → List ℕ
encode_tlv_header t n =
    let format = length_format n in t ∷ format ∷ le_bytes (format_width format) n

unfoldable pub read_uint : ℕ → (ReadError → TlvError) → List ℕ → Result Fault (ℕ × List ℕ)
read_uint k site src = do
  (bs, rest) ← map_err (λ e. failed (site e)) (read_full k src)
  ok (le_value bs, rest)

-- The length, or ErrInvalidTLVLength for a format of no meaning.
unfoldable pub decode_length : ℕ → List ℕ → Result Fault (ℕ × List ℕ)
decode_length f src =
    if leb f Types.len_very_long
    then read_uint (format_width f) reading_length src
    else err (failed invalid_length)

-- DecodeTLVHeader. The format is the low three bits of the second byte.
unfoldable pub decode_tlv_header : List ℕ → Result Fault (TlvHeader × List ℕ)
decode_tlv_header src = do
  (t, after_type) ← read_uint 1 reading_type src
  (f, after_format) ← read_uint 1 reading_format after_type
  (n, rest) ← decode_length (bit_and f Types.len_mask) after_format
  ok (record { type = t; length = n }, rest)

-- EncodeTLV.
unfoldable pub encode_tlv : ℕ → List ℕ → List ℕ
encode_tlv t value = encode_tlv_header t (length value) ++ value

-- DecodeTLV. `max_alloc` is the largest `n` for which `make([]byte, n)` does not panic.
unfoldable pub decode_tlv : ℕ → List ℕ → Result Fault (TlvItem × List ℕ)
decode_tlv max_alloc src = do
  (header, after) ← decode_tlv_header src
  if ltb max_alloc header.length then err panicked else do
    (value, rest) ← map_err (λ e. failed (reading_value e)) (read_full header.length after)
    ok (record { header = header; value = value }, rest)
