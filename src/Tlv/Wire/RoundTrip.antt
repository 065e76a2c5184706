-- ===== src/Tlv/Wire/RoundTrip.antt =====
-- The decoders of the wire format read back what the encoders wrote.
use fragmenta.Base.{ℕ, ◌+◌, ◌*◌, ◌≤◌, ◌<◌, ◌^◌, ◌≡◌, refl, ap, arith, List, ◌∷◌, ◌++◌, length}
use fragmenta.Base.{Bool-cases, inl, inr, leb, ltb, ok, true, false, bit_and, leb→le}
use fragmenta.Tlv.Types
use fragmenta.Base.Bytes.{le_bytes, le_value, read_full, read_full-append, split_at}
use fragmenta.Base.Bytes.{length-le_bytes, le_value-le_bytes}
use fragmenta.Tlv.Wire.{length_format, format_width, encode_tlv_header, read_uint, decode_length}
use fragmenta.Tlv.Wire.{decode_tlv_header, encode_tlv, decode_tlv}
use fragmenta.Tlv.Wire.{reading_length}
use mathlib.Core.List.{append_assoc}

pub read_uint-le_bytes :
    (k v : ℕ) (rest : List ℕ) (site : _)
    → v < 256 ^ k
    → read_uint k site (le_bytes k v ++ rest) ≡ ok (v, rest)
unfolding read_uint
read_uint-le_bytes k v rest site h =
    rw (read_full-append (le_bytes k v) rest k (length-le_bytes k v))
      (ap (λ (x : ℕ). ok (x, rest)) (le_value-le_bytes k v h))

-- One lemma for the four widths: the format is read as written, and its width holds the length.
length_format_cases :
    (n : ℕ)
    → n < 2 ^ 64
    → (bit_and (length_format n) Types.len_mask ≡ length_format n)
      × (leb (length_format n) Types.len_very_long ≡ true)
      × (length_format n < 256)
      × (n < 256 ^ format_width (length_format n))
      × (format_width (length_format n) ≤ 8)
unfolding length_format format_width
length_format_cases n h = elim (Bool-cases (leb n Types.max_short_len)) [
  | inl a ↦ rw a (refl, refl, omega arith, omega (arith, leb→le _ _ a), omega arith)
  | inr a ↦ elim (Bool-cases (leb n Types.max_medium_len)) [
    | inl b ↦ rw (a, b) (refl, refl, omega arith, omega (arith, leb→le _ _ b), omega arith)
    | inr b ↦ elim (Bool-cases (leb n Types.max_long_len)) [
      | inl c ↦ rw (a, b, c) (refl, refl, omega arith, omega (arith, leb→le _ _ c), omega arith)
      | inr c ↦ rw (a, b, c) (refl, refl, omega arith, h, omega arith)
    ]
  ]
]

decode_length-le_bytes :
    (n : ℕ) (rest : List ℕ)
    → n < 2 ^ 64
    → decode_length (length_format n) (le_bytes (format_width (length_format n)) n ++ rest)
      ≡ ok (n, rest)
unfolding decode_length
decode_length-le_bytes n rest h =
    let (_, known, _, fits, _) = length_format_cases n h in
    rw (decode_length, known) (read_uint-le_bytes _ n rest reading_length fits)

pub read_byte : (b : ℕ) (rest : List ℕ) (site : _) → read_uint 1 site (b ∷ rest) ≡ ok (b, rest)
unfolding read_uint read_full split_at le_value
read_byte b rest site = ap (λ (x : ℕ). ok (x, rest)) (let e : b + 256 * 0 ≡ b = omega arith in e)

-- DecodeTLVHeader reads back the type and the length that EncodeTLVHeader wrote, for every length
-- of 64 bits, and leaves what follows the header.
pub decode_tlv_header-encode_tlv_header :
    (t n : ℕ) (rest : List ℕ)
    → n < 2 ^ 64
    → decode_tlv_header (encode_tlv_header t n ++ rest) ≡ ok (record { type = t; length = n }, rest)
unfolding decode_tlv_header encode_tlv_header
decode_tlv_header-encode_tlv_header t n rest h =
    let (mask, _, _, _, _) = length_format_cases n h in
    rw (read_byte, read_byte, mask, decode_length-le_bytes n rest h)

pub format_width-pos : (f : ℕ) → 1 ≤ format_width f
unfolding format_width
format_width-pos f = ground arith

pub length-encode_tlv_header :
    (t n : ℕ)
    → n < 2 ^ 64
    → (3 ≤ length (encode_tlv_header t n)) × (length (encode_tlv_header t n) ≤ 10)
unfolding encode_tlv_header
length-encode_tlv_header t n h = ground (
  arith,
  length_format_cases n h,
  format_width-pos (length_format n),
  length-le_bytes (format_width (length_format n)) n,
)

-- DecodeTLV reads back the item that EncodeTLV wrote, and leaves what follows it, where the value's
-- length fits 64 bits and can be allocated.
pub decode_tlv-encode_tlv :
    (max_alloc t : ℕ) (value rest : List ℕ)
    → length value < 2 ^ 64
    → length value ≤ max_alloc
    → decode_tlv max_alloc (encode_tlv t value ++ rest)
      ≡ ok (record { header = record { type = t; length = length value }; value = value }, rest)
unfolding decode_tlv encode_tlv
decode_tlv-encode_tlv max_alloc t value rest h fits =
    rw (append_assoc (encode_tlv_header t (length value)) value rest) (
      rw
        (
          decode_tlv_header-encode_tlv_header t (length value) (value ++ rest) h,
          not_above,
          read_full-append value rest (length value) refl,
        )
        refl)
  where
    not_above : ltb max_alloc (length value) ≡ false
    not_above = ground arith
