-- ===== src/Tlv/Runs.antt =====
-- Concrete runs of the encoding, and its theorems at concrete inputs.
use fragmenta.Base.{ℕ, ◌≡◌, ◌≢◌, refl, arith, List, [], ◌∷◌, ◌++◌}
use fragmenta.Base.{ok, err, false, codes}
use fragmenta.Base.Bytes.{le_bytes, le_value, split_at, read_full}
use fragmenta.Base.Int.{negsuc, to_unsigned}
use fragmenta.Tlv.Wire.{TlvItem, Fault, panicked, out_of_fuel}
use fragmenta.Tlv.Wire.{encode_tlv_header, decode_tlv_header, encode_tlv, decode_tlv, length_format}
use fragmenta.Tlv.Wire.{format_width, read_uint, decode_length}
use fragmenta.Tlv.Wire.RoundTrip.{decode_tlv-encode_tlv}
use fragmenta.Tlv.Wire.Malformed.{decode_tlv_truncated, decode_tlv_panics}
use fragmenta.Tlv.Values.{Value, Floats, IsFloats, nil, cons, end, entry, native}
use fragmenta.Tlv.Values.{null, int, array, map, encode_value}
use fragmenta.Tlv.Values.{encode_tlv_int, encode_tlv_string}
use fragmenta.Tlv.Values.{decode_tlv_value, decode_tlv_array, decode_tlv_map}
use fragmenta.Tlv.Values.Total.{decode_tlv_value_ends}
use fragmenta.Tlv.Values.RoundTrip.{decode_tlv_value-encode_value, normal}

abbrev small_item : TlvItem
small_item = record { header = record { type = 12; length = 2 }; value = 7 ∷ 8 ∷ [] }

decode_tlv-encode_tlv_example :
    decode_tlv 1000 (encode_tlv 12 (7 ∷ 8 ∷ []) ++ (9 ∷ [])) ≡ ok (small_item, 9 ∷ [])
decode_tlv-encode_tlv_example =
    decode_tlv-encode_tlv 1000 12 (7 ∷ 8 ∷ []) (9 ∷ []) (omega arith) (omega arith)

-- A medium length format for a short value, which the encoder never writes, is accepted.
padded : decode_tlv 1000 (12 ∷ 1 ∷ 2 ∷ 0 ∷ 7 ∷ 8 ∷ []) ≡ ok (small_item, [])
unfolding decode_tlv decode_tlv_header read_uint decode_length format_width read_full split_at
    le_value
padded = refl

small_split : encode_tlv 12 (7 ∷ 8 ∷ []) ≡ (12 ∷ 0 ∷ 2 ∷ 7 ∷ []) ++ (8 ∷ [])
unfolding encode_tlv encode_tlv_header length_format format_width le_bytes
small_split = refl

decode_tlv_truncated_example : (e : Fault) × (decode_tlv 1000 (12 ∷ 0 ∷ 2 ∷ 7 ∷ []) ≡ err e)
decode_tlv_truncated_example =
    decode_tlv_truncated 1000 12 8 (7 ∷ 8 ∷ []) (12 ∷ 0 ∷ 2 ∷ 7 ∷ []) [] (omega arith) (omega arith)
      small_split

decode_tlv_panics_example :
    decode_tlv 0x1_0000_0000_0000 (encode_tlv_header 12 0x1_0000_0000_0001 ++ []) ≡ err panicked
decode_tlv_panics_example =
    decode_tlv_panics 0x1_0000_0000_0000 12 0x1_0000_0000_0001 [] (omega arith) (omega arith)

decode_tlv_value_ends_example :
    (decode_tlv_value 1000 small_item ≢ err out_of_fuel)
    × (decode_tlv_array 1000 (14 ∷ 0 ∷ []) ≢ err out_of_fuel)
    × (decode_tlv_map 1000 (14 ∷ 0 ∷ []) ≢ err out_of_fuel)
decode_tlv_value_ends_example = decode_tlv_value_ends 1000 small_item (14 ∷ 0 ∷ [])

-- Float conversions for the runs: no float64 survives the way through float32.
abbrev no_narrow : Floats
no_narrow = record { narrow = λ b. 0; widen = λ b. 0; same = λ a b. false }

no_narrow-IsFloats : IsFloats no_narrow
no_narrow-IsFloats = record { narrow-lt = λ b. omega arith; widen-lt = λ b. omega arith }

-- map[string]any{"a": []any{-2, nil}}
abbrev nested : Value
nested = map (entry (codes "a") (array (cons (int native (negsuc 1)) (cons null nil))) end)

abbrev nested_bytes : List ℕ
nested_bytes = 15 ∷ 0 ∷ 14 ∷ 11 ∷ 0 ∷ 1 ∷ 97 ∷ 14 ∷ 0 ∷ 7 ∷ 1 ∷ 0 ∷ 1 ∷ 254 ∷ 0 ∷ 0 ∷ 0 ∷ []

nested_encoding : encode_value no_narrow nested out_of_fuel ≡ ok nested_bytes
unfolding encode_value encode_tlv_int encode_tlv_string encode_tlv encode_tlv_header length_format
    format_width le_bytes to_unsigned
nested_encoding = refl

decode_tlv_value-encode_value_example :
    (it : TlvItem) × (decode_tlv 1000 (nested_bytes ++ (5 ∷ [])) ≡ ok (it, 5 ∷ []))
    × (decode_tlv_value 1000 it ≡ ok (normal no_narrow nested))
decode_tlv_value-encode_value_example =
    decode_tlv_value-encode_value no_narrow 1000 nested out_of_fuel nested_bytes (5 ∷ [])
      no_narrow-IsFloats nested_encoding (tt, (omega arith, (tt, tt)), tt) (omega arith)
      (omega arith)
