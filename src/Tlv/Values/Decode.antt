-- ===== src/Tlv/Values/Decode.antt =====
-- tlv.go, the decoders of typed values. DecodeTLVValue, DecodeTLVArray and DecodeTLVMap call one
-- another on parts of their input; here each call takes one unit of fuel.
use fragmenta.Base.{ℕ, zero, suc, ◌+◌, List, [], ◌∷◌, length, ◌==◌, if◌then◌else◌}
use fragmenta.Base.{Result, ok, err, ◌>>=◌, not}
use fragmenta.Base.{text_eq}
use fragmenta.Base.Bytes.{le_value}
use fragmenta.Base.Int.{to_signed}
use fragmenta.Tlv.Types
use fragmenta.Tlv.Wire.{TlvItem, decode_tlv, Fault, failed, out_of_fuel}
use fragmenta.Tlv.Wire.{invalid_type, invalid_length, missing_value, key_not_string}
use fragmenta.Tlv.Values.Encode.{Value, Items, Entries, nil, cons, end, entry, w8, w16, w32, w64}
use fragmenta.Tlv.Values.Encode.{null, int, uint, float32, float64, bool, string, bytes, array, map}

-- result[k] = v.
unfoldable pub put_entry : List ℕ → Value → Entries → Entries
put_entry k v end = entry k v end
put_entry k v (entry j w es) = if text_eq j k then entry k v es else entry j w (put_entry k v es)

-- A value of fixed size: `if len(item.Value) != n { return nil, ErrInvalidTLVLength }`.
unfoldable pub decode_fixed : ℕ → (ℕ → Value) → List ℕ → Result Fault Value
decode_fixed n make bs =
    if length bs == n then ok (make (le_value bs)) else err (failed invalid_length)

-- The cases of DecodeTLVValue that read no further items.
unfoldable pub decode_scalar : ℕ → List ℕ → Result Fault Value
decode_scalar t bs =
    if t == Types.null
    then ok null
    else if t == Types.int8
    then decode_fixed 1 (λ u. int w8 (to_signed 0x80 u)) bs
    else if t == Types.uint8
    then decode_fixed 1 (uint w8) bs
    else if t == Types.int16
    then decode_fixed 2 (λ u. int w16 (to_signed 0x8000 u)) bs
    else if t == Types.uint16
    then decode_fixed 2 (uint w16) bs
    else if t == Types.int32
    then decode_fixed 4 (λ u. int w32 (to_signed 0x8000_0000 u)) bs
    else if t == Types.uint32
    then decode_fixed 4 (uint w32) bs
    else if t == Types.int64
    then decode_fixed 8 (λ u. int w64 (to_signed 0x8000_0000_0000_0000 u)) bs
    else if t == Types.uint64
    then decode_fixed 8 (uint w64) bs
    else if t == Types.float32
    then decode_fixed 4 float32 bs
    else if t == Types.float64
    then decode_fixed 8 float64 bs
    else if t == Types.string
    then ok (string bs)
    else if t == Types.bytes
    then ok (bytes bs)
    else if t == Types.bool
    then decode_fixed 1 (λ b. bool (not (b == 0))) bs
    else err (failed invalid_type)

-- A map's key is a string, and something follows it.
unfoldable pub expect_value : TlvItem → List ℕ → Result Fault (List ℕ)
expect_value key after =
    if key.header.type == Types.string
    then (if length after == 0 then err (failed missing_value) else ok after)
    else err (failed (key_not_string key.header.type))

-- `decode_items` and `decode_entries` are the loops of DecodeTLVArray and DecodeTLVMap. Their test
-- `err == io.EOF` never holds, as DecodeTLV wraps every error of the reader.
unfoldable mutual
  pub decode_value : ℕ → ℕ → ℕ → List ℕ → Result Fault Value
  decode_value zero max_alloc t bs = err out_of_fuel
  decode_value (suc fuel) max_alloc t bs =
      let items = decode_items fuel max_alloc bs in
      let entries = decode_entries fuel max_alloc bs end in
      if t == Types.array
      then (do xs ← items; ok (array xs))
      else if t == Types.map
      then (do es ← entries; ok (map es))
      else decode_scalar t bs

  pub decode_items : ℕ → ℕ → List ℕ → Result Fault Items
  decode_items zero max_alloc src = err out_of_fuel
  decode_items (suc fuel) max_alloc [] = ok nil
  decode_items (suc fuel) max_alloc (b ∷ src) = do
    (it, rest) ← decode_tlv max_alloc (b ∷ src)
    v ← decode_value fuel max_alloc it.header.type it.value
    vs ← decode_items fuel max_alloc rest
    ok (cons v vs)

  pub decode_entries : ℕ → ℕ → List ℕ → Entries → Result Fault Entries
  decode_entries zero max_alloc src done = err out_of_fuel
  decode_entries (suc fuel) max_alloc [] done = ok done
  decode_entries (suc fuel) max_alloc (b ∷ src) done = do
    (key, after) ← decode_tlv max_alloc (b ∷ src)
    rest ← expect_value key after
    (it, rest') ← decode_tlv max_alloc rest
    v ← decode_value fuel max_alloc it.header.type it.value
    decode_entries fuel max_alloc rest' (put_entry key.value v done)

-- DecodeTLVValue, DecodeTLVArray and DecodeTLVMap. A call on `n` bytes needs `n + 2` units of fuel
-- at most; the eight more serve the proof of the round trip.
abbrev pub fuel_for : List ℕ → ℕ
fuel_for bs = length bs + 10

unfoldable pub decode_tlv_value : ℕ → TlvItem → Result Fault Value
decode_tlv_value max_alloc it = decode_value (fuel_for it.value) max_alloc it.header.type it.value

unfoldable pub decode_tlv_array : ℕ → List ℕ → Result Fault Items
decode_tlv_array max_alloc bs = decode_items (fuel_for bs) max_alloc bs

unfoldable pub decode_tlv_map : ℕ → List ℕ → Result Fault Entries
decode_tlv_map max_alloc bs = decode_entries (fuel_for bs) max_alloc bs end
