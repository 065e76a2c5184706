-- ===== src/Tlv/Values/Encode.antt =====
-- tlv.go, the encoders of typed values. A Go value in an interface{} is a `Value`; a float is its
-- IEEE bit pattern, and the conversions between the two float types are parameters.
use fragmenta.Base.{ℕ, ◌<◌, ◌^◌, List, [], ◌∷◌, ◌++◌, leb, Bool, if◌then◌else◌}
use fragmenta.Base.{Result, ok, err, ◌>>=◌}
use fragmenta.Base.Bytes.{le_bytes}
use fragmenta.Base.Int.{ℤ, within, to_unsigned}
use fragmenta.Tlv.Types
use fragmenta.Tlv.Wire.{encode_tlv, Fault, failed, unsupported_element, unsupported_value}

-- The size of a Go integer type; `native` is that of `int` and `uint`, which have 64 bits.
pub data Width : Type 0 where
  native w8 w16 w32 w64 : Width

mutual
  -- `other` is a dynamic type that the encoders do not know.
  pub data Value : Type 0 where
    null other : Value
    int : Width → ℤ → Value
    uint : Width → ℕ → Value
    float32 float64 : ℕ → Value
    bool : Bool → Value
    string bytes : List ℕ → Value
    array : Items → Value
    map : Entries → Value

  pub data Items : Type 0 where
    nil : Items
    cons : Value → Items → Items

  -- A map in the order in which `range` visits it.
  pub data Entries : Type 0 where
    end : Entries
    entry : List ℕ → Value → Entries → Entries

-- The conversions float32(x) and float64(x), and `==` on float64, on bit patterns.
pub record Floats : Type 0 where
  pub narrow : ℕ → ℕ
  pub widen : ℕ → ℕ
  pub same : ℕ → ℕ → Bool

-- A conversion yields a value of its type.
pub record IsFloats (fl : Floats) : Type 0 where
  pub narrow-lt : (b : ℕ) → fl.narrow b < 2 ^ 32
  pub widen-lt : (b : ℕ) → fl.widen b < 2 ^ 64

-- EncodeTLVInt: the smallest signed type that holds the int64.
unfoldable pub encode_tlv_int : ℤ → List ℕ
encode_tlv_int v =
    if within 0x80 v
    then encode_tlv Types.int8 (le_bytes 1 (to_unsigned 0x100 v))
    else if within 0x8000 v
    then encode_tlv Types.int16 (le_bytes 2 (to_unsigned 0x1_0000 v))
    else if within 0x8000_0000 v
    then encode_tlv Types.int32 (le_bytes 4 (to_unsigned 0x1_0000_0000 v))
    else encode_tlv Types.int64 (le_bytes 8 (to_unsigned 0x1_0000_0000_0000_0000 v))

-- EncodeTLVUint.
unfoldable pub encode_tlv_uint : ℕ → List ℕ
encode_tlv_uint v =
    if leb v 255
    then encode_tlv Types.uint8 (le_bytes 1 v)
    else if leb v 65535
    then encode_tlv Types.uint16 (le_bytes 2 v)
    else if leb v 4294967295
    then encode_tlv Types.uint32 (le_bytes 4 v)
    else encode_tlv Types.uint64 (le_bytes 8 v)

-- EncodeTLVFloat: four bytes if the float64 survives the conversion to float32 and back.
unfoldable pub encode_tlv_float : Floats → ℕ → List ℕ
encode_tlv_float fl b =
    if fl.same (fl.widen (fl.narrow b)) b
    then encode_tlv Types.float32 (le_bytes 4 (fl.narrow b))
    else encode_tlv Types.float64 (le_bytes 8 b)

-- EncodeTLVString.
unfoldable pub encode_tlv_string : List ℕ → List ℕ
encode_tlv_string s = encode_tlv Types.string s

-- EncodeTLVBytes.
unfoldable pub encode_tlv_bytes : List ℕ → List ℕ
encode_tlv_bytes s = encode_tlv Types.bytes s

-- EncodeTLVBool.
unfoldable pub encode_tlv_bool : Bool → List ℕ
encode_tlv_bool b = encode_tlv Types.bool ((if b then 1 else 0) ∷ [])

abbrev pub wrap : ℕ → Result Fault (List ℕ) → Result Fault (List ℕ)
wrap t r = do content ← r; ok (encode_tlv t content)

-- The loops of EncodeTLVArray and EncodeTLVMap, with their switch on the dynamic type of a value.
-- The two switches differ in the error for an unknown type, which is the argument `e`.
unfoldable mutual
  pub encode_value : Floats → Value → Fault → Result Fault (List ℕ)
  encode_value fl null e = ok (encode_tlv Types.null [])
  encode_value fl other e = err e
  encode_value fl (int w v) e = ok (encode_tlv_int v)
  encode_value fl (uint w v) e = ok (encode_tlv_uint v)
  encode_value fl (float32 b) e = ok (encode_tlv_float fl (fl.widen b))
  encode_value fl (float64 b) e = ok (encode_tlv_float fl b)
  encode_value fl (bool b) e = ok (encode_tlv_bool b)
  encode_value fl (string s) e = ok (encode_tlv_string s)
  encode_value fl (bytes s) e = ok (encode_tlv_bytes s)
  encode_value fl (array xs) e = wrap Types.array (encode_items fl xs)
  encode_value fl (map es) e = wrap Types.map (encode_entries fl es)

  pub encode_items : Floats → Items → Result Fault (List ℕ)
  encode_items fl nil = ok []
  encode_items fl (cons v vs) = do
    item ← encode_value fl v (failed unsupported_element)
    more ← encode_items fl vs
    ok (item ++ more)

  pub encode_entries : Floats → Entries → Result Fault (List ℕ)
  encode_entries fl end = ok []
  encode_entries fl (entry k v es) = do
    item ← encode_value fl v (failed unsupported_value)
    more ← encode_entries fl es
    ok (encode_tlv_string k ++ (item ++ more))

-- EncodeTLVArray.
unfoldable pub encode_tlv_array : Floats → Items → Result Fault (List ℕ)
encode_tlv_array fl xs = wrap Types.array (encode_items fl xs)

-- EncodeTLVMap.
unfoldable pub encode_tlv_map : Floats → Entries → Result Fault (List ℕ)
encode_tlv_map fl es = wrap Types.map (encode_entries fl es)
