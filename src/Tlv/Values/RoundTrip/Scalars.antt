-- ===== src/Tlv/Values/RoundTrip/Scalars.antt =====
-- The round trip of the values that hold no other values.
use fragmenta.Base.{ℕ, zero, suc, ◌+◌, ◌≤◌, ◌<◌, ◌^◌, ◌≡◌, refl, arith, List, [], ◌∷◌, ◌++◌, length}
use fragmenta.Base.{
  ◌*◌, ◌∙◌, ==_iff, Bool, true, false, ◌==◌, Bool-cases, inl, inr, leb, leb→le, length-append, ok,
}
use fragmenta.Base.Int.{ℤ, within, to_unsigned, to_signed, IsWithin, within-IsWithin}
use fragmenta.Base.Int.{to_signed-to_unsigned, to_unsigned-lt}
use fragmenta.Base.Bytes.{le_bytes, le_value, length-le_bytes, le_value-le_bytes}
use fragmenta.Tlv.Types
use fragmenta.Tlv.Wire.{
  TlvItem, encode_tlv, decode_tlv, encode_tlv_header, format_width, length_format,
}
use fragmenta.Tlv.Wire.RoundTrip.{decode_tlv-encode_tlv}
use fragmenta.Tlv.Values.Encode.{Value, Floats, IsFloats, encode_tlv_int, encode_tlv_uint}
use fragmenta.Tlv.Values.Encode.{
  encode_tlv_float, encode_tlv_bool, int, uint, float32, float64, bool, w8, w16, w32, w64,
}
use fragmenta.Tlv.Values.Decode.{decode_fixed, decode_scalar, decode_value}
use fragmenta.Tlv.Values.RoundTrip.Normal.{normal_int, normal_uint, normal_float}

-- The bytes `bs` are an item, whatever follows them, and DecodeTLVValue makes `v` of the item.
pub record Reads (max_alloc fuel : ℕ) (bs : List ℕ) (v : Value) : Type 0 where
  pub it : TlvItem
  pub item : (rest : List ℕ) → decode_tlv max_alloc (bs ++ rest) ≡ ok (it, rest)
  pub value : decode_value fuel max_alloc it.header.type it.value ≡ ok v

-- The whole encoding has a length of 64 bits and fits into memory, and there is fuel for it.
pub record Fits (max_alloc fuel : ℕ) (bs : List ℕ) : Type 0 where
  pub word : length bs < 2 ^ 64
  pub memory : length bs ≤ max_alloc
  pub fuel_left : length bs ≤ fuel

pub Fits-encode_tlv :
    (max_alloc fuel t : ℕ) (value : List ℕ)
    → Fits max_alloc fuel (encode_tlv t value)
    → (length value + 2 ≤ fuel) × (length value < 2 ^ 64) × (length value ≤ max_alloc)
unfolding encode_tlv encode_tlv_header
Fits-encode_tlv max_alloc fuel t value f = omega (
  arith,
  length-append (le_bytes (format_width (length_format (length value))) (length value)) value,
)

module _ {max_alloc : ℕ} (fuel t : ℕ) where
  pub Reads-scalar :
      (value : List ℕ) (v : Value)
      → (t == Types.array) ≡ false
      → (t == Types.map) ≡ false
      → decode_scalar t value ≡ ok v
      → Fits max_alloc fuel (encode_tlv t value)
      → Reads max_alloc fuel (encode_tlv t value) v
  unfolding decode_value
  Reads-scalar value v not_array not_map scalar fits =
      let (enough, word, memory) = Fits-encode_tlv max_alloc fuel t value fits in
      record {
        it = record { header = record { type = t; length = length value }; value = value };
        item = λ rest. decode_tlv-encode_tlv max_alloc t value rest word memory;
        value = at_fuel fuel enough;
      }
    where
      at_fuel : (f : ℕ) → length value + 2 ≤ f → decode_value f max_alloc t value ≡ ok v
      at_fuel zero h = absurd (omega arith)
      at_fuel (suc f) h = rw (not_array, not_map) scalar

decode_fixed-le_bytes :
    (n u : ℕ) (make : ℕ → Value) → u < 256 ^ n → decode_fixed n make (le_bytes n u) ≡ ok (make u)
unfolding decode_fixed
decode_fixed-le_bytes n u make h =
    rw (length-le_bytes n u, (==_iff n n).1 refl, le_value-le_bytes n u h)

-- An item of fixed size, for a type byte whose case in DecodeTLVValue is `decode_fixed n make`.
module _ {max_alloc : ℕ} (fuel t n : ℕ) (make : ℕ → Value) where
  pub Reads-fixed :
      (u : ℕ)
      → (t == Types.array) ≡ false
      → (t == Types.map) ≡ false
      → ((bs : List ℕ) → decode_scalar t bs ≡ decode_fixed n make bs)
      → u < 256 ^ n
      → Fits max_alloc fuel (encode_tlv t (le_bytes n u))
      → Reads max_alloc fuel (encode_tlv t (le_bytes n u)) (make u)
  Reads-fixed u a m case h fits =
      Reads-scalar fuel t (le_bytes n u) (make u) a m (case _ ∙ decode_fixed-le_bytes n u make h)
        fits

-- A signed integer of `n` bytes in two's complement.
module _ {max_alloc : ℕ} (fuel t n half : ℕ) (make : ℤ → Value) where
  pub Reads-signed :
      (v : ℤ)
      → (t == Types.array) ≡ false
      → (t == Types.map) ≡ false
      → ((bs : List ℕ) → decode_scalar t bs ≡ decode_fixed n (λ u. make (to_signed half u)) bs)
      → 2 * half ≤ 256 ^ n
      → 0 < half
      → IsWithin half v
      → Fits max_alloc fuel (encode_tlv t (le_bytes n (to_unsigned (2 * half) v)))
      → Reads max_alloc fuel (encode_tlv t (le_bytes n (to_unsigned (2 * half) v))) (make v)
  Reads-signed v a m case wide positive range fits = rw (to_signed-to_unsigned half v range) at (
      Reads-fixed fuel t n (λ u. make (to_signed half u)) (to_unsigned (2 * half) v) a m case
        (omega (arith, to_unsigned-lt half v positive)) fits)

module _ (max_alloc fuel : ℕ) where
  pub Reads-int :
      (v : ℤ)
      → IsWithin 0x8000_0000_0000_0000 v
      → Fits max_alloc fuel (encode_tlv_int v)
      → Reads max_alloc fuel (encode_tlv_int v) (normal_int v)
  unfolding encode_tlv_int normal_int decode_scalar
  Reads-int v range = elim (Bool-cases (within 0x80 v)) [
    | inl a ↦ rw a (
        Reads-signed fuel Types.int8 1 0x80 (int w8) v refl refl (λ _. refl) (omega arith)
          (omega arith) (within-IsWithin _ v a))
    | inr a ↦ elim (Bool-cases (within 0x8000 v)) [
      | inl b ↦
          rw (a, b)
            (Reads-signed fuel Types.int16 2 0x8000 (int w16) v refl refl (λ _. refl) (omega arith)
              (omega arith) (within-IsWithin _ v b))
      | inr b ↦ elim (Bool-cases (within 0x8000_0000 v)) [
        | inl c ↦
            rw (a, b, c)
              (Reads-signed fuel Types.int32 4 0x8000_0000 (int w32) v refl refl (λ _. refl)
                (omega arith) (omega arith) (within-IsWithin _ v c))
        | inr c ↦
            rw (a, b, c)
              (Reads-signed fuel Types.int64 8 0x8000_0000_0000_0000 (int w64) v refl refl
                (λ _. refl) (omega arith) (omega arith) range)
      ]
    ]
  ]

  pub Reads-uint :
      (v : ℕ)
      → v < 2 ^ 64
      → Fits max_alloc fuel (encode_tlv_uint v)
      → Reads max_alloc fuel (encode_tlv_uint v) (normal_uint v)
  unfolding encode_tlv_uint normal_uint decode_scalar
  Reads-uint v range = elim (Bool-cases (leb v 255)) [
    | inl a ↦ rw a (
        Reads-fixed fuel Types.uint8 1 (uint w8) v refl refl (λ _. refl)
          (omega (arith, leb→le _ _ a)))
    | inr a ↦ elim (Bool-cases (leb v 65535)) [
      | inl b ↦
          rw (a, b)
            (Reads-fixed fuel Types.uint16 2 (uint w16) v refl refl (λ _. refl)
              (omega (arith, leb→le _ _ b)))
      | inr b ↦ elim (Bool-cases (leb v 4294967295)) [
        | inl c ↦
            rw (a, b, c)
              (Reads-fixed fuel Types.uint32 4 (uint w32) v refl refl (λ _. refl)
                (omega (arith, leb→le _ _ c)))
        | inr c ↦
            rw (a, b, c)
              (Reads-fixed fuel Types.uint64 8 (uint w64) v refl refl (λ _. refl) (omega arith))
      ]
    ]
  ]

  pub Reads-float :
      (fl : Floats) (b : ℕ)
      → IsFloats fl
      → b < 2 ^ 64
      → Fits max_alloc fuel (encode_tlv_float fl b)
      → Reads max_alloc fuel (encode_tlv_float fl b) (normal_float fl b)
  unfolding encode_tlv_float normal_float decode_scalar
  Reads-float fl b laws range = elim (Bool-cases (fl.same (fl.widen (fl.narrow b)) b)) [
    | inl e ↦ rw e (
        Reads-fixed fuel Types.float32 4 float32 (fl.narrow b) refl refl (λ _. refl)
          (omega (arith, laws.narrow-lt b)))
    | inr e ↦ rw e (Reads-fixed fuel Types.float64 8 float64 b refl refl (λ _. refl) (omega arith))
  ]

  pub Reads-bool :
      (b : Bool)
      → Fits max_alloc fuel (encode_tlv_bool b)
      → Reads max_alloc fuel (encode_tlv_bool b) (bool b)
  unfolding encode_tlv_bool decode_scalar decode_fixed le_value
  Reads-bool true = Reads-scalar fuel Types.bool (1 ∷ []) (bool true) refl refl refl
  Reads-bool false = Reads-scalar fuel Types.bool (0 ∷ []) (bool false) refl refl refl
