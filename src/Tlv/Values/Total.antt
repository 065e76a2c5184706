-- ===== src/Tlv/Values/Total.antt =====
-- The recursion of DecodeTLVValue, DecodeTLVArray and DecodeTLVMap ends on every input.
use fragmenta.Base.{ℕ, zero, suc, ◌+◌, ◌≤◌, ◌≡◌, ◌≢◌, arith, List, [], ◌∷◌, length}
use fragmenta.Base.{Result, ok, err, ◌>>=◌, inl, inr, Bool-cases}
use fragmenta.Tlv.Types
use fragmenta.Tlv.Wire.{TlvItem, decode_tlv, Fault, failed, out_of_fuel}
use fragmenta.Tlv.Wire.{read_uint, decode_length, decode_tlv_header}
use fragmenta.Tlv.Wire.Malformed.{decode_tlv_takes}
use fragmenta.Base.{refl, map_err, bit_and, ltb}
use fragmenta.Base.Bytes.{read_full}
use fragmenta.Tlv.Wire.{
  reading_length, reading_type, reading_format, reading_value, format_width, TlvError,
}
use fragmenta.Tlv.Values.Encode.{Value, Entries, end}
use fragmenta.Tlv.Values.Decode.{decode_fixed, decode_scalar, decode_value, decode_items}
use fragmenta.Tlv.Values.Decode.{decode_entries, expect_value, put_entry, decode_tlv_value}
use fragmenta.Tlv.Values.Decode.{decode_tlv_array, decode_tlv_map}

abbrev Ends : {A : Type 0} → Result Fault A → Type 0
Ends r = r ≢ err out_of_fuel

Ends-bind :
    {A B : Type 0} (m : Result Fault A) (f : A → Result Fault B)
    → Ends m
    → ((a : A) → m ≡ ok a → Ends (f a))
    → Ends (m >>= f)
Ends-bind (ok a) f h k = k a refl
Ends-bind (err e) f h k = λ p. h (cc)

decode_fixed-Ends : (n : ℕ) (make : ℕ → Value) (bs : List ℕ) → Ends (decode_fixed n make bs)
unfolding decode_fixed
decode_fixed-Ends n make bs h = ground arith

decode_scalar-Ends : (t : ℕ) (bs : List ℕ) → Ends (decode_scalar t bs)
unfolding decode_scalar decode_fixed
decode_scalar-Ends t bs h = ground arith

map_err-Ends :
    {E A : Type 0} (r : Result E A) (f : E → TlvError) → Ends (map_err (λ e. failed (f e)) r)
map_err-Ends (ok a) f h = cc
map_err-Ends (err e) f h = cc

read_uint-Ends : (k : ℕ) (site : _) (src : List ℕ) → Ends (read_uint k site src)
unfolding read_uint
read_uint-Ends k site src =
    Ends-bind (map_err (λ e. failed (site e)) (read_full k src)) _
      (map_err-Ends (read_full k src) site) λ a e p. cc

decode_length-Ends : (f : ℕ) (src : List ℕ) → Ends (decode_length f src)
unfolding decode_length
decode_length-Ends f src = λ p. ground (arith, read_uint-Ends (format_width f) reading_length src)

decode_tlv_header-Ends : (src : List ℕ) → Ends (decode_tlv_header src)
unfolding decode_tlv_header
decode_tlv_header-Ends src =
    Ends-bind (read_uint 1 reading_type src) _ (read_uint-Ends 1 reading_type src) λ (t, s) e.
      Ends-bind (read_uint 1 reading_format s) _ (read_uint-Ends 1 reading_format s) λ (f, s') e'.
        Ends-bind (decode_length (bit_and f Types.len_mask) s') _ (decode_length-Ends _ s')
          λ n d p. cc

decode_tlv-Ends : (max_alloc : ℕ) (src : List ℕ) → Ends (decode_tlv max_alloc src)
unfolding decode_tlv
decode_tlv-Ends max_alloc src =
    Ends-bind (decode_tlv_header src) _ (decode_tlv_header-Ends src) λ (header, after) e.
      elim (Bool-cases (ltb max_alloc header.length)) [
        | inl over ↦ rw over (λ p. cc)
        | inr fits ↦ rw fits (
            Ends-bind (map_err (λ e. failed (reading_value e)) (read_full header.length after)) _
              (map_err-Ends (read_full header.length after) reading_value) λ a d p. cc)
      ]

expect_value-Ends : (it : TlvItem) (src : List ℕ) → Ends (expect_value it src)
unfolding expect_value
expect_value-Ends it src h = ground arith

expect_value-shrinks :
    (it : TlvItem) (src rest : List ℕ) → expect_value it src ≡ ok rest → length rest ≤ length src
unfolding expect_value
expect_value-shrinks it src rest h = ground arith

mutual
  unfolding decode_value decode_items decode_entries

  value-Ends :
      (fuel max_alloc t : ℕ) (bs : List ℕ)
      → length bs + 2 ≤ fuel
      → Ends (decode_value fuel max_alloc t bs)
  value-Ends zero max_alloc t bs h = absurd (omega arith)
  value-Ends (suc fuel) max_alloc t bs h = ground (
    arith,
    items-Ends fuel max_alloc bs (omega arith),
    entries-Ends fuel max_alloc bs end (omega arith),
    decode_scalar-Ends t bs,
  )

  items-Ends :
      (fuel max_alloc : ℕ) (src : List ℕ)
      → length src + 1 ≤ fuel
      → Ends (decode_items fuel max_alloc src)
  items-Ends zero max_alloc src h = absurd (omega arith)
  items-Ends (suc fuel) max_alloc [] h = λ p. cc
  items-Ends (suc fuel) max_alloc (b ∷ src) h =
      Ends-bind (decode_tlv max_alloc (b ∷ src)) _ (decode_tlv-Ends max_alloc (b ∷ src))
        λ (it, rest) e.
          let (len, _) = decode_tlv_takes max_alloc (b ∷ src) [] rest it e in
          Ends-bind (decode_value fuel max_alloc it.header.type it.value) _
            (value-Ends fuel max_alloc it.header.type it.value (omega arith))
            λ v _.
              Ends-bind (decode_items fuel max_alloc rest) _
                (items-Ends fuel max_alloc rest (omega arith)) λ vs _. λ p. cc

  entries-Ends :
      (fuel max_alloc : ℕ) (src : List ℕ) (done : Entries)
      → length src + 1 ≤ fuel
      → Ends (decode_entries fuel max_alloc src done)
  entries-Ends zero max_alloc src done h = absurd (omega arith)
  entries-Ends (suc fuel) max_alloc [] done h = λ p. cc
  entries-Ends (suc fuel) max_alloc (b ∷ src) done h =
      Ends-bind (decode_tlv max_alloc (b ∷ src)) _ (decode_tlv-Ends max_alloc (b ∷ src))
        λ (key, after) e.
          let (len, _) = decode_tlv_takes max_alloc (b ∷ src) [] after key e in
          Ends-bind (expect_value key after) _ (expect_value-Ends key after) λ rest e'.
            Ends-bind (decode_tlv max_alloc rest) _ (decode_tlv-Ends max_alloc rest)
              λ (it, rest') e''.
                let (len', _) = decode_tlv_takes max_alloc rest [] rest' it e'' in
                Ends-bind (decode_value fuel max_alloc it.header.type it.value) _
                  (value-Ends fuel max_alloc it.header.type it.value
                    (omega (arith, expect_value-shrinks key after rest e')))
                  λ v _.
                    entries-Ends fuel max_alloc rest' (put_entry key.value v done)
                      (omega (arith, expect_value-shrinks key after rest e'))

-- The recursion of DecodeTLVValue, DecodeTLVArray and DecodeTLVMap ends on every input, well
-- formed or not: the fuel given, the input's length and ten, never runs out.
pub decode_tlv_value_ends :
    (max_alloc : ℕ) (it : TlvItem) (bs : List ℕ)
    → (decode_tlv_value max_alloc it ≢ err out_of_fuel)
      × (decode_tlv_array max_alloc bs ≢ err out_of_fuel)
      × (decode_tlv_map max_alloc bs ≢ err out_of_fuel)
unfolding decode_tlv_value decode_tlv_array decode_tlv_map
decode_tlv_value_ends max_alloc it bs = (
  value-Ends _ max_alloc it.header.type it.value (omega arith),
  items-Ends _ max_alloc bs (omega arith),
  entries-Ends _ max_alloc bs end (omega arith),
)
