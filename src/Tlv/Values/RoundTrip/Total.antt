-- ===== src/Tlv/Values/RoundTrip/Total.antt =====
-- The round trip with the fuel that the decoders are given.
use fragmenta.Base.{
  ℕ, ◌+◌, ◌≤◌, ◌<◌, ◌^◌, ◌≡◌, refl, ap, arith, Bool, true, false, if◌then◌else◌, leb,
}
use mathlib.Core.Path.{subst}
use fragmenta.Base.{List, [], ◌++◌, length, length-append, ok, bind_inv}
use fragmenta.Base.Int.{ℤ, within}
use fragmenta.Tlv.Wire.{TlvItem, encode_tlv, decode_tlv, encode_tlv_header, Fault}
use fragmenta.Tlv.Wire.RoundTrip.{length-encode_tlv_header, decode_tlv-encode_tlv}
use fragmenta.Tlv.Values.Encode.{Value, Floats, IsFloats, encode_value, encode_items}
use fragmenta.Tlv.Values.Encode.{encode_entries, encode_tlv_int}
use fragmenta.Tlv.Values.Encode.{encode_tlv_uint, encode_tlv_float, encode_tlv_bool}
use fragmenta.Tlv.Values.Encode.{encode_tlv_string, encode_tlv_bytes, array, map}
use fragmenta.Tlv.Values.Encode.{null, other, int, uint, float32, float64, bool, string, bytes}
use fragmenta.Tlv.Values.Decode.{decode_tlv_value, decode_value}
use fragmenta.Tlv.Values.RoundTrip.Normal.{normal, IsValue}
use fragmenta.Tlv.Values.RoundTrip.Nested.{value-Reads}
use fragmenta.Base.{ok_inj}

-- The bytes are one item.
record IsItem (bs : List ℕ) : Type 0 where
  t : ℕ
  content : List ℕ
  written : encode_tlv t content ≡ bs

encode_tlv-IsItem : (t : ℕ) (content : List ℕ) → IsItem (encode_tlv t content)
encode_tlv-IsItem t content = record { t = t; content = content; written = refl }

if-IsItem : (b : Bool) (xs ys : List ℕ) → IsItem xs → IsItem ys → IsItem (if b then xs else ys)
if-IsItem true xs ys x y = x
if-IsItem false xs ys x y = y

encode_tlv_int-IsItem : (v : ℤ) → IsItem (encode_tlv_int v)
unfolding encode_tlv_int
encode_tlv_int-IsItem v = if-IsItem (within 0x80 v) _ _ (encode_tlv-IsItem _ _) (
    if-IsItem (within 0x8000 v) _ _ (encode_tlv-IsItem _ _)
      (if-IsItem (within 0x8000_0000 v) _ _ (encode_tlv-IsItem _ _) (encode_tlv-IsItem _ _)))

encode_tlv_uint-IsItem : (v : ℕ) → IsItem (encode_tlv_uint v)
unfolding encode_tlv_uint
encode_tlv_uint-IsItem v = if-IsItem (leb v 255) _ _ (encode_tlv-IsItem _ _) (
    if-IsItem (leb v 65535) _ _ (encode_tlv-IsItem _ _)
      (if-IsItem (leb v 4294967295) _ _ (encode_tlv-IsItem _ _) (encode_tlv-IsItem _ _)))

encode_tlv_float-IsItem : (fl : Floats) (b : ℕ) → IsItem (encode_tlv_float fl b)
unfolding encode_tlv_float
encode_tlv_float-IsItem fl b =
    if-IsItem (fl.same (fl.widen (fl.narrow b)) b) _ _ (encode_tlv-IsItem _ _)
      (encode_tlv-IsItem _ _)

encode_value-IsItem :
    (fl : Floats) (v : Value) (e : Fault) (bs : List ℕ) → encode_value fl v e ≡ ok bs → IsItem bs
unfolding encode_value encode_tlv_bool encode_tlv_string encode_tlv_bytes
encode_value-IsItem fl null e bs h = subst IsItem (ok_inj h) (encode_tlv-IsItem _ _)
encode_value-IsItem fl other e bs h = cc
encode_value-IsItem fl (int w v) e bs h = subst IsItem (ok_inj h) (encode_tlv_int-IsItem v)
encode_value-IsItem fl (uint w v) e bs h = subst IsItem (ok_inj h) (encode_tlv_uint-IsItem v)
encode_value-IsItem fl (float32 b) e bs h =
    subst IsItem (ok_inj h) (encode_tlv_float-IsItem fl (fl.widen b))
encode_value-IsItem fl (float64 b) e bs h = subst IsItem (ok_inj h) (encode_tlv_float-IsItem fl b)
encode_value-IsItem fl (bool b) e bs h = subst IsItem (ok_inj h) (encode_tlv-IsItem _ _)
encode_value-IsItem fl (string s) e bs h = subst IsItem (ok_inj h) (encode_tlv-IsItem _ _)
encode_value-IsItem fl (bytes s) e bs h = subst IsItem (ok_inj h) (encode_tlv-IsItem _ _)
encode_value-IsItem fl (array xs) e bs h =
    let (content, _, whole) = bind_inv (encode_items fl xs) _ h in
    subst IsItem (ok_inj whole) (encode_tlv-IsItem _ content)
encode_value-IsItem fl (map es) e bs h =
    let (content, _, whole) = bind_inv (encode_entries fl es) _ h in
    subst IsItem (ok_inj whole) (encode_tlv-IsItem _ content)

length-IsItem :
    {bs : List ℕ} (w : IsItem bs)
    → length bs < 2 ^ 64
    → (length bs ≤ length w.content + 10) × (length w.content ≤ length bs)
unfolding encode_tlv
length-IsItem w h =
    let split = length-append (encode_tlv_header w.t (length w.content)) w.content in
    let whole = ap length w.written in
    let header = length-encode_tlv_header w.t (length w.content) (omega arith) in omega arith

IsItem-value :
    (max_alloc : ℕ) {bs : List ℕ} (w : IsItem bs) (it : TlvItem)
    → length bs < 2 ^ 64
    → length bs ≤ max_alloc
    → decode_tlv max_alloc (bs ++ []) ≡ ok (it, [])
    → w.content ≡ it.value
IsItem-value max_alloc {bs} w it word memory h =
    let (_, short) = length-IsItem w word in
    cc (
      h,
      ap (λ (b : List ℕ). decode_tlv max_alloc (b ++ [])) w.written,
      decode_tlv-encode_tlv max_alloc w.t w.content [] (omega arith) (omega arith),
    )

-- A value that was written, at any depth of arrays and maps, is read back with each number in the
-- smallest type that holds it, and what follows it is left. The value's numbers are in range, its
-- maps have each key once, the encoding's length fits 64 bits and memory, and the float
-- conversions yield values of their types.
pub decode_tlv_value-encode_value :
    (fl : Floats) (max_alloc : ℕ) (v : Value) (e : Fault) (bs rest : List ℕ)
    → IsFloats fl
    → encode_value fl v e ≡ ok bs
    → IsValue v
    → length bs < 2 ^ 64
    → length bs ≤ max_alloc
    → (it : TlvItem) × (decode_tlv max_alloc (bs ++ rest) ≡ ok (it, rest))
      × (decode_tlv_value max_alloc it ≡ ok (normal fl v))
unfolding decode_tlv_value
decode_tlv_value-encode_value fl max_alloc v e bs rest laws h is word memory =
    let w = encode_value-IsItem fl v e bs h in
    let (enough, _) = length-IsItem w word in
    let r =
      value-Reads fl laws max_alloc v (length w.content + 10) e bs h is
        (record { word = word; memory = memory; fuel_left = enough }) in
    (
      r.it,
      r.item rest,
      subst
          (λ (c : List ℕ).
            decode_value (length c + 10) max_alloc r.it.header.type r.it.value ≡ ok (normal fl v))
          (IsItem-value max_alloc w r.it word memory (r.item [])) r.value,
    )
