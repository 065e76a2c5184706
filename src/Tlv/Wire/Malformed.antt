-- ===== src/Tlv/Wire/Malformed.antt =====
-- DecodeTLV on any input, well formed or not.
use fragmenta.Base.{ℕ, ◌+◌, ◌%◌, ◌≤◌, ◌<◌, ◌^◌, ◌≡◌, ◌≢◌, refl, ap, arith, List, [], ◌∷◌, ◌++◌}
use fragmenta.Base.{length, Bool, true, false, inl, inr, leb, ltb, length-append}
use fragmenta.Base.{
  Result, ok, err, bit_and, map_err, map_err-eq-ok, ◌>>=◌, if◌then◌else◌, bind_inv, Result-cases,
  ◌==◌,
}
use fragmenta.Base.Bytes.{le_value, read_full, read_full-append, read_full_inv}
use fragmenta.Base.{lt→leb_false, zero, suc, ◌&&◌}
use fragmenta.Tlv.Types
use fragmenta.Tlv.Wire.{read_uint, decode_length, decode_tlv_header, encode_tlv, decode_tlv}
use fragmenta.Tlv.Wire.{encode_tlv_header, Fault, TlvHeader, TlvItem, failed, panicked}
use fragmenta.Tlv.Wire.{invalid_length, reading_value, reading_length, format_width}
use fragmenta.Tlv.Wire.RoundTrip.{read_byte, decode_tlv_header-encode_tlv_header}
use fragmenta.Tlv.Wire.RoundTrip.{decode_tlv-encode_tlv, format_width-pos}
use mathlib.Core.List.{append_assoc, append-nil}

-- What a reading step that succeeds with `a` does: it takes `k a` bytes at least, and more input
-- behind what it was given only joins the rest.
record Takes {A : Type 0} (read : List ℕ → Result Fault (A × List ℕ)) (k : A → ℕ) : Type 0 where
  at :
      (src more rest : List ℕ) (a : A)
      → read src ≡ ok (a, rest)
      → (length rest + k a ≤ length src) × (read (src ++ more) ≡ ok (a, rest ++ more))

read_full_more :
    (n : ℕ) (src more bs rest : List ℕ)
    → read_full n src ≡ ok (bs, rest)
    → (length src ≡ n + length rest) × (read_full n (src ++ more) ≡ ok (bs, rest ++ more))
read_full_more n src more bs rest h =
    let (e, len) = read_full_inv n src bs rest h in
    (
      omega (arith, ap length e, length-append bs rest),
      rw (e, append_assoc bs rest more) (read_full-append bs (rest ++ more) n len),
    )

module _ {A B : Type 0} (read : List ℕ → Result Fault (A × List ℕ)) where
  Takes-bind :
      (next : A → List ℕ → Result Fault (B × List ℕ)) (j : ℕ) (k : B → ℕ)
      → Takes read (λ _. j)
      → ((a : A) → Takes (next a) k)
      → Takes (λ src. read src >>= λ p. next p.0 p.1) (λ b. j + k b)
  Takes-bind next j k first then_next = record {
    at = λ src more rest b h.
        let ((a, r), e, f) = bind_inv (read src) (λ p. next p.0 p.1) h in
        let (len, extended) = first.at src more r a e in
        let (len', extended') = (then_next a).at r more rest b f in
        (omega arith, rw extended extended');
  }

module _ {A : Type 0} where
  Takes-weaken :
      (read : List ℕ → Result Fault (A × List ℕ)) (j k : A → ℕ)
      → ((a : A) → k a ≤ j a)
      → Takes read j
      → Takes read k
  Takes-weaken read j k le t = record {
    at = λ src more rest a h. let (len, e) = t.at src more rest a h in (omega (arith, le a), e);
  }

  Takes-pure : (a : A) → Takes (λ src. ok (a, src)) (λ _. 0)
  Takes-pure a = record { at = λ src more rest b h. ground arith }

  Takes-err : (e : Fault) (k : A → ℕ) → Takes (λ src. err e) k
  Takes-err e k = record { at = λ src more rest b h. cc }

  Takes-if :
      (b : Bool) (r s : List ℕ → Result Fault (A × List ℕ)) (k : A → ℕ)
      → Takes r k
      → Takes s k
      → Takes (λ src. if b then r src else s src) k
  Takes-if true r s k x y = x
  Takes-if false r s k x y = y

read_full-Takes : (n : ℕ) (f : _ → Fault) → Takes (λ src. map_err f (read_full n src)) (λ _. n)
read_full-Takes n f = record {
  at = λ src more rest bs h.
      let (len, e) = read_full_more n src more bs rest (map_err-eq-ok f (read_full n src) h) in
      (omega arith, rw e);
}

read_uint-Takes : (k : ℕ) (site : _) → Takes (read_uint k site) (λ _. k)
unfolding read_uint
read_uint-Takes k site =
    Takes-weaken _ (λ _. k + 0) (λ _. k) (λ _. omega arith)
      (Takes-bind _ (λ bs r. ok (le_value bs, r)) k (λ _. 0) (read_full-Takes k _)
        λ bs. Takes-pure (le_value bs))

decode_length-Takes : (f : ℕ) → Takes (decode_length f) (λ _. 1)
unfolding decode_length
decode_length-Takes f =
    Takes-if (leb f Types.len_very_long) _ _ (λ _. 1)
      (Takes-weaken _ (λ _. format_width f) (λ _. 1) (λ _. format_width-pos f)
        (read_uint-Takes (format_width f) reading_length))
      (Takes-err _ (λ _. 1))

decode_tlv_header-Takes : Takes decode_tlv_header (λ _. 3)
unfolding decode_tlv_header
decode_tlv_header-Takes =
    Takes-bind _ _ 1 (λ _. 2) (read_uint-Takes 1 _)
      λ t.
        Takes-bind _ _ 1 (λ _. 1) (read_uint-Takes 1 _)
          λ f. Takes-bind _ _ 1 (λ _. 0) (decode_length-Takes _) λ n. Takes-pure _

-- The value is as long as the header says, which `read_full` saw to.
read_value : TlvHeader → List ℕ → Result Fault (TlvItem × List ℕ)
read_value header after = do
  (value, rest) ← map_err (λ e. failed (reading_value e)) (read_full header.length after)
  ok (record { header = header; value = value }, rest)

read_value-Takes : (header : TlvHeader) → Takes (read_value header) (λ it. length it.value)
unfolding read_value
read_value-Takes header = record {
  at = λ src more rest it h.
      let ((bs, r), e, f) =
        bind_inv (map_err (λ e. failed (reading_value e)) (read_full header.length src)) _ h in
      let e' = map_err-eq-ok _ (read_full header.length src) e in
      let (len, extended) = read_full_more header.length src more bs r e' in
      let (_, value_len) = read_full_inv header.length src bs r e' in
      (ground arith, rw extended (ground arith));
}

decode_tlv-Takes : (max_alloc : ℕ) → Takes (decode_tlv max_alloc) (λ it. 3 + length it.value)
unfolding decode_tlv read_value
decode_tlv-Takes max_alloc =
    Takes-bind decode_tlv_header _ 3 (λ it. length it.value) decode_tlv_header-Takes
      λ header.
        Takes-if (ltb max_alloc header.length) _ (read_value header) (λ it. length it.value)
          (Takes-err _ (λ it. length it.value)) (read_value-Takes header)

-- Where DecodeTLV succeeds it takes three bytes at least beside the value, and it does not look
-- past the item: more input behind the item joins the rest.
pub decode_tlv_takes :
    (max_alloc : ℕ) (src more rest : List ℕ) (it : TlvItem)
    → decode_tlv max_alloc src ≡ ok (it, rest)
    → (length rest + (3 + length it.value) ≤ length src)
      × (decode_tlv max_alloc (src ++ more) ≡ ok (it, rest ++ more))
decode_tlv_takes max_alloc src more rest it h = (decode_tlv-Takes max_alloc).at src more rest it h

append-ne-nil : (xs : List ℕ) (x : ℕ) (ys : List ℕ) → xs ++ (x ∷ ys) ≢ []
append-ne-nil [] x ys h = cc
append-ne-nil (y ∷ xs) x ys h = cc

-- DecodeTLV fails on every proper prefix of what EncodeTLV wrote, where the value's length fits
-- 64 bits and can be allocated.
pub decode_tlv_truncated :
    (max_alloc t x : ℕ) (value front back : List ℕ)
    → length value < 2 ^ 64
    → length value ≤ max_alloc
    → encode_tlv t value ≡ front ++ (x ∷ back)
    → (e : Fault) × (decode_tlv max_alloc front ≡ err e)
decode_tlv_truncated max_alloc t x value front back h fits split =
    elim (Result-cases (decode_tlv max_alloc front)) [
      | inr failure ↦ failure
      | inl ((it, rest), e) ↦
          let (_, extended) = decode_tlv_takes max_alloc front (x ∷ back) rest it e in
          let whole =
            rw (append-nil, split) at (decode_tlv-encode_tlv max_alloc t value [] h fits) in
          absurd (append-ne-nil rest x back (cc (extended, whole)))
    ]

low_three_bits : ℕ → ℕ → Bool
low_three_bits zero b = true
low_three_bits (suc n) b = bit_and n 7 == n % 8 && low_three_bits n b

mask-mod : (n f : ℕ) → low_three_bits n 0 ≡ true → f < n → bit_and f 7 ≡ f % 8
unfolding low_three_bits
mask-mod zero f h lt = absurd (omega arith)
mask-mod (suc n) f h lt = ground (arith, mask-mod n f)

-- DecodeTLVHeader refuses a length format byte whose low three bits are 4 to 7.
pub decode_tlv_header_refuses :
    (t f : ℕ) (rest : List ℕ)
    → f < 256
    → 4 ≤ f % 8
    → decode_tlv_header (t ∷ f ∷ rest) ≡ err (failed invalid_length)
unfolding decode_tlv_header decode_length low_three_bits
decode_tlv_header_refuses t f rest byte h =
    rw (read_byte, read_byte, mask-mod 256 f refl byte, lt→leb_false (f % 8) 3 h)

-- DecodeTLV panics on every header that announces a length of 64 bits above what `make` can
-- allocate, whatever bytes follow it.
pub decode_tlv_panics :
    (max_alloc t n : ℕ) (rest : List ℕ)
    → max_alloc < n
    → n < 2 ^ 64
    → decode_tlv max_alloc (encode_tlv_header t n ++ rest) ≡ err panicked
unfolding decode_tlv
decode_tlv_panics max_alloc t n rest above h =
    rw (decode_tlv_header-encode_tlv_header t n rest h) (ground arith)
