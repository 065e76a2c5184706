-- ===== src/Tlv/Values/RoundTrip/Nested.antt =====
-- The round trip of arrays and maps, by induction on the value.
use fragmenta.Base.{ℕ, zero, suc, ◌+◌, ◌≤◌, ◌<◌, ◌^◌, ◌≡◌, refl, ap, ◌∙◌, arith}
use fragmenta.Base.{List, [], ◌++◌, length, length-append}
use fragmenta.Base.{Result, ok, bind_inv}
use fragmenta.Base.{ok_inj}
use fragmenta.Tlv.Types
use fragmenta.Tlv.Wire.{TlvItem, encode_tlv, decode_tlv, Fault, failed}
use fragmenta.Tlv.Wire.{unsupported_element, unsupported_value}
use fragmenta.Tlv.Wire.RoundTrip.{decode_tlv-encode_tlv}
use fragmenta.Tlv.Wire.Malformed.{decode_tlv_takes}
use fragmenta.Tlv.Values.Encode.{Value, Items, Entries, Floats, IsFloats, nil, cons, end, entry}
use fragmenta.Tlv.Values.Encode.{null, other, int, uint, float32, float64, bool, string, bytes}
use fragmenta.Tlv.Values.Encode.{array, map, encode_value, encode_items, encode_entries}
use fragmenta.Tlv.Values.Encode.{encode_tlv_string, encode_tlv_bytes}
use fragmenta.Tlv.Values.Decode.{
  decode_value, decode_items, decode_entries, expect_value, put_entry,
}
use fragmenta.Tlv.Values.Decode.{decode_scalar}
use fragmenta.Tlv.Values.RoundTrip.Normal.{normal, normal_items, normal_entries}
use fragmenta.Tlv.Values.RoundTrip.Normal.{IsValue, IsItems, IsEntries}
use fragmenta.Tlv.Values.RoundTrip.Scalars.{Reads, Fits, Fits-encode_tlv, Reads-scalar, Reads-int}
use fragmenta.Tlv.Values.RoundTrip.Scalars.{Reads-uint, Reads-float, Reads-bool}
use mathlib.Core.Path.{subst}
use fragmenta.Tlv.Values.RoundTrip.Steps.{decode_items_step, decode_entries_step, join, IsDisjoint}
use fragmenta.Tlv.Values.RoundTrip.Steps.{
  put_entry-join, put_entry-IsDisjoint, join-end, end-IsDisjoint,
}

module _ (max_alloc : ℕ) where
  Reads-ok :
      (fuel : ℕ) {written bs : List ℕ} {v : Value}
      → ◌≡◌ {A = Result Fault (List ℕ)} (ok written) (ok bs)
      → (Fits max_alloc fuel written → Reads max_alloc fuel written v)
      → Fits max_alloc fuel bs
      → Reads max_alloc fuel bs v
  Reads-ok fuel {v} h reads =
      subst (λ bs. Fits max_alloc fuel bs → Reads max_alloc fuel bs v) (ok_inj h) reads

  -- An item that holds items.
  Reads-nested :
      (fuel t : ℕ) (content : List ℕ) (v : Value)
      → ((f : ℕ) → length content + 1 ≤ f → decode_value (suc f) max_alloc t content ≡ ok v)
      → Fits max_alloc fuel (encode_tlv t content)
      → Reads max_alloc fuel (encode_tlv t content) v
  Reads-nested fuel t content v decoded fits =
      let (enough, word, memory) = Fits-encode_tlv max_alloc fuel t content fits in
      record {
        it = record { header = record { type = t; length = length content }; value = content };
        item = λ rest. decode_tlv-encode_tlv max_alloc t content rest word memory;
        value = at_fuel fuel enough;
      }
    where
      at_fuel : (f : ℕ) → length content + 2 ≤ f → decode_value f max_alloc t content ≡ ok v
      at_fuel zero h = absurd (omega arith)
      at_fuel (suc f) h = decoded f (omega arith)

  array_value :
      (f : ℕ) (content : List ℕ) {xs : Items}
      → decode_items f max_alloc content ≡ ok xs
      → decode_value (suc f) max_alloc Types.array content ≡ ok (array xs)
  unfolding decode_value
  array_value f content h = rw h

  map_value :
      (f : ℕ) (content : List ℕ) {es : Entries}
      → decode_entries f max_alloc content end ≡ ok es
      → decode_value (suc f) max_alloc Types.map content ≡ ok (map es)
  unfolding decode_value
  map_value f content h = rw h

  Reads-null :
      (fuel : ℕ)
      → Fits max_alloc fuel (encode_tlv Types.null [])
      → Reads max_alloc fuel (encode_tlv Types.null []) null
  unfolding decode_scalar
  Reads-null fuel = Reads-scalar fuel Types.null [] null refl refl refl

  Reads-string :
      (fuel : ℕ) (s : List ℕ)
      → Fits max_alloc fuel (encode_tlv_string s)
      → Reads max_alloc fuel (encode_tlv_string s) (string s)
  unfolding encode_tlv_string decode_scalar
  Reads-string fuel s = Reads-scalar fuel Types.string s (string s) refl refl refl

  Reads-bytes :
      (fuel : ℕ) (s : List ℕ)
      → Fits max_alloc fuel (encode_tlv_bytes s)
      → Reads max_alloc fuel (encode_tlv_bytes s) (bytes s)
  unfolding encode_tlv_bytes decode_scalar
  Reads-bytes fuel s = Reads-scalar fuel Types.bytes s (bytes s) refl refl refl

  -- A list of items that is as long as a loop with `fuel` rounds can read.
  record IsLoadable (fuel : ℕ) (bs : List ℕ) : Type 0 where
    word : length bs < 2 ^ 64
    memory : length bs ≤ max_alloc
    rounds : length bs + 1 ≤ fuel

  IsLoadable-content :
      (fuel f t : ℕ) (content : List ℕ)
      → Fits max_alloc fuel (encode_tlv t content)
      → length content + 1 ≤ f
      → IsLoadable f content
  IsLoadable-content fuel f t content fits enough =
      let (_, word, memory) = Fits-encode_tlv max_alloc fuel t content fits in
      record { word = word; memory = memory; rounds = enough }

  Fits-front : (f : ℕ) (xs ys : List ℕ) → IsLoadable (suc f) (xs ++ ys) → Fits max_alloc f xs
  Fits-front f xs ys l = omega (arith, length-append xs ys)

  IsLoadable-behind :
      (f : ℕ) {xs : List ℕ} (ys : List ℕ) {v : Value}
      → Reads max_alloc f xs v
      → IsLoadable (suc f) (xs ++ ys)
      → IsLoadable f ys
  IsLoadable-behind f {xs} ys r l =
      let (taken, _) = decode_tlv_takes max_alloc (xs ++ []) [] [] r.it (r.item []) in
      omega (arith, length-append xs ys, length-append xs [])

  items_nil : (fuel : ℕ) → IsLoadable fuel [] → decode_items fuel max_alloc [] ≡ ok nil
  unfolding decode_items
  items_nil zero l = absurd (omega arith)
  items_nil (suc fuel) l = refl

  entries_end :
      (fuel : ℕ) (done : Entries)
      → IsLoadable fuel []
      → decode_entries fuel max_alloc [] done ≡ ok done
  unfolding decode_entries
  entries_end zero done l = absurd (omega arith)
  entries_end (suc fuel) done l = refl

  cons_read :
      (f : ℕ) (item more : List ℕ) {bs : List ℕ} {v : Value} {vs : Items}
      → ◌≡◌ {A = Result Fault (List ℕ)} (ok (item ++ more)) (ok bs)
      → IsLoadable (suc f) bs
      → (Fits max_alloc f item → Reads max_alloc f item v)
      → (IsLoadable f more → decode_items f max_alloc more ≡ ok vs)
      → decode_items (suc f) max_alloc bs ≡ ok (cons v vs)
  cons_read f item more {v} {vs} whole loadable reads rest =
      subst (λ bs. IsLoadable (suc f) bs → decode_items (suc f) max_alloc bs ≡ ok (cons v vs))
        (ok_inj whole)
        (λ l.
          let r = reads (Fits-front f item more l) in
          decode_items_step f max_alloc (item ++ more) more r.it (r.item more) r.value
            (rest (IsLoadable-behind f more r l)))
        loadable

  -- The rest of a map after a key has been read: the key is a string, and a value follows it.
  key_read :
      (f : ℕ) (k xs ys : List ℕ) {v : Value}
      → Reads max_alloc f xs v
      → IsLoadable (suc f) (encode_tlv_string k ++ (xs ++ ys))
      → (key : TlvItem) × (decode_tlv max_alloc (encode_tlv_string k ++ (xs ++ ys))
          ≡ ok (key, xs ++ ys))
        × (expect_value key (xs ++ ys) ≡ ok (xs ++ ys))
        × (key.value ≡ k)
  unfolding encode_tlv_string expect_value
  key_read f k xs ys r l =
      let fits = Fits-front f (encode_tlv_string k) (xs ++ ys) l in
      let (_, word, memory) = Fits-encode_tlv max_alloc f Types.string k fits in
      let (taken, _) = decode_tlv_takes max_alloc (xs ++ ys) [] ys r.it (r.item ys) in
      (
        record { header = record { type = Types.string; length = length k }; value = k },
        decode_tlv-encode_tlv max_alloc Types.string k (xs ++ ys) word memory,
        ground arith,
        refl,
      )

  IsLoadable-suc : (f : ℕ) (bs : List ℕ) → IsLoadable f bs → IsLoadable (suc f) bs
  IsLoadable-suc f bs l = omega arith

  entry_read :
      (f : ℕ) (k item more : List ℕ) (done : Entries) {bs : List ℕ} {v : Value} {es : Entries}
      → ◌≡◌ {A = Result Fault (List ℕ)} (ok (encode_tlv_string k ++ (item ++ more))) (ok bs)
      → IsLoadable (suc f) bs
      → (Fits max_alloc f item → Reads max_alloc f item v)
      → (IsLoadable f more → decode_entries f max_alloc more (put_entry k v done) ≡ ok es)
      → decode_entries (suc f) max_alloc bs done ≡ ok es
  entry_read f k item more done {v} {es} whole loadable reads rest =
      subst (λ bs. IsLoadable (suc f) bs → decode_entries (suc f) max_alloc bs done ≡ ok es)
        (ok_inj whole)
        (λ l.
          let front = Fits-front f (encode_tlv_string k) (item ++ more) l in
          let key_reads = Reads-string f k front in
          let l' =
            IsLoadable-suc f (item ++ more) (IsLoadable-behind f (item ++ more) key_reads l) in
          let r = reads (Fits-front f item more l') in
          let (key, h, e, same) = key_read f k item more r l in
          decode_entries_step f max_alloc _ (item ++ more) more done key r.it h e (r.item more)
            r.value
          ∙ rw same (rest (IsLoadable-behind f more r l')))
        loadable

module _ (fl : Floats) (laws : IsFloats fl) (max_alloc : ℕ) where
  mutual
    unfolding encode_value normal join

    pub value-Reads :
        (v : Value) (fuel : ℕ) (e : Fault) (bs : List ℕ)
        → encode_value fl v e ≡ ok bs
        → IsValue v
        → Fits max_alloc fuel bs
        → Reads max_alloc fuel bs (normal fl v)
    value-Reads null fuel e bs h is = Reads-ok max_alloc fuel h (Reads-null max_alloc fuel)
    value-Reads other fuel e bs h is = cc
    value-Reads (int w v) fuel e bs h is = Reads-ok max_alloc fuel h (Reads-int max_alloc fuel v is)
    value-Reads (uint w v) fuel e bs h is =
        Reads-ok max_alloc fuel h (Reads-uint max_alloc fuel v is)
    value-Reads (float32 b) fuel e bs h is =
        Reads-ok max_alloc fuel h
          (Reads-float max_alloc fuel fl (fl.widen b) laws (laws.widen-lt b))
    value-Reads (float64 b) fuel e bs h is =
        Reads-ok max_alloc fuel h (Reads-float max_alloc fuel fl b laws is)
    value-Reads (bool b) fuel e bs h is = Reads-ok max_alloc fuel h (Reads-bool max_alloc fuel b)
    value-Reads (string s) fuel e bs h is =
        Reads-ok max_alloc fuel h (Reads-string max_alloc fuel s)
    value-Reads (bytes s) fuel e bs h is = Reads-ok max_alloc fuel h (Reads-bytes max_alloc fuel s)
    value-Reads (array xs) fuel e bs h is =
        let (content, written, whole) = bind_inv (encode_items fl xs) _ h in
        Reads-ok max_alloc fuel whole λ fits.
          Reads-nested max_alloc fuel Types.array content _
            (λ f enough. array_value max_alloc f content (
              items_read xs f content written is
                (IsLoadable-content max_alloc fuel f Types.array content fits enough)))
            fits
    value-Reads (map es) fuel e bs h is =
        let (content, written, whole) = bind_inv (encode_entries fl es) _ h in
        Reads-ok max_alloc fuel whole λ fits.
          Reads-nested max_alloc fuel Types.map content _
            (λ f enough. map_value max_alloc f content (
              entries_read es f end content written is (end-IsDisjoint es)
                (IsLoadable-content max_alloc fuel f Types.map content fits enough)))
            fits

    items_read :
        (xs : Items) (fuel : ℕ) (bs : List ℕ)
        → encode_items fl xs ≡ ok bs
        → IsItems xs
        → IsLoadable max_alloc fuel bs
        → decode_items fuel max_alloc bs ≡ ok (normal_items fl xs)
    items_read nil fuel bs h is l =
        rw (← ok_inj h) (items_nil max_alloc fuel (rw (← ok_inj h) at l))
    items_read (cons v vs) zero bs h is l = absurd (omega (arith, l.rounds))
    items_read (cons v vs) (suc f) bs h (is, iss) l =
        let (item, written, h') = bind_inv (encode_value fl v (failed unsupported_element)) _ h in
        let (more, written', whole) = bind_inv (encode_items fl vs) _ h' in
        cons_read max_alloc f item more whole l
          (value-Reads v f (failed unsupported_element) item written is)
          (items_read vs f more written' iss)

    entries_read :
        (es : Entries) (fuel : ℕ) (done : Entries) (bs : List ℕ)
        → encode_entries fl es ≡ ok bs
        → IsEntries es
        → IsDisjoint done es
        → IsLoadable max_alloc fuel bs
        → decode_entries fuel max_alloc bs done ≡ ok (join done (normal_entries fl es))
    entries_read end fuel done bs h is d l =
        rw (← ok_inj h, join-end done) (entries_end max_alloc fuel done (rw (← ok_inj h) at l))
    entries_read (entry k v es) zero done bs h is d l = absurd (omega (arith, l.rounds))
    entries_read (entry k v es) (suc f) done bs h (fresh, is, iss) (new, d) l =
        let (item, written, h') = bind_inv (encode_value fl v (failed unsupported_value)) _ h in
        let (more, written', whole) = bind_inv (encode_entries fl es) _ h' in
        entry_read max_alloc f k item more done whole l
          (value-Reads v f (failed unsupported_value) item written is)
          (λ l'.
            entries_read es f (put_entry k (normal fl v) done) more written' iss
              (put_entry-IsDisjoint k (normal fl v) done es fresh d) l'
            ∙ ap ok (put_entry-join k (normal fl v) done (normal_entries fl es) new))
