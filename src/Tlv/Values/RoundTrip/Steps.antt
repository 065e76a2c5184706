-- ===== src/Tlv/Values/RoundTrip/Steps.antt =====
-- One round of the loops that decode arrays and maps, and the maps that they build.
use fragmenta.Base.{ℕ, suc, ◌≡◌, ◌≢◌, refl, sym, arith}
use fragmenta.Base.{List, [], ◌∷◌}
use fragmenta.Base.{ok, text_eq_iff}
use fragmenta.Tlv.Wire.{TlvItem, decode_tlv}
use fragmenta.Tlv.Wire.Malformed.{decode_tlv_takes}
use fragmenta.Tlv.Values.Encode.{Value, Items, Entries, cons, end, entry}
use fragmenta.Tlv.Values.Decode.{
  decode_value, decode_items, decode_entries, expect_value, put_entry,
}
use fragmenta.Tlv.Values.RoundTrip.Normal.{IsFresh}

pub decode_items_step :
    (fuel max_alloc : ℕ) (src rest : List ℕ) (it : TlvItem) {v : Value} {vs : Items}
    → decode_tlv max_alloc src ≡ ok (it, rest)
    → decode_value fuel max_alloc it.header.type it.value ≡ ok v
    → decode_items fuel max_alloc rest ≡ ok vs
    → decode_items (suc fuel) max_alloc src ≡ ok (cons v vs)
unfolding decode_items
decode_items_step fuel max_alloc [] rest it h v vs =
    absurd (let (len, _) = decode_tlv_takes max_alloc [] [] rest it h in omega arith)
decode_items_step fuel max_alloc (b ∷ src) rest it h v vs = rw h (rw v (rw vs))

pub decode_entries_step :
    (fuel max_alloc : ℕ) (src after rest : List ℕ) (done : Entries) (key it : TlvItem) {v : Value}
    → decode_tlv max_alloc src ≡ ok (key, after)
    → expect_value key after ≡ ok after
    → decode_tlv max_alloc after ≡ ok (it, rest)
    → decode_value fuel max_alloc it.header.type it.value ≡ ok v
    → decode_entries (suc fuel) max_alloc src done
      ≡ decode_entries fuel max_alloc rest (put_entry key.value v done)
unfolding decode_entries
decode_entries_step fuel max_alloc [] after rest done key it h e i v =
    absurd (let (len, _) = decode_tlv_takes max_alloc [] [] after key h in omega arith)
decode_entries_step fuel max_alloc (b ∷ src) after rest done key it h e i v =
    rw h (rw e (rw i (rw v)))

-- The entries of the first map, then those of the second.
unfoldable pub join : Entries → Entries → Entries
join end es = es
join (entry k v fs) es = entry k v (join fs es)

abbrev pub IsDisjoint : Entries → Entries → Type 0
IsDisjoint done end = Unit
IsDisjoint done (entry k v es) = IsFresh k done × IsDisjoint done es

pub put_entry-join :
    (k : List ℕ) (v : Value) (done es : Entries)
    → IsFresh k done
    → join (put_entry k v done) es ≡ join done (entry k v es)
unfolding put_entry join
put_entry-join k v end es h = refl
put_entry-join k v (entry j w fs) es (ne, h) =
    ground (arith, text_eq_iff j k, put_entry-join k v fs es h)

put_entry-IsFresh :
    (j k : List ℕ) (v : Value) (done : Entries)
    → j ≢ k
    → IsFresh j done
    → IsFresh j (put_entry k v done)
unfolding put_entry
put_entry-IsFresh j k v end ne h = (ne, tt)
put_entry-IsFresh j k v (entry i w fs) ne (h, hs) =
    ground (arith, text_eq_iff i k, put_entry-IsFresh j k v fs ne hs)

pub put_entry-IsDisjoint :
    (k : List ℕ) (v : Value) (done es : Entries)
    → IsFresh k es
    → IsDisjoint done es
    → IsDisjoint (put_entry k v done) es
put_entry-IsDisjoint k v done end fresh d = tt
put_entry-IsDisjoint k v done (entry j w es) (ne, fresh) (h, d) =
    (put_entry-IsFresh j k v done (λ e. ne (sym e)) h, put_entry-IsDisjoint k v done es fresh d)

pub join-end : (es : Entries) → join es end ≡ es
unfolding join
join-end end = refl
join-end (entry k v es) = rw (join-end es)

pub end-IsDisjoint : (es : Entries) → IsDisjoint end es
end-IsDisjoint end = tt
end-IsDisjoint (entry k v es) = (tt, end-IsDisjoint es)
