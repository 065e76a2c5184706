-- ===== src/Tlv/Values/RoundTrip/Normal.antt =====
-- The value that is read back for a value: integers and floats in their smallest type.
use fragmenta.Base.{ℕ, ◌<◌, ◌^◌, ◌≢◌, List, leb, if◌then◌else◌}
use fragmenta.Base.Int.{ℤ, within, IsWithin}
use fragmenta.Tlv.Values.Encode.{Value, Items, Entries, Floats, nil, cons, end, entry}
use fragmenta.Tlv.Values.Encode.{null, other, int, uint, float32, float64, bool, string, bytes}
use fragmenta.Tlv.Values.Encode.{array, map, w8, w16, w32, w64}

unfoldable pub normal_int : ℤ → Value
normal_int v =
    if within 0x80 v
    then int w8 v
    else if within 0x8000 v
    then int w16 v
    else if within 0x8000_0000 v
    then int w32 v
    else int w64 v

unfoldable pub normal_uint : ℕ → Value
normal_uint v =
    if leb v 255
    then uint w8 v
    else if leb v 65535
    then uint w16 v
    else if leb v 4294967295
    then uint w32 v
    else uint w64 v

unfoldable pub normal_float : Floats → ℕ → Value
normal_float fl b = if fl.same (fl.widen (fl.narrow b)) b then float32 (fl.narrow b) else float64 b

unfoldable mutual
  pub normal : Floats → Value → Value
  normal fl null = null
  normal fl other = other
  normal fl (int w v) = normal_int v
  normal fl (uint w v) = normal_uint v
  normal fl (float32 b) = normal_float fl (fl.widen b)
  normal fl (float64 b) = normal_float fl b
  normal fl (bool b) = bool b
  normal fl (string s) = string s
  normal fl (bytes s) = bytes s
  normal fl (array xs) = array (normal_items fl xs)
  normal fl (map es) = map (normal_entries fl es)

  pub normal_items : Floats → Items → Items
  normal_items fl nil = nil
  normal_items fl (cons v vs) = cons (normal fl v) (normal_items fl vs)

  pub normal_entries : Floats → Entries → Entries
  normal_entries fl end = end
  normal_entries fl (entry k v es) = entry k (normal fl v) (normal_entries fl es)

abbrev pub IsFresh : List ℕ → Entries → Type 0
IsFresh k end = Unit
IsFresh k (entry j v es) = (k ≢ j) × IsFresh k es

-- The numbers are in the range of their Go types, and a map has each key once.
abbrev mutual
  pub IsValue : Value → Type 0
  IsValue null = Unit
  IsValue other = Unit
  IsValue (int w v) = IsWithin 0x8000_0000_0000_0000 v
  IsValue (uint w v) = v < 2 ^ 64
  IsValue (float32 b) = b < 2 ^ 32
  IsValue (float64 b) = b < 2 ^ 64
  IsValue (bool b) = Unit
  IsValue (string s) = Unit
  IsValue (bytes s) = Unit
  IsValue (array xs) = IsItems xs
  IsValue (map es) = IsEntries es

  pub IsItems : Items → Type 0
  IsItems nil = Unit
  IsItems (cons v vs) = IsValue v × IsItems vs

  pub IsEntries : Entries → Type 0
  IsEntries end = Unit
  IsEntries (entry k v es) = IsFresh k es × IsValue v × IsEntries es
