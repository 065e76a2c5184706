-- ===== src/Store/Header/RoundTrip.antt =====
-- A header that was written is read back, and what is read passes the checks of validateHeader.
use fragmenta.Base.{ℕ, ◌+◌, ◌<◌, ◌≡◌, ◌^◌, refl, sym, ap, ◌∙◌, arith, List, [], ◌++◌, length}
use fragmenta.Base.{
  Result, ok, ◌>>=◌, ◌>>◌, map_err, bind_inv, drop, true, false, ◌==◌, not, ltb, ◌||◌, ok_inj,
}
use fragmenta.Base.{length-append}
use fragmenta.Base.Int.{to_unsigned, IsWithin, to_signed-to_unsigned, to_unsigned-lt}
use fragmenta.Base.Bytes.{be_bytes, length-be_bytes}
use fragmenta.Store.Disk.{File, seek, write, ahead, read_some, concat}
use fragmenta.Store.Disk.Laws.{
  write_each_lem, ahead-write, drop-write, read_be-be_bytes, read_some-append,
}
use fragmenta.Store.Header.{Header, header_chunks, write_header, read_header, validate_header, word}
use fragmenta.Store.Header.{HeaderError, invalid_fragmenta, unsupported_version, magic_number}
use fragmenta.Store.Header.{current_version, min_supported_version, reading, field, guard}
use fragmenta.Base.{Bool, take, take-append}
use fragmenta.Base.Int.{ℤ}
use fragmenta.Base.Bytes.{be_value-be_bytes}
use fragmenta.Store.Header.{decode_int64, encode_int64}
use mathlib.Core.Path.{subst}
use mathlib.Core.List.{append_assoc, append-nil}

-- Each field is in the range of its Go type, and the file is one of this format and version.
pub record IsHeader (h : Header) : Type 0 where
  pub magic : h.magic ≡ magic_number
  pub version : h.version ≡ current_version
  pub flags : h.flags < 2 ^ 16
  pub timestamp : IsWithin (2 ^ 63) h.timestamp
  pub last_modified : IsWithin (2 ^ 63) h.last_modified
  pub storage_mode : h.storage_mode < 2 ^ 8
  pub reserved1 : h.reserved1 < 2 ^ 8
  pub reserved2 : h.reserved2 < 2 ^ 16
  pub metadata_offset : h.metadata_offset < 2 ^ 64
  pub metadata_size : h.metadata_size < 2 ^ 64
  pub block_offset : h.block_offset < 2 ^ 64
  pub block_size : h.block_size < 2 ^ 64
  pub index_offset : h.index_offset < 2 ^ 64
  pub index_size : h.index_size < 2 ^ 64
  pub total_size : h.total_size < 2 ^ 64
  pub user_defined_id : length h.user_defined_id ≡ 16
  pub check_sum : length h.check_sum ≡ 32

-- The bytes of a header in a row, with what follows them.
abbrev laid_out : Header → List ℕ → List ℕ
laid_out h rest =
    be_bytes 4 h.magic
    ++ (be_bytes 2 h.version
        ++ (be_bytes 2 h.flags
            ++ (be_bytes 8 (to_unsigned word h.timestamp)
                ++ (be_bytes 8 (to_unsigned word h.last_modified)
                    ++ (be_bytes 1 h.storage_mode
                        ++ (be_bytes 1 h.reserved1
                            ++ (be_bytes 2 h.reserved2
                                ++ (be_bytes 8 h.metadata_offset
                                    ++ (be_bytes 8 h.metadata_size
                                        ++ (be_bytes 8 h.block_offset
                                            ++ (be_bytes 8 h.block_size
                                                ++ (be_bytes 8 h.index_offset
                                                    ++ (be_bytes 8 h.index_size
                                                        ++ (be_bytes 8 h.total_size
                                                            ++ (h.user_defined_id
                                                            ++ (h.check_sum ++ rest))))))))))))))))

concat-header_chunks :
    (h : Header) (rest : List ℕ) → concat (header_chunks h) ++ rest ≡ laid_out h rest
unfolding header_chunks
concat-header_chunks h rest = simp append_assoc

read_laid_out : (h : Header) (rest : List ℕ) → IsHeader h → read_header (laid_out h rest) ≡ ok h
unfolding read_header
read_laid_out h rest is =
    rw
      (
        read_be-be_bytes 4 h.magic _ (omega (arith, is.magic)),
        is.magic,
        read_be-be_bytes 2 h.version _ (omega (arith, is.version)),
        is.version,
      )
      (rw (
        read_be-be_bytes 2 h.flags _ is.flags,
        read_be-be_bytes 8 (to_unsigned word h.timestamp) _
            (to_unsigned-lt (2 ^ 63) _ (omega arith)),
        to_signed-to_unsigned (2 ^ 63) h.timestamp is.timestamp,
        read_be-be_bytes 8 (to_unsigned word h.last_modified) _
            (to_unsigned-lt (2 ^ 63) _ (omega arith)),
        to_signed-to_unsigned (2 ^ 63) h.last_modified is.last_modified,
        read_be-be_bytes 1 h.storage_mode _ is.storage_mode,
        read_be-be_bytes 1 h.reserved1 _ is.reserved1,
        read_be-be_bytes 2 h.reserved2 _ is.reserved2,
        read_be-be_bytes 8 h.metadata_offset _ is.metadata_offset,
        read_be-be_bytes 8 h.metadata_size _ is.metadata_size,
        read_be-be_bytes 8 h.block_offset _ is.block_offset,
        read_be-be_bytes 8 h.block_size _ is.block_size,
        read_be-be_bytes 8 h.index_offset _ is.index_offset,
        read_be-be_bytes 8 h.index_size _ is.index_size,
        read_be-be_bytes 8 h.total_size _ is.total_size,
        read_some-append h.user_defined_id _ 16 is.user_defined_id,
        read_some-append h.check_sum _ 32 is.check_sum,
      ))

abbrev pub header_size : ℕ
header_size = 132

length-header_chunks : (h : Header) → IsHeader h → length (concat (header_chunks h)) ≡ header_size
length-header_chunks h is =
    ap length (sym (append-nil (concat (header_chunks h))) ∙ concat-header_chunks h [])
    ∙ simp (length-append, length-be_bytes, is.user_defined_id, is.check_sum) (omega arith)

write_header_lem :
    (h : Header) (f : File) → write_header h f ≡ write (concat (header_chunks h)) (seek 0 f)
unfolding write_header header_chunks
write_header_lem h f = write_each_lem _ _ (seek 0 f)

-- readHeader reads back the header that writeHeader wrote, whatever the file held before, if its
-- fields are in the ranges of their types and it has this format's magic number and version.
-- Behind the 132 bytes of the header, so from the metadata on, the file is as it was.
pub read_header-write_header :
    (h : Header) (f : File)
    → IsHeader h
    → (read_header (ahead (seek 0 (write_header h f))) ≡ ok h)
      × ((n : ℕ)
          → drop (header_size + n) (write_header h f).content ≡ drop (header_size + n) f.content)
unfolding seek
read_header-write_header h f is = (read_back, behind)
  where
    size : length (concat (header_chunks h)) ≡ header_size
    size = length-header_chunks h is

    from_start : (n : ℕ) → header_size + n ≡ 0 + length (concat (header_chunks h)) + n
    from_start n = omega (arith, size)

    read_back : read_header (ahead (seek 0 (write_header h f))) ≡ ok h
    read_back =
        ap (λ (g : File). read_header (ahead (seek 0 g))) (write_header_lem h f)
        ∙ ap read_header (ahead-write (concat (header_chunks h)) (seek 0 f))
        ∙ ap read_header (concat-header_chunks h _)
        ∙ read_laid_out h _ is

    behind :
        (n : ℕ)
        → drop (header_size + n) (write_header h f).content ≡ drop (header_size + n) f.content
    behind n =
        ap (λ (g : File). drop (header_size + n) g.content) (write_header_lem h f)
        ∙ ap (λ m. drop m (write (concat (header_chunks h)) (seek 0 f)).content) (from_start n)
        ∙ drop-write n (concat (header_chunks h)) (seek 0 f)
        ∙ ap (λ m. drop m f.content) (sym (from_start n))

-- A property of what a reading step yields, if it yields anything.
record Yields {A : Type 0} (P : A → Type 0) (r : Result HeaderError A) : Type 0 where
  at : (a : A) → r ≡ ok a → P a

module _ {A B : Type 0} {P : B → Type 0} where
  Yields-bind :
      (m : Result HeaderError A) (f : A → Result HeaderError B)
      → ((a : A) → Yields P (f a))
      → Yields P (m >>= f)
  Yields-bind m f h = record { at = λ b e. let (a, _, e') = bind_inv m f e in (h a).at b e' }

module _ {B : Type 0} {P : B → Type 0} where
  Yields-guard :
      (b : Bool) (e : HeaderError) (m : Result HeaderError B)
      → (b ≡ false → Yields P m)
      → Yields P (guard b e >> m)
  Yields-guard true e m h = record { at = λ a q. cc }
  Yields-guard false e m h = h refl

  Yields-ok : (b : B) → P b → Yields P (ok b)
  Yields-ok b p = record { at = λ a e. subst P (ok_inj e) p }

IsAccepted : Header → Type 0
IsAccepted h = validate_header h ≡ ok tt

passes_checks :
    (h : Header)
    → not (h.magic == magic_number) ≡ false
    → (ltb h.version min_supported_version || ltb current_version h.version) ≡ false
    → IsAccepted h
unfolding IsAccepted validate_header
passes_checks h m v = ground arith

read_header-Yields : (src : List ℕ) → Yields IsAccepted (read_header src)
unfolding read_header
read_header-Yields src = Yields-bind (field 4 src) _ λ (magic, s1).
    Yields-guard (not (magic == magic_number)) invalid_fragmenta _ λ right_magic.
      Yields-bind (field 2 s1) _ λ (version, s2).
        Yields-guard (ltb version min_supported_version || ltb current_version version)
          unsupported_version _
          λ right_version. Yields-bind (field 2 s2) _ λ r3. Yields-bind (field 8 r3.1) _ λ r4.
            Yields-bind (field 8 r4.1) _ λ r5. Yields-bind (field 1 r5.1) _ λ r6.
              Yields-bind (field 1 r6.1) _ λ r7. Yields-bind (field 2 r7.1) _ λ r8.
                Yields-bind (field 8 r8.1) _ λ r9. Yields-bind (field 8 r9.1) _ λ r10.
                  Yields-bind (field 8 r10.1) _ λ r11. Yields-bind (field 8 r11.1) _ λ r12.
                    Yields-bind (field 8 r12.1) _ λ r13. Yields-bind (field 8 r13.1) _ λ r14.
                      Yields-bind (field 8 r14.1) _ λ r15.
                        Yields-bind (map_err reading (read_some 16 r15.1)) _ λ r16.
                          Yields-bind (map_err reading (read_some 32 r16.1)) _
                            λ r17. Yields-ok _ (passes_checks _ right_magic right_version)

-- Where readHeader succeeds, validateHeader finds nothing to object: it accepts no other magic
-- number and no other version.
pub read_header-validate_header :
    (src : List ℕ) (h : Header) → read_header src ≡ ok h → validate_header h ≡ ok tt
unfolding IsAccepted
read_header-validate_header src h e = (read_header-Yields src).at h e

-- DecodeInt64 reads back the 64-bit integer that EncodeInt64 wrote, whatever follows it.
pub decode_int64-encode_int64 :
    (v : ℤ) (rest : List ℕ) → IsWithin (2 ^ 63) v → decode_int64 (encode_int64 v ++ rest) ≡ v
unfolding decode_int64 encode_int64
decode_int64-encode_int64 v rest h =
    rw (first, be_value-be_bytes 8 (to_unsigned word v) (to_unsigned-lt (2 ^ 63) v (omega arith)))
      (ground (arith, long, to_signed-to_unsigned (2 ^ 63) v h))
  where
    bytes : List ℕ
    bytes = be_bytes 8 (to_unsigned word v)

    size : length bytes ≡ 8
    size = length-be_bytes 8 (to_unsigned word v)

    first : take 8 (bytes ++ rest) ≡ bytes
    first = ap (λ n. take n (bytes ++ rest)) (sym size) ∙ take-append bytes rest

    long : ltb (length (bytes ++ rest)) 8 ≡ false
    long = ground (arith, length-append bytes rest, size)
