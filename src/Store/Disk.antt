-- ===== src/Store/Disk.antt =====
-- The io.ReadWriteSeeker under the file format: the bytes of a file and a position. Failures of the
-- operating system are not modelled; the end of the file is.
pub mod Laws
use fragmenta.Base.{
  ℕ, zero, suc, ◌+◌, ◌-◌, ◌≤◌, ◌≡◌, refl, sym, ap, ◌∙◌, arith, List, [], ◌∷◌, ◌++◌,
}
use fragmenta.Base.{length, take, drop, length-append, length-take, Result, ok, err, ◌>>=◌}
use fragmenta.Base.Bytes.{ReadError, eof, read_full, be_value}
use mathlib.Core.List.{append_assoc}

pub record File : Type 0 where
  pub content : List ℕ
  pub pos : ℕ

-- Seek(n, io.SeekStart).
unfoldable pub seek : ℕ → File → File
seek n f = record f { pos = n }

abbrev pub zeros : ℕ → List ℕ
zeros zero = []
zeros (suc n) = 0 ∷ zeros n

-- The bytes in front of a position; a gap behind the end of the file is filled with zeros.
unfoldable pub front : ℕ → List ℕ → List ℕ
front n content = take n content ++ zeros (n - length content)

-- Write.
unfoldable pub write : List ℕ → File → File
write bytes f = record {
  content = front f.pos f.content ++ (bytes ++ drop (f.pos + length bytes) f.content);
  pos = f.pos + length bytes;
}

-- Consecutive writes, one for each field.
unfoldable pub write_each : List (List ℕ) → File → File
write_each [] f = f
write_each (bytes ∷ more) f = write_each more (write bytes f)

-- What is left to read.
unfoldable pub ahead : File → List ℕ
ahead f = drop f.pos f.content

-- file.Read into a buffer of `n` bytes: at the end of the file io.EOF, in front of it what there
-- is, and the rest of the buffer stays zero.
unfoldable pub read_some : ℕ → List ℕ → Result ReadError (List ℕ × List ℕ)
read_some zero src = ok ([], src)
read_some (suc n) [] = err eof
read_some (suc n) (b ∷ src) = ok (front (suc n) (b ∷ src), drop n src)

-- binary.Read of an unsigned big-endian integer of `k` bytes.
unfoldable pub read_be : ℕ → List ℕ → Result ReadError (ℕ × List ℕ)
read_be k src = do (bytes, rest) ← read_full k src; ok (be_value bytes, rest)

abbrev pub concat : List (List ℕ) → List ℕ
concat [] = []
concat (xs ∷ more) = xs ++ concat more
