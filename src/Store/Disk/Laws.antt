-- ===== src/Store/Disk/Laws.antt =====
-- What was written can be read, and nothing else changes.
use fragmenta.Base.{
  ℕ, zero, suc, ◌+◌, ◌-◌, ◌<◌, ◌^◌, ◌≡◌, refl, sym, ap, ◌∙◌, arith, List, [], ◌∷◌, ◌++◌,
}
use fragmenta.Base.{length, take, drop, length-append, length-take, ok, take-append}
use fragmenta.Base.Bytes.{read_full-append, be_bytes, length-be_bytes, be_value-be_bytes}
use fragmenta.Store.Disk.{
  File, seek, write, write_each, front, zeros, ahead, read_some, read_be, concat,
}
use mathlib.Core.Path.{ap₂}
use mathlib.Core.List.{append_assoc, append-nil}

module _ {ℓ} {A : Type ℓ} where
  pub drop-append : (xs ys : List A) → drop (length xs) (xs ++ ys) ≡ ys
  drop-append [] ys = refl
  drop-append (x ∷ xs) ys = drop-append xs ys

  drop-append_add : (n : ℕ) (xs ys : List A) → drop (length xs + n) (xs ++ ys) ≡ drop n ys
  drop-append_add n [] ys = ap (λ k. drop k ys) (let e : 0 + n ≡ n = omega arith in e)
  drop-append_add n (x ∷ xs) ys =
      ap (λ k. drop k (x ∷ (xs ++ ys)))
        (let e : suc (length xs) + n ≡ suc (length xs + n) = omega arith in e)
      ∙ drop-append_add n xs ys

  drop-nil : (n : ℕ) → drop {A = A} n [] ≡ []
  drop-nil zero = refl
  drop-nil (suc n) = refl

  pub drop-drop : (m n : ℕ) (xs : List A) → drop n (drop m xs) ≡ drop (m + n) xs
  drop-drop zero n xs = ap (λ k. drop k xs) (let e : n ≡ 0 + n = omega arith in e)
  drop-drop (suc m) n [] = drop-nil n ∙ sym (drop-nil (suc m + n))
  drop-drop (suc m) n (x ∷ xs) =
      drop-drop m n xs
      ∙ ap (λ k. drop k (x ∷ xs)) (let e : suc (m + n) ≡ suc m + n = omega arith in e)

pub length-zeros : (n : ℕ) → length (zeros n) ≡ n
length-zeros zero = refl
length-zeros (suc n) = ap suc (length-zeros n)

pub length-front : (n : ℕ) (content : List ℕ) → length (front n content) ≡ n
unfolding front
length-front n content = omega (
  arith,
  length-append (take n content) (zeros (n - length content)),
  length-take n content,
  length-zeros (n - length content),
)

-- A file whose content is known in front of the position and from it on.
abbrev joined : List ℕ → List ℕ → List ℕ → File
joined before bytes behind = record {
  content = before ++ (bytes ++ behind);
  pos = length before + length bytes;
}

write_lem :
    (bytes : List ℕ) (f : File)
    → write bytes f ≡ joined (front f.pos f.content) bytes (drop (f.pos + length bytes) f.content)
unfolding write
write_lem bytes f =
    ap
      (λ n. record {
        content = front f.pos f.content ++ (bytes ++ drop (f.pos + length bytes) f.content);
        pos = n + length bytes;
      })
      (sym (length-front f.pos f.content))

front_joined :
    (before bytes behind : List ℕ)
    → front (length before + length bytes) (before ++ (bytes ++ behind)) ≡ before ++ bytes
unfolding front
front_joined before bytes behind = ap₂ glue taken no_gap ∙ append-nil (before ++ bytes)
  where
    glue : List ℕ → List ℕ → List ℕ
    glue xs ys = xs ++ ys

    whole : length (before ++ (bytes ++ behind)) ≡ length before + length bytes + length behind
    whole = omega (arith, length-append before (bytes ++ behind), length-append bytes behind)

    taken : take (length before + length bytes) (before ++ (bytes ++ behind)) ≡ before ++ bytes
    taken =
        rw (← length-append before bytes, ← append_assoc before bytes behind)
          (take-append (before ++ bytes) behind)

    no_gap : zeros (length before + length bytes - length (before ++ (bytes ++ behind))) ≡ []
    no_gap = ap zeros (
        let e : length before + length bytes - length (before ++ (bytes ++ behind)) ≡ 0 =
          omega (arith, whole) in
        e)

drop_joined :
    (n : ℕ) (before bytes behind : List ℕ)
    → drop (length before + length bytes + n) (before ++ (bytes ++ behind)) ≡ drop n behind
drop_joined n before bytes behind =
    rw (← length-append before bytes, ← append_assoc before bytes behind)
      (drop-append_add n (before ++ bytes) behind)

write-joined :
    (before bytes behind more : List ℕ)
    → write more (joined before bytes behind)
      ≡ joined before (bytes ++ more) (drop (length more) behind)
unfolding write
write-joined before bytes behind more =
    ap₂ (λ (c : List ℕ) (n : ℕ). let f : File = record { content = c; pos = n } in f) content_same
      pos_same
  where
    content_same :
        front (length before + length bytes) (before ++ (bytes ++ behind))
          ++ (more
              ++ drop (length before + length bytes + length more) (before ++ (bytes ++ behind)))
        ≡ before ++ ((bytes ++ more) ++ drop (length more) behind)
    content_same =
        rw (front_joined before bytes behind, drop_joined (length more) before bytes behind)
          (simp append_assoc)

    pos_same : length before + length bytes + length more ≡ length before + length (bytes ++ more)
    pos_same = omega (arith, length-append bytes more)

write_each-joined :
    (chunks : List (List ℕ)) (before bytes behind : List ℕ)
    → write_each chunks (joined before bytes behind)
      ≡ joined before (bytes ++ concat chunks) (drop (length (concat chunks)) behind)
unfolding write_each
write_each-joined [] before bytes behind = rw append-nil
write_each-joined (more ∷ chunks) before bytes behind =
    ap (write_each chunks) (write-joined before bytes behind more)
    ∙ write_each-joined chunks before (bytes ++ more) (drop (length more) behind)
    ∙ ap₂ (joined before) (append_assoc bytes more (concat chunks)) (
        drop-drop (length more) (length (concat chunks)) behind
        ∙ ap (λ n. drop n behind) (sym (length-append more (concat chunks))))

-- Consecutive writes are one write of all their bytes.
pub write_each_lem :
    (chunk : List ℕ) (chunks : List (List ℕ)) (f : File)
    → write_each (chunk ∷ chunks) f ≡ write (concat (chunk ∷ chunks)) f
unfolding write_each
write_each_lem chunk chunks f =
    ap (write_each chunks) (write_lem chunk f)
    ∙ write_each-joined chunks (front f.pos f.content) chunk (drop (f.pos + length chunk) f.content)
    ∙ ap (joined (front f.pos f.content) (chunk ++ concat chunks)) (
        drop-drop (f.pos + length chunk) (length (concat chunks)) f.content
        ∙ ap (λ n. drop n f.content) (omega (arith, length-append chunk (concat chunks))))
    ∙ sym (write_lem (chunk ++ concat chunks) f)

-- What a write put at its position is what is read there, before what stood behind it.
pub ahead-write :
    (bytes : List ℕ) (f : File)
    → ahead (seek f.pos (write bytes f)) ≡ bytes ++ drop (f.pos + length bytes) f.content
unfolding ahead seek
ahead-write bytes f =
    ap (λ (g : File). drop f.pos g.content) (write_lem bytes f)
    ∙ ap (λ n. drop n (front f.pos f.content ++ (bytes ++ drop (f.pos + length bytes) f.content)))
        (sym (length-front f.pos f.content))
    ∙ drop-append (front f.pos f.content) (bytes ++ drop (f.pos + length bytes) f.content)

-- A write changes nothing behind its bytes.
pub drop-write :
    (n : ℕ) (bytes : List ℕ) (f : File)
    → drop (f.pos + length bytes + n) (write bytes f).content
      ≡ drop (f.pos + length bytes + n) f.content
drop-write n bytes f =
    ap (λ (g : File). drop (f.pos + length bytes + n) g.content) (write_lem bytes f)
    ∙ ap
        (λ m.
          drop (m + length bytes + n)
            (front f.pos f.content ++ (bytes ++ drop (f.pos + length bytes) f.content)))
        (sym (length-front f.pos f.content))
    ∙ drop_joined n (front f.pos f.content) bytes (drop (f.pos + length bytes) f.content)
    ∙ drop-drop (f.pos + length bytes) n f.content

pub read_be-be_bytes :
    (k v : ℕ) (rest : List ℕ) → v < 256 ^ k → read_be k (be_bytes k v ++ rest) ≡ ok (v, rest)
unfolding read_be
read_be-be_bytes k v rest h =
    rw (read_full-append (be_bytes k v) rest k (length-be_bytes k v))
      (ap (λ (x : ℕ). ok (x, rest)) (be_value-be_bytes k v h))

front-append : (bytes rest : List ℕ) → front (length bytes) (bytes ++ rest) ≡ bytes
front-append bytes rest =
    ap (λ n. front n (bytes ++ rest)) (let e : length bytes ≡ 0 + length bytes = omega arith in e)
    ∙ front_joined [] bytes rest

-- A buffer that the file can fill is filled.
pub read_some-append :
    (bytes rest : List ℕ) (n : ℕ)
    → length bytes ≡ n
    → read_some n (bytes ++ rest) ≡ ok (bytes, rest)
read_some-append [] rest n h = rw (← h) (unfold read_some in refl)
read_some-append (b ∷ bytes) rest n h = rw (← h) (filled (front-append (b ∷ bytes) rest))
  where
    filled :
        front (suc (length bytes)) (b ∷ (bytes ++ rest)) ≡ b ∷ bytes
        → read_some (suc (length bytes)) (b ∷ (bytes ++ rest)) ≡ ok (b ∷ bytes, rest)
    filled e = unfold read_some in ap₂ (λ (x y : List ℕ). ok (x, y)) e (drop-append bytes rest)
