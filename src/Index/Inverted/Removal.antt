-- ===== src/Index/Inverted/Removal.antt =====
-- The entries of the index after removeDocumentUnsafe.
use fragmenta.Base.{
  ℕ, suc, ◌≤◌, ◌≡◌, refl, sym, ap, ◌∙◌, arith, List, [], ◌∷◌, Option, none, some, ◌==◌,
}
use fragmenta.Base.{
  if◌then◌else◌, Bool, true, false, ◌&&◌, length, text_eq, text_eq_iff, text_eq_self, Bool-cases,
  inl, inr,
}
use fragmenta.Base.Int.{pos}
use fragmenta.Base.Map.{nat_eq, text_keys, delete, lookup, lookup-delete}
use fragmenta.Base.Map.Keys.{IsKeyed, IsKeyed-delete, length-delete, gone, lookup-single}
use fragmenta.Index.Tree.{decrement}
use fragmenta.Index.Inverted.{
  PostingInfo, InvertedIndex, IndexMap, at_most_zero, unposted, unpost, unpost_all,
}
use fragmenta.Index.Inverted.Terms.{
  posted, frequency, IsEntry, IsIndexed, IsIndexed-insert, frequency-insert,
}

-- The entry holds a posting of the document.
abbrev Holds : ℕ → InvertedIndex → Type 0
Holds id entry = (p : PostingInfo) × (lookup id entry.postings ≡ some p)

posted-unposted :
    (i id : ℕ) (entry : InvertedIndex)
    → posted i (unposted id entry) ≡ (if id == i then none else posted i entry)
posted-unposted i id entry = ground (arith, lookup-delete id i entry.postings)

length-unposted :
    (id : ℕ) (entry : InvertedIndex)
    → IsEntry entry
    → Holds id entry
    → suc (length (unposted id entry).postings) ≡ length entry.postings
length-unposted id entry (df, u) (p, e) =
    omega (arith, length-delete id entry.postings u, ap gone e)

IsEntry-unposted :
    (id : ℕ) (entry : InvertedIndex) → IsEntry entry → Holds id entry → IsEntry (unposted id entry)
IsEntry-unposted id entry (df, u) here = (
  ap decrement (df ∙ ap pos (sym (length-unposted id entry (df, u) here))),
  IsKeyed-delete id entry.postings u,
)

-- An entry goes exactly when its last posting does.
at_most_zero-unposted :
    (id : ℕ) (entry : InvertedIndex)
    → IsEntry entry
    → Holds id entry
    → at_most_zero (decrement entry.document_frequency) ≡ (length (unposted id entry).postings == 0)
at_most_zero-unposted id entry sound here =
    ap at_most_zero (IsEntry-unposted id entry sound here).0
    ∙ elim (unposted id entry).postings as (λ m. at_most_zero (pos (length m)) ≡ (length m == 0)) [
      | [] ↦ refl
      | ◌∷◌ x m ↦ ground arith
    ]

-- Where no other posting is, no other document has the term.
posted-single :
    (i id : ℕ) (entry : InvertedIndex)
    → Holds id entry
    → length entry.postings ≡ 1
    → (if id == i then none else posted i entry) ≡ none
posted-single i id entry (p, e) single = elim (Bool-cases (id == i)) [
  | inl h ↦ rw h refl
  | inr h ↦ ground (arith, h, lookup-single id i p entry.postings single e h)
]

frequency-delete :
    (t term : List ℕ) (i : ℕ) (m : IndexMap)
    → frequency t i (delete term m) ≡ (if text_eq term t then none else frequency t i m)
unfolding frequency
frequency-delete t term i m = ground (arith, lookup-delete term t m)

IsIndexed-delete : (term : List ℕ) (m : IndexMap) → IsIndexed m → IsIndexed (delete term m)
IsIndexed-delete term m indexed t found h =
    indexed t found (ground (arith, h, lookup-delete term t m))

-- A round of the loop, for a term that the index has for the document.
frequency-unpost :
    (t term : List ℕ) (i id : ℕ) (m : IndexMap) (entry : InvertedIndex)
    → lookup term m ≡ some entry
    → IsEntry entry
    → Holds id entry
    → frequency t i (unpost id term (some entry) m)
      ≡ (if text_eq term t && id == i then none else frequency t i m)
frequency-unpost t term i id m entry found sound here =
    elim (Bool-cases (at_most_zero (decrement entry.document_frequency))) [
      | inl e ↦ rw e (
          frequency-delete t term i m
          ∙ ground (
            arith,
            e,
            at_most_zero-unposted id entry sound here,
            length-unposted id entry sound here,
            posted-single i id entry here,
            at_term,
            text_eq_iff term t,
          ))
      | inr e ↦ rw e (
          frequency-insert t term i (unposted id entry) m
          ∙ ground (arith, posted-unposted i id entry, at_term, text_eq_iff term t))
    ]
  where
    at_term : text_eq term t ≡ true → frequency t i m ≡ posted i entry
    at_term e = unfold frequency in ground (arith, e, found, text_eq_iff term t)

IsIndexed-unpost :
    (term : List ℕ) (id : ℕ) (m : IndexMap) (entry : InvertedIndex)
    → IsEntry entry
    → Holds id entry
    → IsIndexed m
    → IsIndexed (unpost id term (some entry) m)
IsIndexed-unpost term id m entry sound here indexed =
    elim (Bool-cases (at_most_zero (decrement entry.document_frequency))) [
      | inl e ↦ rw e (IsIndexed-delete term m indexed)
      | inr e ↦ rw e (
          IsIndexed-insert term (unposted id entry) m
            (IsEntry-unposted id entry sound here, one_left e) indexed)
    ]
  where
    one_left :
        at_most_zero (decrement entry.document_frequency) ≡ false
        → 1 ≤ length (unposted id entry).postings
    one_left e = ground (arith, e, at_most_zero-unposted id entry sound here)

option_inv :
    {A B : Type 0} (f : A → Option B) (o : Option A) (b : B)
    → ◌≡◌ {A = Option B} (elim o [ none ↦ none | some a ↦ f a ]) (some b)
    → (a : A) × (o ≡ some a) × (f a ≡ some b)
option_inv f none b h = cc
option_inv f (some a) b h = (a, refl, h)

-- What the index has for the document and the term.
frequency_inv :
    (term : List ℕ) (id k : ℕ) (m : IndexMap)
    → frequency term id m ≡ some k
    → (entry : InvertedIndex) × (lookup term m ≡ some entry) × Holds id entry
unfolding frequency
frequency_inv term id k m h =
    let (entry, e, here) = option_inv (posted id) (lookup term m) k h in
    let (p, e', same) = option_inv (λ p. some p.term_frequency) (lookup id entry.postings) k here in
    (entry, e, (p, e'))

unpost_lem :
    (id : ℕ) (term : List ℕ) (m : IndexMap) (k : ℕ)
    → frequency term id m ≡ some k
    → IsIndexed m
    → IsIndexed (unpost id term (lookup term m) m)
      × ((t : List ℕ) (i : ℕ)
          → frequency t i (unpost id term (lookup term m) m)
            ≡ (if text_eq term t && id == i then none else frequency t i m))
unpost_lem id term m k h indexed =
    let (entry, found, here) = frequency_inv term id k m h in
    let sound = (indexed term entry found).0 in
    rw found (
      IsIndexed-unpost term id m entry sound here indexed,
      λ t i. frequency-unpost t term i id m entry found sound here,
    )

-- The terms of the document that are left to the loop.
abbrev pub IsPosted : ℕ → List (List ℕ × ℕ) → IndexMap → Type 0
IsPosted id tf m =
    (term : List ℕ) (n : ℕ) → lookup term tf ≡ some n → (k : ℕ) × (frequency term id m ≡ some k)

abbrev pub has : List ℕ → List (List ℕ × ℕ) → Bool
has term tf = elim (lookup term tf) [ none ↦ false | some n ↦ true ]

pub unpost_all_lem :
    (id : ℕ) (tf : List (List ℕ × ℕ)) (m : IndexMap)
    → IsKeyed tf
    → IsPosted id tf m
    → IsIndexed m
    → IsIndexed (unpost_all id tf m)
      × ((t : List ℕ) (i : ℕ)
          → frequency t i (unpost_all id tf m)
            ≡ (if id == i && has t tf then none else frequency t i m))
unfolding unpost_all
unpost_all_lem id [] m u posts indexed = (indexed, λ t i. unfold lookup in ground arith)
unpost_all_lem id ((term, n) ∷ tf) m (absent, u) posts indexed =
    let (k, h) = posts term n (unfold lookup in rw (text_eq_self term) refl) in
    let (indexed', frequencies) = unpost_lem id term m k h indexed in
    let (all_indexed, all_frequencies) =
      unpost_all_lem id tf (unpost id term (lookup term m) m) u (still frequencies) indexed' in
    (
      all_indexed,
      λ t i.
          ground
            (arith, all_frequencies t i, frequencies t i, has_head t, text_eq_iff term t, absent),
    )
  where
    has_head : (t : List ℕ) → has t ((term, n) ∷ tf) ≡ (if text_eq term t then true else has t tf)
    has_head t = unfold lookup in ground arith

    still :
        ((t : List ℕ) (i : ℕ)
          → frequency t i (unpost id term (lookup term m) m)
            ≡ (if text_eq term t && id == i then none else frequency t i m))
        → IsPosted id tf (unpost id term (lookup term m) m)
    still frequencies t n' h =
        let (k, posting) =
          posts t n' (unfold lookup in ground (arith, h, absent, text_eq_iff term t)) in
        (k, ground (arith, h, absent, text_eq_iff term t, frequencies t id, posting))
