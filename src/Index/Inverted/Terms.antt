-- ===== src/Index/Inverted/Terms.antt =====
-- How often a term stands in a document, by the document's tokens and by the entries of the index,
-- before and after a document's tokens are posted.
use fragmenta.Base.{
  ℕ, zero, suc, ◌≤◌, ◌≡◌, refl, ap, ◌∙◌, arith, List, [], ◌∷◌, Option, none, some, ◌==◌,
}
use fragmenta.Base.{
  if◌then◌else◌, true, ◌&&◌, length, text_eq, text_eq_iff, Bool-cases, Option-cases, inl, inr,
}
use fragmenta.Base.Int.{pos}
use fragmenta.Base.Map.{nat_eq, text_keys, insert, lookup, lookup-insert}
use fragmenta.Base.Map.Keys.{IsKeyed, IsKeyed-insert, length-insert, length-lookup, added}
use mathlib.Core.Path.{subst}
use fragmenta.Index.Tree.{increment}
use fragmenta.Index.Inverted.{
  Token, is_stop_word, PostingInfo, InvertedIndex, IndexMap, frequency_of, count_term,
}
use fragmenta.Index.Inverted.{entry_of, posting_after, post, post_at, post_all}

-- The tokens of a document that are the term, stop words left out.
unfoldable pub hits : List ℕ → List Token → ℕ
hits term [] = 0
hits term (t ∷ ts) =
    let rest = hits term ts in
    if is_stop_word t.kind then rest else if text_eq t.normalized term then suc rest else rest

abbrev pub more : Option ℕ → Option ℕ
more none = some 1
more (some n) = some (suc n)

-- `n` more; from none on, the number if it is not 0.
unfoldable pub plus : ℕ → Option ℕ → Option ℕ
plus zero o = o
plus (suc n) o = plus n (more o)

abbrev pub posted : ℕ → InvertedIndex → Option ℕ
posted id entry = elim (lookup id entry.postings) [ none ↦ none | some p ↦ some p.term_frequency ]

-- The frequency of a term that the index has for a document.
unfoldable pub frequency : List ℕ → ℕ → IndexMap → Option ℕ
frequency term id m = elim (lookup term m) [ none ↦ none | some entry ↦ posted id entry ]

-- The document frequency of an entry is the number of its postings, one for a document.
abbrev pub IsEntry : InvertedIndex → Type 0
IsEntry entry = (entry.document_frequency ≡ pos (length entry.postings)) × IsKeyed entry.postings

-- No entry of the index is empty.
abbrev pub IsIndexed : IndexMap → Type 0
IsIndexed m =
    (term : List ℕ) (entry : InvertedIndex)
    → lookup term m ≡ some entry
    → IsEntry entry × (1 ≤ length entry.postings)

posted-post_at :
    (i id position : ℕ) (entry : InvertedIndex) (o : Option PostingInfo)
    → lookup id entry.postings ≡ o
    → posted i (post_at id position o entry)
      ≡ (if id == i then more (posted id entry) else posted i entry)
posted-post_at i id position entry none e = ground (
  arith,
  e,
  lookup-insert id i (posting_after position (record { term_frequency = 0; positions = [] }))
      entry.postings,
)
posted-post_at i id position entry (some p) e =
    ground (arith, e, lookup-insert id i (posting_after position p) entry.postings)

IsEntry-post_at :
    (id position : ℕ) (entry : InvertedIndex) (o : Option PostingInfo)
    → lookup id entry.postings ≡ o
    → IsEntry entry
    → IsEntry (post_at id position o entry) × (1 ≤ length (post_at id position o entry).postings)
IsEntry-post_at id position entry none e (df, u) =
    let p = posting_after position (record { term_frequency = 0; positions = [] }) in
    ((ap increment df ∙ ap pos (new p), IsKeyed-insert id p entry.postings u), omega (arith, new p))
  where
    new : (p : PostingInfo) → suc (length entry.postings) ≡ length (insert id p entry.postings)
    new p = omega (arith, length-insert id p entry.postings, ap added e)
IsEntry-post_at id position entry (some p) e (df, u) = (
  (df ∙ ap pos same, IsKeyed-insert id (posting_after position p) entry.postings u),
  omega (arith, same, length-lookup id p entry.postings e),
)
  where
    same : length entry.postings ≡ length (insert id (posting_after position p) entry.postings)
    same = omega (arith, length-insert id (posting_after position p) entry.postings, ap added e)

lookup-count_term :
    (t term : List ℕ) (tf : List (List ℕ × ℕ))
    → lookup t (count_term term tf) ≡ (if text_eq term t then more (lookup t tf) else lookup t tf)
unfolding count_term
lookup-count_term t term tf =
    ground (arith, lookup-insert term t (suc (frequency_of term tf)) tf, text_eq_iff term t)

pub frequency-insert :
    (t term : List ℕ) (i : ℕ) (entry : InvertedIndex) (m : IndexMap)
    → frequency t i (insert term entry m)
      ≡ (if text_eq term t then posted i entry else frequency t i m)
unfolding frequency
frequency-insert t term i entry m = ground (arith, lookup-insert term t entry m)

posted-entry_of :
    (i : ℕ) (term : List ℕ) (m : IndexMap) → posted i (entry_of term m) ≡ frequency term i m
unfolding frequency
posted-entry_of i term m = elim (Option-cases (lookup term m)) [
  | inl e ↦ unfold lookup in ground (arith, e)
  | inr (entry, e) ↦ ground (arith, e)
]

-- A round of the loop of IndexDocument.
abbrev next_map : ℕ → Token → IndexMap → IndexMap
next_map id t m = insert t.normalized (post id t.position (entry_of t.normalized m)) m

frequency-next_map :
    (term : List ℕ) (i id : ℕ) (t : Token) (m : IndexMap)
    → frequency term i (next_map id t m) ≡ (
        if text_eq t.normalized term && id == i
        then more (frequency term i m)
        else frequency term i m)
frequency-next_map term i id t m =
    let entry = entry_of t.normalized m in
    ground (
      arith,
      frequency-insert term t.normalized i (post id t.position entry) m,
      posted-post_at i id t.position entry (lookup id entry.postings) refl,
      posted-entry_of i t.normalized m,
      posted-entry_of id t.normalized m,
      text_eq_iff t.normalized term,
    )

pub IsIndexed-insert :
    (term : List ℕ) (entry : InvertedIndex) (m : IndexMap)
    → IsEntry entry × (1 ≤ length entry.postings)
    → IsIndexed m
    → IsIndexed (insert term entry m)
IsIndexed-insert term entry m sound indexed t found h = elim (Bool-cases (text_eq term t)) [
  | inl e ↦ subst (λ x. IsEntry x × (1 ≤ length x.postings)) (same e) sound
  | inr e ↦ indexed t found (ground (arith, e, h, lookup-insert term t entry m))
]
  where
    same : text_eq term t ≡ true → entry ≡ found
    same e = ground (arith, e, h, lookup-insert term t entry m)

IsEntry-entry_of : (term : List ℕ) (m : IndexMap) → IsIndexed m → IsEntry (entry_of term m)
IsEntry-entry_of term m indexed = after (lookup term m) refl
  where
    after :
        (o : Option InvertedIndex)
        → lookup term m ≡ o
        → IsEntry (elim o [
          | none ↦ record { term = term; document_frequency = pos 0; postings = [] }
          | some entry ↦ entry
        ])
    after none e = (refl, tt)
    after (some entry) e = (indexed term entry e).0

IsIndexed-next_map : (id : ℕ) (t : Token) (m : IndexMap) → IsIndexed m → IsIndexed (next_map id t m)
IsIndexed-next_map id t m indexed =
    let entry = entry_of t.normalized m in
    IsIndexed-insert t.normalized (post id t.position entry) m
      (IsEntry-post_at id t.position entry (lookup id entry.postings) refl
        (IsEntry-entry_of t.normalized m indexed))
      indexed

-- The loop of IndexDocument: the document has each term as often as its tokens have it, and nothing
-- changes for other documents.
pub frequency-post_all :
    (term : List ℕ) (i id : ℕ) (ts : List Token) (tf : List (List ℕ × ℕ)) (m : IndexMap)
    → frequency term i (post_all id ts tf m).1
      ≡ (if id == i then plus (hits term ts) (frequency term i m) else frequency term i m)
unfolding post_all hits plus
frequency-post_all term i id [] tf m = ground arith
frequency-post_all term i id (t ∷ ts) tf m = elim (Bool-cases (is_stop_word t.kind)) [
  | inl e ↦ rw e (frequency-post_all term i id ts tf m)
  | inr e ↦ rw e (
      frequency-post_all term i id ts (count_term t.normalized tf) (next_map id t m)
      ∙ ground (arith, frequency-next_map term i id t m))
]

pub lookup-post_all :
    (term : List ℕ) (id : ℕ) (ts : List Token) (tf : List (List ℕ × ℕ)) (m : IndexMap)
    → lookup term (post_all id ts tf m).0 ≡ plus (hits term ts) (lookup term tf)
unfolding post_all hits plus
lookup-post_all term id [] tf m = refl
lookup-post_all term id (t ∷ ts) tf m = elim (Bool-cases (is_stop_word t.kind)) [
  | inl e ↦ rw e (lookup-post_all term id ts tf m)
  | inr e ↦ rw e (
      lookup-post_all term id ts (count_term t.normalized tf) (next_map id t m)
      ∙ ground (arith, lookup-count_term term t.normalized tf))
]

pub IsKeyed-post_all :
    (id : ℕ) (ts : List Token) (tf : List (List ℕ × ℕ)) (m : IndexMap)
    → IsKeyed tf
    → IsKeyed (post_all id ts tf m).0
unfolding post_all
IsKeyed-post_all id [] tf m u = u
IsKeyed-post_all id (t ∷ ts) tf m u = elim (Bool-cases (is_stop_word t.kind)) [
  | inl e ↦ rw e (IsKeyed-post_all id ts tf m u)
  | inr e ↦ rw e (
      IsKeyed-post_all id ts (count_term t.normalized tf) (next_map id t m) (
        unfold count_term in IsKeyed-insert t.normalized (suc (frequency_of t.normalized tf)) tf u))
]

pub IsIndexed-post_all :
    (id : ℕ) (ts : List Token) (tf : List (List ℕ × ℕ)) (m : IndexMap)
    → IsIndexed m
    → IsIndexed (post_all id ts tf m).1
unfolding post_all
IsIndexed-post_all id [] tf m indexed = indexed
IsIndexed-post_all id (t ∷ ts) tf m indexed = elim (Bool-cases (is_stop_word t.kind)) [
  | inl e ↦ rw e (IsIndexed-post_all id ts tf m indexed)
  | inr e ↦ rw e (
      IsIndexed-post_all id ts (count_term t.normalized tf) (next_map id t m)
        (IsIndexed-next_map id t m indexed))
]
