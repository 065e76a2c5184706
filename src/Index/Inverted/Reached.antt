-- ===== src/Index/Inverted/Reached.antt =====
-- The states of the full-text index that its calls lead to.
use fragmenta.Base.{
  ℕ, zero, suc, ◌+◌, ◌≡◌, refl, ap, ◌∙◌, arith, List, [], ◌∷◌, Option, none, some, ◌==◌,
}
use fragmenta.Base.{if◌then◌else◌, length, Result}
use fragmenta.Base.Map.{nat_eq, lookup}
use fragmenta.Index.Inverted.{
  Token, FullTextIndex, new_full_text_index, index_document, remove_document, clear_index,
  remove_found, batch_index_documents, metadata_of, FullTextError,
}
use fragmenta.Index.Inverted.Terms.{hits, plus, frequency, IsIndexed}
use fragmenta.Index.Inverted.Postings.{
  tokens_of, IsConsistent, IsConsistent-new, IsConsistent-remove_found, IsConsistent-add_document,
}

-- Calls of the index with one tokenizer, failed ones included.
pub data Reached {E : Type 0} (tokenize : List ℕ → Result E (List Token))
    : FullTextIndex → Type 0 where
  created : (now : ℕ) → Reached tokenize (new_full_text_index now)
  indexed :
      (now id : ℕ) (content : List ℕ) (metadata : List (List ℕ × List ℕ)) {idx : FullTextIndex}
      → Reached tokenize idx
      → Reached tokenize (index_document tokenize now id content metadata idx).1
  removed :
      (now id : ℕ) {idx : FullTextIndex}
      → Reached tokenize idx
      → Reached tokenize (remove_document {E = E} now id idx).1
  cleared :
      (now : ℕ) {idx : FullTextIndex}
      → Reached tokenize idx
      → Reached tokenize (clear_index now idx)

plus-some : (n k : ℕ) → plus n (some k) ≡ some (n + k)
unfolding plus
plus-some zero k = ap some (omega arith)
plus-some (suc n) k = plus-some n (suc k) ∙ ap some (omega arith)

plus-none : (n : ℕ) → plus n none ≡ (if n == 0 then none else some n)
unfolding plus
plus-none zero = refl
plus-none (suc n) = ground (arith, plus-some n 1, one_more)
  where
    one_more : n + 1 ≡ suc n
    one_more = omega arith

-- A batch is a sequence of such calls, whether it stops early or not.
Reached-batch_index_documents :
    {E : Type 0} (tokenize : List ℕ → Result E (List Token)) (clock : ℕ → ℕ)
    (docs : List (ℕ × List ℕ)) (metadatas : List (ℕ × List (List ℕ × List ℕ))) (idx : FullTextIndex)
    → Reached tokenize idx
    → Reached tokenize (batch_index_documents tokenize clock docs metadatas idx).1
unfolding batch_index_documents
Reached-batch_index_documents {E = E} tokenize clock [] metadatas idx r = r
Reached-batch_index_documents {E = E} tokenize clock ((id, content) ∷ docs) metadatas idx r =
    let next =
      index_document tokenize (clock (length docs)) id content (metadata_of id metadatas) idx in
    elim next.0
      as (λ failed.
        Reached tokenize
          (elim failed as (λ f. Option (FullTextError E) × FullTextIndex) [
            | some e ↦ (some e, next.1)
            | none ↦ batch_index_documents tokenize clock docs metadatas next.1
          ]).1) [
            | some e ↦ indexed (clock (length docs)) id content (metadata_of id metadatas) r
            | none ↦
                Reached-batch_index_documents tokenize clock docs metadatas next.1
                  (indexed (clock (length docs)) id content (metadata_of id metadatas) r)
          ]

module _ {E : Type 0} (tokenize : List ℕ → Result E (List Token)) where
  Reached-IsConsistent : {idx : FullTextIndex} → Reached tokenize idx → IsConsistent idx
  unfolding index_document remove_document clear_index
  Reached-IsConsistent (created now) = IsConsistent-new now
  Reached-IsConsistent (indexed now id content metadata {idx} r) =
      let (c, new) =
        IsConsistent-remove_found E now id (lookup id idx.document_map) idx refl
          (Reached-IsConsistent r) in
      IsConsistent-add_document E now id metadata (tokenize content)
        (remove_found {E = E} now id (lookup id idx.document_map) idx).1 new c
  Reached-IsConsistent (removed now id {idx} r) =
      (IsConsistent-remove_found E now id (lookup id idx.document_map) idx refl
        (Reached-IsConsistent r)).0
  Reached-IsConsistent (cleared now {idx} r) = IsConsistent-new now

-- In every state that IndexDocument, RemoveDocument and ClearIndex lead to from a new index, the
-- postings are those of the documents: a document that is indexed is posted under exactly the terms of
-- its tokens, stop words left out, each with the number of its tokens, and no other document is posted.
-- No entry is empty, and a term's document frequency is the number of its postings, one for a document.
pub frequency-hits :
    {E : Type 0} (tokenize : List ℕ → Result E (List Token)) (idx : FullTextIndex)
    → Reached tokenize idx
    → ((term : List ℕ) (id : ℕ)
        → frequency term id idx.index_map ≡ (
            if hits term (tokens_of id idx.document_map) == 0
            then none
            else some (hits term (tokens_of id idx.document_map))))
      × IsIndexed idx.index_map
frequency-hits tokenize idx r =
    let c = Reached-IsConsistent tokenize r in
    (λ term id. c.agrees term id ∙ plus-none (hits term (tokens_of id idx.document_map)), c.indexed)
