-- ===== src/Index/Inverted/Postings.antt =====
-- The entries of the index against the documents that it holds.
use fragmenta.Base.{ℕ, ◌≡◌, refl, ap, arith, List, [], Option, none, some, ◌==◌}
use fragmenta.Base.{if◌then◌else◌, true, ◌&&◌, length, Bool-cases, inl, inr, Result, ok, err}
use fragmenta.Base.Map.{nat_eq, text_keys, insert, delete, lookup, lookup-insert, lookup-delete}
use mathlib.Core.Path.{subst}
use fragmenta.Base.Map.Keys.{IsKeyed}
use fragmenta.Index.Inverted.{
  Token, DocumentIndex, FullTextIndex, IndexMap, new_full_text_index, update_stats,
}
use fragmenta.Index.Inverted.{add_document, remove_found, post_all, unpost_all}
use fragmenta.Index.Inverted.Terms.{
  hits, plus, frequency, IsIndexed, frequency-post_all, lookup-post_all, IsKeyed-post_all,
  IsIndexed-post_all,
}
use fragmenta.Index.Inverted.Removal.{IsPosted, has, unpost_all_lem}

abbrev pub Documents : Type 0
Documents = List (ℕ × DocumentIndex)

-- The tokens that a document was indexed with; those of a missing document are none.
abbrev pub tokens_of : ℕ → Documents → List Token
tokens_of id docs = elim (lookup id docs) [ none ↦ [] | some d ↦ d.tokens ]

-- A document's own frequencies are those of its tokens.
abbrev IsDocument : DocumentIndex → Type 0
IsDocument d =
    IsKeyed d.term_frequency
    × ((term : List ℕ) → lookup term d.term_frequency ≡ plus (hits term d.tokens) none)

abbrev pub Agrees : IndexMap → Documents → Type 0
Agrees m docs =
    (term : List ℕ) (id : ℕ) → frequency term id m ≡ plus (hits term (tokens_of id docs)) none

pub record IsConsistent (idx : FullTextIndex) : Type 0 where
  pub indexed : IsIndexed idx.index_map
  pub agrees : Agrees idx.index_map idx.document_map
  pub documents : (id : ℕ) (d : DocumentIndex) → lookup id idx.document_map ≡ some d → IsDocument d

tokens_of-delete :
    (gone id : ℕ) (docs : Documents)
    → tokens_of id (delete gone docs) ≡ (if gone == id then [] else tokens_of id docs)
tokens_of-delete gone id docs = ground (arith, lookup-delete gone id docs)

tokens_of-insert :
    (new id : ℕ) (d : DocumentIndex) (docs : Documents)
    → tokens_of id (insert new d docs) ≡ (if new == id then d.tokens else tokens_of id docs)
tokens_of-insert new id d docs = ground (arith, lookup-insert new id d docs)

pub IsConsistent-new : (now : ℕ) → IsConsistent (new_full_text_index now)
unfolding new_full_text_index
IsConsistent-new now = record {
  indexed = unfold lookup in λ term entry h. cc;
  agrees = unfold frequency lookup hits plus in λ term id. refl;
  documents = unfold lookup in λ id d h. cc;
}

-- The error type of the tokenizer does not matter here.
module _ (E : Type 0) where
  pub IsConsistent-remove_found :
      (now id : ℕ) (o : Option DocumentIndex) (idx : FullTextIndex)
      → lookup id idx.document_map ≡ o
      → IsConsistent idx
      → IsConsistent (remove_found {E = E} now id o idx).1
        × (tokens_of id (remove_found {E = E} now id o idx).1.document_map ≡ [])
  unfolding update_stats
  IsConsistent-remove_found now id none idx e c = (c, ground (arith, e))
  IsConsistent-remove_found now id (some d) idx e c = (
    record {
      indexed = without.0;
      agrees = λ term i. ground (
        arith,
        without.1 term i,
        c.agrees term i,
        ap (λ ts. plus (hits term ts) none) (tokens_of-delete id i idx.document_map),
        no_tokens term,
        (c.documents id d e).1 term,
        e,
      );
      documents =
          λ i d' h. c.documents i d' (ground (arith, h, lookup-delete id i idx.document_map));
    },
    ground (arith, tokens_of-delete id id idx.document_map),
  )
    where
      no_tokens : (term : List ℕ) → plus (hits term []) none ≡ none
      no_tokens term = unfold hits plus in refl

      posts : IsPosted id d.term_frequency idx.index_map
      posts term n h = (n, ground (arith, h, c.agrees term id, (c.documents id d e).1 term, e))

      without :
          IsIndexed (unpost_all id d.term_frequency idx.index_map)
          × ((term : List ℕ) (i : ℕ)
              → frequency term i (unpost_all id d.term_frequency idx.index_map) ≡ (
                  if id == i && has term d.term_frequency
                  then none
                  else frequency term i idx.index_map))
      without =
          unpost_all_lem id d.term_frequency idx.index_map (c.documents id d e).0 posts c.indexed

  pub IsConsistent-add_document :
      (now id : ℕ) (metadata : List (List ℕ × List ℕ)) (r : Result E (List Token))
      (idx : FullTextIndex)
      → tokens_of id idx.document_map ≡ []
      → IsConsistent idx
      → IsConsistent (add_document now id metadata r idx).1
  IsConsistent-add_document now id metadata (err e) idx new c = c
  IsConsistent-add_document now id metadata (ok ts) idx new c =
      unfold update_stats in
      record {
        indexed = IsIndexed-post_all id ts [] idx.index_map c.indexed;
        agrees = λ term i. ground (
          arith,
          frequency-post_all term i id ts [] idx.index_map,
          c.agrees term i,
          no_tokens term,
          ap (λ l. plus (hits term l) none) (tokens_of-insert id i d idx.document_map),
          ap (λ l. plus (hits term l) none) new,
        );
        documents = λ i d' h. document i d' h;
      }
    where
      d : DocumentIndex
      d = record {
        id = id;
        tokens = ts;
        term_frequency = (post_all id ts [] idx.index_map).0;
        length = length ts;
        last_updated = now;
        metadata = metadata;
      }

      no_tokens : (term : List ℕ) → plus (hits term []) none ≡ none
      no_tokens term = unfold hits plus in refl

      own : IsDocument d
      own = (
        IsKeyed-post_all id ts [] idx.index_map tt,
        λ term. unfold lookup in lookup-post_all term id ts [] idx.index_map,
      )

      document :
          (i : ℕ) (d' : DocumentIndex)
          → lookup i (insert id d idx.document_map) ≡ some d'
          → IsDocument d'
      document i d' h = elim (Bool-cases (id == i)) [
        | inl e ↦ subst IsDocument (same e) own
        | inr e ↦ c.documents i d' (ground (arith, e, h, lookup-insert id i d idx.document_map))
      ]
        where
          same : (id == i) ≡ true → d ≡ d'
          same e = ground (arith, e, h, lookup-insert id i d idx.document_map)
