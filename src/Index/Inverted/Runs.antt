-- ===== src/Index/Inverted/Runs.antt =====
-- Runs of the full-text index on small data.
use fragmenta.Base.{
  ℕ, suc, ◌≡◌, refl, List, [], ◌∷◌, none, some, ◌==◌, if◌then◌else◌, codes, text_eq, Result, ok,
  err,
}
use fragmenta.Base.Map.{nat_eq, text_keys, lookup, insert, delete}
use fragmenta.Index.Inverted.{
  Token, token_word, token_stop_word, FullTextIndex, new_full_text_index, index_document,
  remove_document, update_stats, all_tokens, post_all, unpost_all, count_term,
}
use fragmenta.Index.Inverted.Terms.{hits, frequency, IsIndexed}
use fragmenta.Index.Inverted.Postings.{tokens_of}
use fragmenta.Index.Inverted.Reached.{Reached, created, indexed, frequency-hits}

-- A tokenizer that makes a word of every character, and a stop word of a space; it refuses no text.
abbrev letter : ℕ → ℕ → Token
letter position c = record {
  text = c ∷ [];
  normalized = c ∷ [];
  kind = if c == 32 then token_stop_word else token_word;
  position = position;
}

abbrev letters : ℕ → List ℕ → List Token
letters position [] = []
letters position (c ∷ cs) = letter position c ∷ letters (suc position) cs

abbrev tokenize : List ℕ → Result ℕ (List Token)
tokenize [] = err 0
tokenize (c ∷ cs) = ok (letters 0 (c ∷ cs))

-- Two documents, of which the second is indexed again with another content.
abbrev two_documents : FullTextIndex
two_documents =
    (index_document tokenize 3 9 (codes "ba") []
      (index_document tokenize 2 9 (codes "b c") []
        (index_document tokenize 1 5 (codes "a ab") [] (new_full_text_index 0)).1).1).1

abbrev two_documents-Reached : Reached tokenize two_documents
two_documents-Reached =
    indexed 3 9 (codes "ba") []
      (indexed 2 9 (codes "b c") [] (indexed 1 5 (codes "a ab") [] (created 0)))

-- The first document has two times a and one b; c is gone with the old content of the second.
two_documents_test :
    (frequency (codes "a") 5 two_documents.index_map ≡ some 2)
    × (frequency (codes "b") 9 two_documents.index_map ≡ some 1)
    × (lookup (codes "c") two_documents.index_map ≡ none)
    × (two_documents.stats.total_tokens ≡ 6)
unfolding frequency lookup insert delete index_document remove_document new_full_text_index
    update_stats post_all unpost_all count_term all_tokens text_eq
two_documents_test = (refl, refl, refl, refl)

frequency-hits_example :
    ((term : List ℕ) (id : ℕ)
      → frequency term id two_documents.index_map ≡ (
          if hits term (tokens_of id two_documents.document_map) == 0
          then none
          else some (hits term (tokens_of id two_documents.document_map))))
    × IsIndexed two_documents.index_map
frequency-hits_example = frequency-hits tokenize two_documents two_documents-Reached
