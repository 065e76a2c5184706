-- ===== src/Index/Inverted.antt =====
-- index/inverted_index.go (DefaultFullTextIndex) with the types of index/fulltext.go: the terms of
-- documents. The tokenizer is an argument, and so is the time of a call. Left out: the scores
-- of Search and the other floats (weights, the average length), SaveIndex and LoadIndex, and the locks.
pub mod Postings
pub mod Reached
pub mod Removal
mod Runs
pub mod Terms
use fragmenta.Base.{ℕ, zero, suc, ◌+◌, List, [], ◌∷◌, ◌++◌, Option, none, some, if◌then◌else◌}
use fragmenta.Base.{Bool, true, false, length, Result, ok, err}
use fragmenta.Base.Int.{ℤ, pos, negsuc}
use fragmenta.Base.Map.{nat_eq, text_keys, insert, delete, lookup}
use fragmenta.Index.Tree.{increment, decrement}

pub data TokenType : Type 0 where
  token_word token_number token_symbol token_chinese token_stop_word : TokenType

-- Token.
pub record Token : Type 0 where
  pub text : List ℕ
  pub normalized : List ℕ
  pub kind : TokenType
  pub position : ℕ

abbrev pub is_stop_word : TokenType → Bool
is_stop_word token_stop_word = true
is_stop_word kind = false

-- PostingInfo.
pub record PostingInfo : Type 0 where
  pub term_frequency : ℕ
  pub positions : List ℕ

-- InvertedIndex.
pub record InvertedIndex : Type 0 where
  pub term : List ℕ
  pub document_frequency : ℤ
  pub postings : List (ℕ × PostingInfo)

-- DocumentIndex.
pub record DocumentIndex : Type 0 where
  pub id : ℕ
  pub tokens : List Token
  pub term_frequency : List (List ℕ × ℕ)
  pub length : ℕ
  pub last_updated : ℕ
  pub metadata : List (List ℕ × List ℕ)

-- FullTextIndexStatistics; IndexSize is never set.
pub record Statistics : Type 0 where
  pub document_count : ℕ
  pub term_count : ℕ
  pub last_updated : ℕ
  pub total_tokens : ℕ

abbrev pub IndexMap : Type 0
IndexMap = List (List ℕ × InvertedIndex)

-- DefaultFullTextIndex.
pub record FullTextIndex : Type 0 where
  pub index_map : IndexMap
  pub document_map : List (ℕ × DocumentIndex)
  pub stats : Statistics

-- NewFullTextIndex.
unfoldable pub new_full_text_index : ℕ → FullTextIndex
new_full_text_index now = record {
  index_map = [];
  document_map = [];
  stats = record { document_count = 0; term_count = 0; last_updated = now; total_tokens = 0 };
}

-- updateStats.
unfoldable pub all_tokens : List (ℕ × DocumentIndex) → ℕ
all_tokens [] = 0
all_tokens ((id, d) ∷ m) = d.length + all_tokens m

unfoldable pub update_stats : ℕ → FullTextIndex → FullTextIndex
update_stats now idx = record idx {
  stats = record {
    document_count = length idx.document_map;
    term_count = length idx.index_map;
    last_updated = now;
    total_tokens = all_tokens idx.document_map;
  };
}

-- docIndex.TermFrequency[term]++, where a missing term counts 0.
abbrev pub frequency_of : List ℕ → List (List ℕ × ℕ) → ℕ
frequency_of term m = elim (lookup term m) [ none ↦ 0 | some n ↦ n ]

unfoldable pub count_term : List ℕ → List (List ℕ × ℕ) → List (List ℕ × ℕ)
count_term term m = insert term (suc (frequency_of term m)) m

abbrev pub entry_of : List ℕ → IndexMap → InvertedIndex
entry_of term m = elim (lookup term m) [
  | none ↦ record { term = term; document_frequency = pos 0; postings = [] }
  | some entry ↦ entry
]

abbrev pub posting_after : ℕ → PostingInfo → PostingInfo
posting_after position p = record {
  term_frequency = suc p.term_frequency;
  positions = p.positions ++ (position ∷ []);
}

abbrev pub post_at : ℕ → ℕ → Option PostingInfo → InvertedIndex → InvertedIndex
post_at id position none entry = record entry {
  document_frequency = increment entry.document_frequency;
  postings =
      insert id (posting_after position (record { term_frequency = 0; positions = [] }))
        entry.postings;
}
post_at id position (some p) entry = record entry {
  postings = insert id (posting_after position p) entry.postings;
}

-- The entry of a term after a token of it in the document `id`.
abbrev pub post : ℕ → ℕ → InvertedIndex → InvertedIndex
post id position entry = post_at id position (lookup id entry.postings) entry

-- The loop of IndexDocument over the tokens: the frequencies of the document, and the entries.
unfoldable pub post_all :
    ℕ → List Token → List (List ℕ × ℕ) → IndexMap → List (List ℕ × ℕ) × IndexMap
post_all id [] tf m = (tf, m)
post_all id (t ∷ ts) tf m =
    if is_stop_word t.kind
    then post_all id ts tf m
    else post_all id ts (count_term t.normalized tf)
        (insert t.normalized (post id t.position (entry_of t.normalized m)) m)

abbrev pub at_most_zero : ℤ → Bool
at_most_zero (pos zero) = true
at_most_zero (pos (suc n)) = false
at_most_zero (negsuc n) = true

-- The entry of a term without the document `id`.
abbrev pub unposted : ℕ → InvertedIndex → InvertedIndex
unposted id entry = record entry {
  postings = delete id entry.postings;
  document_frequency = decrement entry.document_frequency;
}

abbrev pub unpost : ℕ → List ℕ → Option InvertedIndex → IndexMap → IndexMap
unpost id term none m = m
unpost id term (some entry) m =
    if at_most_zero (decrement entry.document_frequency)
    then delete term m
    else insert term (unposted id entry) m

-- The loop of removeDocumentUnsafe over the terms of the document.
unfoldable pub unpost_all : ℕ → List (List ℕ × ℕ) → IndexMap → IndexMap
unpost_all id [] m = m
unpost_all id ((term, n) ∷ tf) m = unpost_all id tf (unpost id term (lookup term m) m)

pub data FullTextError (E : Type 0) : Type 0 where
  index_not_found : FullTextError E
  tokenizing : E → FullTextError E

abbrev pub metadata_of : ℕ → List (ℕ × List (List ℕ × List ℕ)) → List (List ℕ × List ℕ)
metadata_of id metadatas = elim (lookup id metadatas) [ none ↦ [] | some metadata ↦ metadata ]

module _ {E : Type 0} where
  abbrev pub remove_found :
      ℕ → ℕ → Option DocumentIndex → FullTextIndex → Option (FullTextError E) × FullTextIndex
  remove_found now id none idx = (some index_not_found, idx)
  remove_found now id (some d) idx = (
    none,
    update_stats now (record idx {
      index_map = unpost_all id d.term_frequency idx.index_map;
      document_map = delete id idx.document_map;
    }),
  )

  -- RemoveDocument and removeDocumentUnsafe: the error, and the state after it.
  unfoldable pub remove_document : ℕ → ℕ → FullTextIndex → Option (FullTextError E) × FullTextIndex
  remove_document now id idx = remove_found now id (lookup id idx.document_map) idx

  -- IndexDocument, after it has removed the old document.
  abbrev pub add_document :
      ℕ
      → ℕ
      → List (List ℕ × List ℕ)
      → Result E (List Token)
      → FullTextIndex
      → Option (FullTextError E) × FullTextIndex
  add_document now id metadata (err e) idx = (some (tokenizing e), idx)
  add_document now id metadata (ok tokens) idx =
      let (tf, m) = post_all id tokens [] idx.index_map in
      (
        none,
        update_stats now (record {
          index_map = m;
          document_map =
              insert id
                (record {
                  id = id;
                  tokens = tokens;
                  term_frequency = tf;
                  length = length tokens;
                  last_updated = now;
                  metadata = metadata;
                })
                idx.document_map;
          stats = idx.stats;
        }),
      )

  -- IndexDocument. A document that has no tokens because the tokenizer fails is still removed.
  unfoldable pub index_document :
      (List ℕ → Result E (List Token))
      → ℕ
      → ℕ
      → List ℕ
      → List (List ℕ × List ℕ)
      → FullTextIndex
      → Option (FullTextError E) × FullTextIndex
  index_document tokenize now id content metadata idx =
      add_document now id metadata (tokenize content) (remove_document now id idx).1

  -- BatchIndexDocuments: it stops at the first document that fails. `clock` has a reading for each.
  unfoldable pub batch_index_documents :
      (List ℕ → Result E (List Token))
      → (ℕ → ℕ)
      → List (ℕ × List ℕ)
      → List (ℕ × List (List ℕ × List ℕ))
      → FullTextIndex
      → Option (FullTextError E) × FullTextIndex
  batch_index_documents tokenize clock [] metadatas idx = (none, idx)
  batch_index_documents tokenize clock ((id, content) ∷ docs) metadatas idx =
      let (failed, next) =
        index_document tokenize (clock (length docs)) id content (metadata_of id metadatas) idx in
      elim failed [
        | some e ↦ (some e, next)
        | none ↦ batch_index_documents tokenize clock docs metadatas next
      ]

-- ClearIndex.
unfoldable pub clear_index : ℕ → FullTextIndex → FullTextIndex
clear_index now idx = new_full_text_index now

-- GetStatistics: a copy.
unfoldable pub get_statistics : FullTextIndex → Statistics
get_statistics idx = idx.stats
