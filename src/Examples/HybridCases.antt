-- ===== src/Examples/HybridCases.antt =====
-- The theorems on the fusion of channels and on the lexical query at test data.
use sourcetrace.Prelude.{
  ℕ, ◌≡◌, refl, true, false, none, some, List, [], ◌∷◌, map, All, ltb, nat_eq, select, list_beq, ok,
  arith,
}
use sourcetrace.Text.{Text, codes}
use sourcetrace.Retrieval.Hybrid.Lexical.{find_terms, build_lexical_search_query}
use sourcetrace.Retrieval.Hybrid.Lexical.Matches.{IsTerm, latin_of, concat, find_terms-AreTerms}
use sourcetrace.Retrieval.Hybrid.{
  RetrievalChannel, RankedChannelCandidate, FusedChannelCandidate, fuse_ranked_channels,
}
use sourcetrace.Retrieval.Hybrid.Fused.{AreFirst, IsRanking, fuse_ranked_channels-IsRanking}
use sourcetrace.Examples.Values.{small_scores, evidence_of}

abbrev candidates : List (RankedChannelCandidate ℕ)
candidates =
    record {
      channel = RetrievalChannel.dense;
      rank = 1;
      channel_score = 700;
      evidence = evidence_of 11 1 700;
    }
    ∷ record {
      channel = RetrievalChannel.lexical;
      rank = 1;
      channel_score = 300;
      evidence = evidence_of 12 1 300;
    }
    ∷ record {
      channel = RetrievalChannel.lexical;
      rank = 2;
      channel_score = 200;
      evidence = evidence_of 11 1 200;
    }
    ∷ []

lt_asym : (x y : ℕ) → ltb x y ≡ true → ltb y x ≡ false
lt_asym x y h = ground arith

fuse_ranked_channels-IsRanking_example :
    (fused : List (FusedChannelCandidate ℕ)) × (all : List (FusedChannelCandidate ℕ))
    × (fuse_ranked_channels small_scores candidates 60 1 ≡ ok fused)
    × AreFirst small_scores 1 1 fused all
    × IsRanking small_scores lt_asym 60 candidates all
fuse_ranked_channels-IsRanking_example =
    fuse_ranked_channels-IsRanking small_scores lt_asym candidates 60 1 (omega arith) (omega arith)
      (omega arith, (omega arith, (omega arith, tt)))

-- Nothing of the "--" and the last hyphen belongs to a term.
abbrev words : Text
words = codes "R2-D2 met C--3PO, R2-D2!-"

find_terms_of_words : find_terms words ≡ map codes ("R2-D2" ∷ "met" ∷ "C" ∷ "3PO" ∷ "R2-D2" ∷ [])
unfolding find_terms
find_terms_of_words = refl

find_terms-AreTerms_example :
    All IsTerm (find_terms words) × (latin_of (concat (find_terms words)) ≡ latin_of words)
find_terms-AreTerms_example = find_terms-AreTerms words

three_words_make_no_query : build_lexical_search_query (codes "one two three") ≡ none
unfolding build_lexical_search_query
three_words_make_no_query = refl

query_of_four_words :
    build_lexical_search_query (codes "a b c a")
    ≡ some record {
      disjunction = codes "a OR b OR c";
      phrase_disjunction =
          codes "\"a b\" OR \"b c\" OR \"c a\" OR \"a b c\" OR \"b c a\" OR \"a b c a\"";
    }
unfolding build_lexical_search_query select list_beq
query_of_four_words = refl
