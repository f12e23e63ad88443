-- ===== src/Retrieval/Evidence.antt =====
-- The records of modules/retrieval/service.py. A UUID is the number that its digits spell: `str`
-- of UUIDs orders them as numbers. A score is a float of the interface `Scores`.
use sourcetrace.Prelude.{ℕ, ◌≡◌, Bool, true, Option, List, Eq, nat_eq, ◌&&◌, ◌↔◌, arith, nat_beq}
use sourcetrace.Text.{Text}

-- The operations on floats that retrieval uses. NaN is not among the values: the source rejects it
-- from the reranker, and a cosine or a sum of reciprocals is none.
pub record Scores : Type 1 where
  pub Score : Type 0
  pub lt : Score → Score → Bool
  pub zero_score : Score
  pub negative_infinity : Score
  pub is_finite : Score → Bool
  pub add : Score → Score → Score
  -- `1.0 / n`
  pub reciprocal : ℕ → Score

pub record RetrievedEvidence (Score : Type 0) : Type 0 where
  pub chunk_id : ℕ
  pub document_id : ℕ
  pub document_version_id : ℕ
  pub document_name : Text
  pub storage_key : Text
  pub page_number : ℕ
  pub text : Text
  pub score : Score
  pub page_chunk_index : ℕ

pub record RankedRetrievalCandidate (Score : Type 0) : Type 0 where
  pub rank : ℕ
  pub evidence : RetrievedEvidence Score
  pub dense_rank : Option ℕ
  pub lexical_rank : Option ℕ
  pub dense_score : Option Score
  pub lexical_score : Option Score
  pub channel_fused_score : Score
  pub reranker_score : Option Score
  pub reranked_rank : Option ℕ
  pub selected_for_query_coverage : Bool

pub record QueryRetrievalResult (Score : Type 0) : Type 0 where
  pub query : Text
  pub candidates : List (RankedRetrievalCandidate Score)

pub record FusedRetrievalCandidate (Score : Type 0) : Type 0 where
  pub evidence : RetrievedEvidence Score
  pub fused_score : Score
  pub best_raw_score : Score
  pub reranker_score : Score
  pub reranked_rank : ℕ
  pub selected_as_primary : Bool

-- Python's `==` on pairs of numbers.
abbrev pub pair_beq : ℕ × ℕ → ℕ × ℕ → Bool
pair_beq (a, b) (c, d) = nat_beq a c && nat_beq b d

pub pair_beq_iff : (p q : ℕ × ℕ) → (pair_beq p q ≡ true) ↔ (p ≡ q)
pair_beq_iff (a, b) (c, d) = (λ h. ground arith, λ h. ground arith)

instance abbrev pub pair_eq : Eq (ℕ × ℕ)
pair_eq = record { equals = pair_beq; equals_iff = pair_beq_iff }
