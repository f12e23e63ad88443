-- ===== src/Rag/Ports.antt =====
-- rag/ports.py: the values that cross the boundary between the answer workflow and its providers.
use sourcetrace.Prelude.{ℕ, Bool, Option, List}
use sourcetrace.Text.{Text}

pub data InitialPlanDisposition : Type 0 where
  empty accepted rejected failed : InitialPlanDisposition

pub data RefinementDisposition : Type 0 where
  not_required refinement_accepted provider_error invalid_shape : RefinementDisposition
  document_changed anchor_changed anchor_invalid unchanged_query : RefinementDisposition
  title_attribution : RefinementDisposition

pub record QueryPlanningSlotTrace : Type 0 where
  pub title_anchor : Text
  pub refinement_disposition : RefinementDisposition

pub record QueryPlanningTrace : Type 0 where
  pub initial_disposition : InitialPlanDisposition
  pub initial_correction_applied : Bool
  pub initial_slot_count : ℕ
  pub selected_slots : List QueryPlanningSlotTrace

pub record RetrievalPlanProposal : Type 0 where
  pub additional_queries : List Text
  pub planning_trace : Option QueryPlanningTrace

pub record RerankerIdentity : Type 0 where
  pub provider : Text
  pub model : Text
  pub revision : Text
  pub config_version : Text

-- `score` is a float in the source; it is only passed on to the providers.
pub record RetrievalCandidate (Score : Type 0) : Type 0 where
  pub chunk_id : Text
  pub content : Text
  pub score : Score
  pub citation_id : Text
  pub document_title : Text
  pub page_number : ℕ
  pub matched_queries : List Text

pub record EvidenceDecision : Type 0 where
  pub sufficient : Bool
  pub selected_chunk_ids : List Text
  pub supplemental_queries : List Text

pub record GroundedClaim : Type 0 where
  pub text : Text
  pub citation_ids : List Text

pub record ClaimSupportDecision : Type 0 where
  pub claims : List GroundedClaim
