-- ===== src/Conversations/Listed.antt =====
-- What the pages of the lists give together.
use sourcetrace.Prelude.{
  ℕ, ◌≤◌, ◌≡◌, refl, subst, nat_beq_iff, contains, arith, true, false, Option, List, [], ◌∷◌, map,
  ◌==◌, nat_eq, select, All, Distinct, ok,
}
use sourcetrace.Prelude.Chain.{All-select, Distinct-select}
use mathlib.Core.Path.{fun_ext}
use sourcetrace.Conversations.Owned.{IsSound}
use sourcetrace.Text.{Text}
use sourcetrace.Paging.Cursor.{KeyTexts, IsReadable}
use sourcetrace.Paging.Keyset.{ascending, list_rows}
use sourcetrace.Paging.Keyset.Followed.{IsListing, list_rows-IsListing}
use sourcetrace.Conversations.{Conversation, Tables, get_conversation, list_questions, question_key}

module _ (texts : KeyTexts ℕ ℕ) (readable : IsReadable texts) where
  new_number :
      {Row : Type 0} (id : Row → ℕ) (rows : List Row) (i : ℕ)
      → contains (map id rows) i ≡ false
      → contains (map (λ r. texts.number (id r)) rows) (texts.number i) ≡ false
  new_number id [] i h = refl
  new_number id (r ∷ rows) i h = ground (
    arith,
    new_number id rows i,
    readable.number_injective i (id r),
    nat_beq_iff (texts.number i) (texts.number (id r)),
    nat_beq_iff i (id r),
  )

  Distinct-numbers :
      {Row : Type 0} (id : Row → ℕ) (rows : List Row)
      → Distinct (map id rows)
      → Distinct (map (λ r. texts.number (id r)) rows)
  Distinct-numbers id [] h = tt
  Distinct-numbers id (r ∷ rows) h = (new_number id rows (id r) h.0, Distinct-numbers id rows h.1)

  module _ (lower : Text → Text) (t : Tables) (sound : IsSound lower t) where
    -- When times and identifiers are read back from their texts, the texts are plain, an identifier
    -- has a number of its own, the tables keep their constraints, the conversation is there, the
    -- times of the questions are aware and the limit is positive, the pages of list_questions, from
    -- the first one along the cursors to one that has none, give together every question of the
    -- conversation once, ordered by creation time and identifier.
    pub list_questions-IsListing :
        (knowledge_base_id conversation_id limit : ℕ) {c : Conversation}
        → get_conversation t knowledge_base_id conversation_id ≡ ok c
        → All (λ q. texts.is_aware q.created_at ≡ true) t.questions
        → 1 ≤ limit
        → IsListing texts question_key ascending
            (select (λ q. q.conversation_id == conversation_id) t.questions)
            (list_questions texts t knowledge_base_id conversation_id limit)
    unfolding list_questions
    list_questions-IsListing knowledge_base_id conversation_id limit found aware positive =
        let questions = select (λ q. q.conversation_id == conversation_id) t.questions in
        let distinct =
          Distinct-select (λ q. q.id) (λ q. q.conversation_id == conversation_id) t.questions
            sound.distinct_questions in
        let same : (cursor : Option Text)
            → list_rows texts question_key ascending false questions limit cursor
              ≡ list_questions texts t knowledge_base_id conversation_id limit cursor =
          λ cursor. rw found refl in
        subst (IsListing texts question_key ascending questions) (fun_ext same) (
          list_rows-IsListing texts question_key ascending readable false questions
            (Distinct-numbers (λ q. q.id) questions distinct) limit positive
            (All-select _ (λ q. q.conversation_id == conversation_id) t.questions aware))
