-- ===== src/Conversations/Owned.antt =====
-- What the constraints of the two models.py say of the tables, whichever operations have run.
use sourcetrace.Prelude.{
  ℕ, ◌≡◌, subst, sym, Bool, true, false, not, ◌||◌, some, List, [], ◌∷◌, ◌++◌, map, ◌==◌, nat_eq,
  list_eq, Eq, ltb, length, select, some_of, contains, All, All-append, All-map, Distinct,
  Distinct-snoc, Bool-cases, Option-cases, inl, inr, arith, Result, ok, err,
}
use sourcetrace.Prelude.Chain.{Distinct-select}
use mathlib.Core.List.{map-append}
use sourcetrace.Text.{Text}
use sourcetrace.Answers.Records.{Question}
use sourcetrace.Paging.Cursor.{ServiceError}
use sourcetrace.Conversations.{
  KnowledgeBase, Conversation, Tables, find, is_blank, same_id, is_owned, get_knowledge_base,
  get_conversation, create_knowledge_base, delete_knowledge_base, create_conversation,
  create_question,
}

-- What a call leaves, when it returns.
abbrev Ensures : {E A : Type 0} → (A → Type 0) → Result E A → Type 0
Ensures Q (ok a) = Q a
Ensures Q (err e) = Unit

module _ {A : Type 0} where
  All-select-map :
      (P Q : A → Type 0) (keep : A → Bool) (xs : List A)
      → ((x : A) → keep x ≡ true → P x → Q x)
      → All P xs
      → All Q (select keep xs)
  unfolding select
  All-select-map P Q keep [] f h = tt
  All-select-map P Q keep (x ∷ xs) f h = elim (Bool-cases (keep x)) [
    | inl kept ↦ rw (kept, select) (f x kept h.0, All-select-map P Q keep xs f h.1)
    | inr dropped ↦ rw (dropped, select) (All-select-map P Q keep xs f h.1)
  ]

  Distinct-map-snoc :
      {B : Type 0} ⦃e : Eq B⦄ (f : A → B) (xs : List A) (x : A)
      → Distinct (map f xs)
      → contains (map f xs) (f x) ≡ false
      → Distinct (map f (xs ++ x ∷ []))
  Distinct-map-snoc f xs x h new =
      subst Distinct (sym (map-append f xs (x ∷ []))) (Distinct-snoc (map f xs) (f x) h new)

  some_of-snoc :
      (p : A → Bool) (xs : List A) (x : A) → some_of p xs ≡ true → some_of p (xs ++ x ∷ []) ≡ true
  some_of-snoc p (y ∷ xs) x h = ground (arith, some_of-snoc p xs x)
  some_of-snoc p [] x h = cc

  some_of-select :
      (p keep : A → Bool) (xs : List A)
      → ((x : A) → p x ≡ true → keep x ≡ true)
      → some_of p xs ≡ true
      → some_of p (select keep xs) ≡ true
  unfolding select
  some_of-select p keep [] k h = h
  some_of-select p keep (x ∷ xs) k h = ground (arith, some_of-select p keep xs k, k x)

  some_of-find : (p : A → Bool) (xs : List A) (x : A) → find p xs ≡ some x → some_of p xs ≡ true
  some_of-find p [] x h = cc
  some_of-find p (y ∷ xs) x h = ground (arith, some_of-find p xs x)

abbrev pub is_base_of : Tables → ℕ → Bool
is_base_of t knowledge_base_id = some_of (same_id knowledge_base_id) t.knowledge_bases

pub record IsSound (lower : Text → Text) (t : Tables) : Type 0 where
  pub distinct_bases : Distinct (map (λ k. k.id) t.knowledge_bases)
  pub distinct_names : Distinct (map (λ k. lower k.name) t.knowledge_bases)
  pub distinct_conversations : Distinct (map (λ c. c.id) t.conversations)
  pub distinct_questions : Distinct (map (λ q. q.id) t.questions)
  pub owned : All (λ c. is_base_of t c.knowledge_base_id ≡ true) t.conversations
  pub asked :
      All
        (λ q. some_of (is_owned q.knowledge_base_id q.conversation_id) t.conversations ≡ true)
        t.questions

module _ (lower : Text → Text) (t : Tables) (sound : IsSound lower t) where
  create_knowledge_base-IsSound :
      (id now : ℕ) (name : Text)
      → Ensures (λ r. IsSound lower r.1) (create_knowledge_base lower id now name t)
  unfolding create_knowledge_base
  create_knowledge_base-IsSound id now name =
      let knowledge_base : KnowledgeBase = record { id = id; name = name; created_at = now } in
      elim (Bool-cases (ltb 120 (length name))) [
        | inl long ↦ rw long tt
        | inr short ↦ elim (Bool-cases (contains (map (λ k. k.id) t.knowledge_bases) id)) [
          | inl same ↦ rw (short, same) tt
          | inr new ↦
              elim (Bool-cases
                (contains (map (λ k. lower k.name) t.knowledge_bases) (lower name))) [
                  | inl same ↦ rw (short, new, same) tt
                  | inr unnamed ↦
                      rw (short, new, unnamed)
                        (record {
                          distinct_bases =
                              Distinct-map-snoc (λ k. k.id) t.knowledge_bases knowledge_base
                                sound.distinct_bases new;
                          distinct_names =
                              Distinct-map-snoc (λ k. lower k.name) t.knowledge_bases knowledge_base
                                sound.distinct_names unnamed;
                          distinct_conversations = sound.distinct_conversations;
                          distinct_questions = sound.distinct_questions;
                          owned =
                              All-map _ _
                                (λ c.
                                  some_of-snoc (same_id c.knowledge_base_id) t.knowledge_bases
                                    knowledge_base)
                                t.conversations sound.owned;
                          asked = sound.asked;
                        })
                ]
        ]
      ]

  create_conversation-IsSound :
      (id now knowledge_base_id : ℕ) (title : Text)
      → Ensures (λ r. IsSound lower r.1) (create_conversation id now knowledge_base_id title t)
  unfolding create_conversation get_knowledge_base
  create_conversation-IsSound id now knowledge_base_id title =
      let conversation : Conversation = record {
        id = id;
        knowledge_base_id = knowledge_base_id;
        title = title;
        created_at = now;
      } in
      elim (Option-cases (find (same_id knowledge_base_id) t.knowledge_bases)) [
        | inl missing ↦ rw missing tt
        | inr (k, found) ↦ elim (Bool-cases (ltb 120 (length title))) [
          | inl long ↦ rw (found, long) tt
          | inr short ↦
              elim (Bool-cases (is_blank title || contains (map (λ c. c.id) t.conversations) id)) [
                | inl refused ↦ rw (found, short, refused) tt
                | inr new ↦
                    rw (found, short, new)
                      (record {
                        distinct_bases = sound.distinct_bases;
                        distinct_names = sound.distinct_names;
                        distinct_conversations =
                            Distinct-map-snoc (λ c. c.id) t.conversations conversation
                              sound.distinct_conversations (ground arith);
                        distinct_questions = sound.distinct_questions;
                        owned =
                            All-append (λ c. is_base_of t c.knowledge_base_id ≡ true)
                              t.conversations (conversation ∷ []) sound.owned
                              (
                                some_of-find (same_id knowledge_base_id) t.knowledge_bases k found,
                                tt,
                              );
                        asked =
                            All-map _ _
                              (λ q.
                                some_of-snoc (is_owned q.knowledge_base_id q.conversation_id)
                                  t.conversations conversation)
                              t.questions sound.asked;
                      })
              ]
        ]
      ]

  create_question-IsSound :
      (id now knowledge_base_id conversation_id : ℕ) (content : Text)
      → Ensures
          (λ r. IsSound lower r.1)
          (create_question id now knowledge_base_id conversation_id content t)
  unfolding create_question get_conversation
  create_question-IsSound id now knowledge_base_id conversation_id content =
      let question : Question = record {
        id = id;
        conversation_id = conversation_id;
        knowledge_base_id = knowledge_base_id;
        content = content;
        created_at = now;
      } in
      elim (Option-cases (find (is_owned knowledge_base_id conversation_id) t.conversations)) [
        | inl missing ↦ rw missing tt
        | inr (c, found) ↦
            elim (Bool-cases (is_blank content || contains (map (λ q. q.id) t.questions) id)) [
              | inl refused ↦ rw (found, refused) tt
              | inr new ↦
                  rw (found, new)
                    (record {
                      distinct_bases = sound.distinct_bases;
                      distinct_names = sound.distinct_names;
                      distinct_conversations = sound.distinct_conversations;
                      distinct_questions =
                          Distinct-map-snoc (λ q. q.id) t.questions question
                            sound.distinct_questions (ground arith);
                      owned = sound.owned;
                      asked =
                          All-append
                            (λ q.
                              some_of (is_owned q.knowledge_base_id q.conversation_id)
                                t.conversations
                              ≡ true)
                            t.questions (question ∷ []) sound.asked
                            (
                              some_of-find (is_owned knowledge_base_id conversation_id)
                                  t.conversations c found,
                              tt,
                            );
                    })
            ]
      ]

  delete_knowledge_base-IsSound :
      (knowledge_base_id : ℕ) → Ensures (IsSound lower) (delete_knowledge_base knowledge_base_id t)
  unfolding delete_knowledge_base get_knowledge_base
  delete_knowledge_base-IsSound knowledge_base_id =
      elim (Option-cases (find (same_id knowledge_base_id) t.knowledge_bases)) [
        | inl missing ↦ rw missing tt
        | inr (k, found) ↦ rw found (record {
          distinct_bases = Distinct-select (λ b. b.id) _ t.knowledge_bases sound.distinct_bases;
          distinct_names =
              Distinct-select (λ b. lower b.name) _ t.knowledge_bases sound.distinct_names;
          distinct_conversations =
              Distinct-select (λ c. c.id) _ t.conversations sound.distinct_conversations;
          distinct_questions = Distinct-select (λ q. q.id) _ t.questions sound.distinct_questions;
          owned =
              All-select-map _ _ (λ c. not (c.knowledge_base_id == k.id)) t.conversations
                (λ c kept.
                  some_of-select (same_id c.knowledge_base_id) (λ b. not (b.id == k.id))
                    t.knowledge_bases (λ b same. ground arith))
                sound.owned;
          asked =
              All-select-map _ _ (λ q. not (q.knowledge_base_id == k.id)) t.questions
                (λ q kept.
                  some_of-select (is_owned q.knowledge_base_id q.conversation_id)
                    (λ c. not (c.knowledge_base_id == k.id)) t.conversations
                    (λ c same. ground arith))
                sound.asked;
        })
      ]

-- The calls that change the tables, with the identifier and the time of the new row. A call that
-- raises leaves them.
pub data Operation : Type 0 where
  base_created : ℕ → ℕ → Text → Operation
  base_deleted : ℕ → Operation
  conversation_created : ℕ → ℕ → ℕ → Text → Operation
  question_created : ℕ → ℕ → ℕ → ℕ → Text → Operation

abbrev settle : {A : Type 0} → (A → Tables) → Tables → Result ServiceError A → Tables
settle tables t (ok a) = tables a
settle tables t (err e) = t

settle-IsSound :
    {A : Type 0} (lower : Text → Text) (tables : A → Tables) (t : Tables)
    (r : Result ServiceError A)
    → IsSound lower t
    → Ensures (λ a. IsSound lower (tables a)) r
    → IsSound lower (settle tables t r)
settle-IsSound lower tables t (ok a) sound h = h
settle-IsSound lower tables t (err e) sound h = sound

module _ (lower : Text → Text) where
  abbrev pub apply : Operation → Tables → Tables
  apply (base_created id now name) t =
      settle (λ r. r.1) t (create_knowledge_base lower id now name t)
  apply (base_deleted id) t = settle (λ r. r) t (delete_knowledge_base id t)
  apply (conversation_created id now base title) t =
      settle (λ r. r.1) t (create_conversation id now base title t)
  apply (question_created id now base conversation content) t =
      settle (λ r. r.1) t (create_question id now base conversation content t)

  abbrev pub apply_all : List Operation → Tables → Tables
  apply_all [] t = t
  apply_all (o ∷ os) t = apply_all os (apply o t)

  apply-IsSound : (o : Operation) (t : Tables) → IsSound lower t → IsSound lower (apply o t)
  apply-IsSound (base_created id now name) t sound =
      settle-IsSound lower (λ r. r.1) t _ sound
        (create_knowledge_base-IsSound lower t sound id now name)
  apply-IsSound (base_deleted id) t sound =
      settle-IsSound lower (λ r. r) t _ sound (delete_knowledge_base-IsSound lower t sound id)
  apply-IsSound (conversation_created id now base title) t sound =
      settle-IsSound lower (λ r. r.1) t _ sound
        (create_conversation-IsSound lower t sound id now base title)
  apply-IsSound (question_created id now base conversation content) t sound =
      settle-IsSound lower (λ r. r.1) t _ sound
        (create_question-IsSound lower t sound id now base conversation content)

  -- When the identifiers of knowledge bases, conversations and questions and the lower-cased names
  -- of the knowledge bases are distinct, every conversation has its knowledge base and every
  -- question its conversation in its knowledge base, the same holds after any creations and
  -- deletions, with those that raise.
  pub operations-IsSound :
      (os : List Operation) (t : Tables) → IsSound lower t → IsSound lower (apply_all os t)
  operations-IsSound [] t sound = sound
  operations-IsSound (o ∷ os) t sound = operations-IsSound os (apply o t) (apply-IsSound o t sound)
