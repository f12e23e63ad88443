-- ===== src/Conversations.antt =====
-- modules/knowledge_bases and modules/conversations: the rows of their models.py, and the operations
-- of service.py through those of repository.py. An identifier and a time of a new row are arguments
-- (`uuid4` and the database's `now()`), and an exception leaves the tables as they are: the session
-- is rolled back.
pub mod Owned
pub mod Listed
pub mod Deletion
use sourcetrace.Prelude.{
  ℕ, zero, suc, ◌+◌, Bool, true, false, not, ◌&&◌, ◌||◌, Option, none, some, List, [], ◌∷◌, ◌++◌,
  map, ◌==◌, nat_eq, list_eq, ltb, length, take, select, contains, if◌then◌else◌, Result, ok, err,
  ◌>>=◌, ◌>>◌, raise_if,
}
use sourcetrace.Prelude.Sort.{sort}
use sourcetrace.Text.{Text, is_empty, lstrip_by}
use sourcetrace.Answers.Records.{Question}
use sourcetrace.Paging.Cursor.{
  KeyTexts, ServiceError, knowledge_base_not_found, conversation_not_found, name_conflict,
  integrity_error, data_error,
}
use sourcetrace.Paging.Keyset.{ascending, descending, Page, comes_before, list_rows}

pub record KnowledgeBase : Type 0 where
  pub id : ℕ
  pub name : Text
  pub created_at : ℕ

pub record Conversation : Type 0 where
  pub id : ℕ
  pub knowledge_base_id : ℕ
  pub title : Text
  pub created_at : ℕ

pub record Tables : Type 0 where
  pub knowledge_bases : List KnowledgeBase
  pub conversations : List Conversation
  pub questions : List Question

abbrev pub find {ℓ} : {A : Type ℓ} → (A → Bool) → List A → Option A
find p [] = none
find p (x ∷ xs) = let rest = find p xs in if p x then some x else rest

-- `length(btrim(text)) > 0` fails.
abbrev pub is_blank : Text → Bool
is_blank text = is_empty (lstrip_by (λ c. c == 32) text)

abbrev or_raise : {A : Type 0} → Option A → ServiceError → Result ServiceError A
or_raise none e = err e
or_raise (some a) e = ok a

abbrev pub same_id : ℕ → KnowledgeBase → Bool
same_id knowledge_base_id k = k.id == knowledge_base_id

abbrev pub is_owned : ℕ → ℕ → Conversation → Bool
is_owned knowledge_base_id conversation_id c =
    (c.id == conversation_id) && (c.knowledge_base_id == knowledge_base_id)

unfoldable pub get_knowledge_base : Tables → ℕ → Result ServiceError KnowledgeBase
get_knowledge_base t knowledge_base_id =
    or_raise (find (same_id knowledge_base_id) t.knowledge_bases) knowledge_base_not_found

unfoldable pub get_conversation : Tables → ℕ → ℕ → Result ServiceError Conversation
get_conversation t knowledge_base_id conversation_id =
    or_raise (find (is_owned knowledge_base_id conversation_id) t.conversations)
      conversation_not_found

-- `lower` is the database's, on which the index of the names stands. Any constraint that the new
-- row violates is reported as a conflict of names.
unfoldable pub create_knowledge_base :
    (Text → Text) → ℕ → ℕ → Text → Tables → Result ServiceError (KnowledgeBase × Tables)
create_knowledge_base lower id now name t = do
  raise_if (ltb 120 (length name)) data_error
  let knowledge_base : KnowledgeBase = record { id = id; name = name; created_at = now }
  raise_if
      (contains (map (λ k. k.id) t.knowledge_bases) id
        || contains (map (λ k. lower k.name) t.knowledge_bases) (lower name))
      name_conflict
  ok (knowledge_base, record t { knowledge_bases = t.knowledge_bases ++ knowledge_base ∷ [] })

-- `delete` with its commit: the foreign keys of the conversations and the questions cascade.
unfoldable pub delete_knowledge_base : ℕ → Tables → Result ServiceError Tables
unfolding get_knowledge_base
delete_knowledge_base knowledge_base_id t = do
  knowledge_base ← get_knowledge_base t knowledge_base_id
  ok (record {
    knowledge_bases = select (λ k. not (k.id == knowledge_base.id)) t.knowledge_bases;
    conversations = select (λ c. not (c.knowledge_base_id == knowledge_base.id)) t.conversations;
    questions = select (λ q. not (q.knowledge_base_id == knowledge_base.id)) t.questions;
  })

unfoldable pub create_conversation :
    ℕ → ℕ → ℕ → Text → Tables → Result ServiceError (Conversation × Tables)
unfolding get_knowledge_base
create_conversation id now knowledge_base_id title t = do
  _ ← get_knowledge_base t knowledge_base_id
  raise_if (ltb 120 (length title)) data_error
  let conversation : Conversation = record {
    id = id;
    knowledge_base_id = knowledge_base_id;
    title = title;
    created_at = now;
  }
  raise_if (is_blank title || contains (map (λ c. c.id) t.conversations) id) integrity_error
  ok (conversation, record t { conversations = t.conversations ++ conversation ∷ [] })

-- `create_question`, and `stage_question` before the caller's commit.
unfoldable pub create_question :
    ℕ → ℕ → ℕ → ℕ → Text → Tables → Result ServiceError (Question × Tables)
unfolding get_conversation
create_question id now knowledge_base_id conversation_id content t = do
  _ ← get_conversation t knowledge_base_id conversation_id
  let question : Question = record {
    id = id;
    conversation_id = conversation_id;
    knowledge_base_id = knowledge_base_id;
    content = content;
    created_at = now;
  }
  raise_if (is_blank content || contains (map (λ q. q.id) t.questions) id) integrity_error
  ok (question, record t { questions = t.questions ++ question ∷ [] })

abbrev pub knowledge_base_key : KnowledgeBase → ℕ × ℕ
knowledge_base_key k = (k.created_at, k.id)

abbrev pub conversation_key : Conversation → ℕ × ℕ
conversation_key c = (c.created_at, c.id)

abbrev pub question_key : Question → ℕ × ℕ
question_key q = (q.created_at, q.id)

abbrev pub reversed : {A : Type 0} → List A → List A
reversed [] = []
reversed (x ∷ xs) = reversed xs ++ x ∷ []

module _ (texts : KeyTexts ℕ ℕ) (t : Tables) where
  unfoldable pub list_knowledge_bases : ℕ → Option Text → Result ServiceError (Page KnowledgeBase)
  unfolding list_rows
  list_knowledge_bases = list_rows texts knowledge_base_key descending false t.knowledge_bases

  unfoldable pub list_conversations : ℕ → ℕ → Option Text → Result ServiceError (Page Conversation)
  unfolding list_rows get_knowledge_base
  list_conversations knowledge_base_id limit cursor = do
    _ ← get_knowledge_base t knowledge_base_id
    list_rows texts conversation_key descending false
        (select (λ c. c.knowledge_base_id == knowledge_base_id) t.conversations) limit cursor

  unfoldable pub list_questions : ℕ → ℕ → ℕ → Option Text → Result ServiceError (Page Question)
  unfolding list_rows get_conversation
  list_questions knowledge_base_id conversation_id limit cursor = do
    _ ← get_conversation t knowledge_base_id conversation_id
    list_rows texts question_key ascending false
        (select (λ q. q.conversation_id == conversation_id) t.questions) limit cursor

  -- The newest questions of a conversation, oldest first.
  unfoldable pub recent_questions : ℕ → ℕ → ℕ → Result ServiceError (List Question)
  unfolding get_conversation
  recent_questions knowledge_base_id conversation_id limit = do
    _ ← get_conversation t knowledge_base_id conversation_id
    let questions = select (λ q. q.conversation_id == conversation_id) t.questions
    ok (reversed (take limit (sort (comes_before texts question_key descending) questions)))
