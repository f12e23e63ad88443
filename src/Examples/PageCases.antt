-- ===== src/Examples/PageCases.antt =====
-- The theorems on cursors, lists, conversations and knowledge bases at test data.
use sourcetrace.Prelude.{
  ℕ, zero, suc, ◌<◌, ◌≡◌, refl, ap, true, false, some, List, [], ◌∷◌, ◌==◌, nat_eq, list_beq,
  length, select, All, ok, arith,
}
use sourcetrace.Text.{Text, codes, lstrip_by}
use sourcetrace.Paging.Base64.{IsAscii}
use sourcetrace.Paging.Cursor.{
  KeyTexts, IsReadable, encode_cursor, decode_cursor, decode_cursor-encode_cursor,
}
use sourcetrace.Paging.Keyset.{ascending, descending, list_rows}
use sourcetrace.Paging.Keyset.Followed.{IsListing, list_rows-IsListing}
use sourcetrace.Conversations.{
  Tables, KnowledgeBase, knowledge_base_key, question_key, list_questions, get_conversation,
  create_question, create_conversation, create_knowledge_base,
}
use sourcetrace.Conversations.Owned.{IsSound, Operation, apply_all, operations-IsSound}
use sourcetrace.Conversations.Deletion.{delete, stopped_before_commit}
use sourcetrace.Conversations.Deletion.Recovered.{
  AreKnown, EndsRecovered, at_rest, delete-IsRecovered,
}
use sourcetrace.Conversations.Listed.{list_questions-IsListing}

abbrev strokes : ℕ → ℕ → Text
strokes c zero = []
strokes c (suc n) = c ∷ strokes c n

length-strokes : (c n : ℕ) → length (strokes c n) ≡ n
length-strokes c zero = refl
length-strokes c (suc n) = ap (λ m. suc m) (length-strokes c n)

strokes-All : (P : ℕ → Type 0) (c n : ℕ) → P c → All P (strokes c n)
strokes-All P c zero h = tt
strokes-All P c (suc n) h = (h, strokes-All P c n h)

-- A time and an identifier as strokes.
abbrev stroke_texts : KeyTexts ℕ ℕ
stroke_texts = record {
  isoformat = strokes 84;
  fromisoformat = λ s. some (length s);
  is_aware = λ t. true;
  str_of_id = strokes 48;
  uuid_of = λ s. some (length s);
  instant = λ t. t;
  number = λ i. i;
}

stroke_texts-IsReadable : IsReadable stroke_texts
stroke_texts-IsReadable = record {
  fromisoformat-isoformat = λ t. ap (λ n. some n) (length-strokes 84 t);
  uuid_of-str_of_id = λ i. ap (λ n. some n) (length-strokes 48 i);
  isoformat_plain = λ t. strokes-All (λ c. (c < 128) × (c == 124 ≡ false)) 84 t (omega arith, refl);
  number_injective = λ i j e. e;
  str_of_id_plain = λ i. strokes-All IsAscii 48 i (omega arith);
}

decode_cursor-encode_cursor_example :
    decode_cursor stroke_texts true (encode_cursor stroke_texts (3, 5)) ≡ ok (3, 5)
decode_cursor-encode_cursor_example =
    decode_cursor-encode_cursor stroke_texts stroke_texts-IsReadable true (3, 5) refl

abbrev bases : List KnowledgeBase
bases =
    record { id = 4; name = codes "Pumps"; created_at = 7 }
    ∷ record { id = 2; name = codes "Valves"; created_at = 9 }
    ∷ record { id = 6; name = codes "Pipes"; created_at = 7 }
    ∷ []

list_rows-IsListing_example :
    IsListing stroke_texts knowledge_base_key descending bases
      (list_rows stroke_texts knowledge_base_key descending false bases 2)
list_rows-IsListing_example =
    list_rows-IsListing stroke_texts knowledge_base_key descending stroke_texts-IsReadable false
      bases (refl, (refl, (refl, tt))) 2 (omega arith) (refl, (refl, (refl, tt)))

abbrev same_text : Text → Text
same_text s = s

abbrev operations : List Operation
operations =
    Operation.base_created 4 7 (codes "Pumps")
    ∷ Operation.base_created 5 8 (codes "Pumps")
    ∷ Operation.conversation_created 1 8 4 (codes "Flow")
    ∷ Operation.question_created 10 9 4 1 (codes "How fast?")
    ∷ Operation.question_created 11 9 4 1 (codes "How hot?")
    ∷ Operation.question_created 12 9 5 1 (codes "Whose?")
    ∷ []

abbrev no_tables : Tables
no_tables = record { knowledge_bases = []; conversations = []; questions = [] }

no_tables-IsSound : IsSound same_text no_tables
no_tables-IsSound = record {
  distinct_bases = tt;
  distinct_names = tt;
  distinct_conversations = tt;
  distinct_questions = tt;
  owned = tt;
  asked = tt;
}

operations-IsSound_example : IsSound same_text (apply_all same_text operations no_tables)
operations-IsSound_example = operations-IsSound same_text operations no_tables no_tables-IsSound

abbrev asked_tables : Tables
asked_tables = apply_all same_text operations no_tables

list_questions-IsListing_example :
    IsListing stroke_texts question_key ascending
      (select (λ q. q.conversation_id == 1) asked_tables.questions)
      (list_questions stroke_texts asked_tables 4 1 1)
unfolding get_conversation create_question create_conversation create_knowledge_base list_beq
    lstrip_by
list_questions-IsListing_example =
    list_questions-IsListing stroke_texts stroke_texts-IsReadable same_text asked_tables
      (operations-IsSound same_text operations no_tables no_tables-IsSound) 4 1 1 refl
      (refl, (refl, tt)) (omega arith)

abbrev folders : List (ℕ × Text)
folders = (4, codes "files") ∷ []

folders-AreKnown : AreKnown asked_tables folders
unfolding create_question create_conversation create_knowledge_base get_conversation list_beq
    lstrip_by
folders-AreKnown i h = ground arith

delete-IsRecovered_example :
    EndsRecovered asked_tables folders folders-AreKnown
      (delete 4 77 stopped_before_commit asked_tables (at_rest folders))
delete-IsRecovered_example =
    delete-IsRecovered asked_tables folders folders-AreKnown 4 77 stopped_before_commit
