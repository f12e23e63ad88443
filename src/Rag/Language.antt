-- ===== src/Rag/Language.antt =====
-- rag/language.py: the language of a question, and whether an answer keeps it.
pub mod Detected
use sourcetrace.Prelude.{
  ℕ, zero, suc, ◌+◌, Bool, true, false, not, ◌&&◌, ◌||◌, Option, none, some, List, [], ◌∷◌, ◌==◌,
  nat_eq, ltb, leb, every, some_of, length, select, if◌then◌else◌,
}
use sourcetrace.Text.{Text}
use sourcetrace.Rag.AnswerText.{split_answer_units}
use sourcetrace.Rag.Citation.{remove_labels}

pub data AnswerLanguage : Type 0 where
  chinese english : AnswerLanguage

-- `_HAN_CHARACTER`
unfoldable pub is_han : ℕ → Bool
is_han c =
    (leb 0x3400 c && leb c 0x4DBF)
    || (leb 0x4E00 c && leb c 0x9FFF)
    || (leb 0xF900 c && leb c 0xFAFF)

unfoldable pub is_latin : ℕ → Bool
is_latin c = (leb b'A' c && leb c b'Z') || (leb b'a' c && leb c b'z')

-- `[-']`
abbrev pub is_joint : ℕ → Bool
is_joint c = c == b'-' || c == 39

-- Where a scan for `_LATIN_WORD` stands: outside a match, in a run of letters, or at a joint that
-- the match takes only if a letter follows.
pub data Scan : Type 0 where
  outside in_word at_joint : Scan

abbrev pub next_scan : Scan → ℕ → Scan
next_scan scan c =
    if is_latin c
    then in_word
    else elim scan [ in_word ↦ if is_joint c then at_joint else outside | _ ↦ outside ]

-- A letter outside a match begins one.
abbrev pub begins : Scan → ℕ → Bool
begins outside c = is_latin c
begins _ c = false

-- `len(_LATIN_WORD.findall(s))`
unfoldable pub latin_words_from : Scan → Text → ℕ
latin_words_from scan [] = 0
latin_words_from scan (c ∷ s) =
    let rest = latin_words_from (next_scan scan c) s in if begins scan c then suc rest else rest

unfoldable pub latin_word_count : Text → ℕ
unfolding latin_words_from is_latin
latin_word_count s = latin_words_from outside s

-- `len(_HAN_CHARACTER.findall(s))`
unfoldable pub han_count : Text → ℕ
unfolding select is_han
han_count s = length (select is_han s)

abbrev pub language_of_counts : ℕ → ℕ → Option AnswerLanguage
language_of_counts han latin =
    if ltb 0 han && ltb latin han
    then some chinese
    else if ltb 0 latin
    then some english
    else if ltb 0 han
    then some chinese
    else none

unfoldable pub detect_question_language : Text → Option AnswerLanguage
unfolding latin_word_count han_count
detect_question_language question =
    language_of_counts (han_count question) (latin_word_count question)

abbrev pub is_english : Option AnswerLanguage → Bool
is_english (some english) = true
is_english _ = false

abbrev pub keeps_language : AnswerLanguage → List Text → Bool
keeps_language language [] = false
keeps_language chinese (unit ∷ units) = every (some_of is_han) (unit ∷ units)
keeps_language english (unit ∷ units) =
    every (λ u. is_english (detect_question_language u)) (unit ∷ units)

unfoldable pub answer_matches_question_language : Text → Text → Bool
unfolding detect_question_language split_answer_units remove_labels
answer_matches_question_language question answer = elim (detect_question_language question) [
  | none ↦ true
  | some language ↦ keeps_language language (split_answer_units (remove_labels answer))
]
