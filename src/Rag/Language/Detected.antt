-- ===== src/Rag/Language/Detected.antt =====
-- `detect_question_language` of rag/language.py: which texts have which language.
use sourcetrace.Prelude.{◌<◌, ◌≡◌, ◌↔◌, refl, false, ◌||◌, none, some, [], ◌∷◌, ltb, some_of, arith}
use sourcetrace.Text.{Text}
use sourcetrace.Rag.Language.{
  chinese, is_han, is_latin, outside, latin_words_from, latin_word_count, han_count,
  detect_question_language,
}

han_count_positive : (s : Text) → ltb 0 (han_count s) ≡ some_of is_han s
unfolding han_count
han_count_positive [] = refl
han_count_positive (c ∷ s) = ground (arith, han_count_positive s)

-- Outside a match, a letter anywhere means a word.
latin_words_positive : (s : Text) → ltb 0 (latin_words_from outside s) ≡ some_of is_latin s
unfolding latin_words_from
latin_words_positive [] = refl
latin_words_positive (c ∷ s) = ground (arith, latin_words_positive s)

-- No language is detected exactly when the text has neither a Han character nor a Latin letter.
pub detect_question_language-none :
    (s : Text)
    → (detect_question_language s ≡ none) ↔ ((some_of is_han s || some_of is_latin s) ≡ false)
unfolding detect_question_language latin_word_count
detect_question_language-none s = (
  λ h. ground (arith, han_count_positive s, latin_words_positive s),
  λ h. ground (arith, han_count_positive s, latin_words_positive s),
)

-- A text is Chinese exactly when its Han characters outnumber its Latin words.
pub detect_question_language-chinese :
    (s : Text) → (detect_question_language s ≡ some chinese) ↔ (latin_word_count s < han_count s)
unfolding detect_question_language
detect_question_language-chinese s = (λ h. ground arith, λ h. ground arith)
