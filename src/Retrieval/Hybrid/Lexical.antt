-- ===== src/Retrieval/Hybrid/Lexical.antt =====
-- modules/retrieval/hybrid.py: the lexical query that `build_lexical_search_query` makes of the
-- terms that `[A-Za-z0-9]+(?:[-_][A-Za-z0-9]+)*` finds. The pattern is greedy and its matches do
-- not overlap, so a search from the left is a run of an automaton over the text.
pub mod Matches
pub mod Phrases
use sourcetrace.Prelude.{
  ℕ, ◌≤◌, ◌<◌, ◌-◌, suc, Bool, true, false, not, ◌&&◌, ◌||◌, Option, none, some, List, [], ◌∷◌,
  ◌++◌, map, ◌==◌, ◌≡◌, refl, leb, ltb, if◌then◌else◌, nat_eq, list_eq, select, take, length, All,
  All-append, arith, Bool-cases, inl, inr,
}
use sourcetrace.Text.{Text, codes, join}

abbrev pub is_latin : ℕ → Bool
is_latin c = (leb 0x41 c && leb c 0x5A) || (leb 0x61 c && leb c 0x7A) || (leb 0x30 c && leb c 0x39)

abbrev pub is_separator : ℕ → Bool
is_separator c = (c == 0x2D) || (c == 0x5F)

-- What the search has read: no part of a match, a match, or a match and a separator that
-- belongs to it only if a letter or a digit follows.
pub data Reading : Type 0 where
  outside : Reading
  inside : Text → Reading
  separated : Text → ℕ → Reading

unfoldable pub next_reading : Reading → ℕ → Reading
next_reading outside c = if is_latin c then inside (c ∷ []) else outside
next_reading (inside t) c =
    if is_latin c then inside (t ++ c ∷ []) else if is_separator c then separated t c else outside
next_reading (separated t d) c = if is_latin c then inside (t ++ d ∷ c ∷ []) else outside

unfoldable pub matched : Reading → ℕ → List Text
matched outside c = []
matched (inside t) c = if is_latin c || is_separator c then [] else t ∷ []
matched (separated t d) c = if is_latin c then [] else t ∷ []

unfoldable pub matched_at_end : Reading → List Text
matched_at_end outside = []
matched_at_end (inside t) = t ∷ []
matched_at_end (separated t d) = t ∷ []

unfoldable pub find_from : Reading → Text → List Text
unfolding matched matched_at_end next_reading
find_from r [] = matched_at_end r
find_from r (c ∷ s) = matched r c ++ find_from (next_reading r c) s

-- `_LATIN_TERM_PATTERN.findall(query)`
unfoldable pub find_terms : Text → List Text
unfolding find_from
find_terms = find_from outside

-- `tuple(dict.fromkeys(terms))`
unfoldable pub unique_terms : List Text → List Text
unique_terms [] = []
unique_terms (t ∷ ts) = t ∷ select (λ u. not (u == t)) (unique_terms ts)

-- `terms[index : index + width] for index in range(len(terms) - width + 1)`
unfoldable pub windows : ℕ → List Text → List (List Text)
windows width [] = []
windows width (t ∷ ts) =
    let rest = windows width ts in
    if leb width (length (t ∷ ts)) then take width (t ∷ ts) ∷ rest else rest

abbrev pub phrase_of : List Text → Text
phrase_of terms = codes "\"" ++ join (codes " ") terms ++ codes "\""

unfoldable pub phrases_of : List Text → List Text
unfolding windows join
phrases_of terms = map phrase_of (windows 2 terms ++ windows 3 terms ++ windows 4 terms)

pub record LexicalSearchQuery : Type 0 where
  pub disjunction : Text
  pub phrase_disjunction : Text

abbrev pub minimum_lexical_terms : ℕ
minimum_lexical_terms = 4

unfoldable pub query_of_terms : List Text → Option LexicalSearchQuery
unfolding unique_terms phrases_of join
query_of_terms terms =
    if ltb (length terms) minimum_lexical_terms
    then none
    else some record {
      disjunction = join (codes " OR ") (unique_terms terms);
      phrase_disjunction = join (codes " OR ") (phrases_of terms);
    }

unfoldable pub build_lexical_search_query : Text → Option LexicalSearchQuery
unfolding find_terms query_of_terms
build_lexical_search_query query = query_of_terms (find_terms query)
