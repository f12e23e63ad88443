-- ===== src/Rag/AnswerText.antt =====
-- rag/answer_text.py: the units of an answer. The regular expression is read from left to right:
-- `Before` is what stands in front of the next character, and tells which alternative can match.
pub mod Units
use sourcetrace.Prelude.{
  ℕ, Bool, not, ◌||◌, List, [], ◌∷◌, ◌++◌, map, ◌==◌, nat_eq, select, if◌then◌else◌,
}
use sourcetrace.Text.{Text, is_empty, is_space, strip}

pub data Before : Type 0 where
  plain ascii_end cjk_end spaces newlines : Before

-- `[.!?;]`
unfoldable pub ends_ascii : ℕ → Bool
ends_ascii c = c == b'.' || c == b'!' || c == b'?' || c == b';'

-- The full stop, exclamation mark, question mark and semicolon of Chinese text.
unfoldable pub ends_cjk : ℕ → Bool
ends_cjk c = c == 0x3002 || c == 0xFF01 || c == 0xFF1F || c == 0xFF1B

abbrev pub newline : ℕ
newline = 10

abbrev pub before_of : ℕ → Before
before_of c = if ends_ascii c then ascii_end else if ends_cjk c then cjk_end else plain

-- `_ANSWER_UNIT_SPLIT.split`; `piece` is the piece that is being read.
unfoldable pub pieces_from : Before → Text → Text → List Text
pieces_from cjk_end piece [] = piece ∷ [] ∷ []
pieces_from _ piece [] = piece ∷ []
pieces_from plain piece (c ∷ s) =
    let cut = pieces_from newlines [] s in
    let more = pieces_from (before_of c) (piece ++ c ∷ []) s in
    if c == newline then piece ∷ cut else more
pieces_from ascii_end piece (c ∷ s) =
    let cut = pieces_from spaces [] s in
    let more = pieces_from (before_of c) (piece ++ c ∷ []) s in
    if is_space c then piece ∷ cut else more
pieces_from cjk_end piece (c ∷ s) =
    let cut = pieces_from spaces [] s in
    let next = pieces_from (before_of c) (c ∷ []) s in
    if is_space c then piece ∷ cut else piece ∷ next
pieces_from spaces piece (c ∷ s) =
    let skip = pieces_from spaces piece s in
    let more = pieces_from (before_of c) (piece ++ c ∷ []) s in if is_space c then skip else more
pieces_from newlines piece (c ∷ s) =
    let skip = pieces_from newlines piece s in
    let more = pieces_from (before_of c) (piece ++ c ∷ []) s in if c == newline then skip else more

unfoldable pub split_answer_units : Text → List Text
unfolding pieces_from ends_ascii ends_cjk is_space strip select
split_answer_units answer =
    select (λ unit. not (is_empty unit)) (map strip (pieces_from plain [] answer))
