-- ===== src/Text.antt =====
-- Python's `str` as its list of code points, with the methods that the program calls:
-- `isspace` (also the `\s` of `re`), `strip`, `split` without an argument, and `join`.
pub mod Split
pub mod Strip
use sourcetrace.Prelude.{
  ℕ, ◌≤◌, Bool, true, false, ◌&&◌, ◌||◌, List, [], ◌∷◌, ◌++◌, ◌==◌, leb, if◌then◌else◌, nat_eq,
}
use Prim.Native.Char.{code}
use Prim.Native.String.{String}

abbrev pub Text : Type 0
Text = List ℕ

-- The code points of a literal.
abbrev pub codes : String → Text
codes String.[] = []
codes (String.◌∷◌ c s) = code c ∷ codes s

-- The code points that Unicode counts as white space.
unfoldable pub is_space : ℕ → Bool
is_space c =
    (leb 0x09 c && leb c 0x0D)
    || (leb 0x1C c && leb c 0x20)
    || (c == 0x85)
    || (c == 0xA0)
    || (c == 0x1680)
    || (leb 0x2000 c && leb c 0x200A)
    || (c == 0x2028)
    || (c == 0x2029)
    || (c == 0x202F)
    || (c == 0x205F)
    || (c == 0x3000)

abbrev pub is_empty : Text → Bool
is_empty [] = true
is_empty (c ∷ s) = false

-- `lstrip`, `rstrip` and `strip` of the characters that `p` accepts.
unfoldable pub lstrip_by : (ℕ → Bool) → Text → Text
lstrip_by p [] = []
lstrip_by p (c ∷ s) = let rest = lstrip_by p s in if p c then rest else c ∷ s

unfoldable pub rstrip_by : (ℕ → Bool) → Text → Text
rstrip_by p [] = []
rstrip_by p (c ∷ s) = let rest = rstrip_by p s in if is_empty rest && p c then [] else c ∷ rest

unfoldable pub strip_by : (ℕ → Bool) → Text → Text
unfolding lstrip_by rstrip_by
strip_by p s = lstrip_by p (rstrip_by p s)

unfoldable pub strip : Text → Text
unfolding strip_by is_space
strip = strip_by is_space

-- `s.split()`: the maximal runs of characters that are not white space. `word` holds the run
-- that is being read, in order.
unfoldable pub split_from : Text → Text → List Text
unfolding is_space
split_from word [] = if is_empty word then [] else word ∷ []
split_from word (c ∷ s) =
    let next = split_from [] s in
    let more = split_from (word ++ c ∷ []) s in
    if is_space c then (if is_empty word then next else word ∷ next) else more

unfoldable pub split : Text → List Text
unfolding split_from
split = split_from []

-- `sep.join(parts)`
unfoldable pub join : Text → List Text → Text
join sep [] = []
join sep (t ∷ []) = t
join sep (t ∷ u ∷ ts) = t ++ (sep ++ join sep (u ∷ ts))
