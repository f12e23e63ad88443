-- ===== src/Text/Split.antt =====
-- A text that is not blank has a word, so its words joined are not empty.
use sourcetrace.Prelude.{
  ℕ, ◌≡◌, refl, Bool, true, false, not, ◌⊎◌, inr, List, [], ◌∷◌, ◌++◌, arith, some_of,
}
use sourcetrace.Text.{
  Text, is_empty, is_space, lstrip_by, rstrip_by, strip_by, strip, split_from, split, join,
}

abbrev has_word : Text → Bool
has_word = some_of (λ c. not (is_space c))

rstrip_by_blank :
    (p : ℕ → Bool) (s : Text) → some_of (λ c. not (p c)) s ≡ false → rstrip_by p s ≡ []
unfolding rstrip_by
rstrip_by_blank p [] h = refl
rstrip_by_blank p (c ∷ s) h = ground (arith, rstrip_by_blank p s)

has_word_of_strip : (s : Text) → is_empty (strip s) ≡ false → has_word s ≡ true
unfolding strip strip_by lstrip_by
has_word_of_strip s h = ground (arith, rstrip_by_blank is_space s)

join-nonempty :
    (sep t : Text) (ts : List Text) → is_empty t ≡ false → is_empty (join sep (t ∷ ts)) ≡ false
unfolding join
join-nonempty sep (c ∷ t) [] h = refl
join-nonempty sep (c ∷ t) (u ∷ ts) h = refl
join-nonempty sep [] ts h = cc

is_empty-snoc : (s : Text) (c : ℕ) → is_empty (s ++ c ∷ []) ≡ false
is_empty-snoc [] c = refl
is_empty-snoc (d ∷ s) c = refl

join-split_from :
    (sep word s : Text)
    → (is_empty word ≡ false) ⊎ (has_word s ≡ true)
    → is_empty (join sep (split_from word s)) ≡ false
unfolding split_from
join-split_from sep word [] h = ground (arith, join-nonempty sep word [])
join-split_from sep word (c ∷ s) h = ground (
  arith,
  join-nonempty sep word (split_from [] s),
  join-split_from sep [] s,
  join-split_from sep (word ++ c ∷ []) s,
  is_empty-snoc word c,
)

pub join-split : (sep s : Text) → is_empty (strip s) ≡ false → is_empty (join sep (split s)) ≡ false
unfolding split
join-split sep s h = join-split_from sep [] s (inr (has_word_of_strip s h))
