-- ===== src/Retrieval/Hybrid/Lexical/Matches.antt =====
-- The terms that the pattern of the lexical query finds.
use sourcetrace.Prelude.{
  ℕ, Bool, true, false, not, ◌&&◌, ◌||◌, List, [], ◌∷◌, ◌++◌, ◌≡◌, refl, sym, ap, ◌∙◌, nat_eq,
  select, All, All-append, arith, Bool-cases, inl, inr,
}
use sourcetrace.Prelude.Lists.{select-append}
use sourcetrace.Text.{Text}
use mathlib.Core.List.{append_assoc, append-nil}
use sourcetrace.Retrieval.Hybrid.Lexical.{
  is_latin, is_separator, Reading, outside, inside, separated, next_reading, matched,
  matched_at_end, find_from, find_terms,
}

-- `(?:[-_]?[A-Za-z0-9])*`, where the separator may stand only if no letter or digit is due.
unfoldable pub is_rest : Bool → Text → Bool
is_rest due [] = not due
is_rest due (c ∷ s) =
    (is_latin c && is_rest false s) || ((is_separator c && not due) && is_rest true s)

abbrev pub IsTerm : Text → Type 0
unfolding is_rest
IsTerm t = is_rest true t ≡ true

abbrev pub latin_of : Text → Text
latin_of = select is_latin

unfoldable pub concat : List Text → Text
concat [] = []
concat (t ∷ ts) = t ++ concat ts

concat-append : (ts us : List Text) → concat (ts ++ us) ≡ concat ts ++ concat us
unfolding concat
concat-append [] us = refl
concat-append (t ∷ ts) us = rw (concat-append ts us) (sym (append_assoc t (concat ts) (concat us)))

separator-latin : (c : ℕ) → is_separator c ≡ true → is_latin c ≡ false
separator-latin c h = ground arith

is_rest-append :
    (due : Bool) (s u : Text)
    → is_rest due s ≡ true
    → is_rest false u ≡ true
    → is_rest due (s ++ u) ≡ true
unfolding is_rest
is_rest-append false [] u h k = k
is_rest-append true [] u h k = absurd cc
is_rest-append due (c ∷ s) u h k = elim (Bool-cases (is_latin c && is_rest false s)) [
  | inl there ↦
      let more : is_rest false (s ++ u) ≡ true = is_rest-append false s u (ground arith) k in
      ground arith
  | inr apart ↦
      let more : is_rest true (s ++ u) ≡ true = is_rest-append true s u (ground arith) k in
      ground arith
]

unfoldable IsReading : Reading → Type 0
unfolding is_rest
IsReading outside = Unit
IsReading (inside t) = IsTerm t
IsReading (separated t d) = IsTerm t × (is_separator d ≡ true)

abbrev read_of : Reading → Text
read_of outside = []
read_of (inside t) = t
read_of (separated t d) = t

next_reading-IsReading : (r : Reading) (c : ℕ) → IsReading r → IsReading (next_reading r c)
unfolding next_reading is_rest IsReading
next_reading-IsReading outside c h = elim (Bool-cases (is_latin c)) [
  | inl latin ↦ rw (latin, is_rest) (ground arith)
  | inr other ↦ rw (other, IsReading) tt
]
next_reading-IsReading (inside t) c h = elim (Bool-cases (is_latin c)) [
  | inl latin ↦ rw (latin) (is_rest-append true t (c ∷ []) h (ground arith))
  | inr other ↦ elim (Bool-cases (is_separator c)) [
    | inl separator ↦ rw (other, separator) (h, separator)
    | inr apart ↦ rw (other, apart) tt
  ]
]
next_reading-IsReading (separated t d) c h = elim (Bool-cases (is_latin c)) [
  | inl latin ↦ rw (latin) (is_rest-append true t (d ∷ c ∷ []) h.0 (ground (arith, h.1)))
  | inr other ↦ rw (other) tt
]

matched-IsTerm : (r : Reading) (c : ℕ) → IsReading r → All IsTerm (matched r c)
unfolding matched IsReading
matched-IsTerm outside c h = tt
matched-IsTerm (inside t) c h = elim (Bool-cases (is_latin c || is_separator c)) [
  | inl goes_on ↦ rw (goes_on) tt
  | inr ends ↦ rw (ends) (h, tt)
]
matched-IsTerm (separated t d) c h = elim (Bool-cases (is_latin c)) [
  | inl goes_on ↦ rw (goes_on) tt
  | inr ends ↦ rw (ends) (h.0, tt)
]

find_from-AreTerms : (r : Reading) (s : Text) → IsReading r → All IsTerm (find_from r s)
unfolding find_from matched_at_end IsReading
find_from-AreTerms outside [] h = tt
find_from-AreTerms (inside t) [] h = (h, tt)
find_from-AreTerms (separated t d) [] h = (h.0, tt)
find_from-AreTerms r (c ∷ s) h =
    All-append IsTerm (matched r c) (find_from (next_reading r c) s) (matched-IsTerm r c h)
      (find_from-AreTerms (next_reading r c) s (next_reading-IsReading r c h))

latin_of-other : (c : ℕ) (s : Text) → is_latin c ≡ false → latin_of (c ∷ s) ≡ latin_of s
unfolding select
latin_of-other c s h = rw (h) refl

latin_of-[] : latin_of [] ≡ []
unfolding select
latin_of-[] = refl

-- What a step keeps: no letter or digit is lost between the terms.
latin_of-step :
    (r : Reading) (c : ℕ)
    → IsReading r
    → latin_of (concat (matched r c)) ++ latin_of (read_of (next_reading r c))
      ≡ latin_of (read_of r) ++ latin_of (c ∷ [])
unfolding matched next_reading concat IsReading
latin_of-step outside c h = elim (Bool-cases (is_latin c)) [
  | inl latin ↦ rw (latin) refl
  | inr other ↦ rw (other, latin_of-other c [] other) refl
]
latin_of-step (inside t) c h = elim (Bool-cases (is_latin c)) [
  | inl latin ↦ rw (latin, latin_of-[]) (select-append is_latin t (c ∷ []))
  | inr other ↦ elim (Bool-cases (is_separator c)) [
    | inl separator ↦
        rw (other, separator, latin_of-other c [] other, latin_of-[])
          (sym (append-nil (latin_of t)))
    | inr apart ↦ rw (other, apart, append-nil t, latin_of-other c [] other) refl
  ]
]
latin_of-step (separated t d) c h = elim (Bool-cases (is_latin c)) [
  | inl latin ↦
      let joined = select-append is_latin t (d ∷ c ∷ []) in
      rw (latin, latin_of-[])
        (joined
          ∙ ap (λ more. latin_of t ++ more) (latin_of-other d (c ∷ []) (separator-latin d h.1)))
  | inr other ↦ rw (other, append-nil t, latin_of-other c [] other) refl
]

latin_of-find_from :
    (r : Reading) (s : Text)
    → IsReading r
    → latin_of (concat (find_from r s)) ≡ latin_of (read_of r) ++ latin_of s
unfolding find_from matched_at_end concat select
latin_of-find_from outside [] h = refl
latin_of-find_from (inside t) [] h = select-append is_latin t []
latin_of-find_from (separated t d) [] h = select-append is_latin t []
latin_of-find_from r (c ∷ s) h =
    let found = concat (matched r c) in
    let next = next_reading r c in
    let rest = latin_of-find_from next s (next_reading-IsReading r c h) in
    ap latin_of (concat-append (matched r c) (find_from next s))
    ∙ select-append is_latin found (concat (find_from next s))
    ∙ ap (λ more. latin_of found ++ more) rest
    ∙ sym (append_assoc (latin_of found) (latin_of (read_of next)) (latin_of s))
    ∙ ap (λ start. start ++ latin_of s) (latin_of-step r c h)
    ∙ append_assoc (latin_of (read_of r)) (latin_of (c ∷ [])) (latin_of s)
    ∙ ap (λ more. latin_of (read_of r) ++ more) (sym (select-append is_latin (c ∷ []) s))

-- Every term that the search of the lexical query finds is one of its pattern: letters and digits
-- of ASCII, and between two of them a single hyphen or underscore at most. The letters and digits
-- of the terms, one term after another, are those of the query, in their order.
pub find_terms-AreTerms :
    (s : Text) → All IsTerm (find_terms s) × (latin_of (concat (find_terms s)) ≡ latin_of s)
unfolding find_terms IsReading select
find_terms-AreTerms s = (find_from-AreTerms outside s tt, latin_of-find_from outside s tt)
