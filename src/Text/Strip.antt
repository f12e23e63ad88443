-- ===== src/Text/Strip.antt =====
-- Laws of `strip`: what is left has no white space at its ends, so stripping again changes
-- nothing, and stripping removes white space only.
use sourcetrace.Prelude.{ℕ, ◌≡◌, refl, Bool, not, [], ◌∷◌, arith, select, ◌∙◌}
use sourcetrace.Text.{Text, is_space, lstrip_by, rstrip_by, strip_by, strip}

module _ (p : ℕ → Bool) where
  rstrip_by_idem : (s : Text) → rstrip_by p (rstrip_by p s) ≡ rstrip_by p s
  unfolding rstrip_by
  rstrip_by_idem [] = refl
  rstrip_by_idem (c ∷ s) = ground (arith, rstrip_by_idem s)

  -- `lstrip` leaves a suffix whose `rstrip` is itself.
  rstrip_by-lstrip_by : (s : Text) → rstrip_by p s ≡ s → rstrip_by p (lstrip_by p s) ≡ lstrip_by p s
  unfolding rstrip_by lstrip_by
  rstrip_by-lstrip_by [] h = refl
  rstrip_by-lstrip_by (c ∷ s) h = ground (arith, rstrip_by-lstrip_by s)

  lstrip_by_idem : (s : Text) → lstrip_by p (lstrip_by p s) ≡ lstrip_by p s
  unfolding lstrip_by
  lstrip_by_idem [] = refl
  lstrip_by_idem (c ∷ s) = ground (arith, lstrip_by_idem s)

  pub strip_by_idem : (s : Text) → strip_by p (strip_by p s) ≡ strip_by p s
  unfolding strip_by
  strip_by_idem s =
      rw (rstrip_by-lstrip_by (rstrip_by p s) (rstrip_by_idem s)) (lstrip_by_idem (rstrip_by p s))

  -- The characters that `p` does not accept, in order.
  abbrev pub kept : Text → Text
  kept = select (λ c. not (p c))

  kept-lstrip_by : (s : Text) → kept (lstrip_by p s) ≡ kept s
  unfolding lstrip_by select
  kept-lstrip_by [] = refl
  kept-lstrip_by (c ∷ s) = ground (arith, kept-lstrip_by s)

  kept-rstrip_by : (s : Text) → kept (rstrip_by p s) ≡ kept s
  unfolding rstrip_by select
  kept-rstrip_by [] = refl
  kept-rstrip_by (c ∷ s) = ground (arith, kept-rstrip_by s)

  pub kept-strip_by : (s : Text) → kept (strip_by p s) ≡ kept s
  unfolding strip_by
  kept-strip_by s = kept-lstrip_by (rstrip_by p s) ∙ kept-rstrip_by s

pub strip_idem : (s : Text) → strip (strip s) ≡ strip s
unfolding strip
strip_idem s = strip_by_idem is_space s

pub kept-strip : (s : Text) → kept is_space (strip s) ≡ kept is_space s
unfolding strip
kept-strip s = kept-strip_by is_space s

-- A text of white space only is stripped to nothing.
rstrip_by-kept : (p : ℕ → Bool) (s : Text) → kept p s ≡ [] → rstrip_by p s ≡ []
unfolding rstrip_by select
rstrip_by-kept p [] h = refl
rstrip_by-kept p (c ∷ s) h = ground (arith, rstrip_by-kept p s)

pub strip-kept : (s : Text) → kept is_space s ≡ [] → strip s ≡ []
unfolding strip strip_by lstrip_by
strip-kept s h = rw (rstrip_by-kept is_space s h) refl
