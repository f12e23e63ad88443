-- ===== src/Retrieval/Order.antt =====
-- The order of the candidates of modules/retrieval, said without the keys of `sort`.
use sourcetrace.Prelude.{ℕ, ◌≤◌, ◌≡◌, Bool, false, List, [], ◌∷◌}
use sourcetrace.Prelude.Sort.{IsSorted}
use sourcetrace.Retrieval.Evidence.{Scores}

module _ (scores : Scores) {A : Type 0} (first second : A → scores.Score) (id_of : A → ℕ) where
  open scores use {lt}

  -- `a` may stand in front of `b`: its first score is not lower; where it is not higher either, its
  -- second score is not lower; and where that is not higher either, its identifier is not larger.
  abbrev pub MayPrecede : A → A → Type 0
  MayPrecede a b =
      (lt (first a) (first b) ≡ false)
      × (lt (first b) (first a) ≡ false
          → (lt (second a) (second b) ≡ false)
            × (lt (second b) (second a) ≡ false → id_of a ≤ id_of b))

  abbrev pub IsDescending : List A → Type 0
  IsDescending [] = Unit
  IsDescending (a ∷ []) = Unit
  IsDescending (a ∷ b ∷ xs) = MayPrecede a b × IsDescending (b ∷ xs)

  pub IsSorted-IsDescending :
      (before : A → A → Bool)
      → ((a b : A) → before b a ≡ false → MayPrecede a b)
      → (xs : List A) → IsSorted before xs
      → IsDescending xs
  IsSorted-IsDescending before follows [] h = tt
  IsSorted-IsDescending before follows (a ∷ []) h = tt
  IsSorted-IsDescending before follows (a ∷ b ∷ xs) h =
      (follows a b h.0, IsSorted-IsDescending before follows (b ∷ xs) h.1)
