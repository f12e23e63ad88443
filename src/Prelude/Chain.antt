-- ===== src/Prelude/Chain.antt =====
-- Lists in a strict order, and what sorting and selecting do to them.
use mathlib.Core.Path.{◌≡◌, refl}
use mathlib.Core.Bool.{Bool, true, false}
use mathlib.Core.List.{List, [], ◌∷◌, ◌++◌, map}
use native.Mathlib.Omega.{arith}
use mathlib.Core.Logic.{inl, inr, ◌⊎◌}
use sourcetrace.Prelude.Tests.{Eq, if◌then◌else◌, Bool-cases}
use sourcetrace.Prelude.Lists.{select}
use sourcetrace.Prelude.Members.{All, All-map, All-middle, contains, Distinct}
use sourcetrace.Prelude.Sort.{sort, sort_insert, All-sort_insert, All-sort}

-- Each element is before all that come after it.
abbrev pub IsChain {ℓ} : {A : Type ℓ} → (A → A → Bool) → List A → Type 0
IsChain before [] = Unit
IsChain before (x ∷ xs) = All (λ y. before x y ≡ true) xs × IsChain before xs

-- Any two elements are comparable.
abbrev pub IsComparable {ℓ} : {A : Type ℓ} → (A → A → Bool) → List A → Type 0
IsComparable before [] = Unit
IsComparable before (x ∷ xs) =
    All (λ y. (before x y ≡ true) ⊎ (before y x ≡ true)) xs × IsComparable before xs

pub All-select {ℓ κ} :
    {A : Type ℓ} (P : A → Type κ) (p : A → Bool) (xs : List A) → All P xs → All P (select p xs)
unfolding select
All-select P p [] h = tt
All-select P p (x ∷ xs) h = elim (Bool-cases (p x)) [
  | inl kept ↦ rw (kept, select) (h.0, All-select P p xs h.1)
  | inr dropped ↦ rw (dropped, select) (All-select P p xs h.1)
]

module _ {ℓ κ} {A : Type ℓ} {B : Type κ} ⦃e : Eq B⦄ (f : A → B) (p : A → Bool) where
  pub contains-select :
      (xs : List A) (b : B)
      → contains (map f xs) b ≡ false
      → contains (map f (select p xs)) b ≡ false
  unfolding select
  contains-select [] b h = refl
  contains-select (x ∷ xs) b h = ground (arith, contains-select xs b)

  pub Distinct-select : (xs : List A) → Distinct (map f xs) → Distinct (map f (select p xs))
  unfolding select
  Distinct-select [] h = tt
  Distinct-select (x ∷ xs) h = elim (Bool-cases (p x)) [
    | inl kept ↦ rw (kept, select) (contains-select xs (f x) h.0, Distinct-select xs h.1)
    | inr dropped ↦ rw (dropped, select) (Distinct-select xs h.1)
  ]

pub record IsStrict {ℓ} {A : Type ℓ} (before : A → A → Bool) : Type ℓ where
  pub asym : (x y : A) → before x y ≡ true → before y x ≡ false
  pub trans : (x y z : A) → before x y ≡ true → before y z ≡ true → before x z ≡ true

module _ {ℓ} {A : Type ℓ} (before : A → A → Bool) (strict : IsStrict before) where
  sort_insert-IsChain :
      (x : A) (ys : List A)
      → All (λ y. (before x y ≡ true) ⊎ (before y x ≡ true)) ys
      → IsChain before ys
      → IsChain before (sort_insert before x ys)
  unfolding sort_insert
  sort_insert-IsChain x [] c h = (tt, tt)
  sort_insert-IsChain x (y ∷ ys) c h = elim (Bool-cases (before y x)) [
    | inl less ↦
        rw (less, sort_insert)
          (
            All-sort_insert before (λ z. before y z ≡ true) x ys less h.0,
            sort_insert-IsChain x ys c.1 h.1,
          )
    | inr more ↦
        let first : before x y ≡ true = elim c.0 [ inl e ↦ e | inr e ↦ cc ] in
        rw (more, sort_insert)
          ((first, All-map _ (λ z. before x z ≡ true) (λ z. strict.trans x y z first) ys h.0), h)
  ]

  pub sort-IsChain : (xs : List A) → IsComparable before xs → IsChain before (sort before xs)
  unfolding sort
  sort-IsChain [] h = tt
  sort-IsChain (x ∷ xs) h =
      sort_insert-IsChain x (sort before xs)
        (All-sort before (λ y. (before x y ≡ true) ⊎ (before y x ≡ true)) xs h.0)
        (sort-IsChain xs h.1)

  sort_insert-front :
      (x : A) (ys : List A) → All (λ y. before x y ≡ true) ys → sort_insert before x ys ≡ x ∷ ys
  unfolding sort_insert
  sort_insert-front x [] h = refl
  sort_insert-front x (y ∷ ys) h = rw (strict.asym x y h.0, sort_insert) refl

  select-sort_insert :
      (p : A → Bool) (x : A) (ys : List A)
      → All (λ y. (before x y ≡ true) ⊎ (before y x ≡ true)) ys
      → IsChain before ys
      → select p (sort_insert before x ys)
        ≡ (if p x then sort_insert before x (select p ys) else select p ys)
  unfolding sort_insert select
  select-sort_insert p x [] c h = refl
  select-sort_insert p x (y ∷ ys) c h = elim (Bool-cases (before y x)) [
    | inl less ↦ ground (arith, select-sort_insert p x ys c.1 h.1)
    | inr more ↦
        let first : before x y ≡ true = elim c.0 [ inl e ↦ e | inr e ↦ cc ] in
        let below : All (λ z. before x z ≡ true) ys =
          All-map _ (λ z. before x z ≡ true) (λ z. strict.trans x y z first) ys h.0 in
        let kept = All-select (λ z. before x z ≡ true) p (y ∷ ys) (first, below) in
        ground (arith, sort_insert-front x (select p (y ∷ ys)) kept)
  ]

  -- Selecting commutes with sorting.
  pub select-sort :
      (p : A → Bool) (xs : List A)
      → IsComparable before xs
      → select p (sort before xs) ≡ sort before (select p xs)
  unfolding sort select
  select-sort p [] h = refl
  select-sort p (x ∷ xs) h =
      let inserted =
        select-sort_insert p x (sort before xs)
          (All-sort before (λ y. (before x y ≡ true) ⊎ (before y x ≡ true)) xs h.0)
          (sort-IsChain xs h.1) in
      ground (arith, inserted, select-sort p xs h.1)

  select-before :
      (x : A) (ys : List A) → All (λ y. before x y ≡ true) ys → select (before x) ys ≡ ys
  unfolding select
  select-before x [] h = refl
  select-before x (y ∷ ys) h = rw (h.0, select-before x ys h.1) refl

  -- What is after an element of a chain.
  pub select-after :
      (xs : List A) (x : A) (ys : List A)
      → IsChain before (xs ++ x ∷ ys)
      → select (before x) (xs ++ x ∷ ys) ≡ ys
  unfolding select
  select-after [] x ys h = ground (arith, select-before x ys h.0, strict.asym x x)
  select-after (w ∷ xs) x ys h =
      rw
        (
          strict.asym w x (All-middle (λ y. before w y ≡ true) xs x ys h.0),
          select-after xs x ys h.1,
        )
        refl
