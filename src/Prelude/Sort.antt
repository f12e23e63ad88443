-- ===== src/Prelude/Sort.antt =====
-- Python's `sorted` as a stable insertion sort. `before x y` says that the key of `x` is less than
-- that of `y`; an element goes in front of what is not before it, so equal keys keep their order.
use mathlib.Core.List.{Perm}
use mathlib.Core.List.Perm
use Prim.Native.Nat.{suc}
use mathlib.Core.Path.{◌≡◌, refl, ◌∙◌}
use mathlib.Core.Bool.{Bool, true, false}
use mathlib.Core.List.{List, [], ◌∷◌, map}
use native.Mathlib.Omega.{arith}
use sourcetrace.Prelude.Tests.{Eq, if◌then◌else◌, Bool-cases}
use mathlib.Core.Logic.{inl, inr}
use sourcetrace.Prelude.Lists.{length}
use sourcetrace.Prelude.Members.{All, contains, Distinct}

module _ {ℓ} {A : Type ℓ} (before : A → A → Bool) where
  unfoldable pub sort_insert : A → List A → List A
  sort_insert x [] = x ∷ []
  sort_insert x (y ∷ ys) =
      let rest = sort_insert x ys in if before y x then y ∷ rest else x ∷ y ∷ ys

  unfoldable pub sort : List A → List A
  unfolding sort_insert
  sort [] = []
  sort (x ∷ xs) = sort_insert x (sort xs)

  sort_insert-perm : (x : A) (ys : List A) → Perm (sort_insert x ys) (x ∷ ys)
  unfolding sort_insert
  sort_insert-perm x [] = Perm.refl (x ∷ [])
  sort_insert-perm x (y ∷ ys) = elim (Bool-cases (before y x)) [
    | inl less ↦
        rw (less, sort_insert) (Perm.trans (Perm.cons y (sort_insert-perm x ys)) (Perm.swap x y ys))
    | inr more ↦ rw (more, sort_insert) (Perm.refl (x ∷ y ∷ ys))
  ]

  pub sort-perm : (xs : List A) → Perm (sort xs) xs
  unfolding sort
  sort-perm [] = Perm.refl []
  sort-perm (x ∷ xs) = Perm.trans (sort_insert-perm x (sort xs)) (Perm.cons x (sort-perm xs))

  -- No element is before the one in front of it.
  abbrev pub IsSorted : List A → Type 0
  IsSorted [] = Unit
  IsSorted (x ∷ []) = Unit
  IsSorted (x ∷ y ∷ ys) = (before y x ≡ false) × IsSorted (y ∷ ys)

  module _ (asym : (x y : A) → before x y ≡ true → before y x ≡ false) where
    sort_insert-IsSorted : (x : A) (ys : List A) → IsSorted ys → IsSorted (sort_insert x ys)
    unfolding sort_insert
    sort_insert-IsSorted x [] h = tt
    sort_insert-IsSorted x (y ∷ []) h = elim (Bool-cases (before y x)) [
      | inl less ↦ rw (less, sort_insert) (asym y x less, tt)
      | inr more ↦ rw (more, sort_insert) (more, tt)
    ]
    sort_insert-IsSorted x (y ∷ z ∷ ys) h = elim (Bool-cases (before y x)) [
      | inl less ↦
          let below = sort_insert-IsSorted x (z ∷ ys) h.1 in
          elim (Bool-cases (before z x)) [
            | inl less' ↦ rw (less, less', sort_insert) (h.0, rw (less', sort_insert) at below)
            | inr more' ↦ rw (less, more', sort_insert) (asym y x less, (more', h.1))
          ]
      | inr more ↦ rw (more, sort_insert) (more, h)
    ]

    pub sort-IsSorted : (xs : List A) → IsSorted (sort xs)
    unfolding sort
    sort-IsSorted [] = tt
    sort-IsSorted (x ∷ xs) = sort_insert-IsSorted x (sort xs) (sort-IsSorted xs)

  length-sort_insert : (x : A) (ys : List A) → length (sort_insert x ys) ≡ suc (length ys)
  unfolding sort_insert
  length-sort_insert x [] = refl
  length-sort_insert x (y ∷ ys) = ground (arith, length-sort_insert x ys)

  pub length-sort : (xs : List A) → length (sort xs) ≡ length xs
  unfolding sort
  length-sort [] = refl
  length-sort (x ∷ xs) = omega (arith, length-sort_insert x (sort xs), length-sort xs)

  -- Sorting keeps the keys of the elements, each as often.
  module _ {κ} {B : Type κ} ⦃e : Eq B⦄ (f : A → B) where
    contains-sort_insert :
        (x : A) (ys : List A) (b : B)
        → contains (map f (sort_insert x ys)) b ≡ contains (map f (x ∷ ys)) b
    unfolding sort_insert
    contains-sort_insert x [] b = refl
    contains-sort_insert x (y ∷ ys) b = ground (arith, contains-sort_insert x ys b)

    pub contains-sort : (xs : List A) (b : B) → contains (map f (sort xs)) b ≡ contains (map f xs) b
    unfolding sort
    contains-sort [] b = refl
    contains-sort (x ∷ xs) b =
        ground (arith, contains-sort_insert x (sort xs) b, contains-sort xs b)

    Distinct-sort_insert :
        (x : A) (ys : List A)
        → contains (map f ys) (f x) ≡ false
        → Distinct (map f ys)
        → Distinct (map f (sort_insert x ys))
    unfolding sort_insert
    Distinct-sort_insert x [] new h = (refl, tt)
    Distinct-sort_insert x (y ∷ ys) new h = elim (Bool-cases (before y x)) [
      | inl less ↦
          rw (less, sort_insert)
            (
              ground (
                arith,
                contains-sort_insert x ys (f y),
                e.equals_iff (f x) (f y),
                e.equals_iff (f y) (f x),
              ),
              Distinct-sort_insert x ys (ground arith) h.1,
            )
      | inr more ↦ rw (more, sort_insert) (new, h)
    ]

    pub Distinct-sort : (xs : List A) → Distinct (map f xs) → Distinct (map f (sort xs))
    unfolding sort
    Distinct-sort [] h = tt
    Distinct-sort (x ∷ xs) h =
        Distinct-sort_insert x (sort xs) (contains-sort xs (f x) ∙ h.0) (Distinct-sort xs h.1)

  pub All-sort_insert {κ} :
      (P : A → Type κ) (x : A) (ys : List A) → P x → All P ys → All P (sort_insert x ys)
  unfolding sort_insert
  All-sort_insert P x [] px h = (px, tt)
  All-sort_insert P x (y ∷ ys) px h = elim (Bool-cases (before y x)) [
    | inl less ↦ rw (less, sort_insert) (h.0, All-sort_insert P x ys px h.1)
    | inr more ↦ rw (more, sort_insert) (px, h)
  ]

  pub All-sort {κ} : (P : A → Type κ) (xs : List A) → All P xs → All P (sort xs)
  unfolding sort
  All-sort P [] h = tt
  All-sort P (x ∷ xs) h = All-sort_insert P x (sort xs) h.0 (All-sort P xs h.1)
