-- ===== src/Prelude/Permuting.antt =====
-- Membership and distinctness do not depend on the order of a list.
use mathlib.Core.HLevel.{Unit-prop, ×_prop}
use mathlib.Core.Bool.{Bool, not, Bool-set, ◌||◌}
use mathlib.Core.List.{List, [], ◌∷◌, ◌++◌, map, Perm, Permᴰ, perm_middle}
use mathlib.Core.List.Perm
use mathlib.Core.Logic.{∥∥₁_elim, inl, inr}
use mathlib.Core.Path.{◌≡◌, refl, ◌∙◌, ap}
use native.Mathlib.Omega.{arith}
use sourcetrace.Prelude.Tests.{Eq, Bool-cases}
use sourcetrace.Prelude.Lists.{select}
use sourcetrace.Prelude.Members.{contains, Distinct}

module _ {ℓ κ} {A : Type ℓ} {B : Type κ} ⦃e : Eq B⦄ (f : A → B) where
  contains-permᴰ :
      {xs ys : List A} (b : B) → Permᴰ xs ys → contains (map f xs) b ≡ contains (map f ys) b
  contains-permᴰ b Permᴰ.nil = refl
  contains-permᴰ b (Permᴰ.cons {a = x} {b = y} p q) = ground (arith, contains-permᴰ b q, ap f p)
  contains-permᴰ b (Permᴰ.swap {a = x} {b = y} {a' = x'} {b' = y'} {l = l} p q) =
      ground (arith, ap f p, ap f q)
  contains-permᴰ b (Permᴰ.trans p q) = contains-permᴰ b p ∙ contains-permᴰ b q

  pub contains-perm :
      {xs ys : List A} (b : B) → Perm xs ys → contains (map f xs) b ≡ contains (map f ys) b
  contains-perm b p = ∥∥₁_elim p (Bool-set _ _) (contains-permᴰ b)

  Distinct-prop : (bs : List B) → IsProp (Distinct bs)
  Distinct-prop [] = Unit-prop
  Distinct-prop (b ∷ bs) = ×_prop (Bool-set _ _) (Distinct-prop bs)

  Distinct-permᴰ : {xs ys : List A} → Permᴰ xs ys → Distinct (map f xs) → Distinct (map f ys)
  Distinct-permᴰ Permᴰ.nil h = tt
  Distinct-permᴰ (Permᴰ.cons {a = x} {b = y} {l₁ = xs} {l₂ = ys} p q) h =
      (ground (arith, contains-permᴰ (f y) q, ap f p), Distinct-permᴰ q h.1)
  Distinct-permᴰ (Permᴰ.swap {a = x} {b = y} {a' = x'} {b' = y'} {l = l} p q) h = (
    ground (
      arith,
      ap f p,
      ap f q,
      e.equals_iff (f x) (f y),
      e.equals_iff (f y) (f x),
      e.equals_iff (f x') (f y'),
    ),
    (ground (arith, ap f p, ap f q), h.1.1),
  )
  Distinct-permᴰ (Permᴰ.trans p q) h = Distinct-permᴰ q (Distinct-permᴰ p h)

  pub Distinct-perm : {xs ys : List A} → Perm xs ys → Distinct (map f xs) → Distinct (map f ys)
  Distinct-perm {ys = ys} p h = ∥∥₁_elim p (Distinct-prop (map f ys)) (λ q. Distinct-permᴰ q h)

  contains-map-append :
      (xs ys : List A) (b : B)
      → contains (map f (xs ++ ys)) b ≡ (contains (map f xs) b || contains (map f ys) b)
  contains-map-append [] ys b = refl
  contains-map-append (x ∷ xs) ys b = ground (arith, contains-map-append xs ys b)

  -- The part of a list of distinct elements has distinct elements.
  pub Distinct-left : (xs ys : List A) → Distinct (map f (xs ++ ys)) → Distinct (map f xs)
  Distinct-left [] ys h = tt
  Distinct-left (x ∷ xs) ys h =
      (ground (arith, contains-map-append xs ys (f x)), Distinct-left xs ys h.1)

module _ {ℓ} {A : Type ℓ} where
  -- The elements that pass a test, and then those that do not, are those of the list.
  pub partition-perm :
      (p : A → Bool) (xs : List A) → Perm (select p xs ++ select (λ x. not (p x)) xs) xs
  unfolding select
  partition-perm p [] = Perm.refl []
  partition-perm p (x ∷ xs) = elim (Bool-cases (p x)) [
    | inl pass ↦ rw (pass, select) (Perm.cons x (partition-perm p xs))
    | inr fail ↦
        rw (fail, select)
          (Perm.trans (perm_middle (select p xs) (select (λ x. not (p x)) xs))
            (Perm.cons x (partition-perm p xs)))
  ]
