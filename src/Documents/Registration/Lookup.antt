-- ===== src/Documents/Registration/Lookup.antt =====
-- Look-ups in the tables of a registration.
use sourcetrace.Prelude.{
  ℕ, ◌≡◌, refl, sym, ap, ◌∙◌, Bool, true, false, ◌&&◌, some, List, [], ◌∷◌, ◌++◌, ◌==◌, nat_eq,
  list_eq, some_of, Bool-cases, inl, inr, arith,
}
use sourcetrace.Documents.Registration.{Document, find_row}
use sourcetrace.Documents.Registration.Sound.{Unique}

module _ {A : Type 0} where
  pub find_row-some_of :
      (p q : A → Bool) (xs : List A) (x : A)
      → find_row p xs ≡ some x
      → q x ≡ true
      → some_of q xs ≡ true
  find_row-some_of p q [] x h k = cc
  find_row-some_of p q (y ∷ ys) x h k = ground (arith, find_row-some_of p q ys x)

  pub find_row-true : (p : A → Bool) (xs : List A) (x : A) → find_row p xs ≡ some x → p x ≡ true
  find_row-true p [] x h = cc
  find_row-true p (y ∷ ys) x h = ground (arith, find_row-true p ys x)

  pub find_row-here :
      (p : A → Bool) (x : A) (xs : List A) → p x ≡ true → find_row p (x ∷ xs) ≡ some x
  find_row-here p x xs h = rw h refl

  pub find_row-append :
      (p : A → Bool) (xs ys : List A) (x : A)
      → find_row p xs ≡ some x
      → find_row p (xs ++ ys) ≡ some x
  find_row-append p [] ys x h = cc
  find_row-append p (y ∷ xs) ys x h = ground (arith, find_row-append p xs ys x)

  pub find_row-snoc :
      (p : A → Bool) (xs : List A) (x : A)
      → some_of p xs ≡ false
      → p x ≡ true
      → find_row p (xs ++ x ∷ []) ≡ some x
  find_row-snoc p [] x h k = rw k refl
  find_row-snoc p (y ∷ xs) x h k = ground (arith, find_row-snoc p xs x)

  pub find_row-Unique :
      (same : A → A → Bool) (p q : A → Bool) (xs : List A) (x : A)
      → Unique same xs
      → find_row p xs ≡ some x
      → q x ≡ true
      → ((y : A) → q y ≡ true → same y x ≡ true)
      → find_row q xs ≡ some x
  find_row-Unique same p q [] x u h k f = cc
  find_row-Unique same p q (y ∷ ys) x u h k f = elim (Bool-cases (p y)) [
    | inl here ↦
        let found : some y ≡ some x = sym (find_row-here p y ys here) ∙ h in
        let it : y ≡ x = cc in let kept : q y ≡ true = ap q it ∙ k in rw kept found
    | inr past ↦
        let rest : find_row p ys ≡ some x = ground arith in
        let kept = find_row-Unique same p q ys x u.1 rest k f in
        elim (Bool-cases (q y)) [
          | inl match ↦ let again = find_row-some_of p (same y) ys x rest (f y match) in cc
          | inr none_here ↦ rw none_here kept
        ]
  ]

abbrev pub is_at : ℕ → ℕ → Document → Bool
is_at document_id base d = (d.id == document_id) && (d.knowledge_base_id == base)
