-- ===== src/Retrieval/Fusion/Traversal.antt =====
-- A comprehension returns if each of its calls does, and keeps the keys that its calls keep.
use sourcetrace.Prelude.{◌≡◌, refl, List, [], ◌∷◌, map, ok, All, ap₂, Result}
use sourcetrace.Retrieval.Fusion.{SearchError, traverse}

pub traverse-total :
    {A B K : Type 0} (f : A → Result SearchError B) (g : A → K) (h : B → K) (xs : List A)
    → All (λ x. (y : B) × (f x ≡ ok y) × (h y ≡ g x)) xs
    → (ys : List B) × (traverse f xs ≡ ok ys) × (map h ys ≡ map g xs)
unfolding traverse
traverse-total f g h [] total = ([], refl, refl)
traverse-total f g h (x ∷ xs) total =
    let (y, done, same) = total.0 in
    let (ys, done', same') = traverse-total f g h xs total.1 in
    (y ∷ ys, rw (done, done') refl, ap₂ (λ k ks. k ∷ ks) same same')
