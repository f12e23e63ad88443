-- ===== src/Prelude/Dict.antt =====
-- Python's `dict` as an association list: a key keeps its place when its value is replaced, and a
-- new key goes to the end.
use mathlib.Core.Path.{◌≡◌, refl}
use mathlib.Core.Bool.{true}
use mathlib.Core.List.{List, [], ◌∷◌, ◌++◌, map}
use mathlib.Core.Option.{Option, none, some}
use native.Mathlib.Omega.{arith}
use sourcetrace.Prelude.Tests.{Eq, ◌==◌, if◌then◌else◌, Bool-cases}
use sourcetrace.Prelude.Members.{All, contains, Distinct, Distinct-snoc}
use mathlib.Core.Logic.{inl, inr}

abbrev pub Dict : Type 0 → Type 0 → Type 0
Dict K V = List (K × V)

module _ {K V : Type 0} where
  abbrev pub keys : Dict K V → List K
  keys = map (λ e. e.0)

module _ {K V : Type 0} ⦃e : Eq K⦄ where
  -- `d.get(k)`
  unfoldable pub get : Dict K V → K → Option V
  get [] k = none
  get ((j, v) ∷ d) k = if j == k then some v else get d k

  -- `d[k] = v`
  unfoldable pub put : Dict K V → K → V → Dict K V
  put [] k v = (k, v) ∷ []
  put ((j, w) ∷ d) k v = if j == k then (j, v) ∷ d else (j, w) ∷ put d k v

  pub get-put :
      (d : Dict K V) (k j : K) (v : V) → get (put d k v) j ≡ (if k == j then some v else get d j)
  unfolding get put
  get-put [] k j v = refl
  get-put ((i, w) ∷ d) k j v =
      ground (arith, e.equals_iff k j, e.equals_iff i k, e.equals_iff i j, get-put d k j v)

  -- Putting a key that is there leaves the keys as they are; a new one is appended.
  pub keys-put :
      (d : Dict K V) (k : K) (v : V)
      → keys (put d k v) ≡ (if contains (keys d) k then keys d else keys d ++ k ∷ [])
  unfolding put
  keys-put [] k v = refl
  keys-put ((j, w) ∷ d) k v = ground (arith, e.equals_iff k j, e.equals_iff j k, keys-put d k v)

  pub Distinct-keys-put :
      (d : Dict K V) (k : K) (v : V) → Distinct (keys d) → Distinct (keys (put d k v))
  Distinct-keys-put d k v h = elim (Bool-cases (contains (keys d) k)) [
    | inl old ↦ rw keys-put (rw old h)
    | inr new ↦ rw keys-put (rw new (Distinct-snoc (keys d) k h new))
  ]

  -- A key is among the keys exactly when it has a value.
  pub get-contains :
      (d : Dict K V) (k : K) → contains (keys d) k ≡ true → (v : V) × (get d k ≡ some v)
  unfolding get
  get-contains [] k h = cc
  get-contains ((j, v) ∷ d) k h = elim (Bool-cases (j == k)) [
    | inl same ↦ (v, rw same)
    | inr other ↦
        let (w, found) = get-contains d k (ground (arith, e.equals_iff k j, e.equals_iff j k)) in
        (w, rw (other, found))
  ]

  pub All-put {κ} :
      (P : K × V → Type κ) (d : Dict K V) (k : K) (v : V) → P (k, v) → All P d → All P (put d k v)
  unfolding put
  All-put P [] k v p h = (p, tt)
  All-put P ((j, w) ∷ d) k v p h = elim (Bool-cases (j == k)) [
    | inl same ↦ rw (same, put) (rw ((e.equals_iff j k).0 same) p, h.1)
    | inr other ↦ rw (other, put) (h.0, All-put P d k v p h.1)
  ]

  pub contains-get : (d : Dict K V) (k : K) (v : V) → get d k ≡ some v → contains (keys d) k ≡ true
  unfolding get
  contains-get [] k v h = cc
  contains-get ((j, w) ∷ d) k v h =
      ground (arith, e.equals_iff k j, e.equals_iff j k, contains-get d k v)
