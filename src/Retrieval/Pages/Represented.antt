-- ===== src/Retrieval/Pages/Represented.antt =====
-- `select_page_diverse` of modules/retrieval/service.py: the pages that it shows.
use mathlib.Core.List.{append_assoc, append-nil, map-append}
use sourcetrace.Prelude.{
  ℕ, ◌≡◌, refl, sym, ◌∙◌, true, false, List, [], ◌∷◌, ◌++◌, map, ◌==◌, nat_eq, contains, length,
  take_diff, arith, Bool-cases, inl, inr, ◌⊎◌, Distinct, Distinct-snoc, All, All-append, All-map,
  contains-append,
}
use sourcetrace.Retrieval.Evidence.{RetrievedEvidence, pair_eq}
use sourcetrace.Retrieval.Pages.{page_of, page_loop, select_page_diverse}

abbrev Items : Type 0 → Type 0
Items Score = List (RetrievedEvidence Score)

module _ {Score : Type 0} where
  abbrev pages_of : Items Score → List (ℕ × ℕ)
  pages_of = map page_of

  -- The page of `item` is among those of `chosen`.
  abbrev IsShown : Items Score → RetrievedEvidence Score → Type 0
  IsShown chosen item = contains (pages_of chosen) (page_of item) ≡ true

  -- `result` begins with items of distinct pages; if more follows, they show every page.
  pub record IsDiverse (evidence result : Items Score) : Type 0 where
    pub chosen : Items Score
    pub extra : Items Score
    pub parts : result ≡ chosen ++ extra
    pub distinct : Distinct (pages_of chosen)
    pub exhausted : (extra ≡ []) ⊎ All (IsShown chosen) evidence

  IsShown-snoc :
      (chosen : Items Score) (item : RetrievedEvidence Score) (other : RetrievedEvidence Score)
      → IsShown chosen other
      → IsShown (chosen ++ item ∷ []) other
  IsShown-snoc chosen item other h =
      rw map-append
        (ground (arith, contains-append (pages_of chosen) (page_of item ∷ []) (page_of other)))

  IsShown-self :
      (chosen : Items Score) (item : RetrievedEvidence Score) → IsShown (chosen ++ item ∷ []) item
  IsShown-self chosen item = rw map-append (
      ground (
        arith,
        contains-append (pages_of chosen) (page_of item ∷ []) (page_of item),
        pair_eq.equals_iff (page_of item) (page_of item),
      ))

  Distinct-pages-snoc :
      (chosen : Items Score) (item : RetrievedEvidence Score)
      → Distinct (pages_of chosen)
      → contains (pages_of chosen) (page_of item) ≡ false
      → Distinct (pages_of (chosen ++ item ∷ []))
  Distinct-pages-snoc chosen item h new =
      rw map-append (Distinct-snoc (pages_of chosen) (page_of item) h new)

  pages-snoc :
      (chosen : Items Score) (item : RetrievedEvidence Score)
      → pages_of (chosen ++ item ∷ []) ≡ pages_of chosen ++ page_of item ∷ []
  pages-snoc chosen item = map-append _ chosen _

  -- `before` is the evidence that the loop has read.
  page_loop-IsDiverse :
      (limit : ℕ) (before selected deferred evidence : Items Score)
      → Distinct (pages_of selected)
      → All (IsShown selected) before
      → IsDiverse
          (before ++ evidence)
          (page_loop limit selected deferred (pages_of selected) evidence)
  unfolding page_loop
  page_loop-IsDiverse limit before selected deferred [] d shown = record {
    chosen = selected;
    extra = take_diff limit (length selected) deferred;
    parts = refl;
    distinct = d;
    exhausted = inr (rw append-nil shown);
  }
  page_loop-IsDiverse limit before selected deferred (item ∷ evidence) d shown =
      elim (Bool-cases (contains (pages_of selected) (page_of item))) [
        | inl seen ↦
            rw (seen, page_loop)
              (rw append_assoc at (
                page_loop-IsDiverse limit (before ++ item ∷ []) selected (deferred ++ item ∷ [])
                  evidence d (All-append _ before _ shown (seen, tt))))
        | inr new ↦ elim (Bool-cases (length (selected ++ item ∷ []) == limit)) [
          | inl full ↦
              rw (new, full, page_loop)
                (record {
                  chosen = selected ++ item ∷ [];
                  extra = [];
                  parts = sym (append-nil (selected ++ item ∷ []));
                  distinct = Distinct-pages-snoc selected item d new;
                  exhausted = inl refl;
                })
          | inr room ↦
              rw (new, room, page_loop)
                (rw (← pages-snoc selected item) (
                  rw append_assoc at (
                    page_loop-IsDiverse limit (before ++ item ∷ []) (selected ++ item ∷ []) deferred
                      evidence (Distinct-pages-snoc selected item d new)
                      (All-append _ before _ (All-map _ _ (IsShown-snoc selected item) before shown)
                        (IsShown-self selected item, tt)))))
        ]
      ]

  -- The selection of select_page_diverse begins with items of distinct pages, and more follow only
  -- when those show every page of the evidence.
  pub select_page_diverse-IsDiverse :
      (evidence : Items Score) (limit : ℕ) → IsDiverse evidence (select_page_diverse evidence limit)
  unfolding select_page_diverse
  select_page_diverse-IsDiverse evidence limit = page_loop-IsDiverse limit [] [] [] evidence tt tt

  page_loop-append :
      (limit : ℕ) (selected deferred : Items Score) (pages : List (ℕ × ℕ)) (evidence : Items Score)
      → (more : Items Score) × (page_loop limit selected deferred pages evidence ≡ selected ++ more)
  unfolding page_loop
  page_loop-append limit selected deferred pages [] =
      (take_diff limit (length selected) deferred, refl)
  page_loop-append limit selected deferred pages (item ∷ evidence) =
      elim (Bool-cases (contains pages (page_of item))) [
        | inl seen ↦
            rw (seen, page_loop)
              (page_loop-append limit selected (deferred ++ item ∷ []) pages evidence)
        | inr new ↦ elim (Bool-cases (length (selected ++ item ∷ []) == limit)) [
          | inl full ↦ rw (new, full, page_loop) (item ∷ [], refl)
          | inr room ↦
              let (more, e) =
                page_loop-append limit (selected ++ item ∷ []) deferred (pages ++ page_of item ∷ [])
                  evidence in
              rw (new, room, page_loop) (item ∷ more, e ∙ append_assoc selected (item ∷ []) more)
        ]
      ]

  -- The first item of the evidence is selected, and stays first.
  pub select_page_diverse-head :
      (item : RetrievedEvidence Score) (evidence : Items Score) (limit : ℕ)
      → (more : Items Score) × (select_page_diverse (item ∷ evidence) limit ≡ item ∷ more)
  unfolding select_page_diverse page_loop
  select_page_diverse-head item evidence limit = elim (Bool-cases (1 == limit)) [
    | inl full ↦ rw (full, select_page_diverse, page_loop) ([], refl)
    | inr room ↦
        rw (room, select_page_diverse, page_loop)
          (page_loop-append limit (item ∷ []) [] (page_of item ∷ []) evidence)
  ]
