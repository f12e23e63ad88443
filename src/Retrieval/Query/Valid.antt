-- ===== src/Retrieval/Query/Valid.antt =====
-- `_unique_queries` and the loop of `with_additional_queries` of modules/retrieval/service.py: the
-- shape of their queries.
use mathlib.Core.List.{map-append}
use sourcetrace.Prelude.{
  ◌≡◌, refl, ap, subst, true, false, List, [], ◌∷◌, ◌++◌, map, leb, nat_eq, list_eq, contains,
  contains-append, list_beq_iff, length, ◌||◌, arith, All, All-append, Distinct, Distinct-snoc,
  Bool-cases, inl, inr, ◌⊎◌,
}
use sourcetrace.Text.{Text, is_empty, strip}
use sourcetrace.Text.Strip.{strip_idem}
use sourcetrace.Retrieval.Query.{
  normalize_query, key_of, is_skipped, unique_loop, unique_queries, accept_loop,
}

module _ (casefold : Text → Text) where
  pub record AreQueries (queries : List Text) : Type 0 where
    pub stripped : All (λ q. strip q ≡ q) queries
    pub nonblank : All (λ q. is_empty (normalize_query casefold q) ≡ false) queries
    pub distinct : Distinct (map (normalize_query casefold) queries)

  pub AreQueries-snoc :
      (queries : List Text) (query : Text)
      → AreQueries queries
      → is_skipped casefold (map (normalize_query casefold) queries) (key_of casefold query) ≡ false
      → AreQueries (queries ++ strip query ∷ [])
  AreQueries-snoc queries query h fresh = record {
    stripped = All-append _ queries _ h.stripped (strip_idem query, tt);
    nonblank = All-append _ queries _ h.nonblank (ground arith, tt);
    distinct = rw map-append (
        Distinct-snoc (map (normalize_query casefold) queries) (key_of casefold query) h.distinct
          (ground arith));
  }

  abbrev pub keys : List Text → List Text
  keys = map (normalize_query casefold)

  pub keys-snoc :
      (queries : List Text) (query : Text)
      → keys (queries ++ strip query ∷ []) ≡ keys queries ++ key_of casefold query ∷ []
  keys-snoc queries query = map-append _ queries _

  unique_loop-AreQueries :
      (unique queries : List Text)
      → AreQueries unique
      → AreQueries (unique_loop casefold unique (keys unique) queries)
  unfolding unique_loop
  unique_loop-AreQueries unique [] h = h
  unique_loop-AreQueries unique (query ∷ queries) h =
      elim (Bool-cases (is_skipped casefold (keys unique) (key_of casefold query))) [
        | inl skip ↦ rw (skip, unique_loop) (unique_loop-AreQueries unique queries h)
        | inr fresh ↦
            rw (fresh, unique_loop)
              (rw (← keys-snoc unique query) (
                unique_loop-AreQueries (unique ++ strip query ∷ []) queries
                  (AreQueries-snoc unique query h fresh)))
      ]

  -- The result of _unique_queries is stripped, not blank, and distinct once normalised.
  pub unique_queries-AreQueries :
      (queries : List Text) → AreQueries (unique_queries casefold queries)
  unfolding unique_queries
  unique_queries-AreQueries queries =
      unique_loop-AreQueries [] queries (record { stripped = tt; nonblank = tt; distinct = tt })

  pub accept_loop-AreQueries :
      (accepted queries : List Text)
      → AreQueries accepted
      → AreQueries (accept_loop casefold accepted (keys accepted) queries)
  unfolding accept_loop
  accept_loop-AreQueries accepted [] h = h
  accept_loop-AreQueries accepted (query ∷ queries) h =
      elim (Bool-cases (is_skipped casefold (keys accepted) (key_of casefold query))) [
        | inl skip ↦ rw (skip, accept_loop) (accept_loop-AreQueries accepted queries h)
        | inr fresh ↦ elim (Bool-cases (leb 3 (length accepted))) [
          | inl full ↦ rw (fresh, full, accept_loop) h
          | inr room ↦
              rw (fresh, room, accept_loop)
                (rw (← keys-snoc accepted query) (
                  accept_loop-AreQueries (accepted ++ strip query ∷ []) queries
                    (AreQueries-snoc accepted query h fresh)))
        ]
      ]

  -- The query is blank once normalised, or its key is among those of the result.
  abbrev pub IsCovered : List Text → Text → Type 0
  IsCovered result query =
      (is_empty (key_of casefold query) ≡ true)
      ⊎ (contains (keys result) (key_of casefold query) ≡ true)

  contains-keys-snoc :
      (queries : List Text) (query key : Text)
      → contains (keys (queries ++ strip query ∷ [])) key
        ≡ (contains (keys queries) key || contains (key_of casefold query ∷ []) key)
  contains-keys-snoc queries query key =
      rw keys-snoc (contains-append (keys queries) (key_of casefold query ∷ []) key)

  -- What the loop has accepted stays.
  unique_loop-keeps :
      (unique queries : List Text) (key : Text)
      → contains (keys unique) key ≡ true
      → contains (keys (unique_loop casefold unique (keys unique) queries)) key ≡ true
  unfolding unique_loop
  unique_loop-keeps unique [] key h = h
  unique_loop-keeps unique (query ∷ queries) key h =
      elim (Bool-cases (is_skipped casefold (keys unique) (key_of casefold query))) [
        | inl skip ↦ rw (skip, unique_loop) (unique_loop-keeps unique queries key h)
        | inr fresh ↦
            rw (fresh, unique_loop)
              (rw (← keys-snoc unique query) (
                unique_loop-keeps (unique ++ strip query ∷ []) queries key
                  (ground (arith, contains-keys-snoc unique query key))))
      ]

  unique_loop-covers :
      (unique queries : List Text)
      → All (IsCovered (unique_loop casefold unique (keys unique) queries)) queries
  unfolding unique_loop
  unique_loop-covers unique [] = tt
  unique_loop-covers unique (query ∷ queries) =
      let key = key_of casefold query in
      let covers : List Text → Type 0 = λ result. All (IsCovered result) (query ∷ queries) in
      elim (Bool-cases (is_skipped casefold (keys unique) key)) [
        | inl skip ↦ subst covers (rw (skip, unique_loop) refl) (
          elim (Bool-cases (is_empty key)) [
            | inl blank ↦ inl blank
            | inr text ↦ inr (unique_loop-keeps unique queries key (ground arith))
          ],
          unique_loop-covers unique queries,
        )
        | inr fresh ↦
            subst covers
              (rw (fresh, unique_loop)
                (ap (λ k. unique_loop casefold (unique ++ strip query ∷ []) k queries)
                  (keys-snoc unique query)))
              (
                inr (
                    unique_loop-keeps (unique ++ strip query ∷ []) queries key (
                      ground
                        (arith, contains-keys-snoc unique query key, list_beq_iff nat_eq key key))),
                unique_loop-covers (unique ++ strip query ∷ []) queries,
              )
      ]

  -- Every query that is given to _unique_queries is blank once normalised, or has the normalised
  -- text of a query in the result.
  pub unique_queries-covers :
      (queries : List Text) → All (IsCovered (unique_queries casefold queries)) queries
  unfolding unique_queries
  unique_queries-covers queries = unique_loop-covers [] queries
