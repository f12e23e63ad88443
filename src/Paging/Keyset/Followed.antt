-- ===== src/Paging/Keyset/Followed.antt =====
-- A reader that follows the cursors from the first page.
use sourcetrace.Prelude.{
  ℕ, zero, suc, ◌+◌, ◌≤◌, ◌<◌, ◌≡◌, refl, ap, sym, subst, ◌∙◌, Bool, true, false, Option, none,
  some, List, [], ◌∷◌, ◌++◌, map, ◌==◌, nat_eq, ltb, length, length-take, length-drop,
  take-append-drop, take, drop, select, All, All-middle, Distinct, contains, Result, ok, inl, inr,
  ◌⊎◌, arith, Bool-cases,
}
use mathlib.Core.List.{append_assoc, Perm}
use sourcetrace.Prelude.Sort.{sort, All-sort, sort-perm}
use sourcetrace.Prelude.Chain.{
  IsChain, IsComparable, IsStrict, sort-IsChain, select-sort, select-after,
}
use sourcetrace.Text.{Text, is_empty}
use sourcetrace.Paging.Cursor.{
  KeyTexts, ServiceError, encode_cursor, IsReadable, decode_cursor-encode_cursor, decoded_nonempty,
}
use sourcetrace.Paging.Keyset.{
  Order, ascending, descending, Page, last_of, is_greater, is_past, comes_before, select_page,
  read_cursor, cursor_of, paged, list_rows,
}

-- What the pages give, one after another, from the page of `cursor` to the one without a cursor.
pub data Gives {Row : Type 0} (fetch : Option Text → Result ServiceError (Page Row))
    : Option Text → List Row → Type 0 where
  last_page :
      {cursor : Option Text} {items : List Row}
      → fetch cursor ≡ ok (record { items = items; next_cursor = none })
      → Gives fetch cursor items
  next_page :
      {cursor : Option Text} {next : Text} {items more : List Row}
      → fetch cursor ≡ ok (record { items = items; next_cursor = some next })
      → Gives fetch (some next) more
      → Gives fetch cursor (items ++ more)

module _ {Moment Key Row : Type 0} (texts : KeyTexts Moment Key) (key : Row → Moment × Key)
    (order : Order) where
  -- The pages from the first one give every row of `rows` once, in the order.
  pub record IsListing (rows : List Row) (fetch : Option Text → Result ServiceError (Page Row))
      : Type 0 where
    pub all : List Row
    pub given : Gives fetch none all
    pub same_rows : Perm all rows
    pub in_order : IsChain (comes_before texts key order) all

  greater_asym :
      (a b : Moment × Key) → is_greater texts key a b ≡ true → is_greater texts key b a ≡ false
  unfolding is_greater
  greater_asym a b h = ground arith

  greater_trans :
      (a b c : Moment × Key)
      → is_greater texts key a b ≡ true
      → is_greater texts key b c ≡ true
      → is_greater texts key a c ≡ true
  unfolding is_greater
  greater_trans a b c h k = ground arith

  greater_total :
      (a b : Moment × Key)
      → texts.number a.1 == texts.number b.1 ≡ false
      → (is_greater texts key a b ≡ true) ⊎ (is_greater texts key b a ≡ true)
  unfolding is_greater
  greater_total a b h = ground arith

  abbrev pub HasKeys : List Row → Type 0
  HasKeys rows = Distinct (map (λ r. texts.number (key r).1) rows)

  compared :
      (o : Order) (a b : Moment × Key)
      → (is_greater texts key a b ≡ true) ⊎ (is_greater texts key b a ≡ true)
      → (is_past texts key o a b ≡ true) ⊎ (is_past texts key o b a ≡ true)
  unfolding is_past
  compared ascending a b (inl h) = inr h
  compared ascending a b (inr h) = inl h
  compared descending a b h = h

  past-IsStrict : (o : Order) → IsStrict (is_past texts key o)
  unfolding is_past
  past-IsStrict ascending = record {
    asym = λ x y. greater_asym y x;
    trans = λ x y z h k. greater_trans z y x k h;
  }
  past-IsStrict descending = record { asym = greater_asym; trans = greater_trans }

  comes_before-IsStrict : IsStrict (comes_before texts key order)
  comes_before-IsStrict =
      let strict = past-IsStrict order in
      record {
        asym = λ x y. strict.asym (key x) (key y);
        trans = λ x y z. strict.trans (key x) (key y) (key z);
      }

  apart :
      (r : Row) (rows : List Row)
      → contains (map (λ s. texts.number (key s).1) rows) (texts.number (key r).1) ≡ false
      → All
          (λ s.
            (comes_before texts key order r s ≡ true) ⊎ (comes_before texts key order s r ≡ true))
          rows
  unfolding is_past
  apart r [] h = tt
  apart r (s ∷ rows) h =
      let differ : texts.number (key r).1 == texts.number (key s).1 ≡ false = ground arith in
      let total = greater_total (key r) (key s) differ in
      (compared order (key r) (key s) total, apart r rows (ground arith))

  HasKeys-IsComparable :
      (rows : List Row) → HasKeys rows → IsComparable (comes_before texts key order) rows
  HasKeys-IsComparable [] h = tt
  HasKeys-IsComparable (r ∷ rows) h = (apart r rows h.0, HasKeys-IsComparable rows h.1)

last_split :
    {A : Type 0} (xs : List A)
    → 1 ≤ length xs
    → (init : List A) × (x : A) × (xs ≡ init ++ x ∷ []) × (last_of xs ≡ some x)
last_split [] h = absurd (omega arith)
last_split (x ∷ []) h = ([], x, refl, refl)
last_split (x ∷ y ∷ xs) h =
    let (init, z, whole, last) = last_split (y ∷ xs) (omega arith) in
    (x ∷ init, z, ap (λ l. x ∷ l) whole, last)

split_at :
    {A : Type 0} (n : ℕ) (whole front init rest : List A) (x : A)
    → whole ≡ front ++ rest
    → take n rest ≡ init ++ x ∷ []
    → whole ≡ (front ++ init) ++ x ∷ drop n rest
split_at n whole front init rest x parts taken =
    parts
    ∙ ap (λ l. front ++ l) (sym (take-append-drop n rest))
    ∙ ap (λ l. front ++ (l ++ drop n rest)) taken
    ∙ ap (λ l. front ++ l) (append_assoc init (x ∷ []) (drop n rest))
    ∙ sym (append_assoc front init (x ∷ drop n rest))

take-take : {A : Type 0} (n m : ℕ) (xs : List A) → n ≤ m → take n (take m xs) ≡ take n xs
take-take zero m xs h = refl
take-take (suc n) zero xs h = absurd (omega arith)
take-take (suc n) (suc m) [] h = refl
take-take (suc n) (suc m) (x ∷ xs) h = ap (λ l. x ∷ l) (take-take n m xs (omega arith))

take_all : {A : Type 0} (n : ℕ) (xs : List A) → length xs ≤ n → take n xs ≡ xs
take_all zero [] h = refl
take_all zero (x ∷ xs) h = absurd (omega arith)
take_all (suc n) [] h = refl
take_all (suc n) (x ∷ xs) h = ap (λ l. x ∷ l) (take_all n xs (omega arith))

module _ {Moment Key Row : Type 0} (texts : KeyTexts Moment Key) (key : Row → Moment × Key)
    (order : Order) (readable : IsReadable texts) (strict : Bool) where
  cursor-nonempty :
      (k : Moment × Key) → texts.is_aware k.0 ≡ true → is_empty (encode_cursor texts k) ≡ false
  cursor-nonempty k aware =
      decoded_nonempty texts strict (encode_cursor texts k)
        (decode_cursor-encode_cursor texts readable strict k aware)

  read_cursor-encode_cursor :
      (k : Moment × Key)
      → texts.is_aware k.0 ≡ true
      → read_cursor texts key strict (some (encode_cursor texts k)) ≡ ok (some k)
  unfolding read_cursor
  read_cursor-encode_cursor k aware =
      rw (cursor-nonempty k aware, decode_cursor-encode_cursor texts readable strict k aware) refl

  module _ (rows : List Row) (keys : HasKeys texts key order rows) where
    abbrev sorted : List Row
    sorted = sort (comes_before texts key order) rows

    abbrev rest_of : Option (Moment × Key) → List Row
    rest_of none = sorted
    rest_of (some k) = select (λ r. is_past texts key order k (key r)) sorted

    select_page-take :
        (n : ℕ) (after : Option (Moment × Key))
        → select_page texts key order rows n after ≡ take n (rest_of after)
    unfolding select_page
    select_page-take n none = refl
    select_page-take n (some k) = ap (take n) (
        sym (
          select-sort (comes_before texts key order) (comes_before-IsStrict texts key order)
            (λ r. is_past texts key order k (key r)) rows
            (HasKeys-IsComparable texts key order rows keys)))

    -- The page at a place in the sorted rows, when it is the last one and when it is not.
    list_rows-last :
        (limit : ℕ) (cursor : Option Text) (after : Option (Moment × Key))
        → read_cursor texts key strict cursor ≡ ok after
        → length (rest_of after) ≤ limit
        → list_rows texts key order strict rows limit cursor
          ≡ ok (record { items = rest_of after; next_cursor = none })
    unfolding list_rows paged
    list_rows-last limit cursor after read short =
        let page = select_page-take (limit + 1) after in
        let whole = take_all (limit + 1) (rest_of after) (omega arith) in
        let items = take_all limit (rest_of after) short in
        let few : ltb limit (length (rest_of after)) ≡ false = ground arith in
        rw (read, page, whole, few, items) refl

    list_rows-more :
        (limit : ℕ) (cursor : Option Text) (after : Option (Moment × Key)) (x : Row)
        → read_cursor texts key strict cursor ≡ ok after
        → limit < length (rest_of after)
        → last_of (take limit (rest_of after)) ≡ some x
        → list_rows texts key order strict rows limit cursor
          ≡ ok (record {
            items = take limit (rest_of after);
            next_cursor = some (encode_cursor texts (key x));
          })
    unfolding list_rows paged cursor_of
    list_rows-more limit cursor after x read long last =
        let page = select_page-take (limit + 1) after in
        let items = take-take limit (limit + 1) (rest_of after) (omega arith) in
        let many : ltb limit (length (take (limit + 1) (rest_of after))) ≡ true =
          ground (arith, length-take (limit + 1) (rest_of after)) in
        rw (read, page, many, items, last) refl

    rest_of-row :
        (front : List Row) (x : Row) (rest : List Row)
        → sorted ≡ front ++ x ∷ rest
        → rest_of (some (key x)) ≡ rest
    rest_of-row front x rest place =
        let before = comes_before texts key order in
        let chain =
          sort-IsChain before (comes_before-IsStrict texts key order) rows
            (HasKeys-IsComparable texts key order rows keys) in
        ap (select (before x)) place
        ∙ select-after before (comes_before-IsStrict texts key order) front x rest
            (subst (IsChain before) place chain)

    follows_from :
        (limit n : ℕ) (before : List Row) (cursor : Option Text) (after : Option (Moment × Key))
        → 1 ≤ limit
        → All (λ r. texts.is_aware (key r).0 ≡ true) sorted
        → sorted ≡ before ++ rest_of after
        → read_cursor texts key strict cursor ≡ ok after
        → length (rest_of after) ≤ n
        → Gives (list_rows texts key order strict rows limit) cursor (rest_of after)
    follows_from limit zero before cursor after positive aware place read short =
        last_page (list_rows-last limit cursor after read (omega arith))
    follows_from limit (suc n) before cursor after positive aware place read short =
        elim (Bool-cases (ltb limit (length (rest_of after)))) [
          | inr few ↦ last_page (list_rows-last limit cursor after read (ground arith))
          | inl many ↦
              let rest = rest_of after in
              let long : limit < length rest = ground arith in
              let (init, x, whole, last) =
                last_split (take limit rest) (omega (arith, length-take limit rest)) in
              let place' = split_at limit sorted before init rest x place whole in
              let next = rest_of-row (before ++ init) x (drop limit rest) place' in
              let aware' =
                All-middle (λ r. texts.is_aware (key r).0 ≡ true) (before ++ init) x
                  (drop limit rest)
                  (subst (All (λ r. texts.is_aware (key r).0 ≡ true)) place' aware) in
              let more =
                follows_from limit n ((before ++ init) ++ x ∷ [])
                  (some (encode_cursor texts (key x))) (some (key x)) positive aware
                  (place'
                    ∙ sym (append_assoc (before ++ init) (x ∷ []) (drop limit rest))
                    ∙ ap (λ l. ((before ++ init) ++ x ∷ []) ++ l) (sym next))
                  (read_cursor-encode_cursor (key x) aware')
                  (rw next (omega (arith, length-drop limit rest))) in
              subst (Gives (list_rows texts key order strict rows limit) cursor)
                (ap (λ l. take limit rest ++ l) next ∙ take-append-drop limit rest)
                (next_page (list_rows-more limit cursor after x read long last) more)
        ]

    -- When times and identifiers are read back from their texts, the texts are plain, the numbers
    -- of the identifiers of the rows are distinct, their times are aware and the limit is positive,
    -- the pages of a list, from the first one along the cursors to one that has none, give together
    -- every row once, ordered by creation time and identifier, in either direction and with either
    -- decoding of the cursors.
    pub list_rows-IsListing :
        (limit : ℕ)
        → 1 ≤ limit
        → All (λ r. texts.is_aware (key r).0 ≡ true) rows
        → IsListing texts key order rows (list_rows texts key order strict rows limit)
    unfolding read_cursor
    list_rows-IsListing limit positive aware =
        let before = comes_before texts key order in
        let comparable = HasKeys-IsComparable texts key order rows keys in
        record {
          all = sorted;
          given =
              follows_from limit (length sorted) [] none none positive
                (All-sort before (λ r. texts.is_aware (key r).0 ≡ true) rows aware) refl refl
                (omega arith);
          same_rows = sort-perm before rows;
          in_order = sort-IsChain before (comes_before-IsStrict texts key order) rows comparable;
        }
