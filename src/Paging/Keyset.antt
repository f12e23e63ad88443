-- ===== src/Paging/Keyset.antt =====
-- The lists of modules/knowledge_bases, modules/conversations, modules/documents and modules/answers:
-- the rows in the order of their creation times and identifiers (descending for knowledge bases,
-- conversations and document versions, ascending for questions and answer runs), those past the
-- cursor's row, one page of them, and the cursor of the next page.
pub mod Followed
use sourcetrace.Prelude.{
  ℕ, zero, suc, ◌+◌, ◌<◌, ◌≡◌, Bool, true, false, ◌&&◌, ◌||◌, Option, none, some, List, [], ◌∷◌,
  ◌++◌, ◌==◌, nat_eq, ltb, length, take, select, if◌then◌else◌, Result, ok, err, ◌>>=◌,
}
use sourcetrace.Prelude.Sort.{sort}
use sourcetrace.Text.{Text, is_empty}
use sourcetrace.Paging.Cursor.{KeyTexts, ServiceError, index_error, encode_cursor, decode_cursor}

pub data Order : Type 0 where
  ascending : Order
  descending : Order

pub record Page (Row : Type 0) : Type 0 where
  pub items : List Row
  pub next_cursor : Option Text

-- `items[-1]`
abbrev pub last_of {ℓ} : {A : Type ℓ} → List A → Option A
last_of [] = none
last_of (x ∷ []) = some x
last_of (x ∷ y ∷ xs) = last_of (y ∷ xs)

module _ {Moment Key Row : Type 0} (texts : KeyTexts Moment Key) (key : Row → Moment × Key) where
  -- `created_at > k.created_at or (created_at == k.created_at and id > k.id)`
  unfoldable pub is_greater : Moment × Key → Moment × Key → Bool
  is_greater a k =
      ltb (texts.instant k.0) (texts.instant a.0)
      || ((texts.instant a.0 == texts.instant k.0) && ltb (texts.number k.1) (texts.number a.1))

  unfoldable pub is_past : Order → Moment × Key → Moment × Key → Bool
  unfolding is_greater
  is_past ascending k a = is_greater a k
  is_past descending k a = is_greater k a

  abbrev pub comes_before : Order → Row → Row → Bool
  comes_before order x y = is_past order (key x) (key y)

  -- The statement of a repository: `where`, `order_by` and `limit`.
  unfoldable pub select_page : Order → List Row → ℕ → Option (Moment × Key) → List Row
  select_page order rows limit none = take limit (sort (comes_before order) rows)
  select_page order rows limit (some k) =
      take limit (sort (comes_before order) (select (λ r. is_past order k (key r)) rows))

  -- `_decode_cursor(cursor) if cursor else None`
  unfoldable pub read_cursor : Bool → Option Text → Result ServiceError (Option (Moment × Key))
  read_cursor strict none = ok none
  read_cursor strict (some cursor) =
      if is_empty cursor then ok none else (decode_cursor texts strict cursor >>= λ k. ok (some k))

  unfoldable pub cursor_of : Option Row → Result ServiceError (Option Text)
  cursor_of none = err index_error
  cursor_of (some r) = ok (some (encode_cursor texts (key r)))

  unfoldable pub paged : List Row → ℕ → Result ServiceError (Page Row)
  unfolding cursor_of
  paged rows limit = do
    let has_more = ltb limit (length rows)
    let items = take limit rows
    next_cursor ← if has_more then cursor_of (last_of items) else ok none
    ok (record { items = items; next_cursor = next_cursor })

  -- `list`, `list_questions`, `list_versions` and `list_history` behind their checks.
  unfoldable pub list_rows :
      Order → Bool → List Row → ℕ → Option Text → Result ServiceError (Page Row)
  unfolding select_page read_cursor paged
  list_rows order strict rows limit cursor = do
    after ← read_cursor strict cursor
    paged (select_page order rows (limit + 1) after) limit
