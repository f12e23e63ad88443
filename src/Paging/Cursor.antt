-- ===== src/Paging/Cursor.antt =====
-- `_encode_cursor` and `_decode_cursor` of the services of modules/answers, modules/conversations,
-- modules/knowledge_bases and modules/documents: the creation time and the identifier of the last
-- item of a page, as a text. The times and the identifiers themselves are those of `datetime` and
-- `uuid`, with their texts.
use sourcetrace.Prelude.{
  ℕ, ◌<◌, ◌≡◌, refl, Bool, true, false, not, Option, none, some, [], ◌∷◌, ◌++◌, ◌==◌, nat_eq, All,
  All-append, if◌then◌else◌, arith, Result, ok, err, ◌>>=◌, ◌>>◌, raise_if,
}
use sourcetrace.Text.{Text, is_empty, rstrip_by}
use sourcetrace.Paging.Base64.{b64encode, b64decode, padded, is_pad, IsAscii}
use sourcetrace.Paging.Base64.Decoded.{b64decode-padded}
use sourcetrace.Paging.Utf8
use sourcetrace.Paging.Utf8.{encode-ascii, decode-ascii}

-- `isoformat`, `fromisoformat` and `tzinfo` of the times, `str` and `UUID` of the identifiers, and
-- the numbers that the database orders both by.
pub record KeyTexts (Moment Key : Type 0) : Type 0 where
  pub isoformat : Moment → Text
  pub fromisoformat : Text → Option Moment
  pub is_aware : Moment → Bool
  pub str_of_id : Key → Text
  pub uuid_of : Text → Option Key
  pub instant : Moment → ℕ
  pub number : Key → ℕ

-- What leaves the services that list: their exceptions, and the database's for a constraint or a
-- value that is too long.
pub data ServiceError : Type 0 where
  invalid_cursor index_error knowledge_base_not_found conversation_not_found name_conflict :
      ServiceError
  integrity_error data_error : ServiceError

-- `value.split("|", maxsplit=1)` into its two parts: `none` when there is only one.
unfoldable pub split_once : Text → Option (Text × Text)
split_once [] = none
split_once (c ∷ s) =
    let rest = split_once s in
    if c == 124
    then some ([], s)
    else elim rest [ none ↦ none | some parts ↦ some (c ∷ parts.0, parts.1) ]

abbrev or_invalid : {A : Type 0} → Option A → Result ServiceError A
or_invalid none = err invalid_cursor
or_invalid (some a) = ok a

module _ {Moment Key : Type 0} (texts : KeyTexts Moment Key) where
  unfoldable pub encode_cursor : Moment × Key → Text
  encode_cursor key =
      rstrip_by is_pad
        (b64encode (Utf8.encode (texts.isoformat key.0 ++ 124 ∷ texts.str_of_id key.1)))

  -- `strict` is `validate=True`, which only modules/answers asks for.
  unfoldable pub decode_cursor : Bool → Text → Result ServiceError (Moment × Key)
  unfolding split_once
  decode_cursor strict cursor = do
    decoded ← or_invalid (b64decode strict (padded cursor))
    value ← or_invalid (Utf8.decode decoded)
    parts ← or_invalid (split_once value)
    created_at ← or_invalid (texts.fromisoformat parts.0)
    raise_if (not (texts.is_aware created_at)) invalid_cursor
    id ← or_invalid (texts.uuid_of parts.1)
    ok (created_at, id)

  -- The documented behaviour: the texts are read back, they are ASCII, and a time has no bar in its
  -- text.
  pub record IsReadable : Type 0 where
    pub fromisoformat-isoformat : (t : Moment) → texts.fromisoformat (texts.isoformat t) ≡ some t
    pub uuid_of-str_of_id : (i : Key) → texts.uuid_of (texts.str_of_id i) ≡ some i
    pub isoformat_plain :
        (t : Moment) → All (λ c. (c < 128) × (c == 124 ≡ false)) (texts.isoformat t)
    pub number_injective : (i j : Key) → texts.number i ≡ texts.number j → i ≡ j
    pub str_of_id_plain : (i : Key) → All IsAscii (texts.str_of_id i)

split_once-bar :
    (s t : Text)
    → All (λ c. (c < 128) × (c == 124 ≡ false)) s
    → split_once (s ++ 124 ∷ t) ≡ some (s, t)
unfolding split_once
split_once-bar [] t h = refl
split_once-bar (c ∷ s) t h = rw (h.0.1, split_once-bar s t h.1) refl

plain-IsAscii : (s : Text) → All (λ c. (c < 128) × (c == 124 ≡ false)) s → All IsAscii s
plain-IsAscii [] h = tt
plain-IsAscii (c ∷ s) h = (h.0.0, plain-IsAscii s h.1)

module _ {Moment Key : Type 0} (texts : KeyTexts Moment Key) (readable : IsReadable texts) where
  -- When times and identifiers are read back from their texts, the texts are ASCII and the text of
  -- a time has no bar, a cursor that is encoded from an aware time and an identifier is decoded to
  -- them, by the strict and by the lenient decoding.
  pub decode_cursor-encode_cursor :
      (strict : Bool) (key : Moment × Key)
      → texts.is_aware key.0 ≡ true
      → decode_cursor texts strict (encode_cursor texts key) ≡ ok key
  unfolding decode_cursor encode_cursor
  decode_cursor-encode_cursor strict key aware =
      let value = texts.isoformat key.0 ++ 124 ∷ texts.str_of_id key.1 in
      let ascii : All IsAscii value =
        All-append IsAscii (texts.isoformat key.0) (124 ∷ texts.str_of_id key.1)
          (plain-IsAscii (texts.isoformat key.0) (readable.isoformat_plain key.0))
          (omega arith, readable.str_of_id_plain key.1) in
      rw
        (
          encode-ascii value ascii,
          b64decode-padded strict value ascii,
          decode-ascii value ascii,
          split_once-bar (texts.isoformat key.0) (texts.str_of_id key.1)
              (readable.isoformat_plain key.0),
          readable.fromisoformat-isoformat key.0,
          aware,
          readable.uuid_of-str_of_id key.1,
        )
        refl

module _ {Moment Key : Type 0} (texts : KeyTexts Moment Key) where
  decode_cursor-nil : (strict : Bool) → decode_cursor texts strict [] ≡ err invalid_cursor
  unfolding decode_cursor b64decode Utf8.decode
  decode_cursor-nil true = refl
  decode_cursor-nil false = refl

  pub decoded_nonempty :
      (strict : Bool) (cursor : Text) {k : Moment × Key}
      → decode_cursor texts strict cursor ≡ ok k
      → is_empty cursor ≡ false
  decoded_nonempty strict (c ∷ s) h = refl
  decoded_nonempty strict [] h = let refused = decode_cursor-nil strict in cc
