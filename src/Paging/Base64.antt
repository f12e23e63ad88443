-- ===== src/Paging/Base64.antt =====
-- `base64` of the standard library: `urlsafe_b64encode`, and the decoding of
-- `b64decode(..., altchars=b"-_", validate=True)` (strict) and of `urlsafe_b64decode` (which passes
-- over other characters). Both also read `+` and `/`.
pub mod Decoded
use sourcetrace.Prelude.{
  ℕ, zero, suc, ◌+◌, ◌-◌, ◌*◌, ◌/◌, ◌%◌, ◌≤◌, ◌<◌, ◌≡◌, refl, ◌∙◌, ap, ap₂, Bool, true, false, not,
  ◌&&◌, ◌||◌, Option, none, some, List, [], ◌∷◌, ◌++◌, map, ◌==◌, nat_eq, ltb, leb, length,
  length-map, All, All-map, if◌then◌else◌, arith,
}
use sourcetrace.Text.{Text, is_empty, rstrip_by}
use mathlib.Core.Option

abbrev pub pad : ℕ
pad = 61

-- The character of a sextet, and the sextet of a character.
unfoldable pub char_of : ℕ → ℕ
char_of v =
    if ltb v 26
    then v + 65
    else if ltb v 52
    then v + 71
    else if ltb v 62
    then v - 4
    else if v == 62
    then 45
    else 95

unfoldable pub value_of : ℕ → Option ℕ
value_of c =
    if leb 65 c && leb c 90
    then some (c - 65)
    else if leb 97 c && leb c 122
    then some (c - 71)
    else if leb 48 c && leb c 57
    then some (c + 4)
    else if c == 45 || c == 43
    then some 62
    else if c == 95 || c == 47
    then some 63
    else none

unfoldable pub sextets : List ℕ → List ℕ
sextets [] = []
sextets (a ∷ []) = a / 4 ∷ a % 4 * 16 ∷ []
sextets (a ∷ b ∷ []) = a / 4 ∷ (a % 4 * 16 + b / 16) ∷ b % 16 * 4 ∷ []
sextets (a ∷ b ∷ c ∷ bytes) =
    a / 4 ∷ (a % 4 * 16 + b / 16) ∷ (b % 16 * 4 + c / 64) ∷ c % 64 ∷ sextets bytes

-- The padding that makes the length a multiple of four: `"=" * (-n % 4)`.
abbrev pub pads_for : ℕ → ℕ
pads_for n = (4 - n % 4) % 4

abbrev pub pads : ℕ → Text
pads zero = []
pads (suc n) = pad ∷ pads n

-- `urlsafe_b64encode`
unfoldable pub b64encode : List ℕ → Text
unfolding sextets char_of
b64encode bytes = map char_of (sextets bytes) ++ pads (pads_for (length (sextets bytes)))

-- What is read of a group of four: how many of its characters, the bits that are left of the last
-- one, the padding counted, and whether there has been padding at all.
pub record Reading : Type 0 where
  pub quad : ℕ
  pub left : ℕ
  pub pads : ℕ
  pub started : Bool

pub data Fed : Type 0 where
  refused : Fed
  finished : Fed
  emitted : List ℕ → Reading → Fed

abbrev pub fresh : Reading
fresh = record { quad = 0; left = 0; pads = 0; started = false }

abbrev pub at_quad : ℕ → ℕ → Bool → Reading
at_quad q l started = record { quad = q; left = l; pads = 0; started = started }

unfoldable pub take_value : Reading → ℕ → Fed
take_value r v =
    if r.quad == 0
    then emitted [] (at_quad 1 v r.started)
    else if r.quad == 1
    then emitted ((r.left * 4 + v / 16) ∷ []) (at_quad 2 (v % 16) r.started)
    else if r.quad == 2
    then emitted ((r.left * 16 + v / 4) ∷ []) (at_quad 3 (v % 4) r.started)
    else emitted ((r.left * 64 + v) ∷ []) (at_quad 0 0 r.started)

unfoldable pub feed_pad : Reading → Fed
feed_pad r =
    if leb 2 r.quad
    then (if leb 4 (r.quad + suc r.pads)
        then finished
        else emitted []
            (record { quad = r.quad; left = r.left; pads = suc r.pads; started = true }))
    else emitted [] (record { quad = r.quad; left = r.left; pads = r.pads; started = true })

unfoldable pub feed_value : Bool → Reading → Option ℕ → Fed
unfolding take_value
feed_value strict r none = if strict then refused else emitted [] r
feed_value strict r (some v) = if strict && r.started then refused else take_value r v

unfoldable pub feed : Bool → Reading → ℕ → Fed
unfolding feed_pad feed_value value_of
feed strict r c = if c == pad then feed_pad r else feed_value strict r (value_of c)

-- `binascii.a2b_base64`: `none` is a `binascii.Error`.
unfoldable pub read_from : Bool → Reading → Text → Option (List ℕ)
unfolding feed
read_from strict r [] = if r.quad == 0 then some [] else none
read_from strict r (c ∷ s) = elim (feed strict r c) [
  | refused ↦ none
  | finished ↦ if strict && not (is_empty s) then none else some []
  | emitted bytes r' ↦ Option.map (λ more. bytes ++ more) (read_from strict r' s)
]

abbrev pub starts_padded : Text → Bool
starts_padded [] = false
starts_padded (c ∷ s) = c == pad

unfoldable pub b64decode : Bool → Text → Option (List ℕ)
unfolding read_from
b64decode strict s = if strict && starts_padded s then none else read_from strict fresh s

abbrev pub IsByte : ℕ → Type 0
IsByte b = b < 256

abbrev pub IsAscii : ℕ → Type 0
IsAscii c = c < 128

-- The cursors are written without the padding (`rstrip("=")`), and read with it again.
abbrev pub is_pad : ℕ → Bool
is_pad c = c == pad

abbrev pub padded : Text → Text
padded s = s ++ pads (pads_for (length s))
