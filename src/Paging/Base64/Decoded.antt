-- ===== src/Paging/Base64/Decoded.antt =====
-- What `base64` decodes of an encoded text, whose padding may have been taken off and put on again.
use sourcetrace.Prelude.{
  ℕ, zero, suc, ◌+◌, ◌*◌, ◌/◌, ◌%◌, ◌<◌, ◌≡◌, refl, ◌∙◌, ap, ap₂, Bool, true, false, Option, none,
  some, List, [], ◌∷◌, ◌++◌, map, ◌==◌, nat_eq, length, length-map, All, All-map, arith,
}
use sourcetrace.Text.{Text, rstrip_by}
use sourcetrace.Paging.Base64.{
  pad, pads, pads_for, char_of, value_of, sextets, b64encode, b64decode, fresh, at_quad, take_value,
  feed_value, feed, read_from, starts_padded, IsByte, IsAscii, is_pad, padded,
}
use mathlib.Core.Option

value_of-char_of : (v : ℕ) → v < 64 → value_of (char_of v) ≡ some v
unfolding value_of char_of
value_of-char_of v h = ground arith

char_of-ne-pad : (v : ℕ) → char_of v == pad ≡ false
unfolding char_of
char_of-ne-pad v = ground arith

feed-char_of :
    (strict : Bool) (q l v : ℕ)
    → v < 64
    → feed strict (at_quad q l false) (char_of v) ≡ take_value (at_quad q l false) v
unfolding feed feed_value
feed-char_of true q l v h = rw (char_of-ne-pad v, value_of-char_of v h) refl
feed-char_of false q l v h = rw (char_of-ne-pad v, value_of-char_of v h) refl

map_nil : (x : Option (List ℕ)) → Option.map (λ more. [] ++ more) x ≡ x
map_nil none = refl
map_nil (some bytes) = refl

read_from_nil : (strict : Bool) → read_from strict fresh [] ≡ some []
unfolding read_from
read_from_nil strict = refl

-- What the reading does with each character of a group, and with the padding.
module _ (strict : Bool) (s : Text) where
  read_first :
      (v : ℕ)
      → v < 64
      → read_from strict fresh (char_of v ∷ s) ≡ read_from strict (at_quad 1 v false) s
  unfolding read_from take_value
  read_first v h =
      rw (feed-char_of strict 0 0 v h, read_from) (map_nil (read_from strict (at_quad 1 v false) s))

  read_second :
      (l v : ℕ)
      → v < 64
      → read_from strict (at_quad 1 l false) (char_of v ∷ s)
        ≡ Option.map
            (λ more. (l * 4 + v / 16) ∷ more)
            (read_from strict (at_quad 2 (v % 16) false) s)
  unfolding read_from take_value
  read_second l v h = rw (feed-char_of strict 1 l v h, read_from) refl

  read_third :
      (l v : ℕ)
      → v < 64
      → read_from strict (at_quad 2 l false) (char_of v ∷ s)
        ≡ Option.map
            (λ more. (l * 16 + v / 4) ∷ more)
            (read_from strict (at_quad 3 (v % 4) false) s)
  unfolding read_from take_value
  read_third l v h = rw (feed-char_of strict 2 l v h, read_from) refl

  read_fourth :
      (l v : ℕ)
      → v < 64
      → read_from strict (at_quad 3 l false) (char_of v ∷ s)
        ≡ Option.map (λ more. (l * 64 + v) ∷ more) (read_from strict fresh s)
  unfolding read_from take_value
  read_fourth l v h = rw (feed-char_of strict 3 l v h, read_from) refl

read_from-pads_two :
    (strict : Bool) (l : ℕ) → read_from strict (at_quad 2 l false) (pads 2) ≡ some []
unfolding read_from
read_from-pads_two true l = refl
read_from-pads_two false l = refl

read_from-pads_one :
    (strict : Bool) (l : ℕ) → read_from strict (at_quad 3 l false) (pads 1) ≡ some []
unfolding read_from
read_from-pads_one true l = refl
read_from-pads_one false l = refl

abbrev three_more : ℕ → ℕ → ℕ → ℕ → Option (List ℕ) → Option (List ℕ)
three_more v₀ v₁ v₂ v₃ x =
    Option.map (λ more. (v₀ * 4 + v₁ / 16) ∷ more)
      (Option.map (λ more. (v₁ % 16 * 16 + v₂ / 4) ∷ more)
        (Option.map (λ more. (v₂ % 4 * 64 + v₃) ∷ more) x))

read_group :
    (strict : Bool) (s : Text) (v₀ v₁ v₂ v₃ : ℕ)
    → (v₀ < 64) × ((v₁ < 64) × ((v₂ < 64) × (v₃ < 64)))
    → read_from strict fresh (char_of v₀ ∷ char_of v₁ ∷ char_of v₂ ∷ char_of v₃ ∷ s)
      ≡ three_more v₀ v₁ v₂ v₃ (read_from strict fresh s)
read_group strict s v₀ v₁ v₂ v₃ h =
    read_first strict _ v₀ h.0
    ∙ read_second strict _ v₀ v₁ h.1.0
    ∙ ap (Option.map (λ more. (v₀ * 4 + v₁ / 16) ∷ more)) (
        read_third strict _ (v₁ % 16) v₂ h.1.1.0
        ∙ ap (Option.map (λ more. (v₁ % 16 * 16 + v₂ / 4) ∷ more))
            (read_fourth strict s (v₂ % 4) v₃ h.1.1.1))

starts_padded-b64encode : (bytes : List ℕ) → starts_padded (b64encode bytes) ≡ false
unfolding b64encode sextets
starts_padded-b64encode [] = refl
starts_padded-b64encode (a ∷ []) = char_of-ne-pad (a / 4)
starts_padded-b64encode (a ∷ b ∷ []) = char_of-ne-pad (a / 4)
starts_padded-b64encode (a ∷ b ∷ c ∷ bytes) = char_of-ne-pad (a / 4)

read_from-b64encode :
    (strict : Bool) (bytes : List ℕ)
    → All IsByte bytes
    → read_from strict fresh (b64encode bytes) ≡ some bytes
unfolding b64encode sextets
read_from-b64encode strict [] h = read_from_nil strict
read_from-b64encode strict (a ∷ []) h =
    read_first strict _ (a / 4) (omega arith)
    ∙ read_second strict _ (a / 4) (a % 4 * 16) (omega arith)
    ∙ ap (Option.map (λ more. (a / 4 * 4 + a % 4 * 16 / 16) ∷ more))
        (read_from-pads_two strict (a % 4 * 16 % 16))
    ∙ ap (λ y. some (y ∷ [])) (omega arith)
read_from-b64encode strict (a ∷ b ∷ []) h =
    read_first strict _ (a / 4) (omega arith)
    ∙ read_second strict _ (a / 4) (a % 4 * 16 + b / 16) (omega arith)
    ∙ ap (Option.map (λ more. (a / 4 * 4 + (a % 4 * 16 + b / 16) / 16) ∷ more)) (
        read_third strict _ ((a % 4 * 16 + b / 16) % 16) (b % 16 * 4) (omega arith)
        ∙ ap (Option.map (λ more. ((a % 4 * 16 + b / 16) % 16 * 16 + b % 16 * 4 / 4) ∷ more))
            (read_from-pads_one strict (b % 16 * 4 % 4)))
    ∙ ap₂ (λ x y. some (x ∷ y ∷ [])) (omega arith) (omega arith)
read_from-b64encode strict (a ∷ b ∷ c ∷ bytes) h =
    let tail = map char_of (sextets bytes) in
    let padding : pads_for (suc (suc (suc (suc (length (sextets bytes))))))
        ≡ pads_for (length (sextets bytes)) =
      omega arith in
    let v₁ = a % 4 * 16 + b / 16 in
    let v₂ = b % 16 * 4 + c / 64 in
    read_group strict (tail ++ pads (pads_for (suc (suc (suc (suc (length (sextets bytes))))))))
      (a / 4) v₁ v₂ (c % 64) (omega arith, (omega arith, (omega arith, omega arith)))
    ∙ ap (λ t. three_more (a / 4) v₁ v₂ (c % 64) (read_from strict fresh (tail ++ pads t))) padding
    ∙ ap (three_more (a / 4) v₁ v₂ (c % 64)) (read_from-b64encode strict bytes h.1.1.1)
    ∙ ap₂ (λ x t. some (x ∷ t)) (omega arith)
        (ap₂ (λ y z. y ∷ z ∷ bytes) (omega arith) (omega arith))

b64decode-b64encode :
    (strict : Bool) (bytes : List ℕ)
    → All IsByte bytes
    → b64decode strict (b64encode bytes) ≡ some bytes
unfolding b64decode
b64decode-b64encode true bytes h =
    rw (starts_padded-b64encode bytes) (read_from-b64encode true bytes h)
b64decode-b64encode false bytes h = read_from-b64encode false bytes h

rstrip_by-pads : (n : ℕ) → rstrip_by is_pad (pads n) ≡ []
unfolding rstrip_by
rstrip_by-pads zero = refl
rstrip_by-pads (suc n) = rw (rstrip_by-pads n) refl

rstrip_by-map : (vs : List ℕ) (n : ℕ) → rstrip_by is_pad (map char_of vs ++ pads n) ≡ map char_of vs
unfolding rstrip_by
rstrip_by-map [] n = rstrip_by-pads n
rstrip_by-map (v ∷ vs) n = ground (arith, rstrip_by-map vs n, char_of-ne-pad v)

padded-rstrip_by : (bytes : List ℕ) → padded (rstrip_by is_pad (b64encode bytes)) ≡ b64encode bytes
unfolding b64encode
padded-rstrip_by bytes =
    rw
      (
        rstrip_by-map (sextets bytes) (pads_for (length (sextets bytes))),
        length-map char_of (sextets bytes),
      )
      refl

-- What is decoded of the text that is left without its padding, padded again.
pub b64decode-padded :
    (strict : Bool) (bytes : List ℕ)
    → All IsAscii bytes
    → b64decode strict (padded (rstrip_by is_pad (b64encode bytes))) ≡ some bytes
b64decode-padded strict bytes h =
    rw (padded-rstrip_by bytes)
      (b64decode-b64encode strict bytes (All-map IsAscii IsByte (λ b small. omega arith) bytes h))
