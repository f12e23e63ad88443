-- ===== src/Paging/Utf8.antt =====
-- `str.encode` and `bytes.decode` of UTF-8. A code point that is a surrogate has no encoding; a
-- `UnicodeDecodeError` is `none`.
use sourcetrace.Prelude.{
  ℕ, ◌+◌, ◌-◌, ◌*◌, ◌/◌, ◌%◌, ◌<◌, ◌≡◌, refl, ◌&&◌, Option, none, some, List, [], ◌∷◌, ◌++◌, ◌==◌,
  nat_eq, ltb, leb, All, if◌then◌else◌, arith,
}
use sourcetrace.Text.{Text}
use sourcetrace.Paging.Base64.{IsAscii}
use mathlib.Core.Option

unfoldable bytes_of_char : ℕ → List ℕ
bytes_of_char c =
    if ltb c 0x80
    then c ∷ []
    else if ltb c 0x800
    then (0xC0 + c / 64) ∷ (0x80 + c % 64) ∷ []
    else if ltb c 0x10000
    then (0xE0 + c / 4096) ∷ (0x80 + c / 64 % 64) ∷ (0x80 + c % 64) ∷ []
    else (0xF0 + c / 262144) ∷ (0x80 + c / 4096 % 64) ∷ (0x80 + c / 64 % 64) ∷ (0x80 + c % 64) ∷ []

unfoldable pub encode : Text → List ℕ
unfolding bytes_of_char
encode [] = []
encode (c ∷ s) = bytes_of_char c ++ encode s

-- The bytes of a character that are still to come, its bits so far, and the range of the next one.
pub record Pending : Type 0 where
  pub needed : ℕ
  pub bits : ℕ
  pub lowest : ℕ
  pub highest : ℕ

abbrev nothing_pending : Pending
nothing_pending = record { needed = 0; bits = 0; lowest = 0; highest = 0 }

abbrev awaits : ℕ → ℕ → ℕ → ℕ → Option (Text × Pending)
awaits n b low high = some ([], record { needed = n; bits = b; lowest = low; highest = high })

unfoldable first_byte : ℕ → Option (Text × Pending)
first_byte b =
    if ltb b 0x80
    then some (b ∷ [], nothing_pending)
    else if leb 0xC2 b && leb b 0xDF
    then awaits 1 (b - 0xC0) 0x80 0xBF
    else if b == 0xE0
    then awaits 2 (b - 0xE0) 0xA0 0xBF
    else if b == 0xED
    then awaits 2 (b - 0xE0) 0x80 0x9F
    else if leb 0xE1 b && leb b 0xEF
    then awaits 2 (b - 0xE0) 0x80 0xBF
    else if b == 0xF0
    then awaits 3 (b - 0xF0) 0x90 0xBF
    else if b == 0xF4
    then awaits 3 (b - 0xF0) 0x80 0x8F
    else if leb 0xF1 b && leb b 0xF3
    then awaits 3 (b - 0xF0) 0x80 0xBF
    else none

unfoldable next_byte : Pending → ℕ → Option (Text × Pending)
next_byte p b =
    let bits = p.bits * 64 + (b - 0x80) in
    if leb p.lowest b && leb b p.highest
    then (if p.needed == 1
        then some (bits ∷ [], nothing_pending)
        else awaits (p.needed - 1) bits 0x80 0xBF)
    else none

unfoldable read_byte : Pending → ℕ → Option (Text × Pending)
unfolding first_byte next_byte
read_byte p b = if p.needed == 0 then first_byte b else next_byte p b

unfoldable decode_from : Pending → List ℕ → Option Text
unfolding read_byte
decode_from p [] = if p.needed == 0 then some [] else none
decode_from p (b ∷ bytes) = elim (read_byte p b) [
  | none ↦ none
  | some read ↦ Option.map (λ text. read.0 ++ text) (decode_from read.1 bytes)
]

unfoldable pub decode : List ℕ → Option Text
unfolding decode_from
decode = decode_from nothing_pending

pub encode-ascii : (s : Text) → All IsAscii s → encode s ≡ s
unfolding encode bytes_of_char
encode-ascii [] h = refl
encode-ascii (c ∷ s) h = ground (arith, encode-ascii s h.1)

read_byte-ascii : (b : ℕ) → b < 128 → read_byte nothing_pending b ≡ some (b ∷ [], nothing_pending)
unfolding read_byte first_byte
read_byte-ascii b h = ground arith

decode_from-ascii :
    (bytes : List ℕ) → All IsAscii bytes → decode_from nothing_pending bytes ≡ some bytes
unfolding decode_from
decode_from-ascii [] h = refl
decode_from-ascii (b ∷ bytes) h =
    rw (read_byte-ascii b h.0, decode_from, decode_from-ascii bytes h.1) refl

pub decode-ascii : (bytes : List ℕ) → All IsAscii bytes → decode bytes ≡ some bytes
unfolding decode
decode-ascii = decode_from-ascii
