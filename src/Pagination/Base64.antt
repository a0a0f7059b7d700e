-- ===== src/Pagination/Base64.antt =====
-- `base64.urlsafe_b64encode` and `urlsafe_b64decode`, which the cursors are written with, over bytes
-- as numbers; characters outside of the alphabet are skipped and missing padding is an error, as
-- CPython does it.
pub mod RoundTrip
use zenith_enterprise.Common.{
  ℕ, zero, suc, ◌+◌, ◌-◌, ◌*◌, ◌/◌, ◌%◌, Bool, true, false, Option, none, some, List, [], ◌∷◌, ◌++◌,
  ◌==◌, ltb, leb, if◌then◌else◌, ◌&&◌, length,
}
use zenith_enterprise.Common.Text.{Text, is_empty}

-- The character of six bits: `A-Z`, `a-z`, `0-9`, `-` and `_`.
abbrev pub char_of : ℕ → ℕ
char_of n =
    if ltb n 26
    then n + 65
    else if ltb n 52
    then n + 71
    else if ltb n 62
    then n - 4
    else if n == 62
    then 45
    else 95

-- The six bits of a character; `+` and `/` are read as `-` and `_`.
abbrev pub bits_of : ℕ → Option ℕ
bits_of c =
    if leb 65 c && leb c 90
    then some (c - 65)
    else if leb 97 c && leb c 122
    then some (c - 71)
    else if leb 48 c && leb c 57
    then some (c + 4)
    else if c == 45
    then some 62
    else if c == 43
    then some 62
    else if c == 95
    then some 63
    else if c == 47
    then some 63
    else none

-- `urlsafe_b64encode`
unfoldable pub b64encode : List ℕ → Text
b64encode [] = []
b64encode (a ∷ []) = char_of (a / 4) ∷ char_of (a % 4 * 16) ∷ 61 ∷ 61 ∷ []
b64encode (a ∷ b ∷ []) =
    char_of (a / 4) ∷ char_of (a % 4 * 16 + b / 16) ∷ char_of (b % 16 * 4) ∷ 61 ∷ []
b64encode (a ∷ b ∷ c ∷ bytes) =
    char_of (a / 4)
    ∷ char_of (a % 4 * 16 + b / 16)
    ∷ char_of (b % 16 * 4 + c / 64)
    ∷ char_of (c % 64)
    ∷ b64encode bytes

-- `.rstrip("=")`
abbrev pub rstrip_equals : Text → Text
rstrip_equals [] = []
rstrip_equals (c ∷ text) =
    let rest = rstrip_equals text in if c == 61 && is_empty rest then [] else c ∷ rest

-- `"=" * n`
abbrev pub equals_signs : ℕ → Text
equals_signs zero = []
equals_signs (suc n) = 61 ∷ equals_signs n

-- `value + "=" * (-len(value) % 4)`
abbrev pub padded : Text → Text
padded value = value ++ equals_signs ((4 - length value % 4) % 4)

abbrev pub after_byte : ℕ → Option (List ℕ) → Option (List ℕ)
after_byte byte none = none
after_byte byte (some bytes) = some (byte ∷ bytes)

-- Where the decoder stands: how many characters of a group it has read, and the bits left of the last.
pub data Quad : Type 0 where
  at_start : Quad
  after_one after_two after_three : ℕ → Quad

-- Whether that many `=` end the data.
abbrev pub is_end : Quad → ℕ → Bool
is_end at_start pads = false
is_end (after_one left) pads = false
is_end (after_two left) pads = leb 2 pads
is_end (after_three left) pads = leb 1 pads

-- The step of one character, with what the rest of the data decodes to from each next place.
abbrev pub quad_after : Quad → ℕ → Quad
quad_after at_start v = after_one v
quad_after (after_one left) v = after_two (v % 16)
quad_after (after_two left) v = after_three (v % 4)
quad_after (after_three left) v = at_start

abbrev pub emit : Quad → ℕ → Option (List ℕ) → Option (List ℕ)
emit at_start v rest = rest
emit (after_one left) v rest = after_byte (left * 4 + v / 16) rest
emit (after_two left) v rest = after_byte (left * 16 + v / 4) rest
emit (after_three left) v rest = after_byte (left * 64 + v) rest

abbrev pub at_end : Quad → Option (List ℕ)
at_end at_start = some []
at_end (after_one left) = none
at_end (after_two left) = none
at_end (after_three left) = none

-- The loop of the decoder, with the `=` that it has just read.
unfoldable pub decode_from : Quad → ℕ → Text → Option (List ℕ)
decode_from quad pads [] = at_end quad
decode_from quad pads (c ∷ text) =
    let more = decode_from quad (suc pads) text in
    let skipped = decode_from quad pads text in
    if c == 61 then (if is_end quad (suc pads) then some [] else more) else elim (bits_of c) [
      | none ↦ skipped
      | some v ↦ emit quad v (decode_from (quad_after quad v) 0 text)
    ]

-- `urlsafe_b64decode`; `none` is `binascii.Error`.
abbrev pub b64decode : Text → Option (List ℕ)
b64decode text = decode_from at_start 0 text
