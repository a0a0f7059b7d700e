-- ===== src/Pagination/Base64/RoundTrip.antt =====
-- What is encoded and loses its padding is decoded to the same bytes.
use zenith_enterprise.Common.{
  ℕ, ◌+◌, ◌-◌, ◌*◌, ◌/◌, ◌%◌, ◌<◌, ◌≡◌, refl, ap, false, some, List, [], ◌∷◌, ◌==◌, length, All,
  arith,
}
use zenith_enterprise.Common.Text.{Text}
use zenith_enterprise.Pagination.Base64.{
  char_of, bits_of, b64encode, rstrip_equals, padded, Quad, at_start, after_one, after_two,
  after_three, quad_after, emit, decode_from, b64decode,
}

bits_of-char_of : (n : ℕ) → n < 64 → bits_of (char_of n) ≡ some n
bits_of-char_of n h = ground arith

char_of-equals : (n : ℕ) → n < 64 → (char_of n == 61) ≡ false
char_of-equals n h = ground arith

decode_one :
    (quad : Quad) (pads n : ℕ) (text : Text)
    → n < 64
    → decode_from quad pads (char_of n ∷ text)
      ≡ emit quad n (decode_from (quad_after quad n) 0 text)
unfolding decode_from
decode_one quad pads n text h = rw (char_of-equals n h, bits_of-char_of n h) refl

-- The encoding less its padding.
unpadded : List ℕ → Text
unpadded [] = []
unpadded (a ∷ []) = char_of (a / 4) ∷ char_of (a % 4 * 16) ∷ []
unpadded (a ∷ b ∷ []) = char_of (a / 4) ∷ char_of (a % 4 * 16 + b / 16) ∷ char_of (b % 16 * 4) ∷ []
unpadded (a ∷ b ∷ c ∷ bytes) =
    char_of (a / 4)
    ∷ char_of (a % 4 * 16 + b / 16)
    ∷ char_of (b % 16 * 4 + c / 64)
    ∷ char_of (c % 64)
    ∷ unpadded bytes

abbrev pub IsBytes : List ℕ → Type 0
IsBytes = All (λ b. b < 256)

rstrip_char :
    (n : ℕ) (text : Text)
    → n < 64
    → rstrip_equals (char_of n ∷ text) ≡ char_of n ∷ rstrip_equals text
rstrip_char n text h = rw (char_of-equals n h) refl

rstrip_equals-b64encode :
    (bytes : List ℕ) → IsBytes bytes → rstrip_equals (b64encode bytes) ≡ unpadded bytes
unfolding b64encode unpadded
rstrip_equals-b64encode [] h = refl
rstrip_equals-b64encode (a ∷ []) h =
    rw (char_of-equals (a / 4) (omega (arith, h.0)), char_of-equals (a % 4 * 16) (omega arith)) refl
rstrip_equals-b64encode (a ∷ b ∷ []) h =
    rw
      (
        char_of-equals (a / 4) (omega (arith, h.0)),
        char_of-equals (a % 4 * 16 + b / 16) (omega (arith, h.1.0)),
        char_of-equals (b % 16 * 4) (omega arith),
      )
      refl
rstrip_equals-b64encode (a ∷ b ∷ c ∷ bytes) h =
    rw
      (
        char_of-equals (a / 4) (omega (arith, h.0)),
        char_of-equals (a % 4 * 16 + b / 16) (omega (arith, h.1.0)),
        char_of-equals (b % 16 * 4 + c / 64) (omega (arith, h.1.1.0)),
        char_of-equals (c % 64) (omega arith),
        rstrip_equals-b64encode bytes h.1.1.1,
      )
      refl

padded-unpadded : (bytes : List ℕ) → padded (unpadded bytes) ≡ b64encode bytes
unfolding b64encode unpadded
padded-unpadded [] = refl
padded-unpadded (a ∷ []) = refl
padded-unpadded (a ∷ b ∷ []) = refl
padded-unpadded (a ∷ b ∷ c ∷ bytes) =
    let same : (4 - length (unpadded (a ∷ b ∷ c ∷ bytes)) % 4) % 4
        ≡ (4 - length (unpadded bytes) % 4) % 4 =
      omega arith in
    rw same (
      ap
        (λ t.
          char_of (a / 4)
          ∷ char_of (a % 4 * 16 + b / 16)
          ∷ char_of (b % 16 * 4 + c / 64)
          ∷ char_of (c % 64)
          ∷ t)
        (padded-unpadded bytes))

decode_end : decode_from at_start 0 [] ≡ some []
unfolding decode_from
decode_end = refl

decode_two_pads : (left : ℕ) → decode_from (after_two left) 0 (61 ∷ 61 ∷ []) ≡ some []
unfolding decode_from
decode_two_pads left = refl

decode_one_pad : (left : ℕ) → decode_from (after_three left) 0 (61 ∷ []) ≡ some []
unfolding decode_from
decode_one_pad left = refl

pair : {a b c d : ℕ} → a ≡ c → b ≡ d → some (a ∷ b ∷ []) ≡ some (c ∷ d ∷ [])
pair p q = rw (p, q) refl

triple :
    {a b c x y z : ℕ} {rest : List ℕ}
    → a ≡ x
    → b ≡ y
    → c ≡ z
    → some (a ∷ b ∷ c ∷ rest) ≡ some (x ∷ y ∷ z ∷ rest)
triple p q r = rw (p, q, r) refl

b64decode-b64encode : (bytes : List ℕ) → IsBytes bytes → b64decode (b64encode bytes) ≡ some bytes
unfolding b64encode
b64decode-b64encode [] h = decode_end
b64decode-b64encode (a ∷ []) h =
    rw
      (
        decode_one at_start 0 (a / 4) (char_of (a % 4 * 16) ∷ 61 ∷ 61 ∷ []) (omega (arith, h.0)),
        decode_one (after_one (a / 4)) 0 (a % 4 * 16) (61 ∷ 61 ∷ []) (omega arith),
        decode_two_pads (a % 4 * 16 % 16),
      )
      (ap (λ n. some (n ∷ [])) (omega (arith, h.0)))
b64decode-b64encode (a ∷ b ∷ []) h =
    rw
      (
        decode_one at_start 0 (a / 4)
            (char_of (a % 4 * 16 + b / 16) ∷ char_of (b % 16 * 4) ∷ 61 ∷ []) (omega (arith, h.0)),
        decode_one (after_one (a / 4)) 0 (a % 4 * 16 + b / 16) (char_of (b % 16 * 4) ∷ 61 ∷ [])
            (omega (arith, h.1.0)),
        decode_one (after_two ((a % 4 * 16 + b / 16) % 16)) 0 (b % 16 * 4) (61 ∷ []) (omega arith),
        decode_one_pad (b % 16 * 4 % 4),
      )
      (pair (omega (arith, h.0, h.1.0)) (omega (arith, h.1.0)))
b64decode-b64encode (a ∷ b ∷ c ∷ bytes) h =
    rw
      (
        decode_one at_start 0 (a / 4)
            (char_of (a % 4 * 16 + b / 16)
              ∷ char_of (b % 16 * 4 + c / 64)
              ∷ char_of (c % 64)
              ∷ b64encode bytes)
            (omega (arith, h.0)),
        decode_one (after_one (a / 4)) 0 (a % 4 * 16 + b / 16)
            (char_of (b % 16 * 4 + c / 64) ∷ char_of (c % 64) ∷ b64encode bytes)
            (omega (arith, h.1.0)),
        decode_one (after_two ((a % 4 * 16 + b / 16) % 16)) 0 (b % 16 * 4 + c / 64)
            (char_of (c % 64) ∷ b64encode bytes) (omega (arith, h.1.1.0)),
        decode_one (after_three ((b % 16 * 4 + c / 64) % 4)) 0 (c % 64) (b64encode bytes)
            (omega arith),
        b64decode-b64encode bytes h.1.1.1,
      )
      (triple (omega (arith, h.0, h.1.0)) (omega (arith, h.1.0, h.1.1.0)) (omega (arith, h.1.1.0)))

-- Bytes survive being encoded, stripped of their padding, padded again and decoded.
pub decode_of-encode :
    (bytes : List ℕ)
    → IsBytes bytes
    → b64decode (padded (rstrip_equals (b64encode bytes))) ≡ some bytes
decode_of-encode bytes h =
    rw (rstrip_equals-b64encode bytes h, padded-unpadded bytes) (b64decode-b64encode bytes h)
