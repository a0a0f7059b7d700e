-- ===== src/Pagination/LabelCursors/Tests.antt =====
-- A platform whose times and identifiers are numbers and which writes a character in unary.
use zenith_enterprise.Common.{
  ℕ, zero, suc, ◌+◌, ◌<◌, ◌≡◌, refl, ◌∙◌, ap, true, false, Option, none, some, List, [], ◌∷◌, ◌++◌,
  ◌==◌, if◌then◌else◌, contains, all, All-append, arith,
}
use zenith_enterprise.Common.Text.{
  Text, codes, is_digit, show, int, int-show, is_empty-show, digits-show,
}
use zenith_enterprise.Pagination.Base64.RoundTrip.{IsBytes}
use zenith_enterprise.Pagination.Cursors.{Platform, Cursor, bar, encode, decode}
use zenith_enterprise.Pagination.Cursors.RoundTrip.{decode-encode}
use zenith_enterprise.Pagination.LabelCursors.{Sort, by_name, by_last_used, LabelCursor, name_key}
use zenith_enterprise.Pagination.LabelCursors as L
use zenith_enterprise.Pagination.LabelCursors.RoundTrip.{decode_back}

no_bar : (s : Text) → all is_digit s ≡ true → contains bar s ≡ false
no_bar [] h = refl
no_bar (c ∷ s) h = ground (arith, h, no_bar s)

abbrev ones : ℕ → List ℕ
ones zero = []
ones (suc n) = 1 ∷ ones n

abbrev in_unary : Text → List ℕ
in_unary [] = []
in_unary (c ∷ text) = ones c ++ 0 ∷ in_unary text

abbrev with_character : ℕ → Option Text → Option Text
with_character c none = none
with_character c (some text) = some (c ∷ text)

abbrev from_unary : ℕ → List ℕ → Option Text
from_unary n [] = some []
from_unary n (b ∷ bytes) =
    let ended = from_unary 0 bytes in
    let longer = from_unary (suc n) bytes in if b == 0 then with_character n ended else longer

from_unary-ones :
    (n c : ℕ) (bytes : List ℕ) → from_unary n (ones c ++ bytes) ≡ from_unary (c + n) bytes
from_unary-ones n zero bytes = ap (λ k. from_unary k bytes) (omega arith)
from_unary-ones n (suc c) bytes =
    from_unary-ones (suc n) c bytes ∙ ap (λ k. from_unary k bytes) (omega arith)

unary_back : (text : Text) → from_unary 0 (in_unary text) ≡ some text
unary_back [] = refl
unary_back (c ∷ text) = ground (arith, from_unary-ones 0 c (0 ∷ in_unary text), unary_back text)

ones-IsBytes : (n : ℕ) → IsBytes (ones n)
ones-IsBytes zero = tt
ones-IsBytes (suc n) = (omega arith, ones-IsBytes n)

unary-IsBytes : (text : Text) → IsBytes (in_unary text)
unary-IsBytes [] = tt
unary-IsBytes (c ∷ text) =
    All-append (λ b. b < 256) (ones c) (0 ∷ in_unary text) (ones-IsBytes c)
      (omega arith, unary-IsBytes text)

abbrev platform : Platform
platform = record {
  Stamp = ℕ;
  isoformat = show;
  fromisoformat = λ t. some (int t);
  fromisoformat_back = λ t. ap some (int-show t);
  isoformat_full = is_empty-show;
  isoformat_bar = λ t. no_bar (show t) (digits-show t);
  Uuid = ℕ;
  str_uuid = show;
  parse_uuid = λ t. some (int t);
  parse_uuid_back = λ t. ap some (int-show t);
  str_uuid_bar = λ t. no_bar (show t) (digits-show t);
  encode_utf8 = in_unary;
  decode_utf8 = from_unary 0;
  decode_utf8_back = unary_back;
  encode_utf8-IsBytes = unary-IsBytes;
  parse_int = λ t. some (int t);
  parse_int_back = λ n. ap some (int-show n);
}

abbrev place : Cursor platform
place = record { created_at = 20260301; id = 77 }

decode-encode_example : decode platform (encode platform place) ≡ some place
decode-encode_example = decode-encode platform place

abbrev barred : LabelCursor platform
barred = record { sort = by_name; key = some (name_key (codes "a|b")); id = 12 }

decode_back_example : L.decode platform (L.encode platform barred) by_name ≡ some barred
decode_back_example = decode_back platform barred by_name refl

refused_elsewhere : L.decode platform (L.encode platform barred) by_last_used ≡ none
refused_elsewhere = decode_back platform barred by_last_used refl
