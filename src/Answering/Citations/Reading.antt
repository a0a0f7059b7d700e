-- ===== src/Answering/Citations/Reading.antt =====
-- What `MARKER` matches in an answer of prose and markers.
use zenith_enterprise.Common.{
  ℕ, zero, ◌+◌, ◌≡◌, refl, ap, ◌∙◌, Bool, true, false, some, List, [], ◌∷◌, ◌++◌, ◌==◌, length, map,
  All, append_assoc, append-nil, length-append, arith, all,
}
use zenith_enterprise.Common.Text.{Text, is_digit, is_number, show, int, int-show, is_number-show}
use zenith_enterprise.Answering.Streaming.Numbers.{join_from, pad}
use zenith_enterprise.Answering.Streaming.Segments.{Segment, letter, marker, text_of, Fits}
use zenith_enterprise.Answering.Citations.{
  Piece, plain, cite, Place, bracket, digits, gap, comma, move, match_marker, after_space,
  pieces_from, pieces,
}

match_digits :
    (d r part : Text) (parts : List Text) (k : ℕ)
    → all is_digit d ≡ true
    → match_marker digits part parts k (d ++ r)
      ≡ match_marker digits (part ++ d) parts (k + length d) r
unfolding match_marker move
match_digits [] r part parts k h =
    rw (append-nil part) (ap (λ j. match_marker digits part parts j r) (omega arith))
match_digits (c ∷ d) r part parts k h =
    ground (arith, match_digits d r (part ++ c ∷ []) parts (k + 1), append_assoc part (c ∷ []) d)

data Begins : Place → Type 0 where
  at_bracket : Begins bracket
  at_comma : Begins comma

match_number :
    (p : Place) (q r : Text) (parts : List Text) (k : ℕ)
    → Begins p
    → is_number q ≡ true
    → match_marker p [] parts k (q ++ r) ≡ match_marker digits q parts (k + length q) r
unfolding match_marker move
match_number p [] r parts k b h = cc
match_number bracket (c ∷ d) r parts k at_bracket h =
    ground (arith, match_digits d r (c ∷ []) parts (k + 1))
match_number comma (c ∷ d) r parts k at_comma h =
    ground (arith, match_digits d r (c ∷ []) parts (k + 1))
match_number digits (c ∷ d) r parts k b h = elim b [ ]
match_number gap (c ∷ d) r parts k b h = elim b [ ]

match_comma :
    (spaced : Bool) (q r : Text) (parts : List Text) (k : ℕ)
    → match_marker digits q parts k (b',' ∷ (pad spaced ++ r))
      ≡ match_marker comma [] (parts ++ q ∷ []) (k + 1 + length (pad spaced)) r
unfolding match_marker move after_space
match_comma true q r parts k = refl
match_comma false q r parts k = ap (λ j. match_marker comma [] (parts ++ q ∷ []) j r) (omega arith)

-- The expression takes in a whole marker, and its groups are the numbers.
match_join :
    (p : Place) (spaced : Bool) (n : ℕ) (ns : List ℕ) (rest : Text) (parts : List Text) (k : ℕ)
    → Begins p
    → match_marker p [] parts k (join_from spaced n ns ++ (b']' ∷ rest))
      ≡ some (parts ++ map show (n ∷ ns), k + length (join_from spaced n ns) + 1)
match_join p spaced n [] rest parts k b =
    match_number p (show n) (b']' ∷ rest) parts k b (is_number-show n)
    ∙ (unfold match_marker move in refl)
match_join p spaced n (m ∷ ns) rest parts k b =
    let j = join_from spaced m ns in
    let after = b']' ∷ rest in
    rw
      (
        append_assoc (show n) (b',' ∷ (pad spaced ++ j)) after,
        append_assoc (pad spaced) j after,
        match_number p (show n) (b',' ∷ (pad spaced ++ (j ++ after))) parts k b (is_number-show n),
        match_comma spaced (show n) (j ++ after) parts (k + length (show n)),
        match_join comma spaced m ns rest (parts ++ show n ∷ [])
            (k + length (show n) + 1 + length (pad spaced)) at_comma,
        append_assoc parts (show n ∷ []) (map show (m ∷ ns)),
        length-append (show n) (b',' ∷ (pad spaced ++ j)),
        length-append (pad spaced) j,
      )
      (ap (λ t. some (parts ++ map show (n ∷ m ∷ ns), t)) (omega arith))

taken-append : (s t : Text) → pieces_from (length s) (s ++ t) ≡ pieces_from zero t
unfolding pieces_from
taken-append [] t = refl
taken-append (c ∷ s) t = taken-append s t

abbrev pub piece_of : Segment → Piece
piece_of (letter c) = plain c
piece_of (marker spaced n ns) = cite (n ∷ ns)

map-int-show : (ns : List ℕ) → map int (map show ns) ≡ ns
map-int-show [] = refl
map-int-show (n ∷ ns) = rw (int-show n, map-int-show ns)

pieces_match :
    (s : Text) (parts : List Text) (n : ℕ)
    → match_marker bracket [] [] 0 s ≡ some (parts, n)
    → pieces_from zero (b'[' ∷ s) ≡ cite (map int parts) ∷ pieces_from n s
unfolding pieces_from
pieces_match s parts n e = rw (e, pieces_from)

pub pieces_marker :
    (spaced : Bool) (n : ℕ) (ns : List ℕ) (t : Text)
    → pieces_from zero ((b'[' ∷ join_from spaced n ns ++ b']' ∷ []) ++ t)
      ≡ cite (n ∷ ns) ∷ pieces_from zero t
pieces_marker spaced n ns t =
    let body = join_from spaced n ns ++ b']' ∷ [] in
    let long : 0 + length (join_from spaced n ns) + 1 ≡ length body =
      omega (arith, length-append (join_from spaced n ns) (b']' ∷ [])) in
    let found : match_marker bracket [] [] 0 (body ++ t) ≡ some (map show (n ∷ ns), length body) =
      rw (append_assoc (join_from spaced n ns) (b']' ∷ []) t) (
        match_join bracket spaced n ns t [] 0 at_bracket
        ∙ ap (λ j. some (map show (n ∷ ns), j)) long) in
    pieces_match (body ++ t) (map show (n ∷ ns)) (length body) found
    ∙ rw (int-show n, map-int-show ns, taken-append body t)

pub pieces_letter :
    (c : ℕ) (s : Text)
    → (c == b'[') ≡ false
    → pieces_from zero (c ∷ s) ≡ plain c ∷ pieces_from zero s
unfolding pieces_from
pieces_letter c s h = rw (h, pieces_from)

-- The pieces that the expression cuts are the segments.
pub pieces-text_of :
    (segs : List Segment) → All Fits segs → pieces (text_of segs) ≡ map piece_of segs
unfolding pieces
pieces-text_of [] h = unfold pieces_from in refl
pieces-text_of (letter c ∷ s) h =
    rw (pieces_letter c (text_of s) h.0) (ap (◌∷◌ (plain c)) (pieces-text_of s h.1))
pieces-text_of (marker spaced n ns ∷ s) h =
    pieces_marker spaced n ns (text_of s) ∙ ap (◌∷◌ (cite (n ∷ ns))) (pieces-text_of s h.1)
