-- ===== src/Answering/Citations/Nested.antt =====
-- How a marker can survive the check of `bind`.
use zenith_enterprise.Common.{
  ℕ, zero, ◌≡◌, refl, ap, ◌∙◌, sym, true, false, [], ◌∷◌, ◌++◌, ◌==◌, map, append-nil, arith, all,
  not,
}
use zenith_enterprise.Common.Text.{Text, is_digit, show, digits-show}
use zenith_enterprise.Answering.Citations.{
  plain, cite, pieces_from, pieces, in_range, cleaned, fabrications,
}
use zenith_enterprise.Answering.Citations.Reading.{pieces_letter, pieces_marker}

pieces_doubled :
    (s : Text) → pieces_from zero (b'[' ∷ b'[' ∷ s) ≡ plain b'[' ∷ pieces_from zero (b'[' ∷ s)
unfolding pieces_from
pieces_doubled s = refl

pieces_plain : (t : Text) → all (λ c. not (c == b'[')) t ≡ true → pieces_from zero t ≡ map plain t
pieces_plain [] h = unfold pieces_from in refl
pieces_plain (c ∷ t) h =
    rw (pieces_letter c t (ground (arith, h)))
      (ap (◌∷◌ (plain c)) (pieces_plain t (ground (arith, h))))

digits_plain :
    (s : Text) → all is_digit s ≡ true → all (λ c. not (c == b'[')) (s ++ b']' ∷ []) ≡ true
digits_plain [] h = refl
digits_plain (c ∷ s) h = ground (arith, digits_plain s)

plain_digits : (b : ℕ) → all (λ c. not (c == b'[')) (show b ++ b']' ∷ []) ≡ true
plain_digits b = digits_plain (show b) (digits-show b)

nested_pieces :
    (a : ℕ) (t : Text)
    → all (λ c. not (c == b'[')) t ≡ true
    → pieces (b'[' ∷ ((b'[' ∷ show a ++ b']' ∷ []) ++ t)) ≡ plain b'[' ∷ cite (a ∷ []) ∷ map plain t
unfolding pieces
nested_pieces a t h =
    pieces_doubled ((show a ++ b']' ∷ []) ++ t)
    ∙ ap (◌∷◌ (plain b'['))
        (pieces_marker false a [] t ∙ ap (◌∷◌ (cite (a ∷ []))) (pieces_plain t h))

cleaned_plain :
    (k : ℕ) (t : Text) → (cleaned k (map plain t) ≡ t) × (fabrications k (map plain t) ≡ 0)
cleaned_plain k [] = (refl, refl)
cleaned_plain k (c ∷ t) = (ap (◌∷◌ c) (cleaned_plain k t).0, (cleaned_plain k t).1)

lone_marker : (b : ℕ) → pieces (b'[' ∷ (show b ++ b']' ∷ [])) ≡ cite (b ∷ []) ∷ []
unfolding pieces
lone_marker b =
    let m = b'[' ∷ (show b ++ b']' ∷ []) in
    ap (pieces_from zero) (sym (append-nil m))
    ∙ pieces_marker false b [] []
    ∙ (unfold pieces_from in refl)

nested_cleaned :
    (k a : ℕ) (t : Text)
    → in_range k a ≡ false
    → cleaned k (plain b'[' ∷ cite (a ∷ []) ∷ map plain t) ≡ b'[' ∷ t
nested_cleaned k a t h = rw (h, (cleaned_plain k t).0)

nested_count :
    (k a : ℕ) (t : Text)
    → in_range k a ≡ false
    → fabrications k (plain b'[' ∷ cite (a ∷ []) ∷ map plain t) ≡ 1
nested_count k a t h = rw (h, (cleaned_plain k t).1)

-- One pass of the expression can leave a marker behind that it did not see: where the inner of two
-- nested markers is removed, its neighbours close up to a new one. Two numbers of passages that do
-- not exist are enough, and only one of them is counted.
pub nested_marker_survives :
    (k a b : ℕ)
    → in_range k a ≡ false
    → let answer = b'[' ∷ ((b'[' ∷ show a ++ b']' ∷ []) ++ (show b ++ b']' ∷ [])) in
      (cleaned k (pieces answer) ≡ b'[' ∷ (show b ++ b']' ∷ []))
      × (pieces (cleaned k (pieces answer)) ≡ cite (b ∷ []) ∷ [])
      × (fabrications k (pieces answer) ≡ 1)
nested_marker_survives k a b h =
    let rest = show b ++ b']' ∷ [] in
    let cut = nested_pieces a rest (plain_digits b) in
    rw cut (
      nested_cleaned k a rest h,
      rw (nested_cleaned k a rest h) (lone_marker b),
      nested_count k a rest h,
    )
