-- ===== src/Ingestion/Chunker/Cuts.antt =====
-- Where the loop of the chunker cuts: it goes forward, and never further than the target.
use zenith_enterprise.Common.{
  ℕ, zero, suc, ◌+◌, ◌-◌, ◌≤◌, ◌<◌, ◌≡◌, Bool, true, false, List, [], ◌∷◌, ltb, leb, min, max,
  length, drop, length-take, All, arith, Bool-cases, ltb→lt, Option-cases, inl, inr, ◌&&◌, ◌||◌,
}
use zenith_enterprise.Common.Text.{Text}
use zenith_enterprise.Ingestion.Chunker.Find.{rfind, rfind-fits}
use zenith_enterprise.Ingestion.Chunker.{
  slice, separators, first_cut, boundary, cuts, overlap_characters,
}

length-drop : (n : ℕ) (s : Text) → length (drop n s) ≡ length s - n
length-drop zero s = omega arith
length-drop (suc n) [] = omega arith
length-drop (suc n) (c ∷ s) = omega (arith, length-drop n s)

pub length-slice :
    (start end : ℕ) (s : Text) → length (slice start end s) ≡ min (end - start) (length s - start)
length-slice start end s =
    omega (arith, length-take (end - start) (drop start s), length-drop start s)

first_cut-bounds :
    (window : Text) (start end target : ℕ) (seps : List Text)
    → start < end
    → start + length window ≤ end
    → (start < first_cut window start end target seps)
      × (first_cut window start end target seps ≤ end)
unfolding first_cut
first_cut-bounds window start end target [] h k = (h, omega arith)
first_cut-bounds window start end target (sep ∷ seps) h k =
    let later = first_cut-bounds window start end target seps h k in
    elim (Option-cases (rfind sep window)) [
      | inl e ↦ ground (arith, e, later)
      | inr (cut, e) ↦ ground (arith, e, later, rfind-fits sep window cut e)
    ]

-- A cut lies behind the start of its piece, at most `target` further, and inside the text.
boundary-bounds :
    (text : Text) (start target : ℕ)
    → 0 < target
    → start < length text
    → (start < boundary text start target)
      × (boundary text start target ≤ start + target)
      × (boundary text start target ≤ length text)
unfolding boundary
boundary-bounds text start target h k =
    let end = min (start + target) (length text) in
    ground (
      arith,
      first_cut-bounds (slice start end text) start end target separators,
      length-slice start end text,
    )

-- A piece of the text: not empty, and no longer than the target.
pub record IsPiece (text : Text) (target : ℕ) (piece : ℕ × ℕ) : Type 0 where
  pub forward : piece.0 < piece.1
  pub short : piece.1 ≤ piece.0 + target
  pub inside : piece.1 ≤ length text

pub cuts-IsPiece :
    (fuel : ℕ) (text : Text) (target start : ℕ)
    → 0 < target
    → All (IsPiece text target) (cuts fuel text target start)
unfolding cuts
cuts-IsPiece zero text target start h = tt
cuts-IsPiece (suc fuel) text target start h = elim (Bool-cases (ltb start (length text))) [
  | inl inside ↦
      let end = boundary text start target in
      let bounds = boundary-bounds text start target h (ltb→lt start (length text) inside) in
      let next = cuts-IsPiece fuel text target (max (end - overlap_characters) (start + 1)) h in
      let piece : IsPiece text target (start, end) = record {
        forward = bounds.0;
        short = bounds.1;
        inside = bounds.2;
      } in
      elim (Bool-cases (leb (length text) end)) [
        | inl e ↦ rw (inside, e) (piece, tt)
        | inr e ↦ rw (inside, e) (piece, next)
      ]
  | inr outside ↦ rw outside tt
]

-- A position lies in one of the pieces.
abbrev pub covers : ℕ → List (ℕ × ℕ) → Bool
covers i [] = false
covers i ((start, end) ∷ rest) = (leb start i && ltb i end) || covers i rest

-- The fuel is enough: as many turns as there are characters left reach the end of the text, and the
-- pieces leave no gap.
pub cuts-covers :
    (fuel : ℕ) (text : Text) (target start i : ℕ)
    → 0 < target
    → length text ≤ start + fuel
    → start ≤ i
    → i < length text
    → covers i (cuts fuel text target start) ≡ true
unfolding cuts
cuts-covers zero text target start i h enough after inside = absurd (omega arith)
cuts-covers (suc fuel) text target start i h enough after inside = ground (
  arith,
  boundary-bounds text start target,
  cuts-covers fuel text target (max (boundary text start target - overlap_characters) (start + 1))
      i,
)
