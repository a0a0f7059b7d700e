-- ===== src/Ingestion/Classification/Reading.antt =====
-- What `read` makes of a reply.
use zenith_enterprise.Common.{
  ℕ, ◌≤◌, List, [], ◌∷◌, ◌++◌, leb, ◌&&◌, not, length, contains, arith, Bool-cases, inl, inr, All,
  All-append, All-take, length-take,
}
use zenith_enterprise.Common.Text.{Text, codes, strip, upper, starts_with}
use zenith_enterprise.Ingestion.Classification.{choose, read, find_numbers, max_chosen}

-- A number names one of the folders.
abbrev pub NamesFolder : ℕ → ℕ → Type 0
NamesFolder count n = (1 ≤ n) × (n ≤ count)

choose-All :
    (count : ℕ) (chosen ns : List ℕ)
    → All (NamesFolder count) chosen
    → All (NamesFolder count) (choose count chosen ns)
choose-All count chosen [] h = h
choose-All count chosen (n ∷ ns) h =
    elim (Bool-cases (leb 1 n && leb n count && not (contains n chosen))) [
      | inl e ↦ rw e (
          choose-All count (chosen ++ n ∷ []) ns (
            All-append (NamesFolder count) chosen (n ∷ []) h
              (((ground arith), (ground arith)), tt)))
      | inr e ↦ rw e (choose-All count chosen ns h)
    ]

-- A reply names at most three folders, each of them one that was shown.
pub read-All :
    (reply : Text) (count : ℕ)
    → All (NamesFolder count) (read reply count) × (length (read reply count) ≤ max_chosen)
unfolding read
read-All reply count =
    let chosen = choose count [] (find_numbers [] reply) in
    elim (Bool-cases (starts_with (codes "NONE") (upper (strip reply)))) [
      | inl e ↦ rw e (tt, omega arith)
      | inr e ↦ rw e (
        All-take (NamesFolder count) max_chosen chosen
            (choose-All count [] (find_numbers [] reply) tt),
        omega (arith, length-take max_chosen chosen),
      )
    ]
