-- ===== src/Answering/Service/Recorded.antt =====
-- What the log holds of an answer's citations.
use zenith_enterprise.Common.{
  ℕ, zero, suc, ◌-◌, ◌≤◌, ◌≡◌, refl, ap, sym, ◌==◌, none, some, List, [], ◌∷◌, map, get_elem?, All,
  arith, inl, inr, Option-cases, Bool-cases,
}
use native.Mathlib.Numerals.{unary_clauses}
use zenith_enterprise.Retrieval.Hits.{Hit}
use zenith_enterprise.Retrieval.Search.{index_of}
use zenith_enterprise.Answering.Citations.{ChunkCitation}
use zenith_enterprise.Answering.Citations.Binding.{Names}
use zenith_enterprise.Answering.Service.{Cited, cited_rows}

-- A row has a rank, and the hit at that rank is of the row's passage.
abbrev pub IsRanked : List Hit → Cited → Type 0
IsRanked hits row =
    (r : ℕ) × (row.rank ≡ some r)
    × (1 ≤ r)
    × (h : Hit) × (get_elem? hits (r - 1) ≡ some h)
    × (h.chunk_id ≡ row.chunk_id)

abbrev ids : List Hit → List ℕ
ids = map λ h. h.chunk_id

-- A hit of an identifier, counted from a position on.
abbrev Stands : ℕ → ℕ → List Hit → ℕ → Type 0
Stands position id hits r =
    (position ≤ r) × (h : Hit) × (get_elem? hits (r - position) ≡ some h) × (h.chunk_id ≡ id)

Stands-suc :
    (position id : ℕ) (h : Hit) (hits : List Hit) (r : ℕ)
    → Stands (suc position) id hits r
    → Stands position id (h ∷ hits) r
Stands-suc position id h hits zero (le, g, e, same) = absurd (omega arith)
Stands-suc position id h hits (suc r) (le, g, e, same) =
    let apart : (suc r - position ≡ suc (r - position)) = omega arith in
    (omega arith, g, rw apart (simp unary_clauses at e), same)

Stands-here :
    (position : ℕ) (h : Hit) (hits : List Hit) → Stands position h.chunk_id (h ∷ hits) position
Stands-here position h hits =
    let start : (position - position ≡ zero) = omega arith in (omega arith, h, rw start refl, refl)

index_of-Stands :
    (position id : ℕ) (hits : List Hit) (r : ℕ)
    → index_of position id (ids hits) ≡ some r
    → Stands position id hits r
index_of-Stands position id [] r e = absurd (ground arith)
index_of-Stands position id (h ∷ hits) r e =
    elim (Option-cases (index_of (suc position) id (ids hits))) [
      | inl missing ↦ elim (Bool-cases (h.chunk_id == id)) [
        | inl it ↦
            let at : (r ≡ position) = ground (arith, e, missing, it) in
            let same : (h.chunk_id ≡ id) = ground (arith, it) in
            rw (at, sym same) (Stands-here position h hits)
        | inr other ↦ absurd (ground (arith, e, missing, other))
      ]
      | inr (s, found) ↦
          Stands-suc position id h hits r
            (index_of-Stands (suc position) id hits r (ground (arith, e, found)))
    ]

index_of-found :
    (position id : ℕ) (hits : List Hit) (i : ℕ) (h : Hit)
    → get_elem? hits i ≡ some h
    → h.chunk_id ≡ id
    → ¬ (index_of position id (ids hits) ≡ none)
index_of-found position id [] i h e same missing = ground arith
index_of-found position id (g ∷ hits) zero h e same missing =
    let it : (g.chunk_id ≡ id) = ground (arith, e, same) in
    elim (Option-cases (index_of (suc position) id (ids hits))) [
      | inl later ↦ ground (arith, missing, it, later)
      | inr (s, later) ↦ ground (arith, missing, later)
    ]
index_of-found position id (g ∷ hits) (suc i) h e same missing =
    elim (Option-cases (index_of (suc position) id (ids hits))) [
      | inl later ↦ index_of-found (suc position) id hits i h e same later
      | inr (s, later) ↦ ground (arith, missing, later)
    ]

row-IsRanked :
    (hits : List Hit) (c : ChunkCitation)
    → Names hits c
    → IsRanked hits (record { chunk_id = c.chunk_id; rank = index_of 1 c.chunk_id (ids hits) })
row-IsRanked hits c (low, high, h, e, same) =
    elim (Option-cases (index_of 1 c.chunk_id (ids hits))) [
      | inl missing ↦ absurd (
          index_of-found 1 c.chunk_id hits (c.marker - 1) h e (sym (ap (λ c. c.chunk_id) same))
            missing)
      | inr (r, found) ↦
          let (le, g, at, it) = index_of-Stands 1 c.chunk_id hits r found in
          (r, found, le, g, at, it)
    ]

pub cited_rows-IsRanked :
    (hits : List Hit) (cs : List ChunkCitation)
    → All (Names hits) cs
    → All (IsRanked hits) (cited_rows cs hits)
cited_rows-IsRanked hits [] named = tt
cited_rows-IsRanked hits (c ∷ cs) named =
    (row-IsRanked hits c named.0, cited_rows-IsRanked hits cs named.1)

pub cited_rows-passages :
    (hits : List Hit) (cs : List ChunkCitation)
    → map (λ row. row.chunk_id) (cited_rows cs hits) ≡ map (λ c. c.chunk_id) cs
cited_rows-passages hits [] = refl
cited_rows-passages hits (c ∷ cs) = ap (◌∷◌ c.chunk_id) (cited_rows-passages hits cs)
