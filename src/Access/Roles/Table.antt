-- ===== src/Access/Roles/Table.antt =====
-- A table of two columns, which is keyed by both, as the list of its rows.
use zenith_enterprise.Common.{
  ℕ, suc, ◌≡◌, List, [], ◌∷◌, ◌==◌, if◌then◌else◌, ◌||◌, ◌&&◌, not, keep_if, contains, arith,
  Bool-cases, ==→eq, inl, inr,
}

abbrev pub Rows : Type 0
Rows = List (ℕ × ℕ)

-- What stands in the second column beside a key.
abbrev pub seconds_of : ℕ → Rows → List ℕ
seconds_of k [] = []
seconds_of k ((a, b) ∷ rows) = let rest = seconds_of k rows in if a == k then b ∷ rest else rest

-- How many rows have the key.
abbrev pub count_of : ℕ → Rows → ℕ
count_of k [] = 0
count_of k ((a, b) ∷ rows) = let rest = count_of k rows in if a == k then suc rest else rest

-- `DELETE ... WHERE` the first column is the key.
abbrev pub without : ℕ → Rows → Rows
without k = keep_if λ row. not (row.0 == k)

-- `INSERT ... ON CONFLICT DO NOTHING`
abbrev pub with_row : ℕ → ℕ → Rows → Rows
with_row k x rows = if contains x (seconds_of k rows) then rows else (k, x) ∷ rows

abbrev pub with_rows : ℕ → List ℕ → Rows → Rows
with_rows k [] rows = rows
with_rows k (x ∷ xs) rows = with_rows k xs (with_row k x rows)

pub seconds_of-without :
    (k j : ℕ) (rows : Rows)
    → seconds_of j (without k rows) ≡ (if j == k then [] else seconds_of j rows)
seconds_of-without k j [] = ground arith
seconds_of-without k j ((a, b) ∷ rows) = ground (arith, seconds_of-without k j rows)

contains-with_own_row :
    (k x c : ℕ) (rows : Rows)
    → contains c (seconds_of k (with_row k x rows))
      ≡ ((k == k && c == x) || contains c (seconds_of k rows))
contains-with_own_row k x c rows = elim (Bool-cases (contains x (seconds_of k rows))) [
  | inl e ↦ elim (Bool-cases (c == x)) [
    | inl same ↦ rw (e, ==→eq c x same, e) (ground arith)
    | inr other ↦ rw e (ground arith)
  ]
  | inr e ↦ rw e (ground arith)
]

pub contains-with_row :
    (k j x c : ℕ) (rows : Rows)
    → contains c (seconds_of j (with_row k x rows))
      ≡ ((j == k && c == x) || contains c (seconds_of j rows))
contains-with_row k j x c rows = elim (Bool-cases (j == k)) [
  | inl same ↦ rw (==→eq j k same) (contains-with_own_row k x c rows)
  | inr other ↦ ground arith
]

pub contains-with_rows :
    (k j : ℕ) (xs : List ℕ) (c : ℕ) (rows : Rows)
    → contains c (seconds_of j (with_rows k xs rows))
      ≡ ((j == k && contains c xs) || contains c (seconds_of j rows))
contains-with_rows k j [] c rows = ground arith
contains-with_rows k j (x ∷ xs) c rows =
    ground (arith, contains-with_rows k j xs c (with_row k x rows), contains-with_row k j x c rows)
