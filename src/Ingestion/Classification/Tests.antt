-- ===== src/Ingestion/Classification/Tests.antt =====
-- A user with two folders to offer, and models that answer, decline and break.
use zenith_enterprise.Common.{
  ℕ, ◌≡◌, ◌↔◌, ◌==◌, refl, true, false, none, some, List, [], ◌∷◌, if◌then◌else◌,
}
use zenith_enterprise.Common.Text.{Text, codes, strip, int}
use zenith_enterprise.Ingestion.Classification.{
  Label, World, Reach, reaches, completed, chose, declined, unavailable, no_folders, availability,
  refused, file, read, find_numbers, unfiled,
}
use zenith_enterprise.Ingestion.Classification.Filed.{
  IsModest, file-IsModest, availability_foretells,
}

abbrev labels : List Label
labels =
    record { id = 7; name = codes "Contracts"; is_default = false; is_quarantine = false }
    ∷ record { id = 8; name = codes "General"; is_default = true; is_quarantine = false }
    ∷ record { id = 9; name = codes "Unclassified"; is_default = false; is_quarantine = true }
    ∷ record { id = 5; name = codes "Wages"; is_default = false; is_quarantine = false }
    ∷ []

abbrev reach : ℕ → Reach
reach user = if user == 1 then reaches (5 ∷ 7 ∷ 9 ∷ []) else reaches (9 ∷ [])

abbrev answering : Text → World
answering reply = record {
  label_ids = reach;
  access_labels = labels;
  provider = some (λ system prompt. completed reply);
}

abbrev silent : World
silent = record { label_ids = reach; access_labels = labels; provider = none }

reads_numbers : read (codes "2, 5 and 2, then 1") 4 ≡ 2 ∷ 1 ∷ []
unfolding read find_numbers strip int
reads_numbers = refl

files_in_two :
    file (answering (codes "2, 9, 1")) (some 1) []
    ≡ record { labels = 5 ∷ 7 ∷ []; outcome = chose; detail = none }
unfolding file availability read find_numbers strip int
files_in_two = refl

declines : file (answering (codes "none of them")) (some 1) [] ≡ unfiled declined none
unfolding file availability read find_numbers strip int
declines = refl

reserved_only : file (answering (codes "1")) (some 2) [] ≡ unfiled no_folders none
unfolding file availability
reserved_only = refl

file-IsModest_example :
    IsModest (answering (codes "2, 9, 1")) 1 (file (answering (codes "2, 9, 1")) (some 1) [])
file-IsModest_example = file-IsModest (answering (codes "2, 9, 1")) 1 []

availability_foretells_example :
    (availability silent 1 ≡ refused unavailable)
    ↔ (file silent (some 1) [] ≡ unfiled unavailable none)
availability_foretells_example = availability_foretells silent 1 [] unavailable refl
