-- ===== src/Ingestion/Upload/Tests.antt =====
-- A tenant with a default label, a quarantine label and two compartments.
use zenith_enterprise.Common.{◌≡◌, refl, true, some, [], ◌∷◌}
use zenith_enterprise.Common.Text.{codes}
use zenith_enterprise.Ingestion.Upload.{Labels, wanted, resolve_labels, Document, Library, upload}
use zenith_enterprise.Ingestion.Upload.Wanted.{IsResolved, resolve_labels-IsResolved}
use zenith_enterprise.Ingestion.Upload.Kept.{AreAllProper, upload-AreAllProper}

abbrev labels : Labels
labels = record {
  default = some 1;
  quarantine = some 2;
  restored = 9;
  in_tenant = 1 ∷ 2 ∷ 5 ∷ 6 ∷ [];
}

abbrev waiting : Document
waiting = record { id = 40; sha256 = codes "aa"; label_ids = 2 ∷ []; uploaded_by = 8 }

abbrev library : Library
library = record { documents = waiting ∷ []; jobs = [] }

default_alone_waits : resolve_labels labels (1 ∷ 5 ∷ []) (1 ∷ 1 ∷ []) ≡ wanted (2 ∷ [])
default_alone_waits = refl

-- The quarantine label and another, named by a caller who reaches both, are kept.
quarantine_and_another : resolve_labels labels (1 ∷ 2 ∷ 5 ∷ []) (2 ∷ 5 ∷ []) ≡ wanted (2 ∷ 5 ∷ [])
quarantine_and_another = refl

released_by_a_choice :
    (upload labels (1 ∷ 5 ∷ []) 8 100 (λ d. true) 41 (codes "aa") (5 ∷ []) library).0.documents
    ≡ record { id = 40; sha256 = codes "aa"; label_ids = 5 ∷ []; uploaded_by = 8 } ∷ []
unfolding upload
released_by_a_choice = refl

resolve_labels-IsResolved_example :
    IsResolved labels (1 ∷ 5 ∷ []) (5 ∷ []) (resolve_labels labels (1 ∷ 5 ∷ []) (5 ∷ []))
resolve_labels-IsResolved_example = resolve_labels-IsResolved labels (1 ∷ 5 ∷ []) (5 ∷ [])

library-AreAllProper : AreAllProper 2 library.documents
library-AreAllProper = (record { full = refl; exclusive = λ h. refl }, tt)

upload-AreAllProper_example :
    AreAllProper 2
      (upload labels (1 ∷ 5 ∷ []) 8 100 (λ d. true) 41 (codes "aa") (5 ∷ []) library).0.documents
upload-AreAllProper_example =
    upload-AreAllProper labels (1 ∷ 5 ∷ []) 8 100 (λ d. true) 2 41 (codes "aa") (5 ∷ []) library
      refl refl library-AreAllProper
