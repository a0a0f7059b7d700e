-- ===== src/Ingestion/Pipeline/Tests.antt =====
-- A note of two sentences in quarantine, and a model that files it.
use zenith_enterprise.Common.{
  ℕ, ◌≡◌, refl, true, false, none, some, [], ◌∷◌, map, keep_if, not, length, arith,
}
use zenith_enterprise.Common.Text.{codes, is_empty, strip, int}
use zenith_enterprise.Ingestion.Chunker.Boxes.{ParsedPage}
use zenith_enterprise.Ingestion.Classification.{
  World, reaches, completed, file, availability, read, find_numbers,
}
use zenith_enterprise.Ingestion.Chunker.{boundary, first_cut}
use zenith_enterprise.Ingestion.Chunker.Find.{rfind}
use zenith_enterprise.Ingestion.Pipeline.Rows.{summarise, Document, Store, pending, plain, ready}
use zenith_enterprise.Ingestion.Pipeline.Held.{AreApart}
use zenith_enterprise.Ingestion.Pipeline.Runs.{HasEnded, run_ends, run_keeps_labelled}
use zenith_enterprise.Ingestion.Pipeline.Routed.{contents, is_left_out, route_partitions}
use zenith_enterprise.Ingestion.Pipeline.{Services, run, route, ingest}

abbrev note_page : ParsedPage
note_page = record {
  page_num = 1;
  text =
      codes
        "Pay for May: two thousand, of which four hundred are withheld as tax, and the rest is sent on the first.";
  words = [];
  method = codes "text";
  warnings = [];
}

abbrev world : World
world = record {
  label_ids = λ user. reaches (5 ∷ 7 ∷ 9 ∷ []);
  access_labels =
      record { id = 8; name = codes "General"; is_default = true; is_quarantine = false }
      ∷ record { id = 9; name = codes "Unclassified"; is_default = false; is_quarantine = true }
      ∷ record { id = 5; name = codes "Wages"; is_default = false; is_quarantine = false }
      ∷ [];
  provider = some (λ system prompt. completed (codes "1"));
}

abbrev services : Services ℕ
services = record {
  file_exists = true;
  count_pages = none;
  parse = some (note_page ∷ []);
  embed = λ texts. some (map length texts);
  classifier = world;
  record_raises = false;
  max_pages = 2000;
  ocr_implemented = false;
  ocr_capable = false;
  error_name = [];
  error_text = [];
}

abbrev waiting : Document
waiting = record {
  media_type = plain;
  status = pending;
  status_detail = none;
  page_count = none;
  label_ids = 9 ∷ [];
  uploaded_by = some 1;
}

abbrev start : Store ℕ
start = record {
  document = some waiting;
  pages = [];
  rows = [];
  space_registered = false;
  events = [];
}

apart : AreApart world
apart q h = λ k. ground (arith, h, k)

run_ends_example :
    HasEnded services start waiting (run services (9 ∷ []) start).0 (run services (9 ∷ []) start).1
run_ends_example = run_ends services (9 ∷ []) start waiting refl refl apart

route_partitions_example :
    (map contents (route false true (note_page ∷ [])).pages
      ≡ map contents (keep_if (λ p. not (is_left_out false true p)) (note_page ∷ [])))
    × ((route false true (note_page ∷ [])).omitted
        ≡ map (λ p. p.page_num) (keep_if (is_left_out false true) (note_page ∷ [])))
route_partitions_example = route_partitions false true (note_page ∷ [])

-- The labels are swapped in the transaction that makes the document ready.
abbrev filed : Document
filed = record waiting { status = ready; label_ids = 5 ∷ [] }

ends_filed : (run services (9 ∷ []) start).0.document ≡ some filed
unfolding run ingest file availability read find_numbers strip int summarise boundary first_cut
    rfind zenith_enterprise.Ingestion.Chunker.cuts
ends_filed = refl

run_keeps_labelled_example : is_empty filed.label_ids ≡ false
run_keeps_labelled_example =
    run_keeps_labelled services (9 ∷ []) start waiting filed refl refl apart refl ends_filed
