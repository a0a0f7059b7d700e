-- ===== src/Ingestion/Pipeline/Notes.antt =====
-- The sentences that the pipeline writes into a document's status.
use zenith_enterprise.Common.{
  ℕ, ◌-◌, Option, none, some, List, [], ◌∷◌, ◌++◌, ltb, if◌then◌else◌, length, map, take,
}
use zenith_enterprise.Common.Text.{Text, codes, is_empty, show, join}
use zenith_enterprise.Ingestion.Classification.{
  Outcome, chose, declined, unavailable, no_folders, too_many_folders, failed,
}

pub not_visible : Text
not_visible = codes "document not visible in this context"

pub missing_file : Text
missing_file = codes "the stored file is missing"

pub no_text : Text
no_text = codes "no text could be extracted from this document, so it has no searchable content"

pub too_many_pages : ℕ → ℕ → Text
too_many_pages pages limit =
    codes "this document has "
    ++ (show pages
        ++ (codes " pages, more than the "
            ++ (show limit ++ codes "-page limit for a single file")))

pub filing_broke : Text
filing_broke =
    codes "automatic filing could not run; this document is waiting for an "
    ++ codes "administrator to choose its access labels"

filing_failed_note : Text
filing_failed_note =
    codes "automatic filing failed; this document is waiting for an administrator "
    ++ codes "to choose its access labels"

pub filing_failed : Option Text → Text
filing_failed none = filing_failed_note
filing_failed (some detail) =
    if is_empty detail
    then filing_failed_note
    else filing_failed_note ++ (32 ∷ 40 ∷ detail ++ 41 ∷ [])

pub no_default : Text
no_default =
    codes "no default label exists to file this document into; "
    ++ codes "an administrator must choose its access labels"

-- `_NOT_FILED`
pub not_filed : Outcome → Option Text
not_filed unavailable =
    some (codes "filed under the default label: no classification model is configured")
not_filed no_folders = some (
    codes "filed under the default label: the uploader reaches no labels that could be "
    ++ codes "suggested, so there was nothing to offer the classifier")
not_filed too_many_folders = some (
    codes "filed under the default label: the uploader reaches more than 60 labels, "
    ++ codes "which is more than a classifier can choose between reliably")
not_filed chose = none
not_filed declined = none
not_filed failed = none

-- The warning of a page whose layout no parser reads yet.
pub later : Text → Text
later reason = reason ++ codes "; layout parsing arrives in F9"

abbrev named_pages : ℕ
named_pages = 8

or_no_text : Option Text → Text
or_no_text none = codes "no text could be extracted"
or_no_text (some reason) = reason

-- `_omission`, of the pages omitted out of so many
pub omission : List ℕ → Option Text → ℕ → Text
omission omitted reason total =
    let shown = join (44 ∷ 32 ∷ []) (map show (take named_pages omitted)) in
    let listed =
      if ltb named_pages (length omitted)
      then shown ++ (codes " and " ++ (show (length omitted - named_pages) ++ codes " more"))
      else shown in
    show (length omitted)
    ++ (codes " of "
        ++ (show total
            ++ (codes " page(s) are not searchable (page "
                ++ (listed ++ (codes "): " ++ or_no_text reason)))))
