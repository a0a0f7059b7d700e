-- ===== src/Ingestion/Routing/Laws.antt =====
-- A profile may change the cost of a page, not its route.
use zenith_enterprise.Common.{◌≤◌, ◌≡◌, Bool, length, arith}
use zenith_enterprise.Common.Text.{strip}
use zenith_enterprise.Ingestion.Chunker.Boxes.{ParsedPage}
use zenith_enterprise.Ingestion.Routing.{decide, fewest_characters}

-- A page with a text layer is routed alike whether or not OCR is available.
decide_alike :
    (implemented here there : Bool) (page : ParsedPage)
    → fewest_characters ≤ length (strip page.text)
    → decide implemented page here ≡ decide implemented page there
decide_alike implemented here there page h = ground arith
