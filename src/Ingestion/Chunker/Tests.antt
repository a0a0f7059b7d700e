-- ===== src/Ingestion/Chunker/Tests.antt =====
-- Short texts, split at a small target.
use zenith_enterprise.Common.{ℕ, ◌≡◌, ◌+◌, refl, true, List, [], ◌∷◌, ◌++◌, arith, All, length}
use zenith_enterprise.Common.Text.{Text, codes, strip}
use zenith_enterprise.Retrieval.Hits.{Box}
use zenith_enterprise.Ingestion.Chunker.Find.{rfind}
use zenith_enterprise.Ingestion.Chunker.Boxes.{ParsedPage, merge_lines}
use zenith_enterprise.Ingestion.Chunker.{first_cut, boundary, cuts, chunk_stream}
use zenith_enterprise.Ingestion.Chunker.Cuts.{covers, cuts-covers}
use zenith_enterprise.Ingestion.Chunker.Cover.{
  IsGood, cited_by, chunk_stream-IsGood, chunk_stream_covers,
}

abbrev words : Text
words = codes "One two. Three four"

cut_behind_a_sentence : boundary words 0 10 ≡ 9
unfolding boundary first_cut rfind
cut_behind_a_sentence = refl

abbrev ten : Text
ten = codes "0123456789"

-- 120 characters
abbrev long : Text
long = ten ++ ten ++ ten ++ ten ++ ten ++ ten ++ ten ++ ten ++ ten ++ ten ++ ten ++ ten

chunk_stream_covers_example : cited_by 60 (chunk_stream long 110) ≡ true
unfolding strip
chunk_stream_covers_example =
    chunk_stream_covers long 110 60 48 (omega arith) (omega arith) refl refl

chunk_stream-IsGood_example : All (IsGood long 110) (chunk_stream long 110)
chunk_stream-IsGood_example = chunk_stream-IsGood long 110 (omega arith)

cuts-covers_example : covers 11 (cuts 19 words 10 0) ≡ true
cuts-covers_example =
    cuts-covers 19 words 10 0 11 (omega arith) (omega arith) (omega arith) (omega arith)

abbrev word_box : ℕ → ℕ → Box
word_box x y = record { page = 1; x0 = x; y0 = y; x1 = x + 100000; y1 = y + 9000 }

-- Two words of one line, and one across the gutter.
abbrev line : List Box
line = word_box 100000 50000 ∷ word_box 205000 50001 ∷ word_box 600000 50000 ∷ []

gutter_parts_lines : length (merge_lines line) ≡ 2
gutter_parts_lines = refl

abbrev page : ParsedPage
page = record {
  page_num = 4;
  text = long;
  words = record { text = long; box = word_box 0 0 } ∷ [];
  method = [];
  warnings = [];
}
