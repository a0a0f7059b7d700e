-- ===== src/Retrieval/Service/Tests.antt =====
-- Two chunks of two documents, of which a caller with one label sees one, and a judge that is down.
use zenith_enterprise.Common.{
  ℕ, ◌+◌, ◌/◌, ◌≡◌, ◌⊎◌, true, false, none, some, List, [], ◌∷◌, ◌==◌, ltb, length, map, keep_if,
  arith,
}
use zenith_enterprise.Common.Text.{Text, codes}
use zenith_enterprise.Retrieval.Breaker.{default_breaker}
use zenith_enterprise.Retrieval.Fusion.{Scoring}
use zenith_enterprise.Retrieval.Hits.{Hit}
use zenith_enterprise.Retrieval.Judging.{assessed}
use zenith_enterprise.Retrieval.Search.{TenantContext, narrowed, Row, Judge, rerank, hit_of}
use zenith_enterprise.Retrieval.Service.{Sources, search}
use zenith_enterprise.Retrieval.Service.Narrowing.{Narrows, narrowed_never_widens}
use zenith_enterprise.Retrieval.Service.Reordering.{IsReordering, rerank-IsReordering}
use zenith_enterprise.Retrieval.Service.Results.{IsAnswer, search_answers}

points_asym : (s t : ℕ) → ltb t s ≡ true → ltb s t ≡ false
points_asym s t h = ground arith

points_split : (s t u : ℕ) → ltb u s ≡ true → (ltb t s ≡ true) ⊎ (ltb u t ≡ true)
points_split s t u h = ground arith

abbrev points : Scoring
points = record {
  Score = ℕ;
  zero_score = 0;
  add = λ s t. s + t;
  reciprocal = λ n. 1_000_000 / n;
  above = λ s t. ltb t s;
  above_asym = points_asym;
  above_split = points_split;
}

abbrev caller : TenantContext
caller = record {
  tenant_id = 1;
  label_ids = 4 ∷ 5 ∷ [];
  user_id = some 9;
  reads_all_history = false;
}

abbrev chunk_row : ℕ → Text → Row
chunk_row id text = record {
  id = id;
  document_id = id + 100;
  filename = codes "a.pdf";
  media_type = codes "application/pdf";
  page_num = some 1;
  char_start = 0;
  char_end = length text;
  text = text;
  bboxes = [];
}

abbrev chunk_rows : List Row
chunk_rows = chunk_row 7 (codes "wages") ∷ chunk_row 8 (codes "leave") ∷ []

-- It assesses the candidates by the length of their texts.
abbrev judge : Judge points
judge question cs = some (record {
  requested_ids = map (λ c. c.id) cs;
  judgments =
      map
        (λ c. record {
          candidate_id = c.id;
          outcome = assessed;
          rank_value = some (c.id + length c.text);
        })
        cs;
})

abbrev sources : Sources points ℕ
sources = record {
  embed_query = λ question. none;
  readable = λ c documents. keep_if (λ d. d == 107) documents;
  lexical = λ c question documents. (7, 30) ∷ (8, 20) ∷ [];
  dense = λ c vector documents. [];
  exact = λ c question documents. [];
  rows = λ c. chunk_rows;
  rerank_candidates = 20;
  judge = some judge;
  measure = λ s. s;
}

narrowed_never_widens_example : Narrows caller (5 ∷ 6 ∷ []) (narrowed caller (5 ∷ 6 ∷ []))
narrowed_never_widens_example = narrowed_never_widens caller (5 ∷ 6 ∷ [])

abbrev hits : List Hit
hits = map (hit_of (7 ∷ 8 ∷ []) []) chunk_rows

rerank-IsReordering_example :
    IsReordering points hits 8 (rerank points (some judge) default_breaker 10 11 [] hits 8).1
rerank-IsReordering_example = rerank-IsReordering points judge default_breaker 10 11 [] hits 8

search_answers_example :
    IsAnswer points sources caller 8
      (5 ∷ [])
      (107 ∷ [])
      (search points sources caller default_breaker 10 11 [] 8 (5 ∷ []) (107 ∷ [])).1
search_answers_example =
    search_answers points sources caller default_breaker 10 11 [] 8 (5 ∷ []) (107 ∷ [])
