-- ===== src/Lib.antt =====
-- The verification library of the Zenith Enterprise backend (backend/app): a multi-tenant service that
-- searches a customer's documents and answers questions from the passages it found, each claim of the
-- answer carrying a citation marker such as `[2]`.
--
-- A document comes in through an upload, which settles its labels and sends a job; the job runs the
-- pipeline, which parses, routes, chunks and embeds it, and files a document that waits in quarantine.
--
-- A question passes two rate limits, is answered by a hybrid search whose rankings are fused and then
-- reranked behind a circuit breaker, and the passages that remain are numbered and sent to a language
-- model. What the model writes reaches the client either whole, through `bind`, or token by token,
-- through the streaming filter: both remove the citations of passages that were not sent.
--
-- Files and the code they model:
-- - Common: the native numbers, lists, Boolean tests and text (a list of code points, with Python's
--   string methods read on ASCII) that the components share.
-- - Throttle: features/auth/throttle.py, the sliding window as an association list from keys to hits
--   with the clock as an argument; Throttle/Query is features/query/throttle.py, the windows of the
--   user and of the tenant in front of a query. Dict, Bounds, Window, Promises and
--   Query/Charges hold the laws.
-- - Retrieval/Hits and Retrieval/Fusion: `Hit`, `candidates`, `fuse` and `_promote_leaders` of
--   features/retrieval/search.py. Scores are an abstract type with an addition, the reciprocals and a
--   comparison that is a strict weak order; nothing else of floating point is used. Identifiers are
--   numbers, ordered as their texts are.
-- - Retrieval/Breaker: features/retrieval/breaker.py and the way `SearchService._rerank` of
--   features/retrieval/service.py reports to it.
-- - Retrieval/Reranker: features/retrieval/reranker.py, its batches, the checks of each reply, and the
--   order of the scores; the server is a parameter.
-- - Answering/Streaming: features/generation/answering/streaming.py, the `MarkerFilter` character by
--   character. Answering/Citations: `bind` and `stripped` of
--   features/generation/answering/citations.py, with the regular expressions as functions on text.
-- - Answering/Service: `AnswerService.answer` of features/generation/service.py, from the question to
--   the row of the log. The search and the model are functions that may fail. Answering/Service/Streamed
--   is its `stream`. Answering/Routing and Answering/Prompt: routing.py and prompt.py of
--   features/generation/answering.
-- - Ingestion/Chunker: features/ingestion/chunking/chunker.py. The splitting loop runs on the length
--   of the text as fuel, which a theorem shows to be enough.
-- - Embeddings/Client: features/embeddings/client.py, its batching and retries; the server is a
--   parameter, whose state a request may change.
-- - Retrieval/Judging: features/retrieval/judging, with the reranker as an argument.
-- - Retrieval/Search and Retrieval/Service: `SearchService` of features/retrieval/service.py, `hydrate`
--   of features/retrieval/search.py and features/tenancy/context.py. The service composes the breaker,
--   the judge, the fusion and the relevance of the result; the three searches and the embedder are a
--   record of answers.
-- - Ingestion/Upload: `upload` of features/documents/service.py, from the labels of a request to the row
--   and the job, with the rows that a session sees as an argument.
-- - Ingestion/Pipeline: features/ingestion/pipeline.py, one run over the rows of one document. Rows has
--   the tables and the writes of a session, which do nothing to a row that the context does not see;
--   Notes has the sentences. Parsing, embedding, classifying and auditing are a record of answers, any
--   of which may be an exception. Routed, Relabelling, Held and Runs hold the laws.
-- - Ingestion/Requeue: features/ingestion/requeue.py and the ingestion job of
--   features/ingestion/tasks.py.
-- - Ingestion/Classification: features/ingestion/classification.py, the choice of labels by a model.
-- - Pagination: features/documents/pagination.py and features/labels/pagination.py, with base64 written
--   out. Times, UUIDs and UTF-8 are a record of functions that read back what they write.
-- - Access/Credentials: features/auth/onboarding/credentials.py and the two functions of the migration
--   alembic/versions/0016_credential_tokens.py (beside app), over the tables of tokens and users.
-- - Ingestion/Columns, Ingestion/Routing, Retrieval/Relevance and Answering/Conversation: columns.py and
--   routing.py of features/ingestion, relevance.py of features/retrieval, and
--   features/generation/answering/conversation.py, with fractions in place of the ratios.
-- - Access/Roles: features/auth/access/roles.py over the rows of one tenant, and `permits` and the
--   catalogue of features/auth/access/permissions.py.
--
-- Every function is by structural recursion, or on a fuel that is the length of its input (to print a
-- number, the number). Times are
-- numbers of ticks. Paths are relative to backend/app.
--
-- Not modelled: the SQL of the searches and the row-level security, which the database decides; the
-- FastAPI routers and schemas; the adapters of the language models; the parsers of file formats, whose
-- libraries do the work; the task queue, whose jobs are a list; two workers on one document at a time,
-- locks and other concurrency; log lines.
pub mod Access
pub mod Answering
pub mod Common
pub mod Embeddings
pub mod Ingestion
pub mod Pagination
pub mod Retrieval
pub mod Throttle
