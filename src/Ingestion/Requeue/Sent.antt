-- ===== src/Ingestion/Requeue/Sent.antt =====
-- What is sent for the stranded documents, and that it reaches them.
use zenith_enterprise.Common.{
  ℕ, zero, suc, ◌≢◌, ==→eq, sym, ap, ◌∙◌, Bool-cases, inl, inr, none, contains, ◌≡◌, refl, true,
  false, Option, some, List, [], ◌∷◌, length, arith,
}
use zenith_enterprise.Common.Text.{is_empty}
use zenith_enterprise.Ingestion.Pipeline.Rows.{
  Status, pending, parsing, chunking, embedding, classifying, ready, failed, Store, Document, meets,
}
use zenith_enterprise.Ingestion.Pipeline.Held.{AreApart}
use zenith_enterprise.Ingestion.Pipeline.Runs.{HasEnded, run_ends}
use zenith_enterprise.Ingestion.Pipeline.{Services}
use zenith_enterprise.Ingestion.Requeue.{
  Stranded, index_of_status, same_status, has_status, is_requeuable, is_of, is_idle, is_stranded,
  find_stranded, Job, requeue, ingest_document,
}

-- A document that requeueing is for: of the tenant that is asked for, if any; of the status that is
-- asked for, or else of any but `ready`; without a job that waits or runs; and with a label.
abbrev pub IsOfTenant : Option ℕ → ℕ → Type 0
IsOfTenant none tenant = Unit {0}
IsOfTenant (some asked) tenant = tenant ≡ asked

abbrev pub IsOfStatus : Option Status → Status → Type 0
IsOfStatus none status = status ≢ ready
IsOfStatus (some asked) status = status ≡ asked

abbrev pub IsUnqueued : Option (List ℕ) → ℕ → Type 0
IsUnqueued none document = Unit {0}
IsUnqueued (some queued) document = contains document queued ≡ false

pub record IsDue (tenant : Option ℕ) (status : Option Status) (queue : Option (List ℕ))
    (d : Stranded) : Type 0 where
  pub of_tenant : IsOfTenant tenant d.tenant_id
  pub of_status : IsOfStatus status d.status
  pub unqueued : IsUnqueued queue d.document_id
  pub labelled : d.label_ids ≢ []

pub record Carries (d : Stranded) (job : Job) : Type 0 where
  pub tenant : job.tenant_id ≡ d.tenant_id
  pub document : job.document_id ≡ d.document_id
  pub labels : job.label_ids ≡ d.label_ids

-- The jobs are those of the documents that are due, one for each and in their order.
pub data Sends (tenant : Option ℕ) (status : Option Status) (queue : Option (List ℕ))
    : List Stranded → List Job → Type 0 where
  none_left : Sends tenant status queue [] []
  sent :
      {d : Stranded} {job : Job} {ds : List Stranded} {jobs : List Job}
      → IsDue tenant status queue d
      → Carries d job
      → Sends tenant status queue ds jobs
      → Sends tenant status queue (d ∷ ds) (job ∷ jobs)
  passed :
      {d : Stranded} {ds : List Stranded} {jobs : List Job}
      → ¬ IsDue tenant status queue d
      → Sends tenant status queue ds jobs
      → Sends tenant status queue (d ∷ ds) jobs

status_at : ℕ → Status
status_at zero = pending
status_at (suc zero) = parsing
status_at (suc (suc zero)) = chunking
status_at (suc (suc (suc zero))) = embedding
status_at (suc (suc (suc (suc zero)))) = classifying
status_at (suc (suc (suc (suc (suc zero))))) = ready
status_at (suc (suc (suc (suc (suc (suc n)))))) = failed

status_at-index : (s : Status) → status_at (index_of_status s) ≡ s
unfolding status_at
status_at-index pending = refl
status_at-index parsing = refl
status_at-index chunking = refl
status_at-index embedding = refl
status_at-index classifying = refl
status_at-index ready = refl
status_at-index failed = refl

same_status→eq : (a b : Status) → same_status a b ≡ true → a ≡ b
same_status→eq a b h =
    sym (status_at-index a)
    ∙ ap status_at (==→eq (index_of_status a) (index_of_status b) h)
    ∙ status_at-index b

has_status→IsOfStatus :
    (asked : Option Status) (s : Status) → has_status asked s ≡ true → IsOfStatus asked s
has_status→IsOfStatus none s h = λ e. ground (arith, h, ap is_requeuable e)
has_status→IsOfStatus (some a) s h = same_status→eq s a h

IsOfStatus→has_status :
    (asked : Option Status) (s : Status) → IsOfStatus asked s → has_status asked s ≡ true
IsOfStatus→has_status none pending h = refl
IsOfStatus→has_status none parsing h = refl
IsOfStatus→has_status none chunking h = refl
IsOfStatus→has_status none embedding h = refl
IsOfStatus→has_status none classifying h = refl
IsOfStatus→has_status none ready h = absurd (h refl)
IsOfStatus→has_status none failed h = refl
IsOfStatus→has_status (some a) s h = ground (arith, ap index_of_status h)

is_of→IsOfTenant : (asked : Option ℕ) (t : ℕ) → is_of asked t ≡ true → IsOfTenant asked t
is_of→IsOfTenant none t h = tt
is_of→IsOfTenant (some a) t h = ==→eq t a h

IsOfTenant→is_of : (asked : Option ℕ) (t : ℕ) → IsOfTenant asked t → is_of asked t ≡ true
IsOfTenant→is_of none t h = refl
IsOfTenant→is_of (some a) t h = ground (arith, h)

is_idle→IsUnqueued : (queue : Option (List ℕ)) (d : ℕ) → is_idle queue d ≡ true → IsUnqueued queue d
is_idle→IsUnqueued none d h = tt
is_idle→IsUnqueued (some q) d h = ground (arith, h)

IsUnqueued→is_idle : (queue : Option (List ℕ)) (d : ℕ) → IsUnqueued queue d → is_idle queue d ≡ true
IsUnqueued→is_idle none d h = refl
IsUnqueued→is_idle (some q) d h = ground (arith, h)

full→ne : (xs : List ℕ) → is_empty xs ≡ false → xs ≢ []
full→ne xs h = λ e. ground (arith, h, ap is_empty e)

ne→full : (xs : List ℕ) → xs ≢ [] → is_empty xs ≡ false
ne→full [] h = absurd (h refl)
ne→full (x ∷ xs) h = refl

module _ (tenant : Option ℕ) (status : Option Status) (queue : Option (List ℕ)) where
  stranded→IsDue :
      (d : Stranded)
      → is_stranded tenant status queue d ≡ true
      → is_empty d.label_ids ≡ false
      → IsDue tenant status queue d
  stranded→IsDue d h k = record {
    of_tenant = is_of→IsOfTenant tenant d.tenant_id (ground (arith, h));
    of_status = has_status→IsOfStatus status d.status (ground (arith, h));
    unqueued = is_idle→IsUnqueued queue d.document_id (ground (arith, h));
    labelled = full→ne d.label_ids k;
  }

  IsDue→stranded :
      (d : Stranded) → IsDue tenant status queue d → is_stranded tenant status queue d ≡ true
  IsDue→stranded d due = ground (
    arith,
    IsOfTenant→is_of tenant d.tenant_id due.of_tenant,
    IsOfStatus→has_status status d.status due.of_status,
    IsUnqueued→is_idle queue d.document_id due.unqueued,
  )

  find_stranded-Sends :
      (documents : List Stranded)
      → Sends tenant status queue documents
          (requeue (find_stranded tenant status queue documents)).0
  unfolding requeue
  find_stranded-Sends [] = none_left
  find_stranded-Sends (d ∷ ds) = elim (Bool-cases (is_stranded tenant status queue d)) [
    | inr other ↦
        rw other
          (passed (λ due. ground (arith, other, IsDue→stranded d due)) (find_stranded-Sends ds))
    | inl stranded ↦ elim (Bool-cases (is_empty d.label_ids)) [
      | inl bare ↦
          rw (stranded, bare)
            (passed (λ due. ground (arith, bare, ne→full d.label_ids due.labelled))
              (find_stranded-Sends ds))
      | inr full ↦
          rw (stranded, full)
            (sent (stranded→IsDue d stranded full)
              (record { tenant = refl; document = refl; labels = refl }) (find_stranded-Sends ds))
    ]
  ]

requeue_counts : (documents : List Stranded) → (requeue documents).1 ≡ length (requeue documents).0
unfolding requeue
requeue_counts [] = refl
requeue_counts (d ∷ ds) = ground (arith, requeue_counts ds)

-- Requeueing sends a job for exactly the documents that are due, one for each and in their order: the
-- documents of the tenant that is asked for, if one is; of the status that is asked for, or else of
-- any but `ready`; with no job waiting or running; and with a label. Each job carries the document's
-- tenant, its identifier and the labels that it has now. The number of the jobs is answered.
pub requeue-Sends :
    (tenant : Option ℕ) (status : Option Status) (queue : Option (List ℕ))
    (documents : List Stranded)
    → Sends tenant status queue documents (requeue (find_stranded tenant status queue documents)).0
      × ((requeue (find_stranded tenant status queue documents)).1
          ≡ length (requeue (find_stranded tenant status queue documents)).0)
requeue-Sends tenant status queue documents = (
  find_stranded-Sends tenant status queue documents,
  requeue_counts (find_stranded tenant status queue documents),
)

meets_itself : (xs : List ℕ) → is_empty xs ≡ false → meets xs xs ≡ true
meets_itself [] h = absurd (ground (arith, h))
meets_itself (x ∷ xs) h = ground arith

-- A job with the labels that its document carries reaches it: it is never answered `unknown`, and
-- ends as a run ends over a document that the context sees. It carries a label, and the two reserved
-- labels are different ones.
pub ingest_document_ends :
    {V : Type 0} (sv : Services V) (job : Job) (s : Store V) (d : Document)
    → s.document ≡ some d
    → d.label_ids ≡ job.label_ids
    → is_empty job.label_ids ≡ false
    → AreApart sv.classifier
    → HasEnded sv s d (ingest_document sv job s).0 (ingest_document sv job s).1
unfolding ingest_document
ingest_document_ends sv job s d there same full apart =
    run_ends sv job.label_ids s d there
      (ground (arith, full, same, meets_itself job.label_ids full)) apart
