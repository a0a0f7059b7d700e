-- ===== src/Ingestion/Classification/Filed.antt =====
-- What automatic filing can do to a document.
use zenith_enterprise.Common.{
  ℕ, zero, suc, ◌≤◌, ◌≡◌, ◌≢◌, ◌↔◌, refl, Bool, true, false, Option, none, some, List, [], ◌∷◌, ltb,
  length, take, map, keep_if, get_elem?, contains, subst, sym, ap, arith, Bool-cases, Option-cases,
  inl, inr, All,
}
use zenith_enterprise.Common.Text.{Text, is_empty}
use zenith_enterprise.Ingestion.Classification.{
  Label, World, Reach, reaches, unreadable, offer, Availability, refused, ready, raised, Outcome,
  chose, declined, unavailable, no_folders, too_many_folders, failed, Filing, Reply, completed,
  broke, is_offerable, candidates, available, availability, file_from, applied, filed, file, read,
  max_chosen, max_labels, instructions, build, excerpt_characters, unfiled, repeatable,
}
use zenith_enterprise.Ingestion.Classification.Reading.{read-All}

-- A row of the tenant's labels that the user reaches, and that is neither of the two reserved ones.
abbrev pub MayFile : World → ℕ → ℕ → Type 0
MayFile w user id =
    (reachable : List ℕ) × (i : ℕ) × (l : Label) × (w.label_ids user ≡ reaches reachable)
    × (get_elem? w.access_labels i ≡ some l)
    × (l.id ≡ id)
    × (contains id reachable ≡ true)
    × (l.is_quarantine ≡ false)
    × (l.is_default ≡ false)

-- A label that is on offer: one of the rows, and offerable.
abbrev Offered : List Label → List ℕ → Label → Type 0
Offered rows reachable l = (i : ℕ) × (get_elem? rows i ≡ some l) × (is_offerable reachable l ≡ true)

Offered-later :
    (row : Label) (rows : List Label) (reachable : List ℕ) (ls : List Label)
    → All (Offered rows reachable) ls
    → All (Offered (row ∷ rows) reachable) ls
Offered-later row rows reachable [] h = tt
Offered-later row rows reachable (l ∷ ls) h =
    let (i, at, offerable) = h.0 in
    ((suc i, at, offerable), Offered-later row rows reachable ls h.1)

All-Offered :
    (reachable : List ℕ) (rows : List Label)
    → All (Offered rows reachable) (keep_if (is_offerable reachable) rows)
All-Offered reachable [] = tt
All-Offered reachable (l ∷ ls) =
    let later = Offered-later l ls reachable _ (All-Offered reachable ls) in
    elim (Bool-cases (is_offerable reachable l)) [
      | inl e ↦ rw e ((zero, refl, e), later)
      | inr e ↦ rw e later
    ]

All-get_elem? :
    (P : Label → Type 0) (ls : List Label) (i : ℕ) (l : Label)
    → All P ls
    → get_elem? ls i ≡ some l
    → P l
All-get_elem? P [] i l h e = absurd (ground (arith, e))
All-get_elem? P (k ∷ ls) zero l h e = subst P (ground (arith, e)) h.0
All-get_elem? P (k ∷ ls) (suc i) l h e = All-get_elem? P ls i l h.1 e

applied-All :
    (P : Label → Type 0) (Q : ℕ → Type 0) (folders : List Label) (ns : List ℕ)
    → ((l : Label) → P l → Q l.id)
    → All P folders
    → All Q (applied folders ns)
applied-All P Q folders [] step h = tt
applied-All P Q folders (zero ∷ ns) step h = applied-All P Q folders ns step h
applied-All P Q folders (suc i ∷ ns) step h = elim (Option-cases (get_elem? folders i)) [
  | inl e ↦ rw e (applied-All P Q folders ns step h)
  | inr (l, e) ↦ rw e (step l (All-get_elem? P folders i l h e), applied-All P Q folders ns step h)
]

length-applied : (folders : List Label) (ns : List ℕ) → length (applied folders ns) ≤ length ns
length-applied folders [] = omega arith
length-applied folders (zero ∷ ns) = omega (arith, length-applied folders ns)
length-applied folders (suc i ∷ ns) = ground (arith, length-applied folders ns)

-- What a filing keeps to.
pub record IsModest (w : World) (user : ℕ) (f : Filing) : Type 0 where
  pub within : All (MayFile w user) f.labels
  pub few : length f.labels ≤ max_chosen
  pub told : (is_empty f.labels ≡ false) ↔ (f.outcome ≡ chose)

filed-IsModest :
    (w : World) (user : ℕ) (reachable : List ℕ) (folders : List Label) (reply : Reply)
    → w.label_ids user ≡ reaches reachable
    → All (Offered w.access_labels reachable) folders
    → IsModest w user (filed folders reply)
filed-IsModest w user reachable folders (broke e) r h = record {
  within = tt;
  few = omega arith;
  told = ((λ k. absurd (ground (arith, k))), (λ k. absurd (ground (arith, k))));
}
filed-IsModest w user reachable folders (completed reply) r h =
    let numbers = read reply (length folders) in
    record {
      within =
          applied-All (Offered w.access_labels reachable) (MayFile w user) folders numbers
            (λ l offer.
              let (i, at, o) = offer in
              (
                reachable,
                i,
                l,
                r,
                at,
                refl,
                ground (arith, o),
                ground (arith, o),
                ground (arith, o),
              ))
            h;
      few = omega (arith, length-applied folders numbers, (read-All reply (length folders)).1);
      told = ((λ k. rw k refl), (λ k. ground (arith, k)));
    }

unfiled-IsModest :
    (w : World) (user : ℕ) (why : Outcome) (detail : Option Text)
    → why ≢ chose
    → IsModest w user (unfiled why detail)
unfiled-IsModest w user why detail h = record {
  within = tt;
  few = omega arith;
  told = ((λ k. absurd (ground (arith, k))), (λ k. absurd (h k)));
}

-- What `availability` may answer.
abbrev Settles : List Label → Reach → Availability → Type 0
Settles labels r (raised e) = Unit {0}
Settles labels r (refused why) = why ≢ chose
Settles labels r (ready folders complete) =
    (reachable : List ℕ) × (r ≡ reaches reachable)
    × (folders ≡ keep_if (is_offerable reachable) labels)

available-Settles :
    (labels : List Label) (r : Reach) (provider : Option (Text → Text → Reply))
    → Settles labels r (available (candidates labels r) provider)
available-Settles labels (unreadable e) provider = tt
available-Settles labels (reaches reachable) provider =
    let folders = keep_if (is_offerable reachable) labels in
    elim (Bool-cases (is_empty reachable)) [
      | inl bare ↦ rw bare (λ e. cc)
      | inr held ↦ elim (Bool-cases (ltb max_labels (length reachable))) [
        | inl many ↦ rw (held, many) (λ e. cc)
        | inr few ↦ elim (Bool-cases (is_empty folders)) [
          | inl bare ↦ rw (held, few, bare) (λ e. cc)
          | inr full ↦ rw (held, few, full) (offered provider)
        ]
      ]
    ]
  where
    offered :
        (q : Option (Text → Text → Reply))
        → Settles labels
            (reaches reachable)
            (available (offer (keep_if (is_offerable reachable) labels)) q)
    offered none = λ e. cc
    offered (some complete) = (reachable, refl, refl)

file_from-IsModest :
    (w : World) (user : ℕ) (a : Availability) (excerpt : Text)
    → Settles w.access_labels (w.label_ids user) a
    → IsModest w user (file_from a excerpt)
file_from-IsModest w user (raised e) excerpt s =
    unfiled-IsModest w user failed (repeatable e) (λ e. cc)
file_from-IsModest w user (refused why) excerpt s = unfiled-IsModest w user why none s
file_from-IsModest w user (ready folders complete) excerpt (reachable, r, f) =
    filed-IsModest w user reachable folders _ r (
      subst (All (Offered w.access_labels reachable)) (sym f)
        (All-Offered reachable w.access_labels))

-- Whatever the model answers, a document is filed under at most three labels, each of which is the
-- label of a row of the tenant that the uploader reaches and that is marked neither as the quarantine
-- nor as the default; and the outcome is `chose` exactly when there is one.
pub file-IsModest :
    (w : World) (user : ℕ) (excerpt : Text) → IsModest w user (file w (some user) excerpt)
unfolding file availability
file-IsModest w user excerpt =
    file_from-IsModest w user (availability w user) excerpt
      (available-Settles w.access_labels (w.label_ids user) w.provider)

-- The endings that are settled before the model is asked.
abbrev pub is_early : Outcome → Bool
is_early chose = false
is_early declined = false
is_early unavailable = true
is_early no_folders = true
is_early too_many_folders = true
is_early failed = false

filed_late : (folders : List Label) (reply : Reply) → is_early (filed folders reply).outcome ≡ false
filed_late folders (broke e) = refl
filed_late folders (completed reply) = ground arith

file_from_foretold :
    (a : Availability) (excerpt : Text) (why : Outcome)
    → is_early why ≡ true
    → (a ≡ refused why) ↔ (file_from a excerpt ≡ unfiled why none)
file_from_foretold (raised e) excerpt why early =
    ((λ h. ground (arith, h)), (λ h. ground (arith, h, early)))
file_from_foretold (refused y) excerpt why early =
    ((λ h. ground (arith, h)), (λ h. ground (arith, h)))
file_from_foretold (ready folders complete) excerpt why early = (
  (λ h. ground (arith, h)),
  (λ h. absurd (
      ground (
        arith,
        ap (λ f. is_early f.outcome) h,
        early,
        filed_late folders (
            complete instructions
              (build (map (λ l. l.name) folders) (take excerpt_characters excerpt))),
      ))),
)

-- The question that can be asked in advance has the answer of the call: `availability` refuses for a
-- reason exactly when `file` ends with it, whatever the excerpt, and files nothing.
pub availability_foretells :
    (w : World) (user : ℕ) (excerpt : Text) (why : Outcome)
    → is_early why ≡ true
    → (availability w user ≡ refused why) ↔ (file w (some user) excerpt ≡ unfiled why none)
unfolding file
availability_foretells w user excerpt why early =
    file_from_foretold (availability w user) excerpt why early
