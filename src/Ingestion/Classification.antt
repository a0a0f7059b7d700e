-- ===== src/Ingestion/Classification.antt =====
-- Where a document belongs, by a model's guess: backend/app/features/ingestion/classification.py.
-- What the code asks of others is a record: the reach of a user (`UserRepository.label_ids`), the
-- tenant's labels in the order of their names, and the provider of generation.
mod Reading
pub mod Filed
mod Tests
use zenith_enterprise.Common.{
  ℕ, zero, suc, ◌+◌, Bool, true, false, Option, none, some, List, [], ◌∷◌, ◌++◌, ltb, leb,
  if◌then◌else◌, ◌&&◌, ◌||◌, not, length, map, take, keep_if, get_elem?, contains,
}
use zenith_enterprise.Common.Text.{
  Text, codes, strip, upper, starts_with, is_digit, is_empty, int, show, join,
}

abbrev pub excerpt_characters : ℕ
excerpt_characters = 4000

abbrev pub max_labels : ℕ
max_labels = 60

abbrev pub max_chosen : ℕ
max_chosen = 3

-- `SYSTEM`
pub instructions : Text
instructions =
    codes "You file documents into an existing set of folders.\n"
    ++ (codes "\n"
        ++ (codes
              "You are given a numbered list of folders and the opening of a document. Reply with the\n"
            ++ (codes
                  "numbers of the folders it belongs in, separated by commas — for example: 2, 5\n"
                ++ (codes "\n"
                    ++ (codes "Rules:\n"
                        ++ (codes
                              "1. Only use numbers from the list. Never invent a folder or suggest a new one.\n"
                            ++ (codes "2. Choose at most three, and only ones that clearly fit.\n"
                                ++ (codes "3. If none of them fit, reply with exactly: NONE\n"
                                    ++ (codes
                                        "4. Reply with the numbers and nothing else. No explanation, no folder names.")))))))))

abbrev listed : ℕ → List Text → List Text
listed number [] = []
listed number (name ∷ names) = (91 ∷ show number ++ (93 ∷ 32 ∷ name)) ∷ listed (suc number) names

-- The prompt: the folders by number, and the excerpt.
pub build : List Text → Text → Text
build names excerpt =
    codes "Folders:\n\n"
    ++ (join (10 ∷ []) (listed 1 names)
        ++ (codes "\n\nDocument:\n\"\"\"\n" ++ (excerpt ++ codes "\n\"\"\"\n\nNumbers:")))

-- `_NUMBERS.findall`, with the run of digits that is being read
unfoldable pub find_numbers : Text → Text → List ℕ
find_numbers digits [] = if is_empty digits then [] else int digits ∷ []
find_numbers digits (c ∷ text) =
    let longer = find_numbers (digits ++ c ∷ []) text in
    let rest = find_numbers [] text in
    if is_digit c then longer else if is_empty digits then rest else int digits ∷ rest

-- The loop of `read`.
abbrev pub choose : ℕ → List ℕ → List ℕ → List ℕ
choose count chosen [] = chosen
choose count chosen (n ∷ ns) =
    choose count
      (if leb 1 n && leb n count && not (contains n chosen) then chosen ++ n ∷ [] else chosen) ns

unfoldable pub read : Text → ℕ → List ℕ
read reply count =
    if starts_with (codes "NONE") (upper (strip reply))
    then []
    else take max_chosen (choose count [] (find_numbers [] reply))

-- An exception: `GenerationUnavailableError` with its message, or any other.
pub data Failure : Type 0 where
  generation_unavailable : Text → Failure
  other : Failure

abbrev pub repeatable : Failure → Option Text
repeatable (generation_unavailable message) = some message
repeatable other = none

pub data Outcome : Type 0 where
  chose declined unavailable no_folders too_many_folders failed : Outcome

pub record Filing : Type 0 where
  pub labels : List ℕ
  pub outcome : Outcome
  pub detail : Option Text

pub record Label : Type 0 where
  pub id : ℕ
  pub name : Text
  pub is_default : Bool
  pub is_quarantine : Bool

pub data Reply : Type 0 where
  completed : Text → Reply
  broke : Failure → Reply

pub data Reach : Type 0 where
  reaches : List ℕ → Reach
  unreadable : Failure → Reach

pub record World : Type 0 where
  pub label_ids : ℕ → Reach
  pub access_labels : List Label
  -- `complete` of the provider, where there is one
  pub provider : Option (Text → Text → Reply)

-- `Offer`: the folders, or why there are none.
pub data Offer : Type 0 where
  offer : List Label → Offer
  no_offer : Outcome → Offer
  offer_raised : Failure → Offer

-- `Refused`, `Ready`, or an exception.
pub data Availability : Type 0 where
  refused : Outcome → Availability
  ready : List Label → (Text → Text → Reply) → Availability
  raised : Failure → Availability

abbrev pub is_offerable : List ℕ → Label → Bool
is_offerable reachable l = contains l.id reachable && not l.is_quarantine && not l.is_default

-- `_candidates`, from the reach of the user.
abbrev pub candidates : List Label → Reach → Offer
candidates access_labels (unreadable e) = offer_raised e
candidates access_labels (reaches reachable) =
    let folders = keep_if (is_offerable reachable) access_labels in
    if is_empty reachable
    then no_offer no_folders
    else if ltb max_labels (length reachable)
    then no_offer too_many_folders
    else if is_empty folders
    then no_offer no_folders
    else offer folders

abbrev pub available : Offer → Option (Text → Text → Reply) → Availability
available (offer_raised e) provider = raised e
available (no_offer why) provider = refused why
available (offer folders) none = refused unavailable
available (offer folders) (some complete) = ready folders complete

unfoldable pub availability : World → ℕ → Availability
availability w user = available (candidates w.access_labels (w.label_ids user)) w.provider

abbrev pub unfiled : Outcome → Option Text → Filing
unfiled why detail = record { labels = []; outcome = why; detail = detail }

abbrev pub add_label : Option Label → List ℕ → List ℕ
add_label none ids = ids
add_label (some l) ids = l.id ∷ ids

-- `[candidates[number - 1][0] for number in chosen]`: the numbers are those of folders.
abbrev pub applied : List Label → List ℕ → List ℕ
applied folders [] = []
applied folders (zero ∷ ns) = applied folders ns
applied folders (suc i ∷ ns) = add_label (get_elem? folders i) (applied folders ns)

-- The part of `file` below the model's answer.
abbrev pub filed : List Label → Reply → Filing
filed folders (broke e) = unfiled failed (repeatable e)
filed folders (completed reply) =
    let labels = applied folders (read reply (length folders)) in
    record { labels = labels; outcome = if is_empty labels then declined else chose; detail = none }

-- The part of `file` below its question of `availability`.
abbrev pub file_from : Availability → Text → Filing
file_from (raised e) excerpt = unfiled failed (repeatable e)
file_from (refused why) excerpt = unfiled why none
file_from (ready folders complete) excerpt =
    filed folders
      (complete instructions (build (map (λ l. l.name) folders) (take excerpt_characters excerpt)))

unfoldable pub file : World → Option ℕ → Text → Filing
file w none excerpt = unfiled no_folders none
file w (some user) excerpt = file_from (availability w user) excerpt

-- `suggest`: the same decision, for a file that is no document yet.
abbrev pub suggest : World → ℕ → Text → Filing
suggest w user excerpt = file w (some user) excerpt
