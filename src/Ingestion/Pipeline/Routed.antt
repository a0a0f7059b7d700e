-- ===== src/Ingestion/Pipeline/Routed.antt =====
-- What routing leaves out of a file is named.
use zenith_enterprise.Common.{
  ℕ, ◌≡◌, inl, inr, refl, sym, ap, ◌∙◌, Bool, true, false, List, [], ◌∷◌, ◌++◌, append_assoc,
  append-nil, if◌then◌else◌, not, map, keep_if, Bool-cases,
}
use zenith_enterprise.Common.Text.{Text}
use zenith_enterprise.Ingestion.Chunker.Boxes.{ParsedPage}
use zenith_enterprise.Ingestion.Routing.{Route, Decision, decide, layout, fast, unreadable}
use zenith_enterprise.Ingestion.Pipeline.{
  Routing, route_as, route_one, route_from, route, routed_page,
}

abbrev pub is_unreadable : Route → Bool
is_unreadable unreadable = true
is_unreadable layout = false
is_unreadable fast = false

-- What a page is to be searched by: its number and its text.
abbrev pub contents : ParsedPage → ℕ × Text
contents page = (page.page_num, page.text)

abbrev pub is_left_out : Bool → Bool → ParsedPage → Bool
is_left_out implemented capable page = is_unreadable (decide implemented page capable).route

map_append : {A B : Type 0} (f : A → B) (xs ys : List A) → map f (xs ++ ys) ≡ map f xs ++ map f ys
map_append f [] ys = refl
map_append f (x ∷ xs) ys = ap (λ zs. f x ∷ zs) (map_append f xs ys)

route_as-split :
    (k : Route) (d : Decision) (page : ParsedPage) (r : Routing)
    → (map contents (route_as k d page r).pages
        ≡ map contents r.pages ++ (if is_unreadable k then [] else contents page ∷ []))
      × ((route_as k d page r).omitted
          ≡ r.omitted ++ (if is_unreadable k then page.page_num ∷ [] else []))
route_as-split unreadable d page r = (sym (append-nil _), refl)
route_as-split layout d page r =
    (map_append contents r.pages (routed_page d page ∷ []), sym (append-nil _))
route_as-split fast d page r =
    (map_append contents r.pages (routed_page d page ∷ []), sym (append-nil _))

route_from-split :
    (implemented capable : Bool) (r : Routing) (pages : List ParsedPage)
    → (map contents (route_from implemented capable r pages).pages
        ≡ map contents r.pages
          ++ map contents (keep_if (λ p. not (is_left_out implemented capable p)) pages))
      × ((route_from implemented capable r pages).omitted
          ≡ r.omitted ++ map (λ p. p.page_num) (keep_if (is_left_out implemented capable) pages))
route_from-split implemented capable r [] = (sym (append-nil _), sym (append-nil _))
route_from-split implemented capable r (page ∷ pages) =
    let d = decide implemented page capable in
    let one = route_as-split d.route d page r in
    let rest = route_from-split implemented capable (route_one d page r) pages in
    elim (Bool-cases (is_unreadable d.route)) [
      | inl e ↦ (
        rest.0 ∙ rw (one.0, e, append-nil (map contents r.pages)) refl,
        rest.1 ∙ rw (one.1, e) (append_assoc r.omitted _ _),
      )
      | inr e ↦ (
        rest.0 ∙ rw (one.0, e) (append_assoc (map contents r.pages) _ _),
        rest.1 ∙ rw (one.1, e, append-nil r.omitted) refl,
      )
    ]

-- Routing keeps the pages that some parser reads, each with its number and its text and in their
-- order, and lists the numbers of exactly the others, in theirs: no page is dropped in silence.
pub route_partitions :
    (implemented capable : Bool) (pages : List ParsedPage)
    → (map contents (route implemented capable pages).pages
        ≡ map contents (keep_if (λ p. not (is_left_out implemented capable p)) pages))
      × ((route implemented capable pages).omitted
          ≡ map (λ p. p.page_num) (keep_if (is_left_out implemented capable) pages))
route_partitions implemented capable pages = route_from-split implemented capable _ pages
