-- ===== src/Throttle/Window.antt =====
-- What the window promises: how many calls of one key are admitted in any stretch of its length.
use zenith_enterprise.Common.{
  ℕ, suc, ◌+◌, ◌-◌, ◌≤◌, ◌<◌, ◌≡◌, ◌≢◌, refl, Bool, true, List, [], ◌∷◌, ◌++◌, inl, inr, length,
  arith, Bool-cases, leb, ltb, ◌==◌, ==→eq, if◌then◌else◌, All, contains, length-append,
}
use zenith_enterprise.Throttle.Dict.{get, put, has, has-put_eq, get-put_self, get-put_ne}
use zenith_enterprise.Throttle.{Limiter, init, tracked_keys, admit, allow, evict, drop_stale}
use zenith_enterprise.Throttle.Bounds.{admit_tracked}

-- How many of the times lie within `window` of `now`.
abbrev pub count_within : ℕ → ℕ → List ℕ → ℕ
count_within window now [] = 0
count_within window now (t ∷ ts) =
    if leb (now - t) window then suc (count_within window now ts) else count_within window now ts

count_within-append :
    (w now : ℕ) (xs ys : List ℕ)
    → count_within w now (xs ++ ys) ≡ count_within w now xs + count_within w now ys
count_within-append w now [] ys = omega arith
count_within-append w now (x ∷ xs) ys = ground (arith, count_within-append w now xs ys)

count_within-le : (w now : ℕ) (xs : List ℕ) → count_within w now xs ≤ length xs
count_within-le w now [] = omega arith
count_within-le w now (x ∷ xs) = ground (arith, count_within-le w now xs)

-- What was dropped earlier is out of the window later.
count_within-drop_stale :
    (w t now : ℕ) (xs : List ℕ)
    → t ≤ now
    → count_within w now (drop_stale w t xs) ≡ count_within w now xs
unfolding drop_stale
count_within-drop_stale w t now [] h = refl
count_within-drop_stale w t now (x ∷ xs) h = ground (arith, count_within-drop_stale w t now xs h)

pub length-drop_stale : (w t : ℕ) (xs : List ℕ) → length (drop_stale w t xs) ≤ length xs
unfolding drop_stale
length-drop_stale w t [] = omega arith
length-drop_stale w t (x ∷ xs) = ground (arith, length-drop_stale w t xs)

-- The deque of the key that is asked for, and that of any other.
pub admit-get :
    (l : Limiter) (key now : ℕ)
    → let recent = drop_stale l.window now (get key l.hits) in
      (get key (admit l key now).0.hits
        ≡ (if ltb (length recent) l.limit then recent ++ now ∷ [] else recent))
      × ((admit l key now).1 ≡ ltb (length recent) l.limit)
unfolding admit
admit-get l key now =
    let recent = drop_stale l.window now (get key l.hits) in
    ground (
      arith,
      get-put_self key recent l.hits,
      get-put_self key (recent ++ now ∷ []) (put key recent l.hits),
    )

admit-get_ne :
    (l : Limiter) (j key now : ℕ) → j ≢ key → get j (admit l key now).0.hits ≡ get j l.hits
unfolding admit
admit-get_ne l j key now h =
    let recent = drop_stale l.window now (get key l.hits) in
    ground (
      arith,
      get-put_ne j key recent l.hits h,
      get-put_ne j key (recent ++ now ∷ []) (put key recent l.hits) h,
    )

admit_fields :
    (l : Limiter) (key now : ℕ)
    → ((admit l key now).0.limit ≡ l.limit)
      × ((admit l key now).0.window ≡ l.window)
      × ((admit l key now).0.max_keys ≡ l.max_keys)
unfolding admit
admit_fields l key now = ground arith

-- A list of calls, each a key and a time, oldest first; the result holds those admitted.
unfoldable pub run : Limiter → List (ℕ × ℕ) → Limiter × List (ℕ × ℕ)
run l [] = (l, [])
run l (c ∷ cs) =
    let (l', admitted) = allow l c.0 c.1 in
    let (last, rest) = run l' cs in (last, if admitted then c ∷ rest else rest)

abbrev pub times_of : ℕ → List (ℕ × ℕ) → List ℕ
times_of k [] = []
times_of k ((j, t) ∷ cs) = if k == j then t ∷ times_of k cs else times_of k cs

allow-eq-admit :
    (l : Limiter) (key t : ℕ) → tracked_keys l < l.max_keys → allow l key t ≡ admit l key t
unfolding allow evict
allow-eq-admit l key t h = ground arith

-- The times of `k` that one call adds to its admitted ones.
abbrev added : ℕ → ℕ → ℕ → Bool → List ℕ
added k key t admitted = if admitted then times_of k ((key, t) ∷ []) else []

admit_self_count :
    (l : Limiter) (key t now : ℕ)
    → t ≤ now
    → length (get key l.hits) ≤ l.limit
    → (length (get key (admit l key t).0.hits) ≤ l.limit)
      × (count_within l.window now (get key (admit l key t).0.hits)
          ≡ count_within l.window now (get key l.hits)
            + count_within l.window now (if (admit l key t).1 then t ∷ [] else []))
admit_self_count l key t now h k =
    let recent = drop_stale l.window t (get key l.hits) in
    ground (
      arith,
      admit-get l key t,
      length-drop_stale l.window t (get key l.hits),
      length-append recent (t ∷ []),
      count_within-append l.window now recent (t ∷ []),
      count_within-drop_stale l.window t now (get key l.hits) h,
    )

admit_count :
    (k : ℕ) (l : Limiter) (key t now : ℕ)
    → t ≤ now
    → length (get k l.hits) ≤ l.limit
    → (length (get k (admit l key t).0.hits) ≤ l.limit)
      × (count_within l.window now (get k (admit l key t).0.hits)
          ≡ count_within l.window now (get k l.hits)
            + count_within l.window now (added k key t (admit l key t).1))
admit_count k l key t now h b = elim (Bool-cases (k == key)) [
  | inl same ↦ ground (arith, ==→eq k key same, admit_self_count l key t now h)
  | inr other ↦ ground (arith, admit-get_ne l k key t)
]

-- How many different keys are called, apart from those seen before.
abbrev pub newcomers : List ℕ → List (ℕ × ℕ) → ℕ
newcomers seen [] = 0
newcomers seen ((j, t) ∷ cs) =
    let rest = newcomers seen cs in
    let others = newcomers (j ∷ seen) cs in if contains j seen then rest else suc others

-- The number of different keys that are called.
abbrev pub callers : List (ℕ × ℕ) → ℕ
callers cs = newcomers [] cs

-- The keys that the limiter tracks are those seen.
abbrev Knows : Limiter → List ℕ → Type 0
Knows l seen = (j : ℕ) → has j l.hits ≡ contains j seen

admit-has :
    (l : Limiter) (key now j : ℕ)
    → has j (admit l key now).0.hits ≡ (if j == key then true else has j l.hits)
unfolding admit
admit-has l key now j =
    let recent = drop_stale l.window now (get key l.hits) in
    ground (
      arith,
      has-put_eq j key recent l.hits,
      has-put_eq j key (recent ++ now ∷ []) (put key recent l.hits),
    )

Knows-seen :
    (l : Limiter) (key now : ℕ) (seen : List ℕ)
    → Knows l seen
    → contains key seen ≡ true
    → Knows (admit l key now).0 seen
Knows-seen l key now seen h k j = ground (arith, admit-has l key now j, h j, k, ==→eq j key)

Knows-new :
    (l : Limiter) (key now : ℕ) (seen : List ℕ)
    → Knows l seen
    → Knows (admit l key now).0 (key ∷ seen)
Knows-new l key now seen h j = ground (arith, admit-has l key now j, h j)

-- The calls that `run` admits count against the window from any later time.
run_count :
    (cs : List (ℕ × ℕ)) (l : Limiter) (k now w limit : ℕ) (seen : List ℕ)
    → l.window ≡ w
    → l.limit ≡ limit
    → length (get k l.hits) ≤ limit
    → Knows l seen
    → tracked_keys l + newcomers seen cs < l.max_keys
    → All (λ c. c.1 ≤ now) cs
    → count_within w now (get k l.hits) + count_within w now (times_of k (run l cs).1) ≤ limit
unfolding run
run_count [] l k now w limit seen ew el b known room h =
    omega (arith, count_within-le w now (get k l.hits))
run_count (c ∷ cs) l k now w limit seen ew el b known room h =
    let first = admit_count k l c.0 c.1 now h.0 in
    let rest = run_count cs (admit l c.0 c.1).0 k now w limit in
    rw (allow-eq-admit l c.0 c.1 (omega arith)) (elim (Bool-cases (contains c.0 seen)) [
      | inl old ↦ ground (
        arith,
        first,
        rest seen,
        Knows-seen l c.0 c.1 seen known old,
        known c.0,
        admit_fields l c.0 c.1,
        admit_tracked l c.0 c.1,
        h.1,
      )
      | inr new ↦ ground (
        arith,
        first,
        rest (c.0 ∷ seen),
        Knows-new l c.0 c.1 seen known,
        known c.0,
        admit_fields l c.0 c.1,
        admit_tracked l c.0 c.1,
        h.1,
      )
    ])

-- Of fewer callers than `max_keys`, however often each of them calls, in any order and at any times:
-- of the calls of one key that are admitted, at most `limit` lie within one window before any time
-- `now` that no call is later than.
pub admitted_within :
    (cs : List (ℕ × ℕ)) (limit window max_keys k now : ℕ)
    → callers cs < max_keys
    → All (λ c. c.1 ≤ now) cs
    → count_within window now (times_of k (run (init limit window max_keys) cs).1) ≤ limit
admitted_within cs limit window max_keys k now room h = omega (
  arith,
  run_count cs (init limit window max_keys) k now window limit [] refl refl (omega arith)
      (λ j. refl) (omega arith) h,
)
