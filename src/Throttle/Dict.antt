-- ===== src/Throttle/Dict.antt =====
-- A Python dict of deques, as the limiter keeps it: keys are compared only, so they are numbers.
use zenith_enterprise.Common.{
  ℕ, suc, ◌≤◌, ◌≡◌, refl, Bool, true, false, List, [], ◌∷◌, ◌==◌, if◌then◌else◌, length, arith,
  ==→eq, keep_if, ◌⊎◌, inl, ◌≢◌,
}

abbrev pub Entries : Type 0
Entries = List (ℕ × List ℕ)

-- `hits.setdefault(key, deque())`, the deque that it returns.
abbrev pub get : ℕ → Entries → List ℕ
get k [] = []
get k ((j, v) ∷ d) = if k == j then v else get k d

abbrev pub has : ℕ → Entries → Bool
has k [] = false
has k ((j, v) ∷ d) = if k == j then true else has k d

-- The entry of `k` holds `v`; a new key comes last.
abbrev pub put : ℕ → List ℕ → Entries → Entries
put k v [] = (k, v) ∷ []
put k v ((j, w) ∷ d) = if k == j then (j, v) ∷ d else (j, w) ∷ put k v d

pub get-put_self : (k : ℕ) (v : List ℕ) (d : Entries) → get k (put k v d) ≡ v
get-put_self k v [] = ground arith
get-put_self k v (e ∷ d) = ground (arith, get-put_self k v d)

pub get-put_ne : (j k : ℕ) (v : List ℕ) (d : Entries) → j ≢ k → get j (put k v d) ≡ get j d
get-put_ne j k v [] h = ground arith
get-put_ne j k v (e ∷ d) h = ground (arith, get-put_ne j k v d h)

-- A write adds one entry at most, and one exactly when the key is new.
pub length-put :
    (k : ℕ) (v : List ℕ) (d : Entries)
    → length (put k v d) ≡ (if has k d then length d else suc (length d))
length-put k v [] = refl
length-put k v (e ∷ d) = ground (arith, length-put k v d)

has-put : (k : ℕ) (v : List ℕ) (d : Entries) → has k (put k v d) ≡ true
has-put k v [] = ground arith
has-put k v (e ∷ d) = ground (arith, has-put k v d)

length-put-le : (k : ℕ) (v : List ℕ) (d : Entries) → length (put k v d) ≤ suc (length d)
length-put-le k v d = ground (arith, length-put k v d)

-- No key has two entries, as in any dict.
abbrev pub IsDict : Entries → Type 0
IsDict [] = Unit {0}
IsDict ((k, v) ∷ d) = (has k d ≡ false) × IsDict d

pub has-put_eq :
    (j k : ℕ) (v : List ℕ) (d : Entries) → has j (put k v d) ≡ (if j == k then true else has j d)
has-put_eq j k v [] = refl
has-put_eq j k v (e ∷ d) = ground (arith, has-put_eq j k v d)

pub put-IsDict : (k : ℕ) (v : List ℕ) (d : Entries) → IsDict d → IsDict (put k v d)
put-IsDict k v [] h = (refl, tt)
put-IsDict k v (e ∷ d) h = ground (arith, put-IsDict k v d h.1, has-put_eq e.0 k v d)

get_absent : (k : ℕ) (d : Entries) → has k d ≡ false → get k d ≡ []
get_absent k [] h = refl
get_absent k (e ∷ d) h = ground (arith, get_absent k d)

module _ (p : ℕ × List ℕ → Bool) where
  has-keep_if : (k : ℕ) (d : Entries) → has k d ≡ false → has k (keep_if p d) ≡ false
  has-keep_if k [] h = refl
  has-keep_if k (e ∷ d) h = ground (arith, has-keep_if k d)

  pub keep_if-IsDict : (d : Entries) → IsDict d → IsDict (keep_if p d)
  keep_if-IsDict [] h = tt
  keep_if-IsDict (e ∷ d) h = ground (arith, keep_if-IsDict d h.1, has-keep_if e.0 d h.0)

  -- Deleting some entries leaves a key its deque or nothing.
  pub get-keep_if :
      (k : ℕ) (d : Entries)
      → IsDict d
      → (get k (keep_if p d) ≡ get k d) ⊎ (get k (keep_if p d) ≡ [])
  get-keep_if k [] h = inl refl
  get-keep_if k (e ∷ d) h =
      ground (
        arith,
        get-keep_if k d h.1,
        has-keep_if e.0 d h.0,
        get_absent e.0 (keep_if p d),
        ==→eq k e.0,
      )
