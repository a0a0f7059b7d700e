-- ===== src/Pagination/Cursors/Bars.antt =====
-- A text is cut where it was joined.
use zenith_enterprise.Common.{ℕ, ◌≡◌, refl, false, [], ◌∷◌, ◌++◌, contains, contains-append, arith}
use zenith_enterprise.Common.Text.{Text}
use zenith_enterprise.Pagination.Cursors.{partition, rpartition}

pub partition-append :
    (sep : ℕ) (s t : Text) → contains sep s ≡ false → partition sep (s ++ sep ∷ t) ≡ (s, t)
partition-append sep [] t h = ground arith
partition-append sep (c ∷ s) t h = ground (arith, h, partition-append sep s t)

rpartition_none : (sep : ℕ) (t : Text) → contains sep t ≡ false → rpartition sep t ≡ ([], t)
rpartition_none sep [] h = refl
rpartition_none sep (c ∷ t) h = ground (arith, h, rpartition_none sep t)

pub rpartition-append :
    (sep : ℕ) (s t : Text) → contains sep t ≡ false → rpartition sep (s ++ sep ∷ t) ≡ (s, t)
rpartition-append sep [] t h = ground (arith, h)
rpartition-append sep (c ∷ s) t h =
    ground (arith, h, rpartition-append sep s t, contains-append sep s (sep ∷ t))
