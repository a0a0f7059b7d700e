-- ===== src/Answering/Citations/Agreement.antt =====
-- The streaming filter and `bind` read the same markers.
use zenith_enterprise.Common.{ℕ, ◌≡◌, List, contains}
use zenith_enterprise.Answering.Citations.{in_range}

-- The numbers of the passages that the model was sent, as the stream is given them: `range(1, k + 1)`.
abbrev pub Covers : ℕ → List ℕ → Type 0
Covers k valid = (n : ℕ) → contains n valid ≡ in_range k n
