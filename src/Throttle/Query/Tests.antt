-- ===== src/Throttle/Query/Tests.antt =====
-- A query that passes, one that a busy tenant stops, and what the refusal costs.
use zenith_enterprise.Common.{◌≡◌, ◌⊎◌, refl, true, false, [], ◌∷◌, ltb}
use zenith_enterprise.Throttle.{drop_stale, would_allow}
use zenith_enterprise.Throttle.Query.{
  Limiters, Readings, throttle_query, user_limited, tenant_limited, Refusal,
}
use zenith_enterprise.Throttle.Query.Charges.{user_hits, tenant_hits, throttle_query_refuses}

abbrev two_limits : Limiters
two_limits = record {
  user_limiter = record { limit = 2; window = 60; max_keys = 9; hits = (1, 5 ∷ 80 ∷ []) ∷ [] };
  tenant_limiter = record {
    limit = 3;
    window = 60;
    max_keys = 9;
    hits = (4, 70 ∷ 80 ∷ 90 ∷ []) ∷ [];
  };
}

abbrev readings : Readings
readings = record { user_asked = 100; tenant_asked = 101; user_spent = 102; tenant_spent = 103 }

abbrev later : Readings
later = record { user_asked = 131; tenant_asked = 131; user_spent = 132; tenant_spent = 132 }

abbrev refused : Refusal
refused = tenant_limited

throttle_query_refuses_example :
    (user_hits (throttle_query two_limits readings 1 4).0 1 ≡ 80 ∷ [])
    × (((refused ≡ user_limited)
          × (ltb 1 2 ≡ false)
          × (tenant_hits (throttle_query two_limits readings 1 4).0 4 ≡ 70 ∷ 80 ∷ 90 ∷ []))
        ⊎ ((refused ≡ tenant_limited)
            × (ltb 1 2 ≡ true)
            × (ltb 3 3 ≡ false)
            × (tenant_hits (throttle_query two_limits readings 1 4).0 4 ≡ 70 ∷ 80 ∷ 90 ∷ [])))
unfolding throttle_query would_allow drop_stale
throttle_query_refuses_example = throttle_query_refuses two_limits readings 1 4 refl
