-- ===== src/Throttle/Query/Charges.antt =====
-- What a query is charged: both windows or neither.
use zenith_enterprise.Common.{
  ℕ, ◌≡◌, ◌<◌, ◌⊎◌, inl, inr, true, false, List, [], ◌∷◌, ◌++◌, none, some, arith, Bool-cases,
  length, ltb,
}
use zenith_enterprise.Throttle.{would_allow, drop_stale}
use zenith_enterprise.Throttle.Dict.{get, IsDict}
use zenith_enterprise.Throttle.Promises.{would_allow_promises, would_allow-get}
use zenith_enterprise.Throttle.Query.{
  Limiters, Readings, Refusal, user_limited, tenant_limited, throttle_query,
}

-- The hits of a user and of a tenant that a limiter holds.
abbrev pub user_hits : Limiters → ℕ → List ℕ
user_hits ls k = get k ls.user_limiter.hits

abbrev pub tenant_hits : Limiters → ℕ → List ℕ
tenant_hits ls k = get k ls.tenant_limiter.hits

-- A query that passes is charged to both windows: each then ends with this request, and held fewer
-- than its limit before it. `throttle_query` ignores what `allow` returns, and here is why it may.
pub throttle_query_passes :
    (ls : Limiters) (at : Readings) (user tenant : ℕ)
    → IsDict ls.user_limiter.hits
    → IsDict ls.tenant_limiter.hits
    → (throttle_query ls at user tenant).1 ≡ none
    → ((before : List ℕ) × (user_hits (throttle_query ls at user tenant).0 user
          ≡ before ++ at.user_spent ∷ [])
        × (length before < ls.user_limiter.limit))
      × ((before : List ℕ) × (tenant_hits (throttle_query ls at user tenant).0 tenant
            ≡ before ++ at.tenant_spent ∷ [])
          × (length before < ls.tenant_limiter.limit))
unfolding throttle_query
throttle_query_passes ls at user tenant du dt h =
    let users = would_allow_promises ls.user_limiter user at.user_asked at.user_spent du in
    let tenants =
      would_allow_promises ls.tenant_limiter tenant at.tenant_asked at.tenant_spent dt in
    elim (Bool-cases (would_allow ls.user_limiter user at.user_asked).1) [
      | inr busy ↦ absurd (ground (arith, h, busy))
      | inl fits ↦ elim (Bool-cases (would_allow ls.tenant_limiter tenant at.tenant_asked).1) [
        | inr busy ↦ absurd (ground (arith, h, fits, busy))
        | inl room ↦ rw (fits, room) ((users fits).1, (tenants room).1)
      ]
    ]

-- A query that is refused is charged to neither window: no hit is added, and only those that have
-- left a window are dropped. The user's window is reported first: `tenant_limited` says that the
-- user's had room and the tenant's had none.
pub throttle_query_refuses :
    (ls : Limiters) (at : Readings) (user tenant : ℕ) {r : Refusal}
    → (throttle_query ls at user tenant).1 ≡ some r
    → let recent_user = drop_stale ls.user_limiter.window at.user_asked (user_hits ls user) in
      let recent_tenant =
        drop_stale ls.tenant_limiter.window at.tenant_asked (tenant_hits ls tenant) in
      (user_hits (throttle_query ls at user tenant).0 user ≡ recent_user)
      × (((r ≡ user_limited)
            × (ltb (length recent_user) ls.user_limiter.limit ≡ false)
            × (tenant_hits (throttle_query ls at user tenant).0 tenant ≡ tenant_hits ls tenant))
          ⊎ ((r ≡ tenant_limited)
              × (ltb (length recent_user) ls.user_limiter.limit ≡ true)
              × (ltb (length recent_tenant) ls.tenant_limiter.limit ≡ false)
              × (tenant_hits (throttle_query ls at user tenant).0 tenant ≡ recent_tenant)))
unfolding throttle_query
throttle_query_refuses ls at user tenant h = ground (
  arith,
  would_allow-get ls.user_limiter user at.user_asked,
  would_allow-get ls.tenant_limiter tenant at.tenant_asked,
)
