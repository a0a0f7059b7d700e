-- ===== src/Throttle/Query.antt =====
-- `throttle_query` of backend/app/features/query/throttle.py: a window for each user, and one for
-- each tenant. Every call of a limiter reads the clock anew.
mod Charges
mod Tests
use zenith_enterprise.Common.{ℕ, Bool, true, false, ◌≡◌, if◌then◌else◌, Option, none, some}
use zenith_enterprise.Throttle.{Limiter, allow, would_allow}

pub record Limiters : Type 0 where
  pub user_limiter : Limiter
  pub tenant_limiter : Limiter

-- What the clock says at the four calls, in their order.
pub record Readings : Type 0 where
  pub user_asked : ℕ
  pub tenant_asked : ℕ
  pub user_spent : ℕ
  pub tenant_spent : ℕ

-- The two `QueryRateLimitedError`s.
pub data Refusal : Type 0 where
  user_limited tenant_limited : Refusal

pub throttle_query : Limiters → Readings → ℕ → ℕ → Limiters × Option Refusal
throttle_query ls at user_key tenant_key =
    let (users, user_fits) = would_allow ls.user_limiter user_key at.user_asked in
    let (tenants, tenant_fits) = would_allow ls.tenant_limiter tenant_key at.tenant_asked in
    if user_fits
    then (if tenant_fits
        then (
          record {
            user_limiter = (allow users user_key at.user_spent).0;
            tenant_limiter = (allow tenants tenant_key at.tenant_spent).0;
          },
          none,
        )
        else (record { user_limiter = users; tenant_limiter = tenants }, some tenant_limited))
    else (record ls { user_limiter = users }, some user_limited)
