-- ===== src/Access/Credentials/Live.antt =====
-- No person has two links that work, and no two links have one hash.
use zenith_enterprise.Common.{
  ℕ, suc, ◌+◌, ◌≤◌, ◌≡◌, refl, ◌∙◌, Bool, true, false, Option, none, some, List, [], ◌∷◌, ◌++◌,
  ◌==◌, if◌then◌else◌, ◌&&◌, ◌||◌, not, arith, Bool-cases, inl, inr,
}
use zenith_enterprise.Common.Text.{Text, text_eq, text_eq_sym, is_empty}
use zenith_enterprise.Access.Credentials.{
  Token, User, Purpose, Accounts, is_unused, spend, has_hash, is_redeemable, fresh_token, issue_to,
  issue, consume_for, redeem, Event, issues, redeems, after, after_all,
}

-- How many unused links a person of a tenant has.
abbrev pub live : ℕ → ℕ → List Token → ℕ
live tenant user [] = 0
live tenant user (t ∷ ts) =
    let rest = live tenant user ts in
    if t.tenant_id == tenant && t.user_id == user && is_unused t then suc rest else rest

abbrev pub are_unique : List Token → Bool
are_unique [] = true
are_unique (t ∷ ts) = not (has_hash t.token_hash ts) && are_unique ts

pub record IsSound (a : Accounts) : Type 0 where
  pub one : (tenant user : ℕ) → live tenant user a.tokens ≤ 1
  pub unique : are_unique a.tokens ≡ true

live-spend :
    (tenant user : ℕ) (p : Token → Bool) (now : ℕ) (ts : List Token)
    → live tenant user (spend p now ts) ≤ live tenant user ts
live-spend tenant user p now [] = omega arith
live-spend tenant user p now (t ∷ ts) = ground (arith, live-spend tenant user p now ts)

live-spend_own :
    (tenant user now : ℕ) (ts : List Token)
    → live tenant user (spend (λ t. t.tenant_id == tenant && t.user_id == user) now ts) ≡ 0
live-spend_own tenant user now [] = refl
live-spend_own tenant user now (t ∷ ts) = ground (arith, live-spend_own tenant user now ts)

live-append :
    (tenant user : ℕ) (ts : List Token) (t : Token)
    → live tenant user (ts ++ t ∷ []) ≡ live tenant user ts + live tenant user (t ∷ [])
live-append tenant user [] t = omega arith
live-append tenant user (k ∷ ts) t = ground (arith, live-append tenant user ts t)

pub has_hash-spend :
    (h : Text) (p : Token → Bool) (now : ℕ) (ts : List Token)
    → has_hash h (spend p now ts) ≡ has_hash h ts
has_hash-spend h p now [] = refl
has_hash-spend h p now (t ∷ ts) = ground (arith, has_hash-spend h p now ts)

pub has_hash-append :
    (h : Text) (ts : List Token) (t : Token)
    → has_hash h (ts ++ t ∷ []) ≡ (has_hash h ts || text_eq t.token_hash h)
has_hash-append h [] t = ground arith
has_hash-append h (k ∷ ts) t = ground (arith, has_hash-append h ts t)

unique-spend :
    (p : Token → Bool) (now : ℕ) (ts : List Token) → are_unique (spend p now ts) ≡ are_unique ts
unique-spend p now [] = refl
unique-spend p now (t ∷ ts) =
    ground (arith, unique-spend p now ts, has_hash-spend t.token_hash p now ts)

unique-append :
    (ts : List Token) (t : Token)
    → are_unique ts ≡ true
    → has_hash t.token_hash ts ≡ false
    → are_unique (ts ++ t ∷ []) ≡ true
unique-append [] t h k = refl
unique-append (u ∷ ts) t h k = ground (
  arith,
  h,
  k,
  unique-append ts t,
  has_hash-append u.token_hash ts t,
  text_eq_sym t.token_hash u.token_hash,
)

module _ (digest : Text → Text) where
  issue_to-IsSound :
      (o : Option User) (tenant user : ℕ) (purpose : Purpose) (issued_by : Option ℕ) (token : Text)
      (now : ℕ) (a : Accounts)
      → IsSound a
      → IsSound (issue_to digest o tenant user purpose issued_by token now a).0
  issue_to-IsSound none tenant user purpose issued_by token now a s = s
  issue_to-IsSound (some u) tenant user purpose issued_by token now a s =
      let fresh = fresh_token digest tenant user purpose issued_by token now in
      let own = λ (t : Token). t.tenant_id == tenant && t.user_id == user in
      elim (Bool-cases (is_empty u.email)) [
        | inl e ↦ simp e s
        | inr e ↦ elim (Bool-cases (has_hash (digest token) a.tokens)) [
          | inl taken ↦ simp (e, taken) s
          | inr free ↦
              simp (e, free)
                (record {
                  one = λ t k. ground (
                    arith,
                    live-append t k (spend own now a.tokens) fresh,
                    live-spend t k own now a.tokens,
                    live-spend_own tenant user now a.tokens,
                    s.one t k,
                  );
                  unique =
                      unique-append (spend own now a.tokens) fresh
                        (unique-spend own now a.tokens ∙ s.unique)
                        (has_hash-spend (digest token) own now a.tokens ∙ free);
                })
        ]
      ]

  consume_for-IsSound :
      (o : Option Token) (h password_hash : Text) (now : ℕ) (a : Accounts)
      → IsSound a
      → IsSound (consume_for digest o h password_hash now a).0
  consume_for-IsSound none h password_hash now a s = s
  consume_for-IsSound (some t) h password_hash now a s =
      let first = spend (is_redeemable h now) now a.tokens in
      record {
        one = λ tenant user. omega (
          arith,
          live-spend tenant user (λ k. k.user_id == t.user_id) now first,
          live-spend tenant user (is_redeemable h now) now a.tokens,
          s.one tenant user,
        );
        unique =
            unique-spend (λ k. k.user_id == t.user_id) now first
            ∙ unique-spend (is_redeemable h now) now a.tokens
            ∙ s.unique;
      }

  after-IsSound : (e : Event digest) (a : Accounts) → IsSound a → IsSound (after digest e a)
  unfolding issue redeem
  after-IsSound (issues tenant user purpose issued_by token now) a s =
      issue_to-IsSound _ tenant user purpose issued_by token now a s
  after-IsSound (redeems hash_password token password now) a s =
      consume_for-IsSound _ (digest token) (hash_password password) now a s

-- However links are issued and redeemed, by whomever and whenever, nobody has more than one link that
-- is not used, and no two links have the same hash, where that was so before.
pub after_all-IsSound :
    (digest : Text → Text) (es : List (Event digest)) (a : Accounts)
    → IsSound a
    → IsSound (after_all digest es a)
after_all-IsSound digest [] a s = s
after_all-IsSound digest (e ∷ es) a s =
    after_all-IsSound digest es (after digest e a) (after-IsSound digest e a s)
