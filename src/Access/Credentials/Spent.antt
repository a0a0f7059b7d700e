-- ===== src/Access/Credentials/Spent.antt =====
-- A link works once.
use zenith_enterprise.Common.{
  ℕ, ◌≡◌, refl, subst, ap, ◌∙◌, Bool, true, false, Option, none, some, List, [], ◌∷◌, ◌++◌, ◌==◌,
  ◌&&◌, ◌||◌, arith, Bool-cases, inl, inr,
}
use zenith_enterprise.Common.Text.{Text, text_eq, text_eq→eq, is_empty}
use zenith_enterprise.Access.Credentials.{
  Token, User, Purpose, Accounts, is_unused, spend, has_hash, find_user, find_token, is_redeemable,
  fresh_token, issue_to, issue, consume_for, redeem, Event, issues, redeems, after_all,
}
use zenith_enterprise.Access.Credentials.Live.{are_unique, IsSound, has_hash-spend, has_hash-append}

-- Whether a link of a hash is not used.
abbrev pub has_unused : Text → List Token → Bool
has_unused h [] = false
has_unused h (t ∷ ts) = (text_eq t.token_hash h && is_unused t) || has_unused h ts

-- The link of a hash was issued, and is used.
abbrev pub IsSpent : Text → Accounts → Type 0
IsSpent h a = (has_hash h a.tokens ≡ true) × (has_unused h a.tokens ≡ false)

has_unused-spend :
    (h : Text) (p : Token → Bool) (now : ℕ) (ts : List Token)
    → has_unused h ts ≡ false
    → has_unused h (spend p now ts) ≡ false
has_unused-spend h p now [] k = refl
has_unused-spend h p now (t ∷ ts) k = ground (arith, k, has_unused-spend h p now ts)

has_unused-append :
    (h : Text) (ts : List Token) (t : Token)
    → has_unused h ts ≡ false
    → text_eq t.token_hash h ≡ false
    → has_unused h (ts ++ t ∷ []) ≡ false
has_unused-append h [] t k f = ground (arith, f)
has_unused-append h (u ∷ ts) t k f = ground (arith, k, f, has_unused-append h ts t)

find_token_spent :
    (h : Text) (now : ℕ) (ts : List Token)
    → has_unused h ts ≡ false
    → find_token (is_redeemable h now) ts ≡ none
find_token_spent h now [] k = refl
find_token_spent h now (t ∷ ts) k = ground (arith, k, find_token_spent h now ts)

no_hash_no_unused : (h : Text) (ts : List Token) → has_hash h ts ≡ false → has_unused h ts ≡ false
no_hash_no_unused h [] k = refl
no_hash_no_unused h (t ∷ ts) k = ground (arith, k, no_hash_no_unused h ts)

-- Redeeming uses the only link of the hash.
spend_redeemed :
    (h : Text) (now : ℕ) (ts : List Token) (t : Token)
    → are_unique ts ≡ true
    → find_token (is_redeemable h now) ts ≡ some t
    → (has_hash h (spend (is_redeemable h now) now ts) ≡ true)
      × (has_unused h (spend (is_redeemable h now) now ts) ≡ false)
spend_redeemed h now [] t u e = absurd (ground (arith, e))
spend_redeemed h now (k ∷ ts) t u e = elim (Bool-cases (text_eq k.token_hash h)) [
  | inl same ↦
      let alone : has_hash h ts ≡ false =
        subst (λ g. has_hash g ts ≡ false) (text_eq→eq k.token_hash h same) (ground (arith, u)) in
      let spent = has_unused-spend h (is_redeemable h now) now ts (no_hash_no_unused h ts alone) in
      let missing = find_token_spent h now ts (no_hash_no_unused h ts alone) in
      (ground (arith, same), ground (arith, same, spent, missing, e))
  | inr other ↦
      let rest : find_token (is_redeemable h now) ts ≡ some t = ground (arith, other, e) in
      let later = spend_redeemed h now ts t (ground (arith, u)) rest in
      (ground (arith, other, later.0), ground (arith, other, later.1))
]

module _ (digest : Text → Text) where
  issue_to-IsSpent :
      (h : Text) (o : Option User) (tenant user : ℕ) (purpose : Purpose) (issued_by : Option ℕ)
      (token : Text) (now : ℕ) (a : Accounts)
      → IsSpent h a
      → IsSpent h (issue_to digest o tenant user purpose issued_by token now a).0
  issue_to-IsSpent h none tenant user purpose issued_by token now a s = s
  issue_to-IsSpent h (some u) tenant user purpose issued_by token now a s =
      let fresh = fresh_token digest tenant user purpose issued_by token now in
      let own = λ (t : Token). t.tenant_id == tenant && t.user_id == user in
      elim (Bool-cases (is_empty u.email)) [
        | inl e ↦ simp e s
        | inr e ↦ elim (Bool-cases (has_hash (digest token) a.tokens)) [
          | inl taken ↦ simp (e, taken) s
          | inr free ↦ elim (Bool-cases (text_eq (digest token) h)) [
            | inl same ↦ absurd (
                ground (
                  arith,
                  free,
                  s.0,
                  ap (λ g. has_hash g a.tokens) (text_eq→eq (digest token) h same),
                ))
            | inr apart ↦
                simp (e, free)
                  (
                    ground (
                      arith,
                      has_hash-append h (spend own now a.tokens) fresh,
                      has_hash-spend h own now a.tokens,
                      s.0,
                    ),
                    has_unused-append h (spend own now a.tokens) fresh
                        (has_unused-spend h own now a.tokens s.1) apart,
                  )
          ]
        ]
      ]

  consume_for-IsSpent :
      (g : Text) (o : Option Token) (h password_hash : Text) (now : ℕ) (a : Accounts)
      → IsSpent g a
      → IsSpent g (consume_for digest o h password_hash now a).0
  consume_for-IsSpent g none h password_hash now a s = s
  consume_for-IsSpent g (some t) h password_hash now a s =
      let first = spend (is_redeemable h now) now a.tokens in
      (
        has_hash-spend g (λ k. k.user_id == t.user_id) now first
            ∙ has_hash-spend g (is_redeemable h now) now a.tokens
            ∙ s.0,
        has_unused-spend g (λ k. k.user_id == t.user_id) now first
            (has_unused-spend g (is_redeemable h now) now a.tokens s.1),
      )

  after_all-IsSpent :
      (h : Text) (es : List (Event digest)) (a : Accounts)
      → IsSpent h a
      → IsSpent h (after_all digest es a)
  unfolding issue redeem
  after_all-IsSpent h [] a s = s
  after_all-IsSpent h (issues tenant user purpose issued_by token now ∷ es) a s =
      after_all-IsSpent h es _ (
        issue_to-IsSpent h (find_user (λ u. u.id == user && u.tenant_id == tenant) a.users) tenant
          user purpose issued_by token now a s)
  after_all-IsSpent h (redeems hash_password token password now ∷ es) a s =
      after_all-IsSpent h es _ (
        consume_for-IsSpent h (find_token (is_redeemable (digest token) now) a.tokens)
          (digest token) (hash_password password) now a s)

  redeemed-IsSpent :
      (o : Option Token) (h password_hash : Text) (now : ℕ) (a : Accounts)
      → are_unique a.tokens ≡ true
      → find_token (is_redeemable h now) a.tokens ≡ o
      → (consume_for digest o h password_hash now a).1 ≡ true
      → IsSpent h (consume_for digest o h password_hash now a).0
  redeemed-IsSpent none h password_hash now a u e k = absurd (ground (arith, k))
  redeemed-IsSpent (some t) h password_hash now a u e k =
      let spent = spend_redeemed h now a.tokens t u e in
      let first = spend (is_redeemable h now) now a.tokens in
      (
        has_hash-spend h (λ j. j.user_id == t.user_id) now first ∙ spent.0,
        has_unused-spend h (λ j. j.user_id == t.user_id) now first spent.1,
      )

-- Once a link has been redeemed, it is refused for ever, and its refusal changes nothing: whatever
-- links are issued and redeemed in between, and whatever the time and the password are.
pub redeem_once :
    (digest : Text → Text) (hash_password : Text → Text) (token password : Text) (now : ℕ)
    (a : Accounts) (es : List (Event digest)) (again : Text → Text) (other : Text) (later : ℕ)
    → IsSound a
    → (redeem digest hash_password token password now a).1 ≡ true
    → let a' = after_all digest es (redeem digest hash_password token password now a).0 in
      redeem digest again token other later a' ≡ (a', false)
unfolding redeem
redeem_once digest hash_password token password now a es again other later s done =
    let h = digest token in
    let spent = after_all-IsSpent digest h es _ (
      redeemed-IsSpent digest (find_token (is_redeemable h now) a.tokens) h (hash_password password)
        now a s.unique refl done) in
    rw (find_token_spent h later _ spent.1) refl
