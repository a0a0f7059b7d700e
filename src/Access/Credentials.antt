-- ===== src/Access/Credentials.antt =====
-- Setting one's own password from a link: backend/app/features/auth/onboarding/credentials.py and the
-- two functions of migration 0016 (backend/alembic/versions/0016_credential_tokens.py) that it calls.
-- The state is the two tables; times are seconds. The digest of a token and the hash of a password
-- are parameters. A session reads and writes the rows of its tenant, the two functions all of them.
mod Spent
mod Live
mod Redeemed
mod Tests
use zenith_enterprise.Common.{
  ℕ, zero, suc, ◌+◌, ◌*◌, Bool, true, false, Option, none, some, List, [], ◌∷◌, ◌++◌, ◌==◌, ltb,
  if◌then◌else◌, ◌&&◌, ◌||◌, not,
}
use zenith_enterprise.Common.Text.{Text, text_eq, is_empty}

pub data Purpose : Type 0 where
  invitation reset : Purpose

abbrev pub invitation_hours : ℕ
invitation_hours = 72

abbrev pub reset_hours : ℕ
reset_hours = 4

abbrev pub hours_of : Purpose → ℕ
hours_of invitation = invitation_hours
hours_of reset = reset_hours

pub record Token : Type 0 where
  pub tenant_id : ℕ
  pub user_id : ℕ
  pub token_hash : Text
  pub purpose : Purpose
  pub expires_at : ℕ
  pub used_at : Option ℕ
  pub created_by : Option ℕ

pub record User : Type 0 where
  pub id : ℕ
  pub tenant_id : ℕ
  pub email : Text
  pub password_hash : Text
  pub token_version : ℕ

pub record Accounts : Type 0 where
  pub tokens : List Token
  pub users : List User

abbrev pub is_unused : Token → Bool
is_unused t = elim t.used_at [ none ↦ true | some at ↦ false ]

-- `UPDATE credential_tokens SET used_at = now() WHERE ... AND used_at IS NULL`
abbrev pub spend : (Token → Bool) → ℕ → List Token → List Token
spend p now [] = []
spend p now (t ∷ ts) =
    (if p t && is_unused t then record t { used_at = some now } else t) ∷ spend p now ts

abbrev pub has_hash : Text → List Token → Bool
has_hash h [] = false
has_hash h (t ∷ ts) = text_eq t.token_hash h || has_hash h ts

abbrev pub find_user : (User → Bool) → List User → Option User
find_user p [] = none
find_user p (u ∷ us) = let rest = find_user p us in if p u then some u else rest

-- A link can be redeemed: it was issued, is not used and has not expired.
abbrev pub is_redeemable : Text → ℕ → Token → Bool
is_redeemable h now t = text_eq t.token_hash h && is_unused t && ltb now t.expires_at

-- `RETURNING user_id`, of the first row: hashes are unique.
abbrev pub find_token : (Token → Bool) → List Token → Option Token
find_token p [] = none
find_token p (t ∷ ts) = let rest = find_token p ts in if p t then some t else rest

pub record IssuedLink : Type 0 where
  pub token : Text
  pub email : Text
  pub purpose : Purpose
  pub expires_at : ℕ

-- A link, no such user (`NotFoundError`), or a hash that is there already (`IntegrityError`).
pub data Issue : Type 0 where
  issued : IssuedLink → Issue
  no_user : Issue
  hash_taken : Issue

abbrev pub set_password : ℕ → Text → List User → List User
set_password user hash [] = []
set_password user hash (u ∷ us) =
    (if u.id == user
      then record u { password_hash = hash; token_version = u.token_version + 1 }
      else u)
    ∷ set_password user hash us

-- `TokenSubject`
pub record Subject : Type 0 where
  pub email : Text
  pub purpose : Purpose

module _ (digest : Text → Text) where
  abbrev pub fresh_token : ℕ → ℕ → Purpose → Option ℕ → Text → ℕ → Token
  fresh_token tenant user purpose issued_by token now = record {
    tenant_id = tenant;
    user_id = user;
    token_hash = digest token;
    purpose = purpose;
    expires_at = now + hours_of purpose * 3600;
    used_at = none;
    created_by = issued_by;
  }

  -- The two statements of `issue`, in one transaction.
  abbrev pub replace_links : ℕ → ℕ → ℕ → Token → List Token → List Token
  replace_links tenant user now fresh ts =
      spend (λ t. t.tenant_id == tenant && t.user_id == user) now ts ++ fresh ∷ []

  abbrev pub issue_to :
      Option User → ℕ → ℕ → Purpose → Option ℕ → Text → ℕ → Accounts → Accounts × Issue
  issue_to none tenant user purpose issued_by token now a = (a, no_user)
  issue_to (some u) tenant user purpose issued_by token now a =
      let fresh = fresh_token tenant user purpose issued_by token now in
      if is_empty u.email
      then (a, no_user)
      else if has_hash (digest token) a.tokens
      then (a, hash_taken)
      else (
        record a { tokens = replace_links tenant user now fresh a.tokens },
        issued (record {
          token = token;
          email = u.email;
          purpose = purpose;
          expires_at = now + hours_of purpose * 3600;
        }),
      )

  -- `issue`, with the token that `secrets` made
  unfoldable pub issue : ℕ → ℕ → Purpose → Option ℕ → Text → ℕ → Accounts → Accounts × Issue
  issue tenant user purpose issued_by token now a =
      issue_to (find_user (λ u. u.id == user && u.tenant_id == tenant) a.users) tenant user purpose
        issued_by token now a

  abbrev pub subject_of : Option Token → List User → Option Subject
  subject_of none us = none
  subject_of (some t) us = elim (find_user (λ u. u.id == t.user_id) us) [
    | none ↦ none
    | some u ↦ some (record { email = u.email; purpose = t.purpose })
  ]

  -- `CredentialTokens.subject`, by `zenith_credential_token_lookup`; `none` is `NotFoundError`.
  unfoldable pub subject : Text → ℕ → Accounts → Option Subject
  subject token now a = subject_of (find_token (is_redeemable (digest token) now) a.tokens) a.users

  abbrev pub consume_for : Option Token → Text → Text → ℕ → Accounts → Accounts × Bool
  consume_for none h password_hash now a = (a, false)
  consume_for (some t) h password_hash now a = (
    record {
      tokens = spend (λ k. k.user_id == t.user_id) now (spend (is_redeemable h now) now a.tokens);
      users = set_password t.user_id password_hash a.users;
    },
    true,
  )

  -- `CredentialTokens.redeem`, by `zenith_credential_token_consume`; false is `NotFoundError`.
  unfoldable pub redeem : (Text → Text) → Text → Text → ℕ → Accounts → Accounts × Bool
  redeem hash_password token password now a =
      consume_for (find_token (is_redeemable (digest token) now) a.tokens) (digest token)
        (hash_password password) now a

  -- What happens to the accounts: a link is issued, or somebody redeems one.
  pub data Event : Type 0 where
    issues : ℕ → ℕ → Purpose → Option ℕ → Text → ℕ → Event
    redeems : (Text → Text) → Text → Text → ℕ → Event

  abbrev pub after : Event → Accounts → Accounts
  after (issues tenant user purpose issued_by token now) a =
      (issue tenant user purpose issued_by token now a).0
  after (redeems hash_password token password now) a = (redeem hash_password token password now a).0

  abbrev pub after_all : List Event → Accounts → Accounts
  after_all [] a = a
  after_all (e ∷ es) a = after_all es (after e a)
