-- ===== src/Access/Credentials/Redeemed.antt =====
-- What redeeming a link does.
use zenith_enterprise.Common.{
  ℕ, ◌+◌, ◌≡◌, refl, sym, ap, ◌∙◌, Bool, true, false, Option, none, some, List, [], ◌∷◌, ◌==◌,
  if◌then◌else◌, ◌&&◌, ◌||◌, arith, Bool-cases, Option-cases, inl, inr, All, ◌<◌,
}
use zenith_enterprise.Common.Text.{Text, text_eq, text_eq→eq}
use zenith_enterprise.Access.Credentials.{
  Token, User, Accounts, is_unused, spend, find_user, find_token, is_redeemable, set_password,
  consume_for, redeem, subject, subject_of,
}

-- Whether a person has an unused link, in whatever tenant.
abbrev pub has_link : ℕ → List Token → Bool
has_link user [] = false
has_link user (t ∷ ts) = (t.user_id == user && is_unused t) || has_link user ts

abbrev pub user_of : ℕ → List User → Option User
user_of id = find_user λ u. u.id == id

-- The person with a new password, and with every earlier session refused.
abbrev pub renewed : Text → User → User
renewed hash u = record u { password_hash = hash; token_version = u.token_version + 1 }

abbrev pub renewed_in : Bool → Text → Option User → Option User
renewed_in here hash none = none
renewed_in here hash (some u) = some (if here then renewed hash u else u)

-- A link that can be redeemed: of the hash, not used, and not expired.
pub record IsLive (h : Text) (now : ℕ) (t : Token) : Type 0 where
  pub hash : t.token_hash ≡ h
  pub unused : t.used_at ≡ none
  pub unexpired : now < t.expires_at

-- What redeeming a hash may make of some accounts.
abbrev pub Redeems : Text → Text → ℕ → Accounts → Accounts → Bool → Type 0
Redeems h hash now a a' false = (a' ≡ a) × All (λ t. ¬ IsLive h now t) a.tokens
Redeems h hash now a a' true =
    (t : Token) × (find_token (is_redeemable h now) a.tokens ≡ some t)
    × IsLive h now t
    × (has_link t.user_id a'.tokens ≡ false)
    × ((id : ℕ) → user_of id a'.users ≡ renewed_in (id == t.user_id) hash (user_of id a.users))

has_link-spend :
    (user now : ℕ) (ts : List Token) → has_link user (spend (λ k. k.user_id == user) now ts) ≡ false
has_link-spend user now [] = refl
has_link-spend user now (t ∷ ts) = ground (arith, has_link-spend user now ts)

find_token-passes :
    (p : Token → Bool) (ts : List Token) (t : Token) → find_token p ts ≡ some t → p t ≡ true
find_token-passes p [] t e = absurd (ground (arith, e))
find_token-passes p (k ∷ ts) t e = elim (Bool-cases (p k)) [
  | inl h ↦ let same : k ≡ t = ground (arith, h, e) in sym (ap p same) ∙ h
  | inr h ↦ find_token-passes p ts t (ground (arith, h, e))
]

user_of-set_password :
    (user : ℕ) (hash : Text) (id : ℕ) (us : List User)
    → user_of id (set_password user hash us) ≡ renewed_in (id == user) hash (user_of id us)
user_of-set_password user hash id [] = refl
user_of-set_password user hash id (u ∷ us) = elim (Bool-cases (u.id == id)) [
  | inl e ↦ elim (Bool-cases (u.id == user)) [
    | inl f ↦ ground (arith, e, f)
    | inr f ↦ ground (arith, e, f)
  ]
  | inr e ↦ elim (Bool-cases (u.id == user)) [
    | inl f ↦ ground (arith, e, f, user_of-set_password user hash id us)
    | inr f ↦ ground (arith, e, f, user_of-set_password user hash id us)
  ]
]

text_eq_self : (s : Text) → text_eq s s ≡ true
text_eq_self [] = refl
text_eq_self (c ∷ s) = ground (arith, text_eq_self s)

is_unused→eq : (t : Token) → is_unused t ≡ true → t.used_at ≡ none
is_unused→eq t h = elim (Option-cases t.used_at) [
  | inl e ↦ e
  | inr (at, e) ↦ absurd (ground (arith, h, e))
]

is_redeemable-IsLive :
    (h : Text) (now : ℕ) (t : Token) → is_redeemable h now t ≡ true → IsLive h now t
is_redeemable-IsLive h now t e = record {
  hash = text_eq→eq t.token_hash h (ground (arith, e));
  unused = is_unused→eq t (ground (arith, e));
  unexpired = ground (arith, e);
}

IsLive-is_redeemable :
    (h : Text) (now : ℕ) (t : Token) → IsLive h now t → is_redeemable h now t ≡ true
IsLive-is_redeemable h now t live =
    let same : text_eq t.token_hash h ≡ true = ap (λ s. text_eq s h) live.hash ∙ text_eq_self h in
    ground (arith, same, live.unused, live.unexpired)

find_token-fails :
    (h : Text) (now : ℕ) (ts : List Token)
    → find_token (is_redeemable h now) ts ≡ none
    → All (λ t. ¬ IsLive h now t) ts
find_token-fails h now [] e = tt
find_token-fails h now (t ∷ ts) e = (
  (λ live. ground (arith, e, IsLive-is_redeemable h now t live)),
  find_token-fails h now ts (ground (arith, e)),
)

consume_for-Redeems :
    (digest : Text → Text) (o : Option Token) (h hash : Text) (now : ℕ) (a : Accounts)
    → find_token (is_redeemable h now) a.tokens ≡ o
    → Redeems h hash now a
        (consume_for digest o h hash now a).0
        (consume_for digest o h hash now a).1
consume_for-Redeems digest none h hash now a e = (refl, find_token-fails h now a.tokens e)
consume_for-Redeems digest (some t) h hash now a e = (
  t,
  e,
  is_redeemable-IsLive h now t (find_token-passes (is_redeemable h now) a.tokens t e),
  has_link-spend t.user_id now (spend (is_redeemable h now) now a.tokens),
  λ id. user_of-set_password t.user_id hash id a.users,
)

-- A link is redeemed exactly if there is one of the hash that is not used and has not expired. Its
-- owner then has the new password and a higher token version, nobody else changes, and no link of the
-- owner is left unused. A link that is refused changes nothing.
pub redeem-Redeems :
    (digest hash_password : Text → Text) (token password : Text) (now : ℕ) (a : Accounts)
    → Redeems
        (digest token)
        (hash_password password)
        now
        a
        (redeem digest hash_password token password now a).0
        (redeem digest hash_password token password now a).1
unfolding redeem
redeem-Redeems digest hash_password token password now a =
    consume_for-Redeems digest (find_token (is_redeemable (digest token) now) a.tokens)
      (digest token) (hash_password password) now a refl

-- Every link belongs to a person that is there, which a foreign key keeps.
abbrev pub AreOwned : Accounts → Type 0
AreOwned a =
    (t : Token) (p : Token → Bool)
    → find_token p a.tokens ≡ some t
    → (u : User) × (user_of t.user_id a.users ≡ some u)

abbrev pub is_some {ℓ} : {A : Type ℓ} → Option A → Bool
is_some none = false
is_some (some a) = true

greeted :
    (digest : Text → Text) (o : Option Token) (h hash : Text) (now : ℕ) (a : Accounts)
    → AreOwned a
    → find_token (is_redeemable h now) a.tokens ≡ o
    → is_some (subject_of digest o a.users) ≡ (consume_for digest o h hash now a).1
greeted digest none h hash now a owned e = refl
greeted digest (some t) h hash now a owned e =
    let u = owned t (is_redeemable h now) e in rw (u.1, is_some) refl

-- The page greets somebody exactly when the link that it was opened with can be redeemed then.
pub subject_foretells :
    (digest hash_password : Text → Text) (token password : Text) (now : ℕ) (a : Accounts)
    → AreOwned a
    → is_some (subject digest token now a) ≡ (redeem digest hash_password token password now a).1
unfolding subject redeem
subject_foretells digest hash_password token password now a owned =
    greeted digest (find_token (is_redeemable (digest token) now) a.tokens) (digest token)
      (hash_password password) now a owned refl
