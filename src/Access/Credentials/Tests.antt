-- ===== src/Access/Credentials/Tests.antt =====
-- Two links for one person, the second of which replaces the first.
use zenith_enterprise.Common.{◌≡◌, refl, true, false, none, [], ◌∷◌, arith}
use zenith_enterprise.Common.Text.{Text, codes}
use zenith_enterprise.Access.Credentials.{
  User, Accounts, invitation, reset, issue, redeem, issues, after_all,
}
use zenith_enterprise.Access.Credentials.Live.{IsSound, after_all-IsSound}
use zenith_enterprise.Access.Credentials.Spent.{redeem_once}
use zenith_enterprise.Access.Credentials.Redeemed.{Redeems, redeem-Redeems}

abbrev digest : Text → Text
digest token = 35 ∷ token

abbrev hashed : Text → Text
hashed password = 36 ∷ password

abbrev ana : User
ana = record {
  id = 3;
  tenant_id = 1;
  email = codes "ana@example.com";
  password_hash = [];
  token_version = 4;
}

abbrev empty : Accounts
empty = record { tokens = []; users = ana ∷ [] }

abbrev one : Text
one = codes "one"

abbrev two : Text
two = codes "two"

abbrev invited : Accounts
invited = (issue digest 1 3 invitation none one 100 empty).0

empty-IsSound : IsSound empty
empty-IsSound = record { one = λ tenant user. omega arith; unique = refl }

after_all-IsSound_example : IsSound (
    after_all digest
      (issues 1 3 invitation none one 100 ∷ issues 1 3 reset none two 200 ∷ [])
      empty)
after_all-IsSound_example =
    after_all-IsSound digest
      (issues 1 3 invitation none one 100 ∷ issues 1 3 reset none two 200 ∷ []) empty empty-IsSound

invited-IsSound : IsSound invited
unfolding issue
invited-IsSound =
    after_all-IsSound digest (issues 1 3 invitation none one 100 ∷ []) empty empty-IsSound

first_redeems : (redeem digest hashed one (codes "pw") 150 invited).1 ≡ true
unfolding issue redeem
first_redeems = refl

replaced_link_is_refused :
    (redeem digest hashed one (codes "pw") 250 (issue digest 1 3 reset none two 200 invited).0).1
    ≡ false
unfolding issue redeem
replaced_link_is_refused = refl

redeem_once_example :
    let a' =
      after_all digest
        (issues 1 3 reset none two 200 ∷ [])
        (redeem digest hashed one (codes "pw") 150 invited).0 in
    redeem digest hashed one (codes "other") 300 a' ≡ (a', false)
redeem_once_example =
    redeem_once digest hashed one (codes "pw") 150 invited (issues 1 3 reset none two 200 ∷ [])
      hashed (codes "other") 300 invited-IsSound first_redeems

redeem-Redeems_example :
    Redeems
      (digest one)
      (hashed (codes "pw"))
      150
      invited
      (redeem digest hashed one (codes "pw") 150 invited).0
      (redeem digest hashed one (codes "pw") 150 invited).1
redeem-Redeems_example = redeem-Redeems digest hashed one (codes "pw") 150 invited
