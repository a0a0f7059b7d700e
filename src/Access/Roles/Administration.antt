-- ===== src/Access/Roles/Administration.antt =====
-- Edits of roles never leave a tenant without an administrator; `assign` can.
use zenith_enterprise.Common.{
  ℕ, ◌≡◌, refl, Bool, true, false, List, [], ◌∷◌, ◌==◌, ltb, if◌then◌else◌, ◌||◌, ◌&&◌, map,
  contains, sort_distinct, contains-append, contains-sort_distinct, All, arith, Bool-cases, ==→eq,
  inl, inr,
}
use zenith_enterprise.Common.Text.{Text}
use zenith_enterprise.Access.Roles.Table.{
  Rows, seconds_of, count_of, without, with_rows, seconds_of-without, contains-with_rows,
}
use zenith_enterprise.Access.Roles.{
  RoleRow, Tenant, Outcome, done, refused, roles_manage, users_manage, role_of, known, remaining,
  held_without, write_permissions, set_permissions, create, set_clearance, set_labels, delete,
  assign, without_user,
}

-- Somebody is assigned a role that has the permission.
abbrev pub somebody_holds : ℕ → Rows → Rows → Bool
somebody_holds code permissions [] = false
somebody_holds code permissions ((role, user) ∷ rows) =
    contains code (seconds_of role permissions) || somebody_holds code permissions rows

-- Each of the two permissions of administration is held by somebody.
abbrev pub is_administered : Tenant → Bool
is_administered t =
    somebody_holds users_manage t.role_permissions t.user_roles
    && somebody_holds roles_manage t.role_permissions t.user_roles

-- A held permission, from one of the rows that grant it.
held_by :
    (code role : ℕ) (permissions users : Rows)
    → ltb 0 (count_of role users) ≡ true
    → contains code (seconds_of role permissions) ≡ true
    → somebody_holds code permissions users ≡ true
held_by code role permissions [] h k = ground arith
held_by code role permissions ((r, u) ∷ users) h k = elim (Bool-cases (r == role)) [
  | inl e ↦ rw (==→eq r role e, k) refl
  | inr e ↦ ground (arith, held_by code role permissions users)
]

-- Deleting a role's assignments leaves the others' counts.
count_of-without :
    (k j : ℕ) (rows : Rows) → (j == k) ≡ false → count_of j (without k rows) ≡ count_of j rows
count_of-without k j [] h = refl
count_of-without k j ((a, b) ∷ rows) h = ground (arith, count_of-without k j rows h)

-- What `delete` collects is held once the role is gone.
held_without-held :
    (code id : ℕ) (t : Tenant) (rs : List RoleRow)
    → contains code (held_without id (map (role_of t) rs)) ≡ true
    → somebody_holds code (without id t.role_permissions) (without id t.user_roles) ≡ true
held_without-held code id t [] h = ground arith
held_without-held code id t (r ∷ rs) h = ground (
  arith,
  held_without-held code id t rs,
  contains-append code (sort_distinct (seconds_of r.id t.role_permissions))
      (held_without id (map (role_of t) rs)),
  contains-sort_distinct code (seconds_of r.id t.role_permissions),
  seconds_of-without id r.id t.role_permissions,
  count_of-without id r.id t.user_roles,
  held_by code r.id (without id t.role_permissions) (without id t.user_roles),
)

-- The permissions of a role after `set_permissions`.
pub seconds_of-set :
    (id j code : ℕ) (permissions : List ℕ) (rows : Rows)
    → contains code (seconds_of j (write_permissions (without id rows) id permissions))
      ≡ (if j == id then contains code permissions else contains code (seconds_of j rows))
seconds_of-set id j code permissions rows = ground (
  arith,
  contains-with_rows id j (sort_distinct permissions) code (without id rows),
  contains-sort_distinct code permissions,
  seconds_of-without id j rows,
)

-- Where nobody holds the edited role, the permissions held stay so.
held_elsewhere :
    (code id : ℕ) (permissions : List ℕ) (rows users : Rows)
    → ltb 0 (count_of id users) ≡ false
    → somebody_holds code rows users ≡ true
    → somebody_holds code (write_permissions (without id rows) id permissions) users ≡ true
held_elsewhere code id permissions rows [] h k = k
held_elsewhere code id permissions rows ((r, u) ∷ users) h k = ground (
  arith,
  seconds_of-set id r code permissions rows,
  held_elsewhere code id permissions rows users,
)

-- What `_keeps_an_administrator` collects is held after the edit.
remaining-held :
    (code id : ℕ) (permissions : List ℕ) (t : Tenant) (rs : List RoleRow)
    → somebody_holds code t.role_permissions t.user_roles ≡ true
    → contains code (remaining id permissions (map (role_of t) rs)) ≡ true
    → somebody_holds code
        (write_permissions (without id t.role_permissions) id permissions)
        t.user_roles
      ≡ true
remaining-held code id permissions t [] before h = ground arith
remaining-held code id permissions t (r ∷ rs) before h =
    let after = write_permissions (without id t.role_permissions) id permissions in
    ground (
      arith,
      remaining-held code id permissions t rs before,
      contains-append code permissions (remaining id permissions (map (role_of t) rs)),
      contains-append code (sort_distinct (seconds_of r.id t.role_permissions))
          (remaining id permissions (map (role_of t) rs)),
      contains-sort_distinct code (seconds_of r.id t.role_permissions),
      seconds_of-set id r.id code permissions t.role_permissions,
      ==→eq r.id id,
      held_by code r.id after t.user_roles,
      held_elsewhere code id permissions t.role_permissions t.user_roles,
    )

-- The permissions of a role after `create`.
somebody_holds-with_rows :
    (code id : ℕ) (codes : List ℕ) (rows users : Rows)
    → somebody_holds code rows users ≡ true
    → somebody_holds code (with_rows id codes rows) users ≡ true
somebody_holds-with_rows code id codes rows [] h = h
somebody_holds-with_rows code id codes rows ((r, u) ∷ users) h = ground (
  arith,
  contains-with_rows id r codes code rows,
  somebody_holds-with_rows code id codes rows users,
)

-- The edits of roles: every operation of the service but `assign`.
pub data Edit : Type 0 where
  creating : ℕ → Text → List ℕ → ℕ → Edit
  setting_permissions : ℕ → List ℕ → Edit
  setting_clearance : ℕ → ℕ → Edit
  setting_labels : ℕ → List ℕ → Edit
  deleting : ℕ → Edit

abbrev pub edit : Tenant → Edit → Outcome
edit t (creating id name permissions level) = create t id name permissions level
edit t (setting_permissions id permissions) = set_permissions t id permissions
edit t (setting_clearance id level) = set_clearance t id level
edit t (setting_labels id label_ids) = set_labels t id label_ids
edit t (deleting id) = delete t id

-- An operation that is refused changes nothing.
abbrev pub after : Tenant → Outcome → Tenant
after t (done t') = t'
after t (refused why) = t

abbrev pub edits : Tenant → List Edit → Tenant
edits t [] = t
edits t (e ∷ es) = edits (after t (edit t e)) es

delete-IsAdministered :
    (t : Tenant) (id : ℕ)
    → is_administered t ≡ true
    → is_administered (after t (delete t id)) ≡ true
delete-IsAdministered t id h = ground (
  arith,
  held_without-held users_manage id t t.roles,
  held_without-held roles_manage id t t.roles,
)

set_permissions-IsAdministered :
    (t : Tenant) (id : ℕ) (permissions : List ℕ)
    → is_administered t ≡ true
    → is_administered (after t (set_permissions t id permissions)) ≡ true
set_permissions-IsAdministered t id permissions h = ground (
  arith,
  remaining-held users_manage id permissions t t.roles,
  remaining-held roles_manage id permissions t t.roles,
)

create-IsAdministered :
    (t : Tenant) (id : ℕ) (name : Text) (permissions : List ℕ) (level : ℕ)
    → is_administered t ≡ true
    → is_administered (after t (create t id name permissions level)) ≡ true
create-IsAdministered t id name permissions level h = ground (
  arith,
  somebody_holds-with_rows users_manage id (sort_distinct permissions) t.role_permissions
      t.user_roles,
  somebody_holds-with_rows roles_manage id (sort_distinct permissions) t.role_permissions
      t.user_roles,
)

edit-IsAdministered :
    (t : Tenant) (e : Edit) → is_administered t ≡ true → is_administered (after t (edit t e)) ≡ true
edit-IsAdministered t (creating id name permissions level) h =
    create-IsAdministered t id name permissions level h
edit-IsAdministered t (setting_permissions id permissions) h =
    set_permissions-IsAdministered t id permissions h
edit-IsAdministered t (setting_clearance id level) h = ground arith
edit-IsAdministered t (setting_labels id label_ids) h = ground arith
edit-IsAdministered t (deleting id) h = delete-IsAdministered t id h

-- Whatever roles are created, edited and deleted, in any order and with any refusals, a tenant in
-- which somebody holds each permission of administration remains one.
pub edits-IsAdministered :
    (es : List Edit) (t : Tenant) → is_administered t ≡ true → is_administered (edits t es) ≡ true
edits-IsAdministered [] t h = h
edits-IsAdministered (e ∷ es) t h =
    edits-IsAdministered es (after t (edit t e)) (edit-IsAdministered t e h)

without_user-unheld :
    (user code : ℕ) (permissions rows : Rows)
    → All (λ row. row.1 ≡ user) rows
    → somebody_holds code permissions (without_user user rows) ≡ false
without_user-unheld user code permissions [] h = refl
without_user-unheld user code permissions ((r, u) ∷ rows) h =
    ground (arith, h.0, without_user-unheld user code permissions rows h.1)

-- `assign` makes no such check: taking the roles of the only user who has any is accepted, and
-- leaves the tenant without an administrator.
pub assign_unadministers :
    (t : Tenant) (user : ℕ)
    → contains user t.users ≡ true
    → All (λ row. row.1 ≡ user) t.user_roles
    → (assign t user [] ≡ done (record t { user_roles = without_user user t.user_roles }))
      × (is_administered (after t (assign t user [])) ≡ false)
assign_unadministers t user known only = (
  ground arith,
  ground (arith, without_user-unheld user users_manage t.role_permissions t.user_roles only),
)
