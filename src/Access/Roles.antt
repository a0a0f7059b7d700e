-- ===== src/Access/Roles.antt =====
-- `RoleService` of backend/app/features/auth/access/roles.py, over the rows of one tenant: row-level
-- security hides the others. A permission is its place in the alphabetical order of `CATALOGUE`
-- (backend/app/features/auth/access/permissions.py), and a larger number is an unknown one. The keys
-- and constraints are those of backend/app/features/auth/model.py; a transaction that raises changes
-- nothing. `visible` lists the roles in the order of their rows.
pub mod Table
mod Administration
mod Grants
mod Tests
use zenith_enterprise.Common.{
  ℕ, ◌+◌, Bool, true, false, Option, none, some, List, [], ◌∷◌, ◌++◌, ◌==◌, ltb, if◌then◌else◌,
  ◌||◌, ◌&&◌, not, map, keep_if, all, contains, sort_distinct,
}
use zenith_enterprise.Common.Text.{Text, text_eq}
use Table.{Rows, seconds_of, count_of, without, with_row, with_rows}

pub record RoleRow : Type 0 where
  pub id : ℕ
  pub name : Text
  pub is_system : Bool
  pub priority_level : ℕ

-- `role_permissions` and `role_labels` pair a role with a code or a label, and `user_roles`, its
-- columns turned about, a role with a user.
pub record Tenant : Type 0 where
  pub roles : List RoleRow
  pub role_permissions : Rows
  pub role_labels : Rows
  pub user_roles : Rows
  pub users : List ℕ
  pub access_labels : List ℕ

pub record Role : Type 0 where
  pub id : ℕ
  pub name : Text
  pub is_system : Bool
  pub permissions : List ℕ
  pub users : ℕ
  pub priority_level : ℕ
  pub label_ids : List ℕ

-- `NotFoundError`, `ConflictError`, and the database's refusal of a second row under one key.
pub data Refusal : Type 0 where
  not_found conflict integrity_error : Refusal

pub data Outcome : Type 0 where
  done : Tenant → Outcome
  refused : Refusal → Outcome

-- The twelve codes, in alphabetical order.
abbrev pub catalogue : List ℕ
catalogue = 0 ∷ 1 ∷ 2 ∷ 3 ∷ 4 ∷ 5 ∷ 6 ∷ 7 ∷ 8 ∷ 9 ∷ 10 ∷ 11 ∷ []

abbrev pub roles_manage : ℕ
roles_manage = 9

abbrev pub users_manage : ℕ
users_manage = 11

abbrev pub administration : List ℕ
administration = users_manage ∷ roles_manage ∷ []

abbrev pub role_of : Tenant → RoleRow → Role
role_of t r = record {
  id = r.id;
  name = r.name;
  is_system = r.is_system;
  permissions = sort_distinct (seconds_of r.id t.role_permissions);
  users = count_of r.id t.user_roles;
  priority_level = r.priority_level;
  label_ids = sort_distinct (seconds_of r.id t.role_labels);
}

abbrev pub visible : Tenant → List Role
visible t = map (role_of t) t.roles

abbrev pub find_role : ℕ → List Role → Option Role
find_role id [] = none
find_role id (r ∷ rs) = if r.id == id then some r else find_role id rs

abbrev pub is_subset : List ℕ → List ℕ → Bool
is_subset xs ys = all (λ x. contains x ys) xs

-- `_known`
abbrev pub known : List ℕ → Bool
known permissions = is_subset permissions catalogue

-- The set that `_keeps_an_administrator` collects.
abbrev pub remaining : ℕ → List ℕ → List Role → List ℕ
remaining id permissions [] = []
remaining id permissions (r ∷ rs) =
    let rest = remaining id permissions rs in
    if ltb 0 r.users || r.id == id
    then (if r.id == id then permissions else r.permissions) ++ rest
    else rest

abbrev pub keeps_an_administrator : List Role → ℕ → List ℕ → Bool
keeps_an_administrator existing id permissions =
    is_subset administration (remaining id permissions existing)

-- The set that `delete` collects.
abbrev pub held_without : ℕ → List Role → List ℕ
held_without id [] = []
held_without id (r ∷ rs) =
    let rest = held_without id rs in
    if r.id == id then rest else if ltb 0 r.users then r.permissions ++ rest else rest

-- `_write_permissions`
abbrev pub write_permissions : Rows → ℕ → List ℕ → Rows
write_permissions rows id codes = with_rows id (sort_distinct codes) rows

abbrev pub set_permissions : Tenant → ℕ → List ℕ → Outcome
set_permissions t id permissions =
    if not (known permissions) then refused not_found else elim (find_role id (visible t)) [
      | none ↦ refused not_found
      | some r ↦
          if r.is_system
          then refused conflict
          else if keeps_an_administrator (visible t) id permissions
          then done (record t {
            role_permissions = write_permissions (without id t.role_permissions) id permissions;
          })
          else refused conflict
    ]

abbrev pub has_name : Text → List RoleRow → Bool
has_name name [] = false
has_name name (r ∷ rs) = text_eq name r.name || has_name name rs

abbrev pub ids_of : List RoleRow → List ℕ
ids_of = map λ r. r.id

-- `new_id` is the identifier that the database draws.
abbrev pub create : Tenant → ℕ → Text → List ℕ → ℕ → Outcome
create t new_id name permissions priority_level =
    if not (known permissions)
    then refused not_found
    else if has_name name t.roles || contains new_id (ids_of t.roles)
    then refused integrity_error
    else done (record t {
      roles =
          t.roles
          ++ record { id = new_id; name = name; is_system = false; priority_level = priority_level }
            ∷ [];
      role_permissions = write_permissions t.role_permissions new_id permissions;
    })

abbrev pub update_clearance : ℕ → ℕ → List RoleRow → List RoleRow
update_clearance id level [] = []
update_clearance id level (r ∷ rs) =
    (if r.id == id then record r { priority_level = level } else r) ∷ update_clearance id level rs

-- `set_clearance`: where the level is the same, writing it is no change.
abbrev pub set_clearance : Tenant → ℕ → ℕ → Outcome
set_clearance t id level = elim (find_role id (visible t)) [
  | none ↦ refused not_found
  | some r ↦
      if r.priority_level == level
      then done t
      else done (record t { roles = update_clearance id level t.roles })
]

abbrev pub set_labels : Tenant → ℕ → List ℕ → Outcome
set_labels t id label_ids = elim (find_role id (visible t)) [
  | none ↦ refused not_found
  | some r ↦
      if is_subset label_ids t.access_labels
      then done (record t {
        role_labels = with_rows id (sort_distinct label_ids) (without id t.role_labels);
      })
      else refused not_found
]

abbrev pub without_role : ℕ → List RoleRow → List RoleRow
without_role id = keep_if λ r. not (r.id == id)

-- `delete`; the foreign keys cascade.
abbrev pub delete : Tenant → ℕ → Outcome
delete t id = elim (find_role id (visible t)) [
  | none ↦ refused not_found
  | some r ↦
      if r.is_system
      then refused conflict
      else if is_subset administration (held_without id (visible t))
      then done (record t {
        roles = without_role id t.roles;
        role_permissions = without id t.role_permissions;
        role_labels = without id t.role_labels;
        user_roles = without id t.user_roles;
      })
      else refused conflict
]

-- Rows for the user, one for each role: a role named twice is refused by the primary key.
abbrev pub insert_roles : ℕ → List ℕ → Rows → Option Rows
insert_roles user [] rows = some rows
insert_roles user (role ∷ role_ids) rows =
    let rest = insert_roles user role_ids (with_row role user rows) in
    if contains user (seconds_of role rows) then none else rest

abbrev pub without_user : ℕ → Rows → Rows
without_user user = keep_if λ row. not (row.1 == user)

abbrev pub assign : Tenant → ℕ → List ℕ → Outcome
assign t user role_ids =
    if not (contains user t.users)
    then refused not_found
    else if not (is_subset role_ids (ids_of t.roles))
    then refused not_found
    else elim (insert_roles user role_ids (without_user user t.user_roles)) [
      | none ↦ refused integrity_error
      | some rows ↦ done (record t { user_roles = rows })
    ]
