-- ===== src/Access/Roles/Grants.antt =====
-- What the operations on roles leave in the tables.
use zenith_enterprise.Common.{
  ℕ, ◌≡◌, refl, Bool, true, none, some, List, [], ◌∷◌, ◌==◌, if◌then◌else◌, ◌||◌, ◌&&◌, not, map,
  all, contains, sort_distinct, insert_distinct, arith,
}
use zenith_enterprise.Access.Roles.Table.{
  Rows, seconds_of, count_of, without, with_row, with_rows, seconds_of-without, contains-with_row,
}
use zenith_enterprise.Access.Roles.{
  RoleRow, Tenant, done, role_of, is_subset, catalogue, insert_roles, visible, find_role, known,
  ids_of, without_role, delete, assign, without_user,
}
use zenith_enterprise.Access.Roles.Administration.{
  Edit, creating, setting_permissions, setting_clearance, setting_labels, deleting, edit, edits,
  after,
}

-- Only permissions that the software knows are granted.
abbrev pub only_known : Rows → Bool
only_known = all λ row. contains row.1 catalogue

only_known-without :
    (id : ℕ) (rows : Rows) → only_known rows ≡ true → only_known (without id rows) ≡ true
only_known-without id [] h = refl
only_known-without id ((r, c) ∷ rows) h = ground (arith, only_known-without id rows)

only_known-with_rows :
    (id : ℕ) (codes : List ℕ) (rows : Rows)
    → known codes ≡ true
    → only_known rows ≡ true
    → only_known (with_rows id codes rows) ≡ true
only_known-with_rows id [] rows k h = h
only_known-with_rows id (c ∷ codes) rows k h =
    ground (arith, only_known-with_rows id codes (with_row id c rows))

known-insert_distinct :
    (c : ℕ) (codes : List ℕ)
    → contains c catalogue ≡ true
    → known codes ≡ true
    → known (insert_distinct c codes) ≡ true
known-insert_distinct c [] h k = ground arith
known-insert_distinct c (d ∷ codes) h k = ground (arith, known-insert_distinct c codes)

known-sort_distinct : (codes : List ℕ) → known codes ≡ true → known (sort_distinct codes) ≡ true
known-sort_distinct [] k = refl
known-sort_distinct (c ∷ codes) k =
    known-insert_distinct c (sort_distinct codes) (ground arith)
      (known-sort_distinct codes (ground arith))

edit-only_known :
    (t : Tenant) (e : Edit)
    → only_known t.role_permissions ≡ true
    → only_known (after t (edit t e)).role_permissions ≡ true
edit-only_known t (creating id name permissions level) h = ground (
  arith,
  only_known-with_rows id (sort_distinct permissions) t.role_permissions,
  known-sort_distinct permissions,
)
edit-only_known t (setting_permissions id permissions) h = ground (
  arith,
  only_known-with_rows id (sort_distinct permissions) (without id t.role_permissions),
  known-sort_distinct permissions,
  only_known-without id t.role_permissions,
)
edit-only_known t (setting_clearance id level) h = ground arith
edit-only_known t (setting_labels id label_ids) h = ground arith
edit-only_known t (deleting id) h = ground (arith, only_known-without id t.role_permissions)

-- Edits grant no permission that is not in the catalogue.
pub edits-only_known :
    (es : List Edit) (t : Tenant)
    → only_known t.role_permissions ≡ true
    → only_known (edits t es).role_permissions ≡ true
edits-only_known [] t h = h
edits-only_known (e ∷ es) t h = edits-only_known es (after t (edit t e)) (edit-only_known t e h)

find_role-without_role :
    (id : ℕ) (t : Tenant) (rs : List RoleRow)
    → find_role id (map (role_of t) (without_role id rs)) ≡ none
find_role-without_role id t [] = refl
find_role-without_role id t (r ∷ rs) = ground (arith, find_role-without_role id t rs)

count_of_deleted : (id : ℕ) (rows : Rows) → count_of id (without id rows) ≡ 0
count_of_deleted id [] = refl
count_of_deleted id ((r, u) ∷ rows) = ground (arith, count_of_deleted id rows)

-- Where `delete` succeeds, the role is not found any more, nobody is assigned it, and it has no
-- permission and no label.
pub delete_removes :
    (t t' : Tenant) (id : ℕ)
    → delete t id ≡ done t'
    → (find_role id (visible t') ≡ none)
      × (count_of id t'.user_roles ≡ 0)
      × (seconds_of id t'.role_permissions ≡ [])
      × (seconds_of id t'.role_labels ≡ [])
delete_removes t t' id h = ground (
  arith,
  find_role-without_role id t' t.roles,
  count_of_deleted id t.user_roles,
  seconds_of-without id id t.role_permissions,
  seconds_of-without id id t.role_labels,
)

contains-without_user :
    (user role other : ℕ) (rows : Rows)
    → contains other (seconds_of role (without_user user rows))
      ≡ (not (other == user) && contains other (seconds_of role rows))
contains-without_user user role other [] = ground arith
contains-without_user user role other ((r, u) ∷ rows) =
    ground (arith, contains-without_user user role other rows)

contains-insert_roles :
    (user role other : ℕ) (role_ids : List ℕ) (rows rows' : Rows)
    → insert_roles user role_ids rows ≡ some rows'
    → contains other (seconds_of role rows')
      ≡ ((other == user && contains role role_ids) || contains other (seconds_of role rows))
contains-insert_roles user role other [] rows rows' h = ground arith
contains-insert_roles user role other (q ∷ role_ids) rows rows' h = ground (
  arith,
  contains-insert_roles user role other role_ids (with_row q user rows) rows',
  contains-with_row q role user other rows,
)

-- Where `assign` succeeds, the user has exactly the roles named, each a role of the tenant, and every
-- other user has those of before.
pub assign_replaces :
    (t t' : Tenant) (user role other : ℕ) (role_ids : List ℕ)
    → assign t user role_ids ≡ done t'
    → (is_subset role_ids (ids_of t.roles) ≡ true)
      × (contains other (seconds_of role t'.user_roles) ≡ (
          if other == user
          then contains role role_ids
          else contains other (seconds_of role t.user_roles)))
assign_replaces t t' user role other role_ids h =
    let rows = without_user user t.user_roles in
    ground (
      arith,
      contains-insert_roles user role other role_ids rows t'.user_roles,
      contains-without_user user role other t.user_roles,
    )
