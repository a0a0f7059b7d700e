-- ===== src/Access/Roles/Tests.antt =====
-- A tenant with a system role, an editable administrator role and a spare one.
use zenith_enterprise.Common.{◌≡◌, refl, true, false, List, [], ◌∷◌}
use zenith_enterprise.Common.Text.{codes}
use zenith_enterprise.Access.Roles.{
  Tenant, refused, not_found, conflict, integrity_error, set_permissions, create, delete, assign,
}
use zenith_enterprise.Access.Roles.Administration.{
  is_administered, Edit, creating, setting_permissions, deleting, edits, edits-IsAdministered,
  after,
}

abbrev tenant : Tenant
tenant = record {
  roles =
      record { id = 1; name = codes "admin"; is_system = true; priority_level = 10 }
      ∷ record { id = 2; name = codes "people"; is_system = false; priority_level = 1 }
      ∷ record { id = 3; name = codes "spare"; is_system = false; priority_level = 1 }
      ∷ [];
  role_permissions = (1, 11) ∷ (2, 9) ∷ (2, 6) ∷ (3, 9) ∷ [];
  role_labels = (2, 70) ∷ [];
  user_roles = (1, 50) ∷ (2, 50) ∷ [];
  users = 50 ∷ 51 ∷ [];
  access_labels = 70 ∷ 71 ∷ [];
}

last_administrator_is_kept : set_permissions tenant 2 (6 ∷ []) ≡ refused conflict
last_administrator_is_kept = refl

spare_does_not_count : delete tenant 2 ≡ refused conflict
spare_does_not_count = refl

system_role_is_kept : delete tenant 1 ≡ refused conflict
system_role_is_kept = refl

unknown_code_is_refused : create tenant 4 (codes "new") (12 ∷ []) 1 ≡ refused not_found
unknown_code_is_refused = refl

role_named_twice : assign tenant 51 (2 ∷ 2 ∷ []) ≡ refused integrity_error
role_named_twice = refl

abbrev some_edits : List Edit
some_edits =
    setting_permissions 2 (6 ∷ [])
    ∷ deleting 3
    ∷ creating 4 (codes "new") (6 ∷ 6 ∷ []) 1
    ∷ setting_permissions 2 (9 ∷ 4 ∷ [])
    ∷ []

edits-IsAdministered_example : is_administered (edits tenant some_edits) ≡ true
edits-IsAdministered_example = edits-IsAdministered some_edits tenant refl

abbrev edited : Tenant
edited = after tenant (set_permissions tenant 2 (9 ∷ 4 ∷ []))

abbrev shrunk : Tenant
shrunk = after tenant (delete tenant 3)

abbrev reassigned : Tenant
reassigned = after tenant (assign tenant 51 (3 ∷ 2 ∷ []))
