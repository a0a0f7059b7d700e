-- ===== src/Access.antt =====
-- Who may do what in a tenant: backend/app/features/auth/access.
mod Roles
mod Credentials
