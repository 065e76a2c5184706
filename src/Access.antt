-- ===== src/Access.antt =====
-- security/acl.go and security/rbac.go: who may do what. `Acl` is the list of allow and deny
-- entries, `Rbac` the roles with their inheritance, `Control` the two together.
pub mod Acl
pub mod Rbac
pub mod Control
mod Runs
