-- ===== src/Access/Control.antt =====
-- security/rbac.go, AccessControlManager: the access control list is asked first, then the roles.
use fragmenta.Base.{ℕ, ◌≡◌, ◌≢◌, refl, arith, ◌⊎◌, inl, inr, ◌↔◌, Bool, true, false, []}
use fragmenta.Base.{Result, ok, ◌>>=◌, map_err, if◌then◌else◌, Bool-cases, any}
use fragmenta.Access.Acl.{Text, Acl, AclError, Subject, Resource, check_access}
use fragmenta.Access.Acl.Decision.{decision, verdicts, is_deny, check_access-decision}
use fragmenta.Access.Rbac.{Rbac, RbacError, check_permission}
use fragmenta.Access.Rbac.Permits.{IsPermitted, check_permission_iff}

pub record AccessControl : Type 0 where
  pub acl : Acl
  pub rbac : Rbac

pub data AccessError : Type 0 where
  of_acl : AclError → AccessError
  of_rbac : RbacError → AccessError

-- AccessControlManager.CheckAccess.
unfoldable pub check_control :
    (ℕ → ℕ) → Subject → Resource → Text → AccessControl → Result AccessError Bool
check_control clock s r operation m = do
  allowed ← map_err of_acl (check_access clock s r operation m.acl)
  (if allowed then ok true else map_err of_rbac (check_permission s.id r operation m.rbac))

-- For a request whose three names are not empty, CheckAccess answers, and says yes exactly if the
-- access control list allows it or a role of the subject permits it.
pub check_control_iff :
    (clock : ℕ → ℕ) (s : Subject) (r : Resource) (operation : Text) (m : AccessControl)
    → s.id ≢ []
    → r.id ≢ []
    → operation ≢ []
    → (b : Bool) × (check_control clock s r operation m ≡ ok b)
      × ((b ≡ true)
          ↔ (decision (verdicts clock 0 s r operation m.acl) ≡ true)
            ⊎ IsPermitted m.rbac s.id r operation)
unfolding check_control
check_control_iff clock s r operation m hs hr ho =
    let acl = check_access-decision clock s r operation m.acl hs hr ho in
    let (b, e, meaning) = check_permission_iff m.rbac s.id r operation hs in
    elim (Bool-cases (decision (verdicts clock 0 s r operation m.acl))) [
      | inl allowed ↦ (true, rw (acl, allowed) refl, (λ _. inl allowed, λ _. refl))
      | inr silent ↦ (
        b,
        rw (acl, silent, e) refl,
        (λ h. inr (meaning.0 h), λ d. elim d [ inl no_ ↦ cc | inr p ↦ meaning.1 p ]),
      )
    ]

-- A deny entry does not keep out a subject that a role permits: CheckAccess says yes although an
-- entry of the list denies the request.
pub check_control_ignores_deny :
    (clock : ℕ → ℕ) (s : Subject) (r : Resource) (operation : Text) (m : AccessControl)
    → s.id ≢ []
    → r.id ≢ []
    → operation ≢ []
    → any is_deny (verdicts clock 0 s r operation m.acl) ≡ true
    → IsPermitted m.rbac s.id r operation
    → (check_access clock s r operation m.acl ≡ ok false)
      × (check_control clock s r operation m ≡ ok true)
check_control_ignores_deny clock s r operation m hs hr ho denied permitted =
    let (b, e, meaning) = check_control_iff clock s r operation m hs hr ho in
    (
      ground (arith, check_access-decision clock s r operation m.acl hs hr ho),
      ground (arith, meaning.1 (inr permitted)),
    )
