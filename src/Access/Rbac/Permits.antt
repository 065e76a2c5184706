-- ===== src/Access/Rbac/Permits.antt =====
-- Which roles a subject has, and what they permit.
use fragmenta.Base.{◌≡◌, ◌≢◌, ap, arith, inl, inr, ◌↔◌, ok}
use fragmenta.Base.{List, [], ◌∷◌, any, Bool, true, some}
use fragmenta.Base.{Option-cases, Bool-cases, text_eq_iff, text_eq_self}
use fragmenta.Base.Map.{lookup, text_keys}
use fragmenta.Access.Acl.{Text, Resource}
use fragmenta.Access.Rbac.{Role, Rbac, contains, collect_each, collect_roles, depth_for}
use fragmenta.Access.Rbac.{get_subject_roles, check_permission, has_permission, role_permits}
use fragmenta.Access.Rbac.Collect.{
  Inherits, self, parent, Visited, HasParents, collect_each-Visited,
}
use fragmenta.Access.Rbac.Collect.{
  collect_roles-Visited, contains-nil, contains-cons_cases, unseen-le-length,
}
use mathlib.Core.Option

-- The roles that are assigned to a subject itself.
abbrev pub assigned : Rbac → Text → List Text
assigned m subject = Option.get_or (lookup subject m.subject_roles) []

-- `id` is assigned to the subject, or inherited by a role that is.
abbrev pub Holds : Rbac → Text → Text → Type 0
Holds m subject id = (s : Text) × (contains s (assigned m subject) ≡ true) × Inherits m.roles s id

-- A set that is closed under parents holds what its members inherit.
closed-Inherits :
    (roles : List (Text × Role)) (out : List Text) (a b : Text)
    → ((x : Text) → contains x out ≡ true → HasParents roles out x)
    → contains a out ≡ true
    → Inherits roles a b
    → contains b out ≡ true
closed-Inherits roles out a b closed h self = h
closed-Inherits roles out a b closed h (parent {p} role found is_parent i) =
    closed-Inherits roles out p b closed (closed a h role p found is_parent) i

collect_all :
    (roles : List (Text × Role)) (ids : List Text)
    → (out : List Text) × (collect_each (collect_roles (depth_for roles) roles) ids [] ≡ some out)
      × Visited roles ids [] out
collect_all roles ids =
    collect_each-Visited roles (depth_for roles) (collect_roles (depth_for roles) roles)
      (collect_roles-Visited roles (depth_for roles)) ids []
      (omega (arith, unseen-le-length roles []))

Visited-iff :
    (roles : List (Text × Role)) (ids out : List Text)
    → Visited roles ids [] out
    → (x : Text)
    → (contains x out ≡ true) ↔ ((s : Text) × (contains s ids ≡ true) × Inherits roles s x)
Visited-iff roles ids out v x = (only, all_of)
  where
    only : contains x out ≡ true → (s : Text) × (contains s ids ≡ true) × Inherits roles s x
    only e = elim (v.sound x e) [ inl before ↦ absurd (cc (contains-nil x)) | inr found ↦ found ]

    closed : (y : Text) → contains y out ≡ true → HasParents roles out y
    closed y e = elim (v.closed y e) [ inl before ↦ absurd (cc (contains-nil y)) | inr has ↦ has ]

    all_of : (s : Text) × (contains s ids ≡ true) × Inherits roles s x → contains x out ≡ true
    all_of (s, at, i) = closed-Inherits roles out s x closed (v.reached s at) i

-- GetSubjectRoles succeeds for every subject with a name, and returns exactly the roles that the
-- subject holds: those assigned to it and those that these inherit, however the roles refer to one
-- another.
pub get_subject_roles_lem :
    (m : Rbac) (subject : Text)
    → subject ≢ []
    → (out : List Text) × (get_subject_roles subject m ≡ ok out)
      × ((x : Text) → (contains x out ≡ true) ↔ Holds m subject x)
unfolding get_subject_roles
get_subject_roles_lem m subject named = elim (Option-cases (lookup subject m.subject_roles)) [
  | inl missing ↦ (
    [],
    ground (arith, text_eq_iff subject []),
    λ x. (λ e. absurd (cc (contains-nil x)), λ (s, at, i). absurd (ground (arith, contains-nil s))),
  )
  | inr (rs, found) ↦
      let (out, e, v) = collect_all m.roles rs in
      (out, ground (arith, text_eq_iff subject []), rw found (Visited-iff m.roles rs out v))
]

any-holds :
    (p : Text → Bool) (ids : List Text)
    → any p ids ≡ true
    → (x : Text) × (contains x ids ≡ true) × (p x ≡ true)
unfolding contains
any-holds p [] e = absurd (cc)
any-holds p (id ∷ ids) e = elim (Bool-cases (p id)) [
  | inl here ↦ (id, ground (arith, text_eq_self id), here)
  | inr later ↦ let (x, at, q) = any-holds p ids (ground arith) in (x, ground arith, q)
]

holds-any :
    (p : Text → Bool) (x : Text) (ids : List Text)
    → contains x ids ≡ true
    → p x ≡ true
    → any p ids ≡ true
holds-any p x [] at q = absurd (cc (contains-nil x))
holds-any p x (id ∷ ids) at q = elim (contains-cons_cases x id ids at) [
  | inl same ↦ ground (arith, ap p same)
  | inr later ↦ ground (arith, holds-any p x ids later q)
]

-- A role that the subject holds has a permission for the request.
abbrev pub IsPermitted : Rbac → Text → Resource → Text → Type 0
IsPermitted m subject r operation =
    (id : Text) × (role : Role) × Holds m subject id
    × (lookup id m.roles ≡ some role)
    × (has_permission role r operation ≡ true)

role_permits_inv :
    (m : Rbac) (r : Resource) (operation id : Text)
    → role_permits m r operation id ≡ true
    → (role : Role) × (lookup id m.roles ≡ some role) × (has_permission role r operation ≡ true)
unfolding role_permits
role_permits_inv m r operation id e = elim (Option-cases (lookup id m.roles)) [
  | inl missing ↦ absurd (ground arith)
  | inr (role, found) ↦ (role, found, ground arith)
]

-- CheckPermission answers every subject with a name, and says yes exactly if some existing role
-- that the subject holds, by assignment or by inheritance, has a permission for the request.
pub check_permission_iff :
    (m : Rbac) (subject : Text) (r : Resource) (operation : Text)
    → subject ≢ []
    → (b : Bool) × (check_permission subject r operation m ≡ ok b)
      × ((b ≡ true) ↔ IsPermitted m subject r operation)
unfolding check_permission
check_permission_iff m subject r operation named =
    let (ids, e, holds) = get_subject_roles_lem m subject named in
    let test = role_permits m r operation in
    (
      any test ids,
      ground (arith, text_eq_iff subject []),
      (
        λ yes_.
            let (id, at, q) = any-holds test ids yes_ in
            let (role, found, permits) = role_permits_inv m r operation id q in
            (id, role, (holds id).0 at, found, permits),
        λ (id, role, h, found, permits).
            holds-any test id ids ((holds id).1 h) (unfold role_permits in ground arith),
      ),
    )
