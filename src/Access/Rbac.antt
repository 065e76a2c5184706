-- ===== src/Access/Rbac.antt =====
-- security/rbac.go: roles with inheritance, and the roles of each subject. Maps are association
-- lists, a pointer argument is an `Option`, times are numbers.
pub mod Collect
pub mod Permits
pub mod Integrity
use fragmenta.Base.{ℕ, zero, suc, ◌+◌, List, [], ◌∷◌, ◌++◌, length, any}
use fragmenta.Base.{Bool, true, false, not, ◌&&◌, ◌||◌, if◌then◌else◌, Option, none, some}
use fragmenta.Base.{Result, ok, err, ◌>>=◌, ◌>>◌, text_eq}
use fragmenta.Base.Map.{lookup, insert, delete, text_keys}
use fragmenta.Access.Acl.{Text, Resource, star, match_resource_id}

pub record Permission : Type 0 where
  pub resource : Text
  pub resource_pattern : Text
  pub operations : List Text

pub record Role : Type 0 where
  pub id : Text
  pub name : Text
  pub description : Text
  pub permissions : List Permission
  pub parent_roles : List Text
  pub created_at : ℕ
  pub updated_at : ℕ

-- DefaultRBACManager.
pub record Rbac : Type 0 where
  pub roles : List (Text × Role)
  pub subject_roles : List (Text × List Text)

-- `out_of_fuel` is no outcome of the program.
pub data RbacError : Type 0 where
  nil_role empty_role_id empty_subject_id out_of_fuel : RbacError
  role_exists role_missing : Text → RbacError

abbrev pub new_rbac : Rbac
new_rbac = record { roles = []; subject_roles = [] }

-- The loop that looks for a string in a slice; also the test `result[id]` of a set of strings.
unfoldable pub contains : Text → List Text → Bool
contains x [] = false
contains x (y ∷ ys) = text_eq y x || contains x ys

-- The loop that keeps the strings other than `x`.
unfoldable pub without : Text → List Text → List Text
without x [] = []
without x (y ∷ ys) = let rest = without x ys in if text_eq y x then rest else y ∷ rest

unfoldable pub require_role : Text → Rbac → Result RbacError Role
require_role id m = elim (lookup id m.roles) [ none ↦ err (role_missing id) | some role ↦ ok role ]

abbrev pub require_text : Text → RbacError → Result RbacError (Unit {0})
require_text t e = if text_eq t [] then err e else ok tt

-- CreateRole. `now` is what time.Now() returns.
unfoldable pub create_role : ℕ → Option Role → Rbac → Result RbacError Rbac
create_role now none m = err nil_role
create_role now (some role) m = do
  require_text role.id empty_role_id
  elim (lookup role.id m.roles) [
    | some old ↦ err (role_exists role.id)
    | none ↦
        let role' = record role { created_at = now; updated_at = now } in
        ok (record m { roles = insert role.id role' m.roles })
  ]

-- UpdateRole keeps the time of creation.
unfoldable pub update_role : ℕ → Option Role → Rbac → Result RbacError Rbac
update_role now none m = err nil_role
update_role now (some role) m = do
  require_text role.id empty_role_id
  old ← require_role role.id m
  let role' = record role { created_at = old.created_at; updated_at = now }
  ok (record m { roles = insert role.id role' m.roles })

-- The loop of DeleteRole over all subjects.
unfoldable pub drop_from_subjects : Text → List (Text × List Text) → List (Text × List Text)
drop_from_subjects id [] = []
drop_from_subjects id ((s, rs) ∷ m) = (s, without id rs) ∷ drop_from_subjects id m

-- DeleteRole.
unfoldable pub delete_role : Text → Rbac → Result RbacError Rbac
delete_role id m = do
  require_text id empty_role_id
  old ← require_role id m
  ok (record { roles = delete id m.roles; subject_roles = drop_from_subjects id m.subject_roles })

-- GetRole.
unfoldable pub get_role : Text → Rbac → Result RbacError Role
get_role id m = do require_text id empty_role_id; require_role id m

abbrev pub values {ℓ} : {K : Type 0} {V : Type ℓ} → List (K × V) → List V
values [] = []
values ((k, v) ∷ m) = v ∷ values m

-- ListRoles, in the order of the `range` loop.
unfoldable pub list_roles : Rbac → List Role
list_roles m = values m.roles

-- AddRoleToSubject.
unfoldable pub add_role_to_subject : Text → Text → Rbac → Result RbacError Rbac
add_role_to_subject subject id m = do
  require_text subject empty_subject_id
  require_text id empty_role_id
  role ← require_role id m
  elim (lookup subject m.subject_roles) [
    | none ↦ ok (record m { subject_roles = insert subject (id ∷ []) m.subject_roles })
    | some rs ↦
        if contains id rs
        then ok m
        else ok (record m { subject_roles = insert subject (rs ++ id ∷ []) m.subject_roles })
  ]

abbrev pub is_empty {ℓ} : {A : Type ℓ} → List A → Bool
is_empty [] = true
is_empty (x ∷ xs) = false

-- RemoveRoleFromSubject. A subject that is left without roles is forgotten.
unfoldable pub remove_role_from_subject : Text → Text → Rbac → Result RbacError Rbac
remove_role_from_subject subject id m = do
  require_text subject empty_subject_id
  require_text id empty_role_id
  elim (lookup subject m.subject_roles) [
    | none ↦ ok m
    | some rs ↦
        if not (contains id rs)
        then ok m
        else if is_empty (without id rs)
        then ok (record m { subject_roles = delete subject m.subject_roles })
        else ok (record m { subject_roles = insert subject (without id rs) m.subject_roles })
  ]

-- A loop that calls collectRoles for each name, with the set that it fills.
unfoldable pub collect_each :
    (Text → List Text → Option (List Text)) → List Text → List Text → Option (List Text)
collect_each visit [] seen = some seen
collect_each visit (id ∷ ids) seen = elim (visit id seen) [
  | none ↦ none
  | some seen' ↦ collect_each visit ids seen'
]

-- collectRoles. Each call takes one unit of fuel; `none` means that the fuel ran out.
unfoldable pub collect_roles : ℕ → List (Text × Role) → Text → List Text → Option (List Text)
collect_roles zero roles id seen = none
collect_roles (suc fuel) roles id seen = elim (contains id seen) [
  | true ↦ some seen
  | false ↦ elim (lookup id roles) [
    | none ↦ some (id ∷ seen)
    | some role ↦ collect_each (collect_roles fuel roles) role.parent_roles (id ∷ seen)
  ]
]

-- A role is gone into once, so one call more than there are roles is deep enough.
abbrev pub depth_for : List (Text × Role) → ℕ
depth_for roles = suc (length roles)

-- GetSubjectRoles.
unfoldable pub get_subject_roles : Text → Rbac → Result RbacError (List Text)
get_subject_roles subject m = do
  require_text subject empty_subject_id
  elim (lookup subject m.subject_roles) [
    | none ↦ ok []
    | some rs ↦ elim (collect_each (collect_roles (depth_for m.roles) m.roles) rs []) [
      | none ↦ err out_of_fuel
      | some seen ↦ ok seen
    ]
  ]

unfoldable pub permits : Resource → Text → Permission → Bool
permits r operation p =
    (text_eq p.resource [] || text_eq p.resource r.type || text_eq p.resource star)
    && (text_eq p.resource_pattern [] || match_resource_id p.resource_pattern r.id)
    && any (λ o. text_eq o operation || text_eq o star) p.operations

-- hasPermission.
unfoldable pub has_permission : Role → Resource → Text → Bool
has_permission role r operation = any (permits r operation) role.permissions

unfoldable pub role_permits : Rbac → Resource → Text → Text → Bool
role_permits m r operation id = elim (lookup id m.roles) [
  | none ↦ false
  | some role ↦ has_permission role r operation
]

-- CheckPermission.
unfoldable pub check_permission : Text → Resource → Text → Rbac → Result RbacError Bool
check_permission subject r operation m = do
  require_text subject empty_subject_id
  ids ← get_subject_roles subject m
  ok (any (role_permits m r operation) ids)

-- AddPermission.
unfoldable pub add_permission : Text → Text → List Text → Role → Role
add_permission resource pattern operations role =
    let p : Permission = record {
      resource = resource;
      resource_pattern = pattern;
      operations = operations;
    } in
    record role { permissions = role.permissions ++ p ∷ [] }

-- AddParentRole.
unfoldable pub add_parent_role : Text → Role → Role
add_parent_role id role =
    if contains id role.parent_roles
    then role
    else record role { parent_roles = role.parent_roles ++ id ∷ [] }
