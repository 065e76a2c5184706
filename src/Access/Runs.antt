-- ===== src/Access/Runs.antt =====
-- Concrete runs of access control, and its theorems at concrete inputs.
use fragmenta.Base.{ℕ, ◌≡◌, refl, ◌⊎◌, ◌↔◌, Bool, true, false, List, [], ◌∷◌}
use fragmenta.Base.{none, some, ok, codes, text_eq, has_prefix, has_suffix, any}
use fragmenta.Base.Map.{lookup, insert, text_keys}
use fragmenta.Access.Acl.{Text, AclEntry, Subject, Resource, allow_policy, deny_policy}
use fragmenta.Access.Acl.{add_entry, remove_entry, check_access, validate_entry, stamp}
use fragmenta.Access.Acl.{entries_equal, subject_equal, resource_equal, attributes_match, attribute}
use fragmenta.Access.Acl.{match_resource_id, is_expired, subject_match, resource_match}
use fragmenta.Access.Acl.{operation_match, evaluate_conditions, verdict, check_entries}
use fragmenta.Access.Acl.Matching.{Matches, match_resource_id_iff}
use fragmenta.Access.Acl.Decision.{
  decision, verdicts, is_deny, check_access-decision, check_access-Perm,
}
use fragmenta.Access.Acl.Changes.{HasMaps, IsConsistent, remove_entry-add_entry, with_policy}
use fragmenta.Access.Acl.Kept.{Kept, Kept-IsConsistent}
use fragmenta.Access.Rbac.{Role, Rbac, Permission, new_rbac, contains, check_permission}
use fragmenta.Access.Rbac.{get_subject_roles, has_permission, permits, create_role}
use fragmenta.Access.Rbac.Collect.{self, parent}
use fragmenta.Access.Rbac.Permits.{Holds, IsPermitted, get_subject_roles_lem, check_permission_iff}
use fragmenta.Access.Rbac.Integrity
use fragmenta.Access.Rbac.Integrity.{Reached, start, next, created, Reached-IsConsistent}
use fragmenta.Access.Control.{
  AccessControl, check_control, check_control_iff, check_control_ignores_deny,
}
use mathlib.Core.List.Perm

abbrev bob : Subject
bob = record { id = codes "bob"; type = codes "user"; attributes = [] }

abbrev document : Resource
document = record { id = codes "/p/doc"; type = codes "file"; attributes = [] }

abbrev read : Text
read = codes "read"

abbrev allow_bob : AclEntry
allow_bob = record {
  subject = bob;
  resource = record document { id = codes "/p/*" };
  operation = read;
  policy = allow_policy;
  conditions = 0;
  created_at = 1;
  expires_at = none;
}

abbrev deny_bob : AclEntry
deny_bob = record allow_bob { policy = deny_policy; expires_at = some 100 }

abbrev clock : ℕ → ℕ
clock i = 5

match_resource_id_iff_example :
    (match_resource_id (codes "/p/*") (codes "/p/doc") ≡ true)
    ↔ Matches (codes "/p/*") (codes "/p/doc")
match_resource_id_iff_example = match_resource_id_iff (codes "/p/*") (codes "/p/doc")

check_access-decision_example :
    check_access clock bob document read (allow_bob ∷ deny_bob ∷ [])
    ≡ ok (decision (verdicts clock 0 bob document read (allow_bob ∷ deny_bob ∷ [])))
check_access-decision_example =
    check_access-decision clock bob document read (allow_bob ∷ deny_bob ∷ []) (cc) (cc) (cc)

deny_comes_second : check_access clock bob document read (allow_bob ∷ deny_bob ∷ []) ≡ ok false
unfolding check_access check_entries verdict is_expired subject_match resource_match
    match_resource_id operation_match evaluate_conditions attributes_match attribute lookup text_eq
    has_suffix has_prefix
deny_comes_second = refl

check_access-Perm_example :
    check_access (λ _. 5) bob document read (allow_bob ∷ deny_bob ∷ [])
    ≡ check_access (λ _. 5) bob document read (deny_bob ∷ allow_bob ∷ [])
check_access-Perm_example =
    check_access-Perm 5 bob document read (allow_bob ∷ deny_bob ∷ []) (deny_bob ∷ allow_bob ∷ [])
      (Perm.swap deny_bob allow_bob [])

added : add_entry 7 (some deny_bob) (allow_bob ∷ []) ≡ ok (allow_bob ∷ deny_bob ∷ [])
unfolding add_entry validate_entry entries_equal subject_equal resource_equal attributes_match
    attribute lookup stamp text_eq
added = refl

allow_bob-HasMaps : HasMaps allow_bob
allow_bob-HasMaps = record { of_subject = tt; of_resource = tt }

deny_bob-HasMaps : HasMaps deny_bob
deny_bob-HasMaps = record { of_subject = tt; of_resource = tt }

remove_entry-add_entry_example :
    remove_entry (some deny_bob) (allow_bob ∷ deny_bob ∷ []) ≡ ok (allow_bob ∷ [])
remove_entry-add_entry_example =
    remove_entry-add_entry 7 deny_bob (allow_bob ∷ []) (allow_bob ∷ deny_bob ∷ []) deny_bob-HasMaps
      added

added_first : add_entry 7 (some allow_bob) [] ≡ ok (allow_bob ∷ [])
unfolding add_entry validate_entry entries_equal subject_equal resource_equal attributes_match
    attribute lookup stamp text_eq
added_first = refl

Kept-IsConsistent_example : IsConsistent (allow_bob ∷ [])
Kept-IsConsistent_example = Kept-IsConsistent (allow_bob ∷ []) (
    Kept.removed (some deny_bob)
      (Kept.added 7 (some deny_bob) (Kept.added 7 (some allow_bob) Kept.new_list added_first) added)
      (remove_entry-add_entry 7 deny_bob (allow_bob ∷ []) (allow_bob ∷ deny_bob ∷ [])
        deny_bob-HasMaps added))

deny_valid : validate_entry (with_policy deny_policy allow_bob) ≡ ok tt
unfolding validate_entry text_eq
deny_valid = refl

-- The role `editor` inherits from `viewer`, which may read everything, and `viewer` from `editor`.
abbrev plain_role : Text → List Permission → List Text → Role
plain_role id permissions parents = record {
  id = id;
  name = [];
  description = [];
  permissions = permissions;
  parent_roles = parents;
  created_at = 1;
  updated_at = 1;
}

abbrev read_all : Permission
read_all = record { resource = []; resource_pattern = codes "/p"; operations = read ∷ [] }

abbrev viewer : Role
viewer = plain_role (codes "viewer") (read_all ∷ []) (codes "editor" ∷ [])

abbrev editor : Role
editor = plain_role (codes "editor") [] (codes "viewer" ∷ [])

abbrev roles : Rbac
roles = record {
  roles = (codes "viewer", viewer) ∷ (codes "editor", editor) ∷ [];
  subject_roles = (codes "bob", codes "editor" ∷ []) ∷ [];
}

get_subject_roles_lem_example :
    (out : List Text) × (get_subject_roles (codes "bob") roles ≡ ok out)
    × ((x : Text) → (contains x out ≡ true) ↔ Holds roles (codes "bob") x)
get_subject_roles_lem_example = get_subject_roles_lem roles (codes "bob") (cc)

check_permission_iff_example :
    (b : Bool) × (check_permission (codes "bob") document read roles ≡ ok b)
    × ((b ≡ true) ↔ IsPermitted roles (codes "bob") document read)
check_permission_iff_example = check_permission_iff roles (codes "bob") document read (cc)

bob_reads : IsPermitted roles (codes "bob") document read
unfolding lookup contains has_permission permits match_resource_id has_suffix has_prefix text_eq
bob_reads = (
  codes "viewer",
  viewer,
  (codes "editor", refl, parent {p = codes "viewer"} editor refl refl self),
  refl,
  refl,
)

one_role :
    create_role 1 (some viewer) new_rbac
    ≡ ok (record new_rbac { roles = (codes "viewer", viewer) ∷ [] })
unfolding create_role lookup insert text_eq
one_role = refl

Reached-IsConsistent_example :
    Integrity.IsConsistent (record new_rbac { roles = (codes "viewer", viewer) ∷ [] })
Reached-IsConsistent_example = Reached-IsConsistent (next start (created 1 (some viewer) one_role))

abbrev control : AccessControl
control = record { acl = deny_bob ∷ []; rbac = roles }

check_control_iff_example :
    (b : Bool) × (check_control clock bob document read control ≡ ok b)
    × ((b ≡ true)
        ↔ (decision (verdicts clock 0 bob document read (deny_bob ∷ [])) ≡ true)
          ⊎ IsPermitted roles (codes "bob") document read)
check_control_iff_example = check_control_iff clock bob document read control (cc) (cc) (cc)

bob_denied : any is_deny (verdicts clock 0 bob document read (deny_bob ∷ [])) ≡ true
unfolding verdicts verdict is_expired subject_match resource_match match_resource_id operation_match
    evaluate_conditions attributes_match attribute lookup text_eq has_suffix has_prefix
bob_denied = refl

check_control_ignores_deny_example :
    (check_access clock bob document read (deny_bob ∷ []) ≡ ok false)
    × (check_control clock bob document read control ≡ ok true)
check_control_ignores_deny_example =
    check_control_ignores_deny clock bob document read control (cc) (cc) (cc) bob_denied bob_reads
