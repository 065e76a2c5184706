-- ===== src/Access/Rbac/Integrity.antt =====
-- The tables of roles and of assignments stay consistent under every operation.
use fragmenta.Base.{ℕ, ◌≡◌, ◌≢◌, refl, arith, inl, inr, ok}
use fragmenta.Base.{List, [], ◌∷◌, ◌++◌, true, false, ◌||◌, Option, none, some, if◌then◌else◌}
use fragmenta.Base.{Option-cases, Bool-cases, text_eq, text_eq_iff}
use fragmenta.Base.Map.{lookup, lookup-insert, lookup-delete, insert, delete, text_keys}
use fragmenta.Access.Acl.{Text}
use fragmenta.Access.Rbac.{Role, Rbac, new_rbac, contains, without, require_role}
use fragmenta.Access.Rbac.{create_role, update_role, delete_role, drop_from_subjects}
use fragmenta.Access.Rbac.{is_empty, add_role_to_subject, remove_role_from_subject}
use mathlib.Core.Option
use mathlib.Core.Path.{subst}

-- A role stands under its own name, and every role that is assigned to a subject exists.
pub record IsConsistent (m : Rbac) : Type 0 where
  pub named : (k : Text) (role : Role) → lookup k m.roles ≡ some role → role.id ≡ k
  pub existing :
      (s : Text) (rs : List Text) (id : Text)
      → lookup s m.subject_roles ≡ some rs
      → contains id rs ≡ true
      → lookup id m.roles ≢ none

contains-without :
    (x id : Text) (ys : List Text)
    → contains x (without id ys) ≡ (if text_eq id x then false else contains x ys)
unfolding contains without
contains-without x id [] = ground arith
contains-without x id (y ∷ ys) =
    ground (arith, text_eq_iff y id, text_eq_iff y x, text_eq_iff id x, contains-without x id ys)

contains-append :
    (x : Text) (xs ys : List Text) → contains x (xs ++ ys) ≡ (contains x xs || contains x ys)
unfolding contains
contains-append x [] ys = refl
contains-append x (z ∷ xs) ys = ground (arith, contains-append x xs ys)

contains-one : (x y : Text) → contains x (y ∷ []) ≡ text_eq y x
unfolding contains
contains-one x y = ground arith

lookup-drop_from_subjects :
    (s id : Text) (m : List (Text × List Text))
    → lookup s (drop_from_subjects id m) ≡ Option.map (without id) (lookup s m)
unfolding lookup drop_from_subjects
lookup-drop_from_subjects s id [] = refl
lookup-drop_from_subjects s id ((j, rs) ∷ m) = ground (arith, lookup-drop_from_subjects s id m)

new_rbac-IsConsistent : IsConsistent new_rbac
unfolding lookup
new_rbac-IsConsistent = record { named = λ k role e. cc; existing = λ s rs id e c. cc }

-- A role that is stored under its own name keeps the tables consistent.
insert-IsConsistent :
    (m : Rbac) (role : Role)
    → IsConsistent m
    → IsConsistent (record m { roles = insert role.id role m.roles })
insert-IsConsistent m role c = record {
  named = λ k r e.
      ground (arith, lookup-insert role.id k role m.roles, text_eq_iff role.id k, c.named k r);
  existing = λ s rs id e at.
      ground (arith, lookup-insert role.id id role m.roles, c.existing s rs id e at);
}

create_role_inv :
    (now : ℕ) (role : Role) (m m' : Rbac)
    → create_role now (some role) m ≡ ok m'
    → record m {
      roles = insert role.id (record role { created_at = now; updated_at = now }) m.roles;
    }
      ≡ m'
unfolding create_role
create_role_inv now role m m' h = ground arith

-- CreateRole keeps the tables consistent.
create_role-IsConsistent :
    (now : ℕ) (role : Option Role) (m m' : Rbac)
    → IsConsistent m
    → create_role now role m ≡ ok m'
    → IsConsistent m'
create_role-IsConsistent now none m m' c h = unfold create_role in cc
create_role-IsConsistent now (some role) m m' c h =
    subst IsConsistent (create_role_inv now role m m' h)
      (insert-IsConsistent m (record role { created_at = now; updated_at = now }) c)

update_role_inv :
    (now : ℕ) (role : Role) (m m' : Rbac)
    → update_role now (some role) m ≡ ok m'
    → (old : Role) × (record m {
      roles =
          insert role.id (record role { created_at = old.created_at; updated_at = now }) m.roles;
    }
        ≡ m')
unfolding update_role require_role
update_role_inv now role m m' h = elim (Option-cases (lookup role.id m.roles)) [
  | inl missing ↦ absurd (ground arith)
  | inr (old, found) ↦ (old, ground arith)
]

-- UpdateRole keeps the tables consistent.
update_role-IsConsistent :
    (now : ℕ) (role : Option Role) (m m' : Rbac)
    → IsConsistent m
    → update_role now role m ≡ ok m'
    → IsConsistent m'
update_role-IsConsistent now none m m' c h = unfold update_role in cc
update_role-IsConsistent now (some role) m m' c h =
    let (old, e) = update_role_inv now role m m' h in
    subst IsConsistent e
      (insert-IsConsistent m (record role { created_at = old.created_at; updated_at = now }) c)

delete_role_inv :
    (id : Text) (m m' : Rbac)
    → delete_role id m ≡ ok m'
    → record { roles = delete id m.roles; subject_roles = drop_from_subjects id m.subject_roles }
      ≡ m'
unfolding delete_role require_role
delete_role_inv id m m' h = ground arith

drop_existing :
    (id : Text) (m : Rbac) (s : Text) (rs : List Text) (x : Text)
    → IsConsistent m
    → lookup s (drop_from_subjects id m.subject_roles) ≡ some rs
    → contains x rs ≡ true
    → lookup x (delete id m.roles) ≢ none
drop_existing id m s rs x c e at = elim (Option-cases (lookup s m.subject_roles)) [
  | inl missing ↦ absurd (ground (arith, lookup-drop_from_subjects s id m.subject_roles))
  | inr (before, found) ↦ ground (
    arith,
    lookup-drop_from_subjects s id m.subject_roles,
    lookup-delete id x m.roles,
    contains-without x id before,
    c.existing s before x found,
  )
]

-- DeleteRole keeps the tables consistent: no subject is left with the role.
delete_role-IsConsistent :
    (id : Text) (m m' : Rbac) → IsConsistent m → delete_role id m ≡ ok m' → IsConsistent m'
delete_role-IsConsistent id m m' c h = subst IsConsistent (delete_role_inv id m m' h) (record {
  named = λ k r e. ground (arith, lookup-delete id k m.roles, c.named k r);
  existing = λ s rs x e at. drop_existing id m s rs x c e at;
})

-- A list of existing roles may be assigned to a subject.
assign-IsConsistent :
    (m : Rbac) (subject : Text) (rs : List Text)
    → IsConsistent m
    → ((id : Text) → contains id rs ≡ true → lookup id m.roles ≢ none)
    → IsConsistent (record m { subject_roles = insert subject rs m.subject_roles })
assign-IsConsistent m subject rs c exist = record {
  named = c.named;
  existing = λ s rs' id e at.
      ground (arith, lookup-insert subject s rs m.subject_roles, c.existing s rs' id, exist id);
}

add_role_to_subject-IsConsistent :
    (subject id : Text) (m m' : Rbac)
    → IsConsistent m
    → add_role_to_subject subject id m ≡ ok m'
    → IsConsistent m'
unfolding add_role_to_subject require_role
add_role_to_subject-IsConsistent subject id m m' c h = elim (Option-cases (lookup id m.roles)) [
  | inl missing ↦ absurd (ground arith)
  | inr (role, found) ↦ elim (Option-cases (lookup subject m.subject_roles)) [
    | inl new ↦ subst IsConsistent (ground arith) (
        assign-IsConsistent m subject (id ∷ []) c
          (λ x at. ground (arith, contains-one x id, text_eq_iff id x)))
    | inr (rs, known) ↦ elim (Bool-cases (contains id rs)) [
      | inl old ↦ subst IsConsistent (ground arith) c
      | inr added ↦ subst IsConsistent (ground arith) (
          assign-IsConsistent m subject (rs ++ id ∷ []) c (λ x at. ground (
            arith,
            contains-append x rs (id ∷ []),
            contains-one x id,
            text_eq_iff id x,
            c.existing subject rs x known,
          )))
    ]
  ]
]

forget-IsConsistent :
    (m : Rbac) (subject : Text)
    → IsConsistent m
    → IsConsistent (record m { subject_roles = delete subject m.subject_roles })
forget-IsConsistent m subject c = record {
  named = c.named;
  existing =
      λ s rs id e at. ground (arith, lookup-delete subject s m.subject_roles, c.existing s rs id);
}

remove_role_from_subject-IsConsistent :
    (subject id : Text) (m m' : Rbac)
    → IsConsistent m
    → remove_role_from_subject subject id m ≡ ok m'
    → IsConsistent m'
unfolding remove_role_from_subject
remove_role_from_subject-IsConsistent subject id m m' c h =
    elim (Option-cases (lookup subject m.subject_roles)) [
      | inl new ↦ subst IsConsistent (ground arith) c
      | inr (rs, known) ↦ elim (Bool-cases (contains id rs)) [
        | inr absent ↦ subst IsConsistent (ground arith) c
        | inl held ↦ elim (Bool-cases (is_empty (without id rs))) [
          | inl last ↦ subst IsConsistent (ground arith) (forget-IsConsistent m subject c)
          | inr more ↦ subst IsConsistent (ground arith) (
              assign-IsConsistent m subject (without id rs) c
                (λ x at. ground (arith, contains-without x id rs, c.existing subject rs x known)))
        ]
      ]
    ]

-- One successful call of an operation that changes the manager.
pub data Change : Rbac → Rbac → Type 0 where
  created :
      {m m' : Rbac} (now : ℕ) (role : Option Role) → create_role now role m ≡ ok m' → Change m m'
  updated :
      {m m' : Rbac} (now : ℕ) (role : Option Role) → update_role now role m ≡ ok m' → Change m m'
  deleted : {m m' : Rbac} (id : Text) → delete_role id m ≡ ok m' → Change m m'
  assigned :
      {m m' : Rbac} (subject id : Text) → add_role_to_subject subject id m ≡ ok m' → Change m m'
  removed :
      {m m' : Rbac} (subject id : Text)
      → remove_role_from_subject subject id m ≡ ok m'
      → Change m m'

pub data Reached : Rbac → Type 0 where
  start : Reached new_rbac
  next : {m m' : Rbac} → Reached m → Change m m' → Reached m'

Change-IsConsistent : {m m' : Rbac} → IsConsistent m → Change m m' → IsConsistent m'
Change-IsConsistent c (created now role h) = create_role-IsConsistent now role _ _ c h
Change-IsConsistent c (updated now role h) = update_role-IsConsistent now role _ _ c h
Change-IsConsistent c (deleted id h) = delete_role-IsConsistent id _ _ c h
Change-IsConsistent c (assigned subject id h) = add_role_to_subject-IsConsistent subject id _ _ c h
Change-IsConsistent c (removed subject id h) =
    remove_role_from_subject-IsConsistent subject id _ _ c h

-- In every state that the operations can reach from an empty manager, each role stands under its
-- own name and every role that is assigned to a subject exists.
pub Reached-IsConsistent : {m : Rbac} → Reached m → IsConsistent m
Reached-IsConsistent start = new_rbac-IsConsistent
Reached-IsConsistent (next r change) = Change-IsConsistent (Reached-IsConsistent r) change
