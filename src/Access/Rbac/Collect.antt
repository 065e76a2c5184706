-- ===== src/Access/Rbac/Collect.antt =====
-- collectRoles finds the roles that are inherited, all of them and no others, and it ends.
use fragmenta.Base.{ℕ, zero, suc, ◌≤◌, ◌<◌, ◌≡◌, refl, ap, arith, ◌⊎◌, inl, inr}
use fragmenta.Base.{List, [], ◌∷◌, length, true, false, ◌||◌, if◌then◌else◌}
use fragmenta.Base.{
  Option, none, some, Option-cases, Bool-cases, text_eq, text_eq_iff, text_eq_self,
}
use mathlib.Core.Path.{subst}
use fragmenta.Base.Map.{lookup, text_keys}
use fragmenta.Access.Acl.{Text}
use fragmenta.Access.Rbac.{Role, contains, collect_each, collect_roles}

-- How many of the roles have not been seen.
unfoldable pub unseen : List (Text × Role) → List Text → ℕ
unseen [] seen = 0
unseen ((k, role) ∷ roles) seen =
    let rest = unseen roles seen in if contains k seen then rest else suc rest

abbrev pub Extends : List Text → List Text → Type 0
Extends seen out = (x : Text) → contains x seen ≡ true → contains x out ≡ true

pub unseen-le-length :
    (roles : List (Text × Role)) (seen : List Text) → unseen roles seen ≤ length roles
unfolding unseen
unseen-le-length [] seen = omega arith
unseen-le-length ((k, role) ∷ roles) seen = ground (arith, unseen-le-length roles seen)

unseen_mono :
    (roles : List (Text × Role)) (seen out : List Text)
    → Extends seen out
    → unseen roles out ≤ unseen roles seen
unfolding unseen
unseen_mono [] seen out h = omega arith
unseen_mono ((k, role) ∷ roles) seen out h = ground (arith, unseen_mono roles seen out h, h k)

pub contains-cons :
    (x y : Text) (ys : List Text) → contains x (y ∷ ys) ≡ (text_eq y x || contains x ys)
unfolding contains
contains-cons x y ys = refl

pub contains-nil : (x : Text) → contains x [] ≡ false
unfolding contains
contains-nil x = refl

pub contains-cons_cases :
    (x y : Text) (ys : List Text) → contains x (y ∷ ys) ≡ true → (y ≡ x) ⊎ (contains x ys ≡ true)
unfolding contains
contains-cons_cases x y ys h = elim (Bool-cases (text_eq y x)) [
  | inl same ↦ inl ((text_eq_iff y x).0 same)
  | inr other ↦ inr (rw other at h)
]

contains-singleton : (x : Text) → contains x (x ∷ []) ≡ true
unfolding contains
contains-singleton x = ground (arith, text_eq_self x)

Extends-cons : (y : Text) (ys : List Text) → Extends ys (y ∷ ys)
Extends-cons y ys x h = ground (arith, contains-cons x y ys)

-- Going into a role that exists and has not been seen leaves one less to see.
unseen_drop :
    (roles : List (Text × Role)) (id : Text) (seen : List Text) {role : Role}
    → lookup id roles ≡ some role
    → contains id seen ≡ false
    → suc (unseen roles (id ∷ seen)) ≤ unseen roles seen
unfolding unseen lookup
unseen_drop [] id seen h new = cc
unseen_drop ((k, r) ∷ roles) id seen {role} h new = elim (Bool-cases (text_eq k id)) [
  | inl same ↦ ground (
    arith,
    text_eq_iff k id,
    text_eq_self id,
    contains-cons k id seen,
    unseen_mono roles seen (id ∷ seen) (Extends-cons id seen),
  )
  | inr other ↦ ground (
    arith,
    text_eq_iff k id,
    text_eq_iff id k,
    contains-cons k id seen,
    unseen_drop roles id seen {role = role} (rw other at h) new,
  )
]

-- `b` is `a` or a role that `a` inherits from, through the parents of roles that exist.
pub data Inherits (roles : List (Text × Role)) : Text → Text → Type 0 where
  self : {a : Text} → Inherits roles a a
  parent :
      {a p b : Text} (role : Role)
      → lookup a roles ≡ some role
      → contains p role.parent_roles ≡ true
      → Inherits roles p b
      → Inherits roles a b

-- All parents of the role `x` are in `out`.
abbrev pub HasParents : List (Text × Role) → List Text → Text → Type 0
HasParents roles out x =
    (role : Role) (p : Text)
    → lookup x roles ≡ some role
    → contains p role.parent_roles ≡ true
    → contains p out ≡ true

-- What a visit that starts with the set `seen` at the names `starts` makes of the set.
pub record Visited (roles : List (Text × Role)) (starts seen out : List Text) : Type 0 where
  pub extends : Extends seen out
  pub reached : (x : Text) → contains x starts ≡ true → contains x out ≡ true
  pub sound :
      (x : Text)
      → contains x out ≡ true
      → (contains x seen ≡ true) ⊎ ((s : Text) × (contains s starts ≡ true) × Inherits roles s x)
  pub closed :
      (x : Text) → contains x out ≡ true → (contains x seen ≡ true) ⊎ HasParents roles out x

Visited-cons :
    (roles : List (Text × Role)) (id : Text) (ids seen mid out : List Text)
    → Visited roles (id ∷ []) seen mid
    → Visited roles ids mid out
    → Visited roles (id ∷ ids) seen out
unfolding contains
Visited-cons roles id ids seen mid out v w = record {
  extends = λ x e. w.extends x (v.extends x e);
  reached = λ x e. ground (arith, v.reached x, w.extends x, w.reached x);
  sound = λ x e. elim (w.sound x e) [
    | inr (s, at, i) ↦ inr (s, ground arith, i)
    | inl before ↦ elim (v.sound x before) [
      | inl first ↦ inl first
      | inr (s, at, i) ↦ inr (s, ground arith, i)
    ]
  ];
  closed = λ x e. elim (w.closed x e) [
    | inr has ↦ inr has
    | inl before ↦ elim (v.closed x before) [
      | inl first ↦ inl first
      | inr has ↦ inr (λ role p l c. w.extends p (has role p l c))
    ]
  ];
}

-- A visit at each of the names does the same for all of them.
pub collect_each-Visited :
    (roles : List (Text × Role)) (fuel : ℕ) (visit : Text → List Text → Option (List Text))
    → ((id : Text) (seen : List Text)
        → unseen roles seen < fuel
        → (out : List Text) × (visit id seen ≡ some out) × Visited roles (id ∷ []) seen out)
    → (ids seen : List Text) → unseen roles seen < fuel
    → (out : List Text) × (collect_each visit ids seen ≡ some out) × Visited roles ids seen out
unfolding collect_each contains
collect_each-Visited roles fuel visit step [] seen h = (
  seen,
  refl,
  record { extends = λ x e. e; reached = λ x e. cc; sound = λ x e. inl e; closed = λ x e. inl e },
)
collect_each-Visited roles fuel visit step (id ∷ ids) seen h =
    let (mid, e, v) = step id seen h in
    let (out, e', w) =
      collect_each-Visited roles fuel visit step ids mid
        (omega (arith, unseen_mono roles seen mid v.extends)) in
    (out, rw (e, collect_each) e', Visited-cons roles id ids seen mid out v w)

-- A role without parents, or a name that is no role.
Visited-leaf :
    (roles : List (Text × Role)) (id : Text) (seen : List Text)
    → lookup id roles ≡ none
    → Visited roles (id ∷ []) seen (id ∷ seen)
unfolding contains
Visited-leaf roles id seen missing = record {
  extends = Extends-cons id seen;
  reached = λ x e. ground arith;
  sound = λ x e. elim (contains-cons_cases x id seen e) [
    | inl same ↦ inr (id, contains-singleton id, subst (Inherits roles id) same self)
    | inr before ↦ inl before
  ];
  closed = λ x e. elim (contains-cons_cases x id seen e) [
    | inl same ↦ inr (λ role p l c. absurd (ground (arith, ap (λ k. lookup k roles) same)))
    | inr before ↦ inl before
  ];
}

Visited-seen :
    (roles : List (Text × Role)) (id : Text) (seen : List Text)
    → contains id seen ≡ true
    → Visited roles (id ∷ []) seen seen
unfolding contains
Visited-seen roles id seen old = record {
  extends = λ x e. e;
  reached = λ x e. ground (arith, text_eq_iff id x);
  sound = λ x e. inl e;
  closed = λ x e. inl e;
}

Visited-parents :
    (roles : List (Text × Role)) (id : Text) (role : Role) (seen out : List Text)
    → lookup id roles ≡ some role
    → Visited roles role.parent_roles (id ∷ seen) out
    → Visited roles (id ∷ []) seen out
Visited-parents roles id role seen out found v = record {
  extends = λ x e. v.extends x (Extends-cons id seen x e);
  reached = λ x e.
      ground (arith, v.extends x, contains-cons x id [], contains-nil x, contains-cons x id seen);
  sound = λ x e. elim (v.sound x e) [
    | inl before ↦ elim (contains-cons_cases x id seen before) [
      | inl same ↦ inr (id, contains-singleton id, subst (Inherits roles id) same self)
      | inr old ↦ inl old
    ]
    | inr (s, at, i) ↦ inr (id, contains-singleton id, Inherits.parent role found at i)
  ];
  closed = λ x e. elim (v.closed x e) [
    | inr has ↦ inr has
    | inl before ↦ elim (contains-cons_cases x id seen before) [
      | inr old ↦ inl old
      | inl same ↦ inr (subst (HasParents roles out) same has_parents)
    ]
  ];
}
  where
    has_parents : HasParents roles out id
    has_parents role' p l c = v.reached p (ground arith)

pub collect_roles-Visited :
    (roles : List (Text × Role)) (fuel : ℕ) (id : Text) (seen : List Text)
    → unseen roles seen < fuel
    → (out : List Text) × (collect_roles fuel roles id seen ≡ some out)
      × Visited roles (id ∷ []) seen out
unfolding collect_roles
collect_roles-Visited roles zero id seen h = absurd (omega arith)
collect_roles-Visited roles (suc fuel) id seen h = elim (Bool-cases (contains id seen)) [
  | inl old ↦ (seen, rw (old, collect_roles) refl, Visited-seen roles id seen old)
  | inr new ↦ elim (Option-cases (lookup id roles)) [
    | inl missing ↦
        (id ∷ seen, rw (new, missing, collect_roles) refl, Visited-leaf roles id seen missing)
    | inr (role, found) ↦
        let (out, e, v) =
          collect_each-Visited roles fuel (collect_roles fuel roles)
            (collect_roles-Visited roles fuel) role.parent_roles (id ∷ seen)
            (omega (arith, unseen_drop roles id seen found new)) in
        (out, rw (new, found, collect_roles) e, Visited-parents roles id role seen out found v)
  ]
]
