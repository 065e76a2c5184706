-- ===== src/Access/Acl/Changes.antt =====
-- AddEntry, RemoveEntry and UpdateEntry.
use fragmenta.Base.{ℕ, ◌≡◌, ◌≢◌, refl, ap, ◌∙◌, arith, List, [], ◌∷◌, ◌++◌, any, All}
use fragmenta.Base.{Bool, true, false, ◌&&◌, ok, text_eq, text_eq_iff, text_eq_self}
use fragmenta.Base.{Bool-cases, inl, inr, Option, none, some, bind_inv}
use fragmenta.Base.{ok_inj}
use fragmenta.Base.Map.{lookup}
use mathlib.Core.Path.{subst, fun_ext}
use fragmenta.Access.Acl.{Text, Acl, AclEntry}
use fragmenta.Access.Acl.{attribute, attributes_match, subject_equal, resource_equal, entries_equal}
use fragmenta.Access.Acl.{validate_entry, stamp, add_entry, remove_first, remove_entry, same_target}
use fragmenta.Access.Acl.{update_first, update_entry, allow_policy, deny_policy}

-- A Go map has each key once.
abbrev pub IsMap : List (Text × Text) → Type 0
IsMap [] = Unit
IsMap ((k, v) ∷ m) = All (λ p. k ≢ p.0) m × IsMap m

attributes_match-cons :
    (k v : Text) (m big : List (Text × Text))
    → All (λ p. k ≢ p.0) m
    → attributes_match m ((k, v) ∷ big) ≡ attributes_match m big
unfolding attributes_match attribute lookup
attributes_match-cons k v [] big h = refl
attributes_match-cons k v ((j, w) ∷ m) big (ne, h) =
    ground (arith, text_eq_iff k j, attributes_match-cons k v m big h)

attributes_match_self : (m : List (Text × Text)) → IsMap m → attributes_match m m ≡ true
unfolding attributes_match attribute lookup
attributes_match_self [] h = refl
attributes_match_self ((k, v) ∷ m) (fresh, h) = ground (
  arith,
  text_eq_self k,
  text_eq_self v,
  attributes_match-cons k v m m fresh,
  attributes_match_self m h,
)

-- The attribute maps of an entry are maps.
pub record HasMaps (e : AclEntry) : Type 0 where
  pub of_subject : IsMap e.subject.attributes
  pub of_resource : IsMap e.resource.attributes

same_target_self : (e : AclEntry) → HasMaps e → same_target e e ≡ true
unfolding same_target subject_equal resource_equal
same_target_self e h = ground (
  arith,
  text_eq_self e.subject.id,
  text_eq_self e.subject.type,
  text_eq_self e.resource.id,
  text_eq_self e.resource.type,
  text_eq_self e.operation,
  attributes_match_self e.subject.attributes h.of_subject,
  attributes_match_self e.resource.attributes h.of_resource,
)

entries_equal_lem :
    (a b : AclEntry) → entries_equal a b ≡ (same_target a b && text_eq a.policy b.policy)
unfolding entries_equal same_target
entries_equal_lem a b = ground arith

entries_equal-stamp : (now : ℕ) (a e : AclEntry) → entries_equal a (stamp now e) ≡ entries_equal a e
unfolding entries_equal stamp
entries_equal-stamp now a e = ground arith

stamp-entries_equal : (now : ℕ) (a e : AclEntry) → entries_equal (stamp now e) a ≡ entries_equal e a
unfolding entries_equal stamp
stamp-entries_equal now a e = ground arith

entries_equal_self : (e : AclEntry) → HasMaps e → entries_equal e e ≡ true
entries_equal_self e h =
    ground (arith, entries_equal_lem e e, same_target_self e h, text_eq_self e.policy)

remove_first_last :
    (e last : AclEntry) (acl : Acl)
    → any (λ old. entries_equal old e) acl ≡ false
    → entries_equal last e ≡ true
    → remove_first e (acl ++ last ∷ []) ≡ ok acl
unfolding remove_first
remove_first_last e last [] h k = rw k
remove_first_last e last (old ∷ acl) h k = ground (arith, remove_first_last e last acl)

any-stamp :
    (now : ℕ) (e : AclEntry) (acl : Acl)
    → any (λ old. entries_equal old (stamp now e)) acl ≡ any (λ old. entries_equal old e) acl
any-stamp now e acl = ap (λ p. any p acl) (fun_ext λ old. entries_equal-stamp now old e)

add_entry_inv :
    (now : ℕ) (e : AclEntry) (acl acl' : Acl)
    → add_entry now (some e) acl ≡ ok acl'
    → (validate_entry e ≡ ok tt)
      × (any (λ old. entries_equal old e) acl ≡ false)
      × (acl' ≡ acl ++ stamp now e ∷ [])
unfolding add_entry
add_entry_inv now e acl acl' h =
    let (u, valid, h') = bind_inv (validate_entry e) _ h in ground (arith, any-stamp now e acl)

-- RemoveEntry takes back what AddEntry has added, if the attributes of the entry are maps.
pub remove_entry-add_entry :
    (now : ℕ) (e : AclEntry) (acl acl' : Acl)
    → HasMaps e
    → add_entry now (some e) acl ≡ ok acl'
    → remove_entry (some e) acl' ≡ ok acl
unfolding remove_entry
remove_entry-add_entry now e acl acl' maps h =
    let (_, new, whole) = add_entry_inv now e acl acl' h in
    rw whole (
      remove_first_last e (stamp now e) acl new
        (stamp-entries_equal now e e ∙ entries_equal_self e maps))

-- Each entry has passed `validate_entry`, and none equals an earlier one.
abbrev pub IsConsistent : Acl → Type 0
IsConsistent [] = Unit
IsConsistent (e ∷ acl) =
    (validate_entry e ≡ ok tt)
    × (any (λ later. entries_equal e later) acl ≡ false)
    × IsConsistent acl

validate_entry-stamp : (now : ℕ) (e : AclEntry) → validate_entry (stamp now e) ≡ validate_entry e
unfolding validate_entry stamp
validate_entry-stamp now e = ground arith

any-snoc :
    {A : Type 0} (p : A → Bool) (xs : List A) (x : A)
    → any p xs ≡ false
    → p x ≡ false
    → any p (xs ++ x ∷ []) ≡ false
any-snoc p [] x h k = rw k
any-snoc p (y ∷ xs) x h k = ground (arith, any-snoc p xs x)

IsConsistent-snoc :
    (acl : Acl) (e : AclEntry)
    → IsConsistent acl
    → validate_entry e ≡ ok tt
    → any (λ old. entries_equal old e) acl ≡ false
    → IsConsistent (acl ++ e ∷ [])
IsConsistent-snoc [] e c valid new = (valid, refl, tt)
IsConsistent-snoc (old ∷ acl) e (v, fresh, c) valid new = (
  v,
  any-snoc (λ later. entries_equal old later) acl e fresh (ground arith),
  IsConsistent-snoc acl e c valid (ground arith),
)

-- AddEntry keeps every entry valid and every entry different from the earlier ones, as entriesEqual
-- compares an earlier entry with a later one, whatever it is given.
pub add_entry-IsConsistent :
    (now : ℕ) (e : Option AclEntry) (acl acl' : Acl)
    → IsConsistent acl
    → add_entry now e acl ≡ ok acl'
    → IsConsistent acl'
add_entry-IsConsistent now none acl acl' c h = unfold add_entry in cc
add_entry-IsConsistent now (some e) acl acl' c h =
    let (valid, new, whole) = add_entry_inv now e acl acl' h in
    rw whole (
      IsConsistent-snoc acl (stamp now e) c (validate_entry-stamp now e ∙ valid)
        (any-stamp now e acl ∙ new))

-- What `remove_first` leaves fails every test that the whole list failed.
remove_first-any :
    (p : AclEntry → Bool) (e : AclEntry) (acl acl' : Acl)
    → remove_first e acl ≡ ok acl'
    → any p acl ≡ false
    → any p acl' ≡ false
unfolding remove_first
remove_first-any p e [] acl' h k = cc
remove_first-any p e (old ∷ acl) acl' h k = elim (Bool-cases (entries_equal old e)) [
  | inl same ↦ ground arith
  | inr other ↦
      let (rest, r, whole) = bind_inv (remove_first e acl) _ (rw other at h) in
      ground (arith, remove_first-any p e acl rest r)
]

remove_first-IsConsistent :
    (e : AclEntry) (acl acl' : Acl)
    → IsConsistent acl
    → remove_first e acl ≡ ok acl'
    → IsConsistent acl'
unfolding remove_first
remove_first-IsConsistent e [] acl' c h = cc
remove_first-IsConsistent e (old ∷ acl) acl' (v, fresh, c) h =
    elim (Bool-cases (entries_equal old e)) [
      | inl same ↦ subst IsConsistent (ok_inj (rw same at h)) c
      | inr other ↦
          let (rest, r, whole) = bind_inv (remove_first e acl) _ (rw other at h) in
          subst IsConsistent (ok_inj whole) (
            v,
            remove_first-any (λ later. entries_equal old later) e acl rest r fresh,
            remove_first-IsConsistent e acl rest c r,
          )
    ]

-- RemoveEntry keeps the entries valid and pairwise different.
pub remove_entry-IsConsistent :
    (e : Option AclEntry) (acl acl' : Acl)
    → IsConsistent acl
    → remove_entry e acl ≡ ok acl'
    → IsConsistent acl'
unfolding remove_entry
remove_entry-IsConsistent none acl acl' c h = cc
remove_entry-IsConsistent (some e) acl acl' c h = remove_first-IsConsistent e acl acl' c h

-- `e` with another policy.
abbrev pub with_policy : Text → AclEntry → AclEntry
with_policy p e = record e { policy = p }

same_target-with_policy :
    (p q : Text) (a b : AclEntry)
    → same_target (with_policy p a) (with_policy q b) ≡ same_target a b
unfolding same_target
same_target-with_policy p q a b = refl

-- UpdateEntry makes the second of two equal entries, which AddEntry refuses: from a list with an
-- allow and a deny entry for one target, an update to deny leaves the deny entry twice.
pub update_entry_duplicates :
    (e : AclEntry)
    → HasMaps e
    → validate_entry (with_policy deny_policy e) ≡ ok tt
    → (update_entry
          (some (with_policy deny_policy e))
          (with_policy allow_policy e ∷ with_policy deny_policy e ∷ [])
        ≡ ok (with_policy deny_policy e ∷ with_policy deny_policy e ∷ []))
      × (¬ IsConsistent (with_policy deny_policy e ∷ with_policy deny_policy e ∷ []))
unfolding update_entry update_first
update_entry_duplicates e maps valid = (
  rw (valid, same_target-with_policy allow_policy deny_policy e e, same_target_self e maps),
  λ c. ground (
    arith,
    entries_equal_self (with_policy deny_policy e)
        (record { of_subject = maps.of_subject; of_resource = maps.of_resource }),
  ),
)
