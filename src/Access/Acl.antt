-- ===== src/Access/Acl.antt =====
-- security/acl.go: the access control list. A Go string is a list of bytes, a string map an
-- association list, a time the nanoseconds since Go's zero time, a pointer argument an `Option`.
-- Entries are held by value: that a caller changes an entry after handing it over is not modelled.
pub mod Matching
pub mod Decision
pub mod Changes
pub mod Kept
use fragmenta.Base.{ℕ, suc, List, [], ◌∷◌, ◌++◌, length, any, all, take, ◌-◌, ltb, ◌==◌}
use fragmenta.Base.{Bool, true, false, not, ◌&&◌, ◌||◌, if◌then◌else◌, Option, none, some}
use fragmenta.Base.{Result, ok, err, ◌>>=◌, ◌>>◌, codes, text_eq, has_prefix, has_suffix}
use fragmenta.Base.Map.{lookup, text_keys}
use mathlib.Core.Option

abbrev pub Text : Type 0
Text = List ℕ

pub record Subject : Type 0 where
  pub id : Text
  pub type : Text
  pub attributes : List (Text × Text)

pub record Resource : Type 0 where
  pub id : Text
  pub type : Text
  pub attributes : List (Text × Text)

-- Of the conditions only their number is read.
pub record AclEntry : Type 0 where
  pub subject : Subject
  pub resource : Resource
  pub operation : Text
  pub policy : Text
  pub conditions : ℕ
  pub created_at : ℕ
  pub expires_at : Option ℕ

pub data AclError : Type 0 where
  nil_entry duplicate_entry entry_not_found : AclError
  invalid_subject invalid_resource invalid_operation invalid_policy : AclError

abbrev pub allow_policy : Text
allow_policy = codes "allow"

abbrev pub deny_policy : Text
deny_policy = codes "deny"

abbrev pub star : Text
star = codes "*"

-- DefaultACLManager: its entries, in the order in which they were added.
abbrev pub Acl : Type 0
Acl = List AclEntry

-- m[k] on a map[string]string: the empty string for a missing key.
unfoldable pub attribute : Text → List (Text × Text) → Text
attribute k m = Option.get_or (lookup k m) []

-- The loop `for k, v := range a { if b[k] != v { return false } }`.
unfoldable pub attributes_match : List (Text × Text) → List (Text × Text) → Bool
attributes_match a b = all (λ p. text_eq (attribute p.0 b) p.1) a

unfoldable pub subject_equal : Subject → Subject → Bool
subject_equal a b =
    text_eq a.id b.id
    && text_eq a.type b.type
    && length a.attributes == length b.attributes
    && attributes_match a.attributes b.attributes

unfoldable pub resource_equal : Resource → Resource → Bool
resource_equal a b =
    text_eq a.id b.id
    && text_eq a.type b.type
    && length a.attributes == length b.attributes
    && attributes_match a.attributes b.attributes

unfoldable pub entries_equal : AclEntry → AclEntry → Bool
entries_equal a b =
    subject_equal a.subject b.subject
    && resource_equal a.resource b.resource
    && text_eq a.operation b.operation
    && text_eq a.policy b.policy

unfoldable pub validate_entry : AclEntry → Result AclError (Unit {0})
validate_entry e =
    if text_eq e.subject.id []
    then err invalid_subject
    else if text_eq e.resource.id []
    then err invalid_resource
    else if text_eq e.operation []
    then err invalid_operation
    else if not (text_eq e.policy allow_policy) && not (text_eq e.policy deny_policy)
    then err invalid_policy
    else ok tt

-- entry.CreatedAt.IsZero().
unfoldable pub stamp : ℕ → AclEntry → AclEntry
stamp now e = if e.created_at == 0 then record e { created_at = now } else e

-- AddEntry. `now` is what time.Now() returns.
unfoldable pub add_entry : ℕ → Option AclEntry → Acl → Result AclError Acl
add_entry now none acl = err nil_entry
add_entry now (some e) acl = do
  validate_entry e
  (if any (λ old. entries_equal old (stamp now e)) acl
      then err duplicate_entry
      else ok (acl ++ stamp now e ∷ []))

unfoldable pub remove_first : AclEntry → Acl → Result AclError Acl
remove_first e [] = err entry_not_found
remove_first e (old ∷ acl) =
    let rest = remove_first e acl in
    if entries_equal old e then ok acl else do acl' ← rest; ok (old ∷ acl')

-- RemoveEntry.
unfoldable pub remove_entry : Option AclEntry → Acl → Result AclError Acl
remove_entry none acl = err nil_entry
remove_entry (some e) acl = remove_first e acl

-- The test of UpdateEntry: like `entries_equal`, without the policy.
unfoldable pub same_target : AclEntry → AclEntry → Bool
same_target a b =
    subject_equal a.subject b.subject
    && resource_equal a.resource b.resource
    && text_eq a.operation b.operation

unfoldable pub update_first : AclEntry → Acl → Result AclError Acl
update_first e [] = err entry_not_found
update_first e (old ∷ acl) =
    let rest = update_first e acl in
    if same_target old e then ok (e ∷ acl) else do acl' ← rest; ok (old ∷ acl')

-- UpdateEntry.
unfoldable pub update_entry : Option AclEntry → Acl → Result AclError Acl
update_entry none acl = err nil_entry
update_entry (some e) acl = do validate_entry e; update_first e acl

unfoldable pub subject_match : Subject → Subject → Bool
subject_match pattern s =
    (text_eq pattern.id s.id || text_eq pattern.id star)
    && (text_eq pattern.type [] || text_eq pattern.type s.type)
    && attributes_match pattern.attributes s.attributes

-- matchResourceID: the same name, "*", "dir/*" with anything below "dir/", or "dir" with anything
-- below it.
unfoldable pub match_resource_id : Text → Text → Bool
match_resource_id pattern id =
    if text_eq pattern id
    then true
    else if text_eq pattern star
    then true
    else if has_suffix (codes "/*") pattern
    then has_prefix (take (length pattern - 1) pattern) id
    else has_prefix (pattern ++ codes "/") id

unfoldable pub resource_match : Resource → Resource → Bool
resource_match pattern r =
    match_resource_id pattern.id r.id
    && (text_eq pattern.type [] || text_eq pattern.type r.type)
    && attributes_match pattern.attributes r.attributes

unfoldable pub operation_match : Text → Text → Bool
operation_match pattern operation = text_eq pattern operation || text_eq pattern star

-- evaluateConditions, which the source calls a placeholder.
unfoldable pub evaluate_conditions : ℕ → Bool
evaluate_conditions n = if n == 0 then true else true

-- entry.ExpiresAt != nil && time.Now().After(*entry.ExpiresAt).
unfoldable pub is_expired : ℕ → AclEntry → Bool
is_expired now e = elim e.expires_at [ none ↦ false | some t ↦ ltb t now ]

-- What one entry says in CheckAccess.
pub data Verdict : Type 0 where
  skip deny allow : Verdict

unfoldable pub verdict : ℕ → Subject → Resource → Text → AclEntry → Verdict
verdict now s r operation e =
    if is_expired now e
    then skip
    else if subject_match e.subject s
        && resource_match e.resource r
        && operation_match e.operation operation
    then (if not (evaluate_conditions e.conditions)
        then skip
        else if text_eq e.policy deny_policy
        then deny
        else if text_eq e.policy allow_policy
        then allow
        else skip)
    else skip

-- The loop of CheckAccess. `clock i` is what time.Now() returns if the entry `i` asks for it.
unfoldable pub check_entries : (ℕ → ℕ) → ℕ → Subject → Resource → Text → Bool → Acl → Bool
check_entries clock i s r operation allowed [] = allowed
check_entries clock i s r operation allowed (e ∷ acl) = elim (verdict (clock i) s r operation e) [
  | skip ↦ check_entries clock (suc i) s r operation allowed acl
  | deny ↦ false
  | allow ↦ check_entries clock (suc i) s r operation true acl
]

-- CheckAccess.
unfoldable pub check_access : (ℕ → ℕ) → Subject → Resource → Text → Acl → Result AclError Bool
check_access clock s r operation acl =
    if text_eq s.id []
    then err invalid_subject
    else if text_eq r.id []
    then err invalid_resource
    else if text_eq operation []
    then err invalid_operation
    else ok (check_entries clock 0 s r operation false acl)

abbrev pub or_any {ℓ} : {A : Type ℓ} → Option A → (A → Bool) → Bool
or_any none test = true
or_any (some a) test = test a

-- ListEntries. The operation is compared without the wildcard.
unfoldable pub list_entries :
    (ℕ → ℕ) → ℕ → Option Subject → Option Resource → Option Text → Acl → List AclEntry
list_entries clock i s r operation [] = []
list_entries clock i s r operation (e ∷ acl) =
    let rest = list_entries clock (suc i) s r operation acl in
    if not (is_expired (clock i) e)
      && or_any s (subject_match e.subject)
      && or_any r (resource_match e.resource)
      && or_any operation (text_eq e.operation)
    then e ∷ rest
    else rest
