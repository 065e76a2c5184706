-- ===== src/Access/Acl/Kept.antt =====
-- The lists that AddEntry and RemoveEntry lead to.
use fragmenta.Base.{ℕ, ◌≡◌, [], Option, ok}
use fragmenta.Access.Acl.{Acl, AclEntry, add_entry, remove_entry}
use fragmenta.Access.Acl.Changes.{IsConsistent, add_entry-IsConsistent, remove_entry-IsConsistent}

-- NewDefaultACLManager, and the calls that succeed; the others leave the list as it is.
pub data Kept : Acl → Type 0 where
  new_list : Kept []
  added :
      (now : ℕ) (e : Option AclEntry) {acl acl' : Acl}
      → Kept acl
      → add_entry now e acl ≡ ok acl'
      → Kept acl'
  removed :
      (e : Option AclEntry) {acl acl' : Acl} → Kept acl → remove_entry e acl ≡ ok acl' → Kept acl'

-- In every list that AddEntry and RemoveEntry lead to from an empty one, whatever they are given,
-- each entry is valid, and entriesEqual, asked with an earlier and a later entry in this order,
-- says no. It may say yes the other way round, since it looks up the attributes of its first
-- argument only.
pub Kept-IsConsistent : (acl : Acl) → Kept acl → IsConsistent acl
Kept-IsConsistent acl new_list = tt
Kept-IsConsistent acl (added now e {acl = old} k h) =
    add_entry-IsConsistent now e old acl (Kept-IsConsistent old k) h
Kept-IsConsistent acl (removed e {acl = old} k h) =
    remove_entry-IsConsistent e old acl (Kept-IsConsistent old k) h
