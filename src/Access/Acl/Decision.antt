-- ===== src/Access/Acl/Decision.antt =====
-- How the entries of an access control list make one decision.
use fragmenta.Base.{ℕ, suc, ◌≡◌, ◌≢◌, refl, ap, ◌∙◌, arith, List, [], ◌∷◌, any}
use fragmenta.Base.{Bool, true, false, not, ◌&&◌, ◌||◌, ok, text_eq_iff}
use fragmenta.Access.Acl.{Text, Acl, Subject, Resource, Verdict, deny, allow}
use fragmenta.Base.{Result}
use mathlib.Core.Path.{ap₂}
use mathlib.Core.Logic.{∥∥₁_elim}
use mathlib.Core.List.{Perm, Permᴰ}
use fragmenta.Access.Acl.{verdict, check_entries, check_access, AclError}

abbrev pub is_deny : Verdict → Bool
is_deny deny = true
is_deny _ = false

abbrev pub is_allow : Verdict → Bool
is_allow allow = true
is_allow _ = false

-- What each entry says, at the time at which it is asked.
unfoldable pub verdicts : (ℕ → ℕ) → ℕ → Subject → Resource → Text → Acl → List Verdict
verdicts clock i s r operation [] = []
verdicts clock i s r operation (e ∷ acl) =
    verdict (clock i) s r operation e ∷ verdicts clock (suc i) s r operation acl

-- The decision that the access control list is meant to make: allowed by an entry, denied by none.
abbrev pub decision : List Verdict → Bool
decision vs = not (any is_deny vs) && any is_allow vs

check_entries_lem :
    (clock : ℕ → ℕ) (i : ℕ) (s : Subject) (r : Resource) (operation : Text) (allowed : Bool)
    (acl : Acl)
    → check_entries clock i s r operation allowed acl ≡ (
        not (any is_deny (verdicts clock i s r operation acl))
        && (allowed || any is_allow (verdicts clock i s r operation acl)))
unfolding check_entries verdicts
check_entries_lem clock i s r operation allowed [] = ground arith
check_entries_lem clock i s r operation allowed (e ∷ acl) = ground (
  arith,
  check_entries_lem clock (suc i) s r operation allowed acl,
  check_entries_lem clock (suc i) s r operation true acl,
)

-- CheckAccess, for a request whose three names are not empty, allows exactly if some entry allows
-- and no entry denies, wherever in the list they stand.
pub check_access-decision :
    (clock : ℕ → ℕ) (s : Subject) (r : Resource) (operation : Text) (acl : Acl)
    → s.id ≢ []
    → r.id ≢ []
    → operation ≢ []
    → check_access clock s r operation acl ≡ ok (decision (verdicts clock 0 s r operation acl))
unfolding check_access
check_access-decision clock s r operation acl hs hr ho = ground (
  arith,
  text_eq_iff s.id [],
  text_eq_iff r.id [],
  text_eq_iff operation [],
  check_entries_lem clock 0 s r operation false acl,
)

any-Permᴰ : {A : Type 0} (p : A → Bool) {l l' : List A} → Permᴰ l l' → any p l ≡ any p l'
any-Permᴰ p Permᴰ.nil = refl
any-Permᴰ p (Permᴰ.cons {l₁ = l} {l₂ = l'} e h) = ap₂ (λ a b. p a || b) e (any-Permᴰ p h)
any-Permᴰ p (Permᴰ.swap {a} {b} {a'} {b'} {l} e f) = ground (arith, ap p e, ap p f)
any-Permᴰ p (Permᴰ.trans h k) = any-Permᴰ p h ∙ any-Permᴰ p k

module _ (now : ℕ) (s : Subject) (r : Resource) (operation : Text) where
  any-verdicts :
      (p : Verdict → Bool) (i : ℕ) (acl : Acl)
      → any p (verdicts (λ _. now) i s r operation acl)
        ≡ any (λ e. p (verdict now s r operation e)) acl
  unfolding verdicts
  any-verdicts p i [] = refl
  any-verdicts p i (e ∷ acl) = ground (arith, any-verdicts p (suc i) acl)

  check_entries-Permᴰ :
      (acl acl' : Acl)
      → Permᴰ acl acl'
      → check_entries (λ _. now) 0 s r operation false acl
        ≡ check_entries (λ _. now) 0 s r operation false acl'
  check_entries-Permᴰ acl acl' h =
      rw
        (
          check_entries_lem (λ _. now) 0 s r operation false acl,
          check_entries_lem (λ _. now) 0 s r operation false acl',
          any-verdicts is_deny 0 acl,
          any-verdicts is_allow 0 acl,
          any-verdicts is_deny 0 acl',
          any-verdicts is_allow 0 acl',
        )
        (ap₂ (λ d a. not d && a) (any-Permᴰ _ h) (any-Permᴰ _ h))

  -- At a fixed time CheckAccess answers the same, errors included, however the entries are ordered.
  pub check_access-Perm :
      (acl acl' : Acl)
      → Perm acl acl'
      → check_access (λ _. now) s r operation acl ≡ check_access (λ _. now) s r operation acl'
  unfolding check_access
  check_access-Perm acl acl' h =
      ∥∥₁_elim h (Result_set _ _) λ d. ground (arith, check_entries-Permᴰ acl acl' d)
    where
      Result_set : IsSet (Result AclError Bool)
      Result_set = hlevel
