-- ===== src/Index/Cache/Links.antt =====
-- The list of the query cache and its map of keys belong together.
use fragmenta.Base.{ℕ, suc, ◌≤◌, ◌≡◌, refl, ◌⊎◌, arith, List, [], ◌∷◌, none, some}
use fragmenta.Base.{◌==◌, length, Bool-cases, Option-cases, inl, inr, ==_iff}
use fragmenta.Base.{text_eq, text_eq_iff}
use fragmenta.Base.Map.{nat_eq, text_keys, delete, insert, lookup, lookup-delete, lookup-insert}
use fragmenta.Base.Map.Keys.{IsKeyed, IsKeyed-insert, IsKeyed-delete, length-insert, length-delete}
use fragmenta.Index.Cache.{QueryCacheItem, QueryCache, find_element}

-- The map has a key where an element has it, and the addresses are old. No address and no key stands
-- twice, and the list and the map are of one length.
pub record IsLinked {P R : Type 0} (list : List (ℕ × QueryCacheItem P R))
    (items : List (List ℕ × ℕ)) (next_address : ℕ) : Type 0 where
  pub held :
      (key : List ℕ) (address : ℕ)
      → lookup key items ≡ some address
      → (item : QueryCacheItem P R) × (lookup address list ≡ some item) × (item.key ≡ key)
  pub linked :
      (address : ℕ) (item : QueryCacheItem P R)
      → lookup address list ≡ some item
      → lookup item.key items ≡ some address
  pub old : (address : ℕ) → next_address ≤ address → lookup address list ≡ none
  pub keyed : IsKeyed list
  pub unique : IsKeyed items
  pub same : length items ≡ length list

abbrev pub IsCache : {Q P R : Type 0} → QueryCache Q P R → Type 0
IsCache c = IsLinked c.list c.items c.next_address

pub IsLinked-empty : {P R : Type 0} (next : ℕ) → IsLinked {P = P} {R = R} [] [] next
unfolding lookup
IsLinked-empty next = record {
  held = λ key a h. cc;
  linked = λ a i h. cc;
  old = λ a h. refl;
  keyed = tt;
  unique = tt;
  same = refl;
}

module _ {Q P R : Type 0} where
  pub find_element-cases :
      (key : List ℕ) (c : QueryCache Q P R)
      → IsCache c
      → ((find_element key c ≡ none) × (lookup key c.items ≡ none))
        ⊎ ((address : ℕ) × (item : QueryCacheItem P R) × (find_element key c ≡ some (address, item))
            × (lookup address c.list ≡ some item)
            × (item.key ≡ key))
  unfolding find_element
  find_element-cases key c l = elim (Option-cases (lookup key c.items)) [
    | inl absent ↦ inl (rw (absent, find_element) refl, absent)
    | inr (address, h) ↦
        let (item, at, k) = l.held key address h in
        inr (address, item, rw (h, at, find_element) refl, at, k)
  ]

module _ {P R : Type 0} (list : List (ℕ × QueryCacheItem P R)) (items : List (List ℕ × ℕ))
    (next : ℕ) (address : ℕ) (item : QueryCacheItem P R) where
  pub IsLinked-delete :
      IsLinked list items next
      → lookup address list ≡ some item
      → IsLinked (delete address list) (delete item.key items) next
  IsLinked-delete l at = record {
    held = λ key a h.
        let (i, there, k) = l.held key a (kept key a h) in (i, still key a h i there k, k);
    linked = λ a i h. ground (
      arith,
      lookup-delete address a list,
      lookup-delete item.key i.key items,
      l.linked a i,
      l.linked address item at,
      text_eq_iff item.key i.key,
      h,
    );
    old = λ a h. ground (arith, lookup-delete address a list, l.old a h);
    keyed = IsKeyed-delete address list l.keyed;
    unique = IsKeyed-delete item.key items l.unique;
    same = ground (
      arith,
      length-delete address list l.keyed,
      length-delete item.key items l.unique,
      at,
      l.linked address item at,
      l.same,
    );
  }
    where
      kept :
          (key : List ℕ) (a : ℕ)
          → lookup key (delete item.key items) ≡ some a
          → lookup key items ≡ some a
      kept key a h = ground (arith, lookup-delete item.key key items, h)

      still :
          (key : List ℕ) (a : ℕ)
          → lookup key (delete item.key items) ≡ some a
          → (i : QueryCacheItem P R) → lookup a list ≡ some i
          → i.key ≡ key
          → lookup a (delete address list) ≡ some i
      still key a h i there k = ground (
        arith,
        lookup-delete item.key key items,
        lookup-delete address a list,
        text_eq_iff item.key key,
        h,
        there,
        at,
        k,
      )

  pub IsLinked-moved :
      (new : QueryCacheItem P R)
      → new.key ≡ item.key
      → IsLinked list items next
      → lookup address list ≡ some item
      → IsLinked ((address, new) ∷ delete address list) items next
  unfolding lookup
  IsLinked-moved new k l at = record {
    held = λ key a h.
        let (i, there, same_key) = l.held key a h in
        elim (Bool-cases (address == a)) [
          | inl e ↦ (new, rw e refl, ground (arith, e, there, at, k, same_key, ==_iff address a))
          | inr e ↦ (i, rw e (ground (arith, lookup-delete address a list, there, e)), same_key)
        ];
    linked = λ a i h.
        ground (arith, lookup-delete address a list, l.linked a i, l.linked address item at, k, h);
    old = λ a h. ground (arith, lookup-delete address a list, l.old a h, at);
    keyed =
        (ground (arith, lookup-delete address address list), IsKeyed-delete address list l.keyed);
    unique = l.unique;
    same = ground (arith, length-delete address list l.keyed, at, l.same);
  }

  pub IsLinked-pushed :
      IsLinked list items next
      → lookup item.key items ≡ none
      → IsLinked ((next, item) ∷ list) (insert item.key next items) (suc next)
  unfolding lookup
  IsLinked-pushed l absent = record {
    held = λ key a h. elim (Bool-cases (text_eq item.key key)) [
      | inl e ↦ (
        item,
        ground (arith, lookup-insert item.key key next items, h, e),
        ground (arith, text_eq_iff item.key key, e),
      )
      | inr e ↦
          let (i, there, k) =
            l.held key a (ground (arith, lookup-insert item.key key next items, h, e)) in
          (i, ground (arith, there, l.old next (omega arith)), k)
    ];
    linked = λ a i h. ground (
      arith,
      lookup-insert item.key i.key next items,
      l.linked a i,
      absent,
      text_eq_iff item.key i.key,
      h,
    );
    old = λ a h. ground (arith, l.old a (let q : next ≤ a = omega arith in q), h);
    keyed = (l.old next (omega arith), l.keyed);
    unique = IsKeyed-insert item.key next items l.unique;
    same = ground (arith, length-insert item.key next items, absent, l.same);
  }
