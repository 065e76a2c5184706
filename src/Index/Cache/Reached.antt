-- ===== src/Index/Cache/Reached.antt =====
-- The query cache in every state that its calls lead to.
use fragmenta.Base.{
  ℕ, suc, ◌≤◌, ◌≡◌, refl, arith, List, [], ◌∷◌, Option, none, some, inl, inr, Bool-cases,
  Option-cases, length,
}
use fragmenta.Base.Int.{ℤ, pos, pos_part, ltb_ℤ}
use fragmenta.Base.Map.{nat_eq, text_keys, lookup}
use fragmenta.Base.Map.Keys.{IsKeyed, length-delete}
use fragmenta.Index.Cache.{
  QueryCacheItem, QueryCache, Content, plan_of, result_of, with_content, new_item, new_cache, get,
  get_found, get_result, get_result_in, get_result_found, put, put_found, put_result, clear,
  set_expiry, remove_element, remove_oldest, evict, push_front, move_to_front, back, find_element,
  is_expired,
}
use fragmenta.Index.Cache.Links.{
  IsCache, find_element-cases, IsLinked-delete, IsLinked-moved, IsLinked-pushed, IsLinked-empty,
}

-- Calls of the cache, those with nil arguments included.
pub data Reached {Q P R : Type 0} : QueryCache Q P R → Type 0 where
  created :
      (plan_hash : Q → List ℕ) (result_hash : P → List ℕ) (capacity : ℤ)
      → Reached (new_cache {R = R} plan_hash result_hash capacity)
  got :
      (now : ℤ) (query : Option Q) {c : QueryCache Q P R} → Reached c → Reached (get now query c).1
  stored :
      (now : ℤ) (query : Option Q) (plan : Option P) {c : QueryCache Q P R}
      → Reached c
      → Reached (put now query plan c)
  got_result :
      (now : ℤ) (plan : Option P) {c : QueryCache Q P R}
      → Reached c
      → Reached (get_result now plan c).1
  stored_result :
      (now : ℤ) (plan : Option P) (result : Option R) {c : QueryCache Q P R}
      → Reached c
      → Reached (put_result now plan result c)
  cleared : {c : QueryCache Q P R} → Reached c → Reached (clear c)
  expiry_set : (seconds : ℤ) {c : QueryCache Q P R} → Reached c → Reached (set_expiry seconds c)

-- The list and the map agree, and the list is not longer than the capacity.
abbrev pub IsWell : {Q P R : Type 0} → QueryCache Q P R → Type 0
IsWell c = IsCache c × (length c.list ≤ pos_part c.capacity)

pub lookup-back :
    {V : Type 0} (list : List (ℕ × V)) (address : ℕ) (item : V)
    → IsKeyed list
    → back list ≡ some (address, item)
    → lookup address list ≡ some item
unfolding back lookup
lookup-back [] address item u h = cc
lookup-back ((a, i) ∷ []) address item u h = ground (arith, h)
lookup-back ((a, i) ∷ y ∷ list) address item (absent, u) h =
    ground (arith, lookup-back (y ∷ list) address item u h, absent)

length-back : {V : Type 0} (list : List V) → back list ≡ none → length list ≡ 0
unfolding back
length-back [] h = refl
length-back (x ∷ []) h = cc
length-back (x ∷ y ∷ list) h = ground (arith, length-back (y ∷ list) h)

module _ {Q P R : Type 0} (c : QueryCache Q P R) where
  IsWell-remove_element :
      (address : ℕ) (item : QueryCacheItem P R)
      → IsWell c
      → lookup address c.list ≡ some item
      → IsWell (remove_element address item c)
  unfolding remove_element
  IsWell-remove_element address item (l, b) at = (
    IsLinked-delete c.list c.items c.next_address address item l at,
    omega (arith, length-delete address c.list l.keyed),
  )

  IsWell-move_to_front :
      (address : ℕ) (item new : QueryCacheItem P R)
      → new.key ≡ item.key
      → IsWell c
      → lookup address c.list ≡ some item
      → IsWell (move_to_front address new c)
  unfolding move_to_front
  IsWell-move_to_front address item new k (l, b) at = (
    IsLinked-moved c.list c.items c.next_address address item new k l at,
    ground (arith, length-delete address c.list l.keyed, at, b),
  )

  IsWell-remove_oldest :
      IsCache c → length c.list ≤ suc (pos_part c.capacity) → IsWell (remove_oldest c)
  unfolding remove_oldest remove_element
  IsWell-remove_oldest l b = elim (Option-cases (back c.list)) [
    | inl none_left ↦ rw (none_left, remove_oldest) (l, omega (arith, length-back c.list none_left))
    | inr ((address, item), last) ↦
        let at = lookup-back c.list address item l.keyed last in
        rw (last, remove_oldest)
          (
            IsLinked-delete c.list c.items c.next_address address item l at,
            ground (arith, length-delete address c.list l.keyed, at, b),
          )
  ]

  -- A list with one element too many.
  IsWell-evict : IsCache c → length c.list ≤ suc (pos_part c.capacity) → IsWell (evict c)
  unfolding evict
  IsWell-evict l b = elim (Bool-cases (ltb_ℤ c.capacity (pos (length c.list)))) [
    | inr h ↦ rw h (l, ground (arith, h))
    | inl h ↦ rw h (IsWell-remove_oldest l b)
  ]

module _ {Q P R : Type 0} where
  IsWell-get_found :
      (now : ℤ) (key : List ℕ) (c : QueryCache Q P R)
      → IsWell c
      → IsWell (get_found now (find_element key c) c).1
  unfolding get_found move_to_front
  IsWell-get_found now key c w = elim (find_element-cases key c w.0) [
    | inl (absent, h) ↦ rw absent w
    | inr (address, item, present, at, k) ↦ elim (Bool-cases (is_expired now item c)) [
      | inl e ↦ rw (present, e) (IsWell-remove_element c address item w at)
      | inr e ↦ rw (present, e) (IsWell-move_to_front c address item _ refl w at)
    ]
  ]

  IsWell-put_found :
      (now : ℤ) (key : List ℕ) (content : Content P R) (c : QueryCache Q P R)
      → IsWell c
      → IsWell (put_found now key content (find_element key c) c)
  unfolding put_found push_front
  IsWell-put_found now key content c w = elim (find_element-cases key c w.0) [
    | inl (absent, h) ↦ rw absent (
        IsWell-evict (push_front (with_content content (new_item now key)) c)
          (IsLinked-pushed c.list c.items c.next_address 0 (with_content content (new_item now key))
            w.0 h)
          (omega (arith, w.1)))
    | inr (address, item, present, at, k) ↦
        rw present (IsWell-move_to_front c address item _ refl w at)
  ]

  IsWell-get_result_in :
      (now : ℤ) (address : ℕ) (item : QueryCacheItem P R) (result : Option R) (c : QueryCache Q P R)
      → IsWell c
      → lookup address c.list ≡ some item
      → IsWell (get_result_in now address item result c).1
  unfolding get_result_in move_to_front
  IsWell-get_result_in now address item none c w at = w
  IsWell-get_result_in now address item (some result) c w at =
      elim (Bool-cases (is_expired now item c)) [
        | inl e ↦ rw e (IsWell-remove_element c address item w at)
        | inr e ↦ rw e (IsWell-move_to_front c address item _ refl w at)
      ]

  IsWell-get_result_found :
      (now : ℤ) (key : List ℕ) (c : QueryCache Q P R)
      → IsWell c
      → IsWell (get_result_found now (find_element key c) c).1
  unfolding get_result_found
  IsWell-get_result_found now key c w = elim (find_element-cases key c w.0) [
    | inl (absent, h) ↦ rw absent w
    | inr (address, item, present, at, k) ↦
        rw present (IsWell-get_result_in now address item item.result c w at)
  ]

  -- In every state that the calls of the cache lead to, the map has an address for a key exactly where the
  -- list has an element at that address with that key; no key and no address stands twice; the map and the
  -- list are of one length, which is at most the capacity, and 0 for a capacity below 0.
  pub Reached-IsWell : (c : QueryCache Q P R) → Reached c → IsWell c
  unfolding get put get_result put_result clear set_expiry
  Reached-IsWell _ (created plan_hash result_hash capacity) = (IsLinked-empty 0, omega arith)
  Reached-IsWell _ (got now none r) = Reached-IsWell _ r
  Reached-IsWell _ (got now (some query) {c} r) =
      IsWell-get_found now (c.plan_hash_func query) c (Reached-IsWell _ r)
  Reached-IsWell _ (stored now none plan r) = Reached-IsWell _ r
  Reached-IsWell _ (stored now (some query) none r) = Reached-IsWell _ r
  Reached-IsWell _ (stored now (some query) (some plan) {c} r) =
      IsWell-put_found now (c.plan_hash_func query) (plan_of plan) c (Reached-IsWell _ r)
  Reached-IsWell _ (got_result now none r) = Reached-IsWell _ r
  Reached-IsWell _ (got_result now (some plan) {c} r) =
      IsWell-get_result_found now (c.result_hash_func plan) c (Reached-IsWell _ r)
  Reached-IsWell _ (stored_result now none result r) = Reached-IsWell _ r
  Reached-IsWell _ (stored_result now (some plan) none r) = Reached-IsWell _ r
  Reached-IsWell _ (stored_result now (some plan) (some result) {c} r) =
      IsWell-put_found now (c.result_hash_func plan) (result_of result) c (Reached-IsWell _ r)
  Reached-IsWell _ (cleared {c} r) = (IsLinked-empty c.next_address, omega arith)
  Reached-IsWell _ (expiry_set seconds r) = Reached-IsWell _ r
