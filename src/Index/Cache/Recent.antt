-- ===== src/Index/Cache/Recent.antt =====
-- What the query cache keeps while its list changes: an element with few others in front of it.
use fragmenta.Base.{
  ℕ, suc, ◌≤◌, ◌<◌, ◌≡◌, refl, sym, ◌∙◌, ◌≢◌, arith, List, [], ◌∷◌, some, inl, inr, Bool-cases,
  Option-cases, length,
}
use fragmenta.Base.{◌==◌, false, if◌then◌else◌}
use fragmenta.Base.Int.{ℤ, pos, pos_part, ltb_ℤ}
use fragmenta.Base.Map.{nat_eq, text_keys, lookup, delete, lookup-delete}
use fragmenta.Base.Map.Keys.{IsKeyed}
use fragmenta.Index.Cache.{
  QueryCacheItem, QueryCache, get_found, remove_element, remove_oldest, evict, move_to_front, back,
  find_element, is_expired, touch,
}
use fragmenta.Index.Cache.Links.{IsCache, find_element-cases, IsLinked-delete, IsLinked-moved}
use fragmenta.Index.Cache.Reached.{lookup-back}

-- How many elements are in front of an address.
abbrev pub position : {V : Type 0} → ℕ → List (ℕ × V) → ℕ
position address [] = 0
position address ((a, v) ∷ list) = if a == address then 0 else suc (position address list)

module _ {V : Type 0} (address : ℕ) where
  position-delete :
      (other : ℕ) (list : List (ℕ × V))
      → (other == address) ≡ false
      → position address (delete other list) ≤ position address list
  unfolding delete
  position-delete other [] d = omega arith
  position-delete other ((a, v) ∷ list) d = ground (arith, position-delete other list d, d)

  position-back :
      (list : List (ℕ × V)) (last : ℕ) (item : V)
      → IsKeyed list
      → back list ≡ some (last, item)
      → suc (position address list) < length list
      → (last == address) ≡ false
  unfolding back lookup
  position-back [] last item u h n = cc
  position-back ((a, v) ∷ []) last item u h n = ground (arith, n)
  position-back ((a, v) ∷ y ∷ list) last item (absent, u) h n = ground (
    arith,
    position-back (y ∷ list) last item u h,
    lookup-back (y ∷ list) last item u h,
    absent,
    n,
  )

-- The element stands behind at most `front` others.
pub record Kept {Q P R : Type 0} (address : ℕ) (item : QueryCacheItem P R) (plan_hash : Q → List ℕ)
    (result_hash : P → List ℕ) (capacity : ℤ) (front : ℕ) (c : QueryCache Q P R) : Type 0 where
  pub cache : IsCache c
  pub at : lookup address c.list ≡ some item
  pub near : position address c.list ≤ front
  pub room : c.capacity ≡ capacity
  pub plans : c.plan_hash_func ≡ plan_hash
  pub results : c.result_hash_func ≡ result_hash

module _ {Q P R : Type 0} (address : ℕ) (item : QueryCacheItem P R) (plan_hash : Q → List ℕ)
    (result_hash : P → List ℕ) (capacity : ℤ) where
  pub Kept-remove_element :
      (front other : ℕ) (old : QueryCacheItem P R) (c : QueryCache Q P R)
      → Kept address item plan_hash result_hash capacity front c
      → lookup other c.list ≡ some old
      → (other == address) ≡ false
      → Kept address item plan_hash result_hash capacity front (remove_element other old c)
  unfolding remove_element
  Kept-remove_element front other old c k there d = record {
    cache = IsLinked-delete c.list c.items c.next_address other old k.cache there;
    at = ground (arith, lookup-delete other address c.list, k.at, d);
    near = omega (arith, position-delete address other c.list d, k.near);
    room = k.room;
    plans = k.plans;
    results = k.results;
  }

  pub Kept-move_to_front :
      (front other : ℕ) (old new : QueryCacheItem P R) (c : QueryCache Q P R)
      → new.key ≡ old.key
      → Kept address item plan_hash result_hash capacity front c
      → lookup other c.list ≡ some old
      → (other == address) ≡ false
      → Kept address item plan_hash result_hash capacity (suc front) (move_to_front other new c)
  unfolding move_to_front lookup
  Kept-move_to_front front other old new c same k there d = record {
    cache = IsLinked-moved c.list c.items c.next_address other old new same k.cache there;
    at = ground (arith, lookup-delete other address c.list, k.at, d);
    near = ground (arith, position-delete address other c.list d, k.near, d);
    room = k.room;
    plans = k.plans;
    results = k.results;
  }

  Kept-remove_oldest :
      (front : ℕ) (c : QueryCache Q P R)
      → Kept address item plan_hash result_hash capacity front c
      → suc front < length c.list
      → Kept address item plan_hash result_hash capacity front (remove_oldest c)
  unfolding remove_oldest
  Kept-remove_oldest front c k n = elim (Option-cases (back c.list)) [
    | inl empty ↦ rw (empty, remove_oldest) k
    | inr ((last, old), h) ↦
        rw (h, remove_oldest)
          (Kept-remove_element front last old c k (lookup-back c.list last old k.cache.keyed h)
            (position-back address c.list last old k.cache.keyed h (omega (arith, k.near, n))))
  ]

  pub Kept-evict :
      (front : ℕ) (c : QueryCache Q P R)
      → Kept address item plan_hash result_hash capacity front c
      → front < pos_part capacity
      → Kept address item plan_hash result_hash capacity front (evict c)
  unfolding evict
  Kept-evict front c k n = elim (Bool-cases (ltb_ℤ c.capacity (pos (length c.list)))) [
    | inl h ↦ rw h (Kept-remove_oldest front c k (ground (arith, h, k.room, n)))
    | inr h ↦ rw h k
  ]

  pub later :
      (front : ℕ) (c : QueryCache Q P R)
      → Kept address item plan_hash result_hash capacity front c
      → Kept address item plan_hash result_hash capacity (suc front) c
  later front c k = record {
    cache = k.cache;
    at = k.at;
    near = omega (arith, k.near);
    room = k.room;
    plans = k.plans;
    results = k.results;
  }

  -- The clock and the counters do not matter.
  pub counted :
      (front hits misses : ℕ) (c : QueryCache Q P R)
      → Kept address item plan_hash result_hash capacity front c
      → Kept address item plan_hash result_hash capacity front
          (record c { hits = hits; misses = misses })
  counted front hits misses c k = record {
    cache = k.cache;
    at = k.at;
    near = k.near;
    room = k.room;
    plans = k.plans;
    results = k.results;
  }

  pub other_address :
      (front other : ℕ) (old : QueryCacheItem P R) (c : QueryCache Q P R)
      → Kept address item plan_hash result_hash capacity front c
      → lookup other c.list ≡ some old
      → old.key ≢ item.key
      → (other == address) ≡ false
  other_address front other old c k there d = ground (arith, k.at, there, d)

  pub Kept-get_found :
      (now : ℤ) (front : ℕ) (key : List ℕ) (c : QueryCache Q P R)
      → key ≢ item.key
      → Kept address item plan_hash result_hash capacity front c
      → Kept address item plan_hash result_hash capacity
          (suc front)
          (get_found now (find_element key c) c).1
  unfolding get_found move_to_front
  Kept-get_found now front key c d k = elim (find_element-cases key c k.cache) [
    | inl (absent, h) ↦ rw absent (later front _ (counted front _ _ c k))
    | inr (other, old, present, there, same) ↦
        let apart = other_address front other old c k there (λ e. d (sym same ∙ e)) in
        elim (Bool-cases (is_expired now old c)) [
          | inl e ↦
              rw (present, e)
                (later front _
                  (counted front _ _ _ (Kept-remove_element front other old c k there apart)))
          | inr e ↦
              rw (present, e)
                (counted (suc front) _ _ _
                  (Kept-move_to_front front other old (touch now old) c refl k there apart))
        ]
  ]
