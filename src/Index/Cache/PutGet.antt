-- ===== src/Index/Cache/PutGet.antt =====
-- Get of the query cache after Put.
use fragmenta.Base.{
  ℕ, ◌<◌, ◌≡◌, refl, sym, ap, ◌∙◌, arith, Option, none, some, inl, inr, Bool-cases,
}
use fragmenta.Base.{if◌then◌else◌}
use fragmenta.Base.Int.{ℤ, pos_part}
use fragmenta.Base.Map.{nat_eq, text_keys, lookup}
use fragmenta.Index.Cache.{
  QueryCacheItem, QueryCache, plan_of, with_content, new_item, get, get_found, put, put_found,
  push_front, move_to_front, find_element, is_expired, touch, expired_at,
}
use fragmenta.Index.Cache.Links.{IsCache, find_element-cases, IsLinked-moved, IsLinked-pushed}
use fragmenta.Index.Cache.Reached.{Reached, Reached-IsWell}
use fragmenta.Index.Cache.Recent.{Kept, Kept-evict}
use fragmenta.Index.Cache.Calls.{Elsewhere, Kept-Elsewhere}

-- When the item that Put fills was created.
abbrev pub created_at : {P R : Type 0} → ℤ → Option (ℕ × QueryCacheItem P R) → ℤ
created_at now none = now
created_at now (some (address, item)) = item.create_time

module _ {Q P R : Type 0} where
  get_kept :
      (later : ℤ) (query : Q) (address : ℕ) (item : QueryCacheItem P R) (c : QueryCache Q P R)
      → IsCache c
      → lookup address c.list ≡ some item
      → item.key ≡ c.plan_hash_func query
      → (get later (some query) c).0
        ≡ (if expired_at c.expiry item.create_time later then none else item.plan)
  unfolding get get_found is_expired find_element
  get_kept later query address item c l at k =
      let present : find_element (c.plan_hash_func query) c ≡ some (address, item) =
        rw (← k, l.linked address item at, at, find_element) refl in
      elim (Bool-cases (expired_at c.expiry item.create_time later)) [
        | inl e ↦ rw (present, e) refl
        | inr e ↦ rw (present, e) refl
      ]

  Kept-new :
      (c : QueryCache Q P R) (new : QueryCacheItem P R)
      → IsCache c
      → lookup new.key c.items ≡ none
      → Kept c.next_address new c.plan_hash_func c.result_hash_func c.capacity 0 (push_front new c)
  unfolding push_front lookup
  Kept-new c new l absent = record {
    cache = IsLinked-pushed c.list c.items c.next_address 0 new l absent;
    at = ground arith;
    near = ground arith;
    room = refl;
    plans = refl;
    results = refl;
  }

  Kept-again :
      (c : QueryCache Q P R) (address : ℕ) (item new : QueryCacheItem P R)
      → new.key ≡ item.key
      → IsCache c
      → lookup address c.list ≡ some item
      → Kept address new c.plan_hash_func c.result_hash_func c.capacity 0
          (move_to_front address new c)
  unfolding move_to_front lookup
  Kept-again c address item new same l at = record {
    cache = IsLinked-moved c.list c.items c.next_address address item new same l at;
    at = ground arith;
    near = ground arith;
    room = refl;
    plans = refl;
    results = refl;
  }

  get_after :
      (later : ℤ) (query : Q) (address : ℕ) (item : QueryCacheItem P R)
      (c start after : QueryCache Q P R) (n : ℕ)
      → Kept address item c.plan_hash_func c.result_hash_func c.capacity 0 start
      → item.key ≡ c.plan_hash_func query
      → Elsewhere (c.plan_hash_func query) start n after
      → n < pos_part c.capacity
      → (get later (some query) after).0
        ≡ (if expired_at after.expiry item.create_time later then none else item.plan)
  get_after later query address item c start after n k same calls room =
      let kept =
        Kept-Elsewhere address item c.plan_hash_func c.result_hash_func c.capacity
          (c.plan_hash_func query) start n after same k calls room in
      get_kept later query address item after kept.cache kept.at
        (same ∙ ap (λ f. f query) (sym kept.plans))

  -- A plan that Put stored is what Get returns for a query of the same hash, after fewer calls with other
  -- keys than the capacity, nil arguments and Clear left out, unless the item is expired. An item that was
  -- there before the Put keeps the time when it was created, so a new plan in it expires with the old one.
  pub get-put :
      (now later : ℤ) (query : Q) (plan : P) (c after : QueryCache Q P R) (n : ℕ)
      → Reached c
      → Elsewhere (c.plan_hash_func query) (put now (some query) (some plan) c) n after
      → n < pos_part c.capacity
      → (get later (some query) after).0 ≡ (
          if expired_at after.expiry
            (created_at now (find_element (c.plan_hash_func query) c))
            later
          then none
          else some plan)
  unfolding put put_found
  get-put now later query plan c after n r calls room =
      let l = (Reached-IsWell c r).0 in
      let key = c.plan_hash_func query in
      elim (find_element-cases key c l) [
        | inl (absent, h) ↦
            let new = with_content (plan_of plan) (new_item now key) in
            rw absent (
              get_after later query c.next_address new c (put now (some query) (some plan) c) after
                n
                (rw absent (
                  Kept-evict c.next_address new c.plan_hash_func c.result_hash_func c.capacity 0
                    (push_front new c) (Kept-new c new l h) (omega (arith, room))))
                refl calls room)
        | inr (address, item, present, at, k) ↦
            let new = touch now (with_content (plan_of plan) item) in
            rw present (
              get_after later query address new c (put now (some query) (some plan) c) after n
                (rw present (Kept-again c address item new refl l at)) k calls room)
      ]
