-- ===== src/Index/Cache/Calls.antt =====
-- What Get of the query cache returns after calls with other keys.
use fragmenta.Base.{
  ℕ, suc, ◌<◌, ◌≡◌, ◌≢◌, refl, sym, ◌∙◌, arith, List, Option, none, some, inl, inr, Bool-cases,
}
use fragmenta.Base.{◌==◌, false}
use fragmenta.Base.Int.{ℤ, pos_part}
use fragmenta.Base.Map.{nat_eq, text_keys, lookup}
use fragmenta.Index.Cache.{
  QueryCacheItem, QueryCache, Content, plan_of, result_of, with_content, new_item, get, get_result,
  get_result_in, get_result_found, put, put_found, put_result, set_expiry, push_front,
  move_to_front, find_element, is_expired, touch,
}
use fragmenta.Index.Cache.Links.{find_element-cases, IsLinked-pushed}
use fragmenta.Index.Cache.Recent.{
  later, counted, other_address, Kept-get_found, Kept, Kept-remove_element, Kept-move_to_front,
  Kept-evict,
}

-- Calls with other keys than `key`, and how many.
pub data Elsewhere {Q P R : Type 0} (key : List ℕ) (start : QueryCache Q P R)
    : ℕ → QueryCache Q P R → Type 0 where
  no_call : Elsewhere key start 0 start
  get_call :
      (now : ℤ) (query : Q) {n : ℕ} {c : QueryCache Q P R}
      → c.plan_hash_func query ≢ key
      → Elsewhere key start n c
      → Elsewhere key start (suc n) (get now (some query) c).1
  put_call :
      (now : ℤ) (query : Q) (plan : P) {n : ℕ} {c : QueryCache Q P R}
      → c.plan_hash_func query ≢ key
      → Elsewhere key start n c
      → Elsewhere key start (suc n) (put now (some query) (some plan) c)
  get_result_call :
      (now : ℤ) (plan : P) {n : ℕ} {c : QueryCache Q P R}
      → c.result_hash_func plan ≢ key
      → Elsewhere key start n c
      → Elsewhere key start (suc n) (get_result now (some plan) c).1
  put_result_call :
      (now : ℤ) (plan : P) (result : R) {n : ℕ} {c : QueryCache Q P R}
      → c.result_hash_func plan ≢ key
      → Elsewhere key start n c
      → Elsewhere key start (suc n) (put_result now (some plan) (some result) c)
  set_expiry_call :
      (seconds : ℤ) {n : ℕ} {c : QueryCache Q P R}
      → Elsewhere key start n c
      → Elsewhere key start (suc n) (set_expiry seconds c)

module _ {Q P R : Type 0} (address : ℕ) (item : QueryCacheItem P R) (plan_hash : Q → List ℕ)
    (result_hash : P → List ℕ) (capacity : ℤ) where
  Kept-get_result_in :
      (now : ℤ) (front other : ℕ) (old : QueryCacheItem P R) (result : Option R)
      (c : QueryCache Q P R)
      → Kept address item plan_hash result_hash capacity front c
      → lookup other c.list ≡ some old
      → (other == address) ≡ false
      → Kept address item plan_hash result_hash capacity
          (suc front)
          (get_result_in now other old result c).1
  unfolding get_result_in move_to_front
  Kept-get_result_in now front other old none c k there apart =
      later address item plan_hash result_hash capacity front _
        (counted address item plan_hash result_hash capacity front _ _ c k)
  Kept-get_result_in now front other old (some result) c k there apart =
      elim (Bool-cases (is_expired now old c)) [
        | inl e ↦ rw e (
            later address item plan_hash result_hash capacity front _ (
              counted address item plan_hash result_hash capacity front _ _ _ (
                Kept-remove_element address item plan_hash result_hash capacity front other old c k
                  there apart)))
        | inr e ↦ rw e (
            counted address item plan_hash result_hash capacity (suc front) _ _ _ (
              Kept-move_to_front address item plan_hash result_hash capacity front other old
                (touch now old) c refl k there apart))
      ]

  Kept-get_result_found :
      (now : ℤ) (front : ℕ) (key : List ℕ) (c : QueryCache Q P R)
      → key ≢ item.key
      → Kept address item plan_hash result_hash capacity front c
      → Kept address item plan_hash result_hash capacity
          (suc front)
          (get_result_found now (find_element key c) c).1
  unfolding get_result_found
  Kept-get_result_found now front key c d k = elim (find_element-cases key c k.cache) [
    | inl (absent, h) ↦ rw absent (
        later address item plan_hash result_hash capacity front _
          (counted address item plan_hash result_hash capacity front _ _ c k))
    | inr (other, old, present, there, same) ↦ rw present (
        Kept-get_result_in now front other old old.result c k there (
          other_address address item plan_hash result_hash capacity front other old c k there
            (λ e. d (sym same ∙ e))))
  ]

  Kept-push_front :
      (front : ℕ) (new : QueryCacheItem P R) (c : QueryCache Q P R)
      → lookup new.key c.items ≡ none
      → Kept address item plan_hash result_hash capacity front c
      → Kept address item plan_hash result_hash capacity (suc front) (push_front new c)
  unfolding push_front lookup
  Kept-push_front front new c absent k = record {
    cache = IsLinked-pushed c.list c.items c.next_address 0 new k.cache absent;
    at = ground (arith, k.at, k.cache.old c.next_address (omega arith));
    near = ground (arith, k.near);
    room = k.room;
    plans = k.plans;
    results = k.results;
  }

  Kept-put_found :
      (now : ℤ) (front : ℕ) (key : List ℕ) (content : Content P R) (c : QueryCache Q P R)
      → key ≢ item.key
      → suc front < pos_part capacity
      → Kept address item plan_hash result_hash capacity front c
      → Kept address item plan_hash result_hash capacity
          (suc front)
          (put_found now key content (find_element key c) c)
  unfolding put_found
  Kept-put_found now front key content c d room k = elim (find_element-cases key c k.cache) [
    | inl (absent, h) ↦
        let new = with_content content (new_item now key) in
        rw absent (
          Kept-evict address item plan_hash result_hash capacity (suc front) (push_front new c)
            (Kept-push_front front new c h k) room)
    | inr (other, old, present, there, same) ↦ rw present (
        Kept-move_to_front address item plan_hash result_hash capacity front other old _ c refl k
          there
          (other_address address item plan_hash result_hash capacity front other old c k there
            (λ e. d (sym same ∙ e))))
  ]

  -- Calls with other keys put at most one element each in front.
  pub Kept-Elsewhere :
      (key : List ℕ) (start : QueryCache Q P R) (n : ℕ) (c : QueryCache Q P R)
      → item.key ≡ key
      → Kept address item plan_hash result_hash capacity 0 start
      → Elsewhere key start n c
      → n < pos_part capacity
      → Kept address item plan_hash result_hash capacity n c
  unfolding get put get_result put_result set_expiry
  Kept-Elsewhere key start _ _ same k no_call room = k
  Kept-Elsewhere key start _ _ same k (get_call now query {n} {c} d e) room =
      Kept-get_found address item plan_hash result_hash capacity now n (c.plan_hash_func query) c
        (λ p. d (p ∙ same)) (Kept-Elsewhere key start n c same k e (omega (arith, room)))
  Kept-Elsewhere key start _ _ same k (put_call now query plan {n} {c} d e) room =
      Kept-put_found now n (c.plan_hash_func query) (plan_of plan) c (λ p. d (p ∙ same)) room
        (Kept-Elsewhere key start n c same k e (omega (arith, room)))
  Kept-Elsewhere key start _ _ same k (get_result_call now plan {n} {c} d e) room =
      Kept-get_result_found now n (c.result_hash_func plan) c (λ p. d (p ∙ same))
        (Kept-Elsewhere key start n c same k e (omega (arith, room)))
  Kept-Elsewhere key start _ _ same k (put_result_call now plan result {n} {c} d e) room =
      Kept-put_found now n (c.result_hash_func plan) (result_of result) c (λ p. d (p ∙ same)) room
        (Kept-Elsewhere key start n c same k e (omega (arith, room)))
  Kept-Elsewhere key start _ _ same k (set_expiry_call seconds {n} {c} e) room =
      let before = Kept-Elsewhere key start n c same k e (omega (arith, room)) in
      record {
        cache = before.cache;
        at = before.at;
        near = omega (arith, before.near);
        room = before.room;
        plans = before.plans;
        results = before.results;
      }
