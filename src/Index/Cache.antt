-- ===== src/Index/Cache.antt =====
-- index/query_cache.go: the cache of query plans and results that drops what was used least recently.
-- The elements of its container/list have addresses, which the map `items` holds. The clock is read
-- once in a call, and the counters do not wrap around. The indexManagerID of a key is always
-- "default", so a key is its hash.
mod Links
mod Reached
mod Recent
mod Calls
mod PutGet
mod Runs
use fragmenta.Base.{ℕ, suc, ◌+◌, ◌-◌, ◌*◌, ◌%◌, ◌^◌, List, [], ◌∷◌, Option, none, some}
use fragmenta.Base.{Bool, true, false, leb, if◌then◌else◌, length}
use fragmenta.Base.Int.{ℤ, pos, negsuc, pos_part, neg_part, ltb_ℤ, to_signed}
use fragmenta.Base.Map.{nat_eq, text_keys, delete, insert, lookup}

pub record QueryCacheItem (P R : Type 0) : Type 0 where
  pub key : List ℕ
  pub plan : Option P
  pub result : Option R
  pub access_time : ℤ
  pub create_time : ℤ
  pub access_count : ℕ

-- `list` has the most recently used element in front.
pub record QueryCache (Q P R : Type 0) : Type 0 where
  pub capacity : ℤ
  pub list : List (ℕ × QueryCacheItem P R)
  pub items : List (List ℕ × ℕ)
  pub next_address : ℕ
  pub plan_hash_func : Q → List ℕ
  pub result_hash_func : P → List ℕ
  pub hits : ℕ
  pub misses : ℕ
  pub expiry : ℤ

-- What Put and PutResult store in an item.
pub data Content (P R : Type 0) : Type 0 where
  plan_of : P → Content P R
  result_of : R → Content P R

-- GetStats, without the hit rate.
pub record CacheStats : Type 0 where
  pub capacity : ℤ
  pub size : ℕ
  pub hits : ℕ
  pub misses : ℕ
  pub expiry : ℤ

infixl 60 ◌+ℤ◌
abbrev pub ◌+ℤ◌ : ℤ → ℤ → ℤ
a +ℤ b =
    let up = pos_part a + pos_part b in
    let down = neg_part a + neg_part b in
    if leb down up then pos (up - down) else negsuc (down - up - 1)

-- time.Duration(seconds) * time.Second, in nanoseconds of 64 bits.
abbrev pub duration_of : ℤ → ℤ
duration_of seconds = to_signed (2 ^ 63) (pos_part seconds * 1000000000 % 2 ^ 64)

unfoldable pub expired_at : ℤ → ℤ → ℤ → Bool
expired_at expiry created now =
    if ltb_ℤ (pos 0) expiry then ltb_ℤ (created +ℤ duration_of expiry) now else false

-- Back() of the list.
unfoldable pub back : {A : Type 0} → List A → Option A
back [] = none
back (x ∷ []) = some x
back (x ∷ y ∷ xs) = back (y ∷ xs)

module _ {P R : Type 0} where
  abbrev pub touch : ℤ → QueryCacheItem P R → QueryCacheItem P R
  touch now item = record item { access_time = now; access_count = suc item.access_count }

  abbrev pub new_item : ℤ → List ℕ → QueryCacheItem P R
  new_item now key = record {
    key = key;
    plan = none;
    result = none;
    access_time = now;
    create_time = now;
    access_count = 1;
  }

  abbrev plan_with : Content P R → Option P → Option P
  plan_with (plan_of plan) old = some plan
  plan_with (result_of result) old = old

  abbrev result_with : Content P R → Option R → Option R
  result_with (plan_of plan) old = old
  result_with (result_of result) old = some result

  -- `item.plan = plan` in Put, `item.result = result` in PutResult.
  abbrev pub with_content : Content P R → QueryCacheItem P R → QueryCacheItem P R
  with_content content item = record item {
    plan = plan_with content item.plan;
    result = result_with content item.result;
  }

module _ {Q P R : Type 0} where
  -- NewExtendedLRUQueryCache; the hash functions are arguments.
  abbrev pub new_cache : (Q → List ℕ) → (P → List ℕ) → ℤ → QueryCache Q P R
  new_cache plan_hash result_hash capacity = record {
    capacity = capacity;
    list = [];
    items = [];
    next_address = 0;
    plan_hash_func = plan_hash;
    result_hash_func = result_hash;
    hits = 0;
    misses = 0;
    expiry = pos 3600;
  }

  unfoldable pub is_expired : ℤ → QueryCacheItem P R → QueryCache Q P R → Bool
  is_expired now item c = expired_at c.expiry item.create_time now

  -- The element that `items` has for a key, with its value.
  unfoldable pub find_element : List ℕ → QueryCache Q P R → Option (ℕ × QueryCacheItem P R)
  find_element key c = elim (lookup key c.items) [
    | none ↦ none
    | some address ↦ elim (lookup address c.list) [ none ↦ none | some item ↦ some (address, item) ]
  ]

  unfoldable pub remove_element : ℕ → QueryCacheItem P R → QueryCache Q P R → QueryCache Q P R
  remove_element address item c = record c {
    items = delete item.key c.items;
    list = delete address c.list;
  }

  unfoldable pub remove_oldest : QueryCache Q P R → QueryCache Q P R
  remove_oldest c = elim (back c.list) [
    | none ↦ c
    | some (address, item) ↦ remove_element address item c
  ]

  -- The element gets this value and moves to the front.
  unfoldable pub move_to_front : ℕ → QueryCacheItem P R → QueryCache Q P R → QueryCache Q P R
  move_to_front address item c = record c { list = (address, item) ∷ delete address c.list }

  abbrev count_miss : QueryCache Q P R → QueryCache Q P R
  count_miss c = record c { misses = suc c.misses }

  abbrev count_hit : QueryCache Q P R → QueryCache Q P R
  count_hit c = record c { hits = suc c.hits }

  -- Get, once the key is looked up.
  unfoldable pub get_found :
      ℤ → Option (ℕ × QueryCacheItem P R) → QueryCache Q P R → Option P × QueryCache Q P R
  get_found now none c = (none, count_miss c)
  get_found now (some (address, item)) c =
      if is_expired now item c
      then (none, count_miss (remove_element address item c))
      else (item.plan, move_to_front address (touch now item) (count_hit c))

  unfoldable pub get : ℤ → Option Q → QueryCache Q P R → Option P × QueryCache Q P R
  get now none c = (none, c)
  get now (some query) c = get_found now (find_element (c.plan_hash_func query) c) c

  -- GetResult, once the key is looked up, and with the item's result.
  unfoldable pub get_result_in :
      ℤ → ℕ → QueryCacheItem P R → Option R → QueryCache Q P R → Option R × QueryCache Q P R
  get_result_in now address item none c = (none, count_miss c)
  get_result_in now address item (some result) c =
      if is_expired now item c
      then (none, count_miss (remove_element address item c))
      else (some result, move_to_front address (touch now item) (count_hit c))

  unfoldable pub get_result_found :
      ℤ → Option (ℕ × QueryCacheItem P R) → QueryCache Q P R → Option R × QueryCache Q P R
  get_result_found now none c = (none, count_miss c)
  get_result_found now (some (address, item)) c = get_result_in now address item item.result c

  unfoldable pub get_result : ℤ → Option P → QueryCache Q P R → Option R × QueryCache Q P R
  get_result now none c = (none, c)
  get_result now (some plan) c = get_result_found now (find_element (c.result_hash_func plan) c) c

  -- The capacity check of Put and PutResult.
  unfoldable pub evict : QueryCache Q P R → QueryCache Q P R
  evict c = if ltb_ℤ c.capacity (pos (length c.list)) then remove_oldest c else c

  -- A new item goes to the front.
  unfoldable pub push_front : QueryCacheItem P R → QueryCache Q P R → QueryCache Q P R
  push_front item c = record c {
    list = (c.next_address, item) ∷ c.list;
    items = insert item.key c.next_address c.items;
    next_address = suc c.next_address;
  }

  -- Put and PutResult, once the key is looked up.
  unfoldable pub put_found :
      ℤ
      → List ℕ
      → Content P R
      → Option (ℕ × QueryCacheItem P R)
      → QueryCache Q P R
      → QueryCache Q P R
  put_found now key content none c = evict (push_front (with_content content (new_item now key)) c)
  put_found now key content (some (address, item)) c =
      move_to_front address (touch now (with_content content item)) c

  unfoldable pub put : ℤ → Option Q → Option P → QueryCache Q P R → QueryCache Q P R
  put now (some query) (some plan) c =
      let key = c.plan_hash_func query in put_found now key (plan_of plan) (find_element key c) c
  put now query plan c = c

  unfoldable pub put_result : ℤ → Option P → Option R → QueryCache Q P R → QueryCache Q P R
  put_result now (some plan) (some result) c =
      let key = c.result_hash_func plan in
      put_found now key (result_of result) (find_element key c) c
  put_result now plan result c = c

  unfoldable pub clear : QueryCache Q P R → QueryCache Q P R
  clear c = record c { list = []; items = []; hits = 0; misses = 0 }

  unfoldable pub set_expiry : ℤ → QueryCache Q P R → QueryCache Q P R
  set_expiry seconds c = record c { expiry = seconds }

  abbrev pub get_stats : QueryCache Q P R → CacheStats
  get_stats c = record {
    capacity = c.capacity;
    size = length c.list;
    hits = c.hits;
    misses = c.misses;
    expiry = c.expiry;
  }
