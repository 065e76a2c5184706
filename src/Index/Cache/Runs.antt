-- ===== src/Index/Cache/Runs.antt =====
-- Runs of the query cache on small data: queries, plans and results are numbers, and a number is its
-- own hash.
use fragmenta.Base.{ℕ, ◌≡◌, ◌≢◌, refl, arith, List, [], ◌∷◌, none, some, text_eq, if◌then◌else◌}
use fragmenta.Base.Int.{pos, to_signed}
use fragmenta.Base.Map.{nat_eq, text_keys, insert, lookup, delete}
use fragmenta.Index.Cache.{
  QueryCache, new_cache, get, get_found, put, put_found, evict, push_front, find_element,
  remove_oldest, remove_element, back, move_to_front, expired_at, is_expired,
}
use fragmenta.Index.Cache.Reached.{created, stored, IsWell, Reached-IsWell}
use fragmenta.Index.Cache.Calls.{no_call, put_call}
use fragmenta.Index.Cache.PutGet.{get-put, created_at}

abbrev singleton : ℕ → List ℕ
singleton n = n ∷ []

abbrev two_places : QueryCache ℕ ℕ ℕ
two_places = new_cache singleton singleton (pos 2)

-- The third plan drops the first.
abbrev three_plans : QueryCache ℕ ℕ ℕ
three_plans =
    put (pos 3) (some 3) (some 30)
      (put (pos 2) (some 2) (some 20) (put (pos 1) (some 1) (some 10) two_places))

oldest_dropped : (get (pos 4) (some 1) three_plans).0 ≡ none
unfolding put put_found find_element evict push_front remove_oldest remove_element back
    move_to_front get get_found insert lookup delete text_eq
oldest_dropped = refl

Reached-IsWell_example : IsWell three_plans
Reached-IsWell_example = Reached-IsWell three_plans (
    stored (pos 3) (some 3) (some 30) (
      stored (pos 2) (some 2) (some 20)
        (stored (pos 1) (some 1) (some 10) (created singleton singleton (pos 2)))))

-- A new plan in an old item, and then a plan for another query.
abbrev renewed : QueryCache ℕ ℕ ℕ
renewed = put (pos 1) (some 1) (some 10) two_places

abbrev renewed_later : QueryCache ℕ ℕ ℕ
renewed_later = put (pos 9) (some 2) (some 20) (put (pos 8) (some 1) (some 11) renewed)

two_not_one : singleton 2 ≢ singleton 1
two_not_one = ground arith

get-put_example : (get (pos 3600000000002) (some 1) renewed_later).0 ≡ (
    if expired_at renewed_later.expiry
      (created_at (pos 8) (find_element (singleton 1) renewed))
      (pos 3600000000002)
    then none
    else some 11)
unfolding put put_found find_element evict push_front move_to_front insert lookup delete text_eq
get-put_example =
    get-put (pos 8) (pos 3600000000002) 1 11 renewed renewed_later 1
      (stored (pos 1) (some 1) (some 10) (created singleton singleton (pos 2)))
      (put_call (pos 9) 2 20 {c = put (pos 8) (some 1) (some 11) renewed} two_not_one no_call)
      (omega arith)

-- The new plan is stored at 8 and is gone an hour after 1.
expires_with_old : (get (pos 3600000000002) (some 1) renewed_later).0 ≡ none
unfolding put put_found find_element evict push_front remove_oldest remove_element back
    move_to_front get get_found insert lookup delete is_expired expired_at to_signed text_eq
expires_with_old = refl
