-- ===== src/Examples/Limiters.antt =====
-- The limiter on concrete requests: tests, and instances of its theorems.
use maintainerd_secret.Base.{ℕ, ◌*◌, ◌≤◌, ◌≡◌, refl, true, false, some, [], ◌∷◌, arith, keep}
use maintainerd_secret.Limiter.{
  Limiter, Ask, sweep, rotate, bucket_locked, slice_for, decide, allow_begin, second,
}
use maintainerd_secret.Limiter.Table.{Bucket, bucket_at, set_bucket}
use maintainerd_secret.Limiter.Store.{reserved_at, upsert, reserve}
use maintainerd_secret.Limiter.Fleet.{
  Replica, Fleet, fleet, finish, arrives, commits, returns, moves, Run, rests, goes, reserve_for,
}
use maintainerd_secret.Limiter.Budget.{paid_units, budget_bounds_fleet}
use maintainerd_secret.Limiter.Ceiling.{admitted, admitted_exact}

abbrev noon : ℕ
noon = 90 * second

abbrev open_bucket : Bucket
open_bucket = record {
  count = 3;
  window_start = 60 * second;
  reset_at = 120 * second;
  granted = 0;
  spent = 0;
  exhausted = false;
  backoff_at = 0;
}

abbrev alone : Limiter
alone = record {
  window = 60 * second;
  max_keys = 50_000;
  has_store = false;
  divisor = 10;
  store_backoff = 5 * second;
  buckets = ("sub:a", open_bucket) ∷ [];
  degraded = false;
}

-- Four requests against a limit of five, three of which are spent: two pass.
admitted_exact_example : admitted "sub:a" 5 (noon ∷ noon ∷ noon ∷ noon ∷ []) alone ≡ 2
unfolding bucket_at
admitted_exact_example =
    admitted_exact "sub:a" 5 (noon ∷ noon ∷ noon ∷ noon ∷ []) open_bucket alone (ground arith) refl
      refl (omega arith, (omega arith, (omega arith, (omega arith, tt))))

abbrev sharing : Limiter
sharing = record alone { buckets = []; has_store = true }

abbrev idle : Replica
idle = record { limiter = sharing; asking = []; answered = [] }

abbrev first_ask : Ask
first_ask = record {
  key = "sub:a";
  window_start = 60 * second;
  window_end = 120 * second;
  limit = 1;
  slice = 1;
}

abbrev asked : Limiter
asked = (allow_begin "sub:a" 1 noon sharing).0

abbrev two_replicas : Fleet
two_replicas = fleet [] (idle ∷ idle ∷ []) []

abbrev answered_fleet : Fleet
answered_fleet =
    let out = finish first_ask (some 1) noon asked [] [] [] in
    fleet (reserve_for first_ask []).1 (out.0 ∷ idle ∷ []) out.1

one_request : Run 1 (60 * second) two_replicas answered_fleet
unfolding allow_begin bucket_locked rotate sweep decide slice_for bucket_at set_bucket keep reserve
    upsert reserved_at
one_request =
    goes
      (goes (goes rests (moves [] (idle ∷ []) (arrives "sub:a" noon idle [])))
        (moves [] (idle ∷ []) (commits first_ask [] [] asked [] [])))
      (moves [] (idle ∷ []) (returns first_ask 1 noon [] [] asked [] []))

budget_bounds_fleet_example : paid_units "sub:a" (60 * second) answered_fleet.log ≤ 1
unfolding reserved_at
budget_bounds_fleet_example =
    budget_bounds_fleet "sub:a" (60 * second) 1 two_replicas answered_fleet
      ((refl, refl, refl), ((refl, refl, refl), tt)) refl refl one_request
