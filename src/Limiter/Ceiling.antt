-- ===== src/Limiter/Ceiling.antt =====
-- The ceiling of one replica in one window (Allow without a shared store,
-- internal/platform/middleware/rate_limit.go).
use maintainerd_secret.Base.{
  ℕ, suc, ◌+◌, ◌-◌, ◌<◌, ◌≢◌, ◌≡◌, refl, inl, inr, min, Bool, true, false, some, List, [], ◌∷◌,
  String, arith, ltb, ◌==◌, if◌then◌else◌, length, All, Bool-cases,
}
use maintainerd_secret.Limiter.{
  Limiter, over_ceiling, local_only, Progress, done, asks, answer, put_bucket, bucket_locked,
  decide, allow_begin, retry_after_for,
}
use maintainerd_secret.Limiter.Table.{Bucket, bucket_at, bucket_at-set_bucket}

abbrev passes : Progress → Bool
passes (done v) = (answer v).0
passes (asks a) = true

-- How many requests of a key pass that arrive at these times.
unfoldable pub admitted : String → ℕ → List ℕ → Limiter → ℕ
admitted key limit [] l = 0
admitted key limit (now ∷ times) l =
    let (l', p) = allow_begin key limit now l in
    let rest = admitted key limit times l' in if passes p then suc rest else rest

abbrev counted : Bucket → Bucket
counted b = record b { count = b.count + 1 }

allow_begin_alone :
    (key : String) (limit now : ℕ) (b : Bucket) (l : Limiter)
    → limit ≢ 0
    → l.has_store ≡ false
    → bucket_at key l.buckets ≡ some b
    → now < b.reset_at
    → allow_begin key limit now l ≡ (
      put_bucket key (counted b) l,
      done (
          if ltb limit (b.count + 1)
          then over_ceiling (retry_after_for (counted b) now)
          else local_only),
    )
unfolding allow_begin bucket_locked decide
allow_begin_alone key limit now b l pos alone e live =
    let some_limit : (limit == 0) ≡ false = ground arith in
    let is_live : ltb now b.reset_at ≡ true = ground arith in
    rw (some_limit, allow_begin)
      (rw (e, bucket_locked)
        (rw is_live (elim (Bool-cases (ltb limit (b.count + 1))) [
          | inl over ↦ rw over refl
          | inr under ↦ rw under (rw alone refl)
        ])))

-- Without a shared store, of the requests of a key that arrive while its bucket is live exactly as
-- many pass as the limit leaves: all of them, or the limit less the count so far, whichever is less.
pub admitted_exact :
    (key : String) (limit : ℕ) (times : List ℕ) (b : Bucket) (l : Limiter)
    → limit ≢ 0
    → l.has_store ≡ false
    → bucket_at key l.buckets ≡ some b
    → All (λ now. now < b.reset_at) times
    → admitted key limit times l ≡ min (length times) (limit - b.count)
unfolding admitted
admitted_exact key limit [] b l pos alone e live = omega arith
admitted_exact key limit (now ∷ times) b l pos alone e live =
    let step = allow_begin_alone key limit now b l pos alone e live.0 in
    let rest =
      admitted_exact key limit times (counted b) (put_bucket key (counted b) l) pos alone
        (bucket_at-set_bucket key (counted b) l.buckets) live.1 in
    elim (Bool-cases (ltb limit (b.count + 1))) [
      | inl over ↦ rw (step, admitted) (rw over (ground arith))
      | inr under ↦ rw (step, admitted) (rw under (ground arith))
    ]
