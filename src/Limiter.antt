-- ===== src/Limiter.antt =====
-- The fixed-window limiter of internal/platform/middleware/rate_limit.go. Times are in nanoseconds
-- from the zero time of Go, to which Truncate aligns. The lock is free while the shared store is
-- asked, so Allow is two functions: what runs before the call, and what runs after it.
pub mod Table
pub mod Store
pub mod Fleet
mod Held
mod Begin
mod Finish
pub mod Budget
pub mod Ceiling
use maintainerd_secret.Base.{
  ℕ, ◌+◌, ◌-◌, ◌*◌, ◌/◌, ◌%◌, Bool, true, false, not, ◌||◌, Option, none, some, List, [], String,
  ltb, leb, ◌==◌, if◌then◌else◌, keep, length,
}
use maintainerd_secret.Limiter.Table.{Bucket, Buckets, bucket_at, set_bucket}

pub record Limiter : Type 0 where
  pub window : ℕ
  pub max_keys : ℕ
  pub has_store : Bool
  pub divisor : ℕ
  pub store_backoff : ℕ
  pub buckets : Buckets
  pub degraded : Bool

abbrev pub second : ℕ
second = 1_000_000_000

abbrev pub default_divisor : ℕ
default_divisor = 10

-- NewLimiter; WithStore sets `has_store`.
unfoldable pub new_limiter : ℕ → Limiter
new_limiter window = record {
  window = if window == 0 then 60 * second else window;
  max_keys = 50_000;
  has_store = false;
  divisor = default_divisor;
  store_backoff = 5 * second;
  buckets = [];
  degraded = false;
}

unfoldable pub with_store : Limiter → Limiter
with_store l = record l { has_store = true }

abbrev pub live_after : ℕ → String × Bucket → Bool
live_after now (key, b) = not (ltb b.reset_at now)

unfoldable pub sweep : ℕ → Limiter → Limiter
sweep now l =
    let kept = keep (live_after now) l.buckets in
    if ltb (length l.buckets) l.max_keys
    then if ltb (length l.buckets) (l.max_keys / 2) then l else record l { buckets = kept }
    else if leb l.max_keys (length kept)
    then record l { buckets = [] }
    else record l { buckets = kept }

abbrev pub fresh_bucket : ℕ → ℕ → Bucket
fresh_bucket now window = record {
  count = 0;
  window_start = now - now % window;
  reset_at = (now - now % window) + window;
  granted = 0;
  spent = 0;
  exhausted = false;
  backoff_at = 0;
}

-- The live bucket of a key, a new one in place of an expired one.
unfoldable pub rotate : String → ℕ → Limiter → Bucket × Limiter
rotate key now l =
    let b = fresh_bucket now l.window in
    let swept = sweep now l in (b, record swept { buckets = set_bucket key b swept.buckets })

unfoldable pub bucket_locked : String → ℕ → Limiter → Bucket × Limiter
bucket_locked key now l = elim (bucket_at key l.buckets) [
  | none ↦ rotate key now l
  | some b ↦ if ltb now b.reset_at then (b, l) else rotate key now l
]

unfoldable pub slice_for : Limiter → ℕ → ℕ
slice_for l limit =
    let d = if l.divisor == 0 then default_divisor else l.divisor in
    let s = if limit / d == 0 then 1 else limit / d in if ltb limit s then limit else s

-- Round to the nearest second, halves up.
abbrev pub round_second : ℕ → ℕ
round_second d = let r = d % second in if ltb (r + r) second then d - r else (d - r) + second

unfoldable pub retry_after_for : Bucket → ℕ → ℕ
retry_after_for b now =
    let wait = round_second (b.reset_at - now) in if ltb wait second then second else wait

-- The return of Allow that is taken: with the wait of a refusal, or with the start of the window
-- whose shared budget pays.
pub data Verdict : Type 0 where
  unmetered : Verdict
  over_ceiling : ℕ → Verdict
  local_only : Verdict
  pays : ℕ → Verdict
  budget_gone : ℕ → Verdict
  backing_off : Verdict
  window_over : Verdict
  store_failed : Verdict

-- What the caller of Allow sees: whether the request is allowed, and the wait.
abbrev pub answer : Verdict → Bool × ℕ
answer (over_ceiling wait) = (false, wait)
answer (budget_gone wait) = (false, wait)
answer _ = (true, 0)

-- A reservation that is asked of the shared store.
pub record Ask : Type 0 where
  pub key : String
  pub window_start : ℕ
  pub window_end : ℕ
  pub limit : ℕ
  pub slice : ℕ

pub data Progress : Type 0 where
  done : Verdict → Progress
  asks : Ask → Progress

abbrev pub put_bucket : String → Bucket → Limiter → Limiter
put_bucket key b l = record l { buckets = set_bucket key b l.buckets }

-- Allow on the live bucket, up to the call of the store: the five steps of the source.
unfoldable pub decide : String → ℕ → ℕ → Bucket × Limiter → Limiter × Progress
decide key limit now (b₀, l₀) =
    let b = record b₀ { count = b₀.count + 1 } in
    let l = put_bucket key b l₀ in
    if ltb limit b.count
    then (l, done (over_ceiling (retry_after_for b now)))
    else if not l.has_store
    then (l, done local_only)
    else if ltb b.spent b.granted
    then (put_bucket key (record b { spent = b.spent + 1 }) l₀, done (pays b.window_start))
    else if b.exhausted
    then (l, done (budget_gone (retry_after_for b now)))
    else if ltb now b.backoff_at
    then (l, done backing_off)
    else (
      l,
      asks (record {
        key = key;
        window_start = b.window_start;
        window_end = b.reset_at;
        limit = limit;
        slice = slice_for l limit;
      }),
    )

unfoldable pub allow_begin : String → ℕ → ℕ → Limiter → Limiter × Progress
allow_begin key limit now l =
    if limit == 0 then (l, done unmetered) else decide key limit now (bucket_locked key now l)

-- A grant is added to the bucket; a short one is the last of the window.
unfoldable pub apply_grant : Ask → ℕ → ℕ → Bucket → Limiter → Limiter × Verdict
apply_grant a granted now cur l₀ =
    let l = record l₀ { degraded = false } in
    let b = record cur {
      granted = cur.granted + granted;
      exhausted = cur.exhausted || ltb granted a.slice;
    } in
    if ltb b.spent b.granted
    then (put_bucket a.key (record b { spent = b.spent + 1 }) l, pays b.window_start)
    else (put_bucket a.key b l, budget_gone (retry_after_for b now))

-- The call of the store failed.
unfoldable pub back_off : Ask → ℕ → Bucket → Limiter → Limiter × Verdict
back_off a now cur l =
    let l' = record l { degraded = true } in
    (put_bucket a.key (record cur { backoff_at = now + l.store_backoff }) l', store_failed)

-- Allow after the call of the store, which answers with a grant or, as `none`, an error.
unfoldable pub allow_finish : Ask → Option ℕ → ℕ → Limiter → Limiter × Verdict
allow_finish a result now l = elim (bucket_at a.key l.buckets) [
  | none ↦ (l, window_over)
  | some cur ↦ if not (cur.reset_at == a.window_end) then (l, window_over) else elim result [
    | none ↦ back_off a now cur l
    | some granted ↦ apply_grant a granted now cur l
  ]
]
