-- ===== src/Limiter/Begin.antt =====
-- Allow up to the call of the store (internal/platform/middleware/rate_limit.go): what a replica
-- pays comes out of what it holds.
use maintainerd_secret.Base.{
  ℕ, ◌+◌, ◌≤◌, ◌≡◌, refl, inl, inr, not, some, String, arith, str_eq, ltb, ◌==◌, Bool-cases,
  Option-cases, if-cases,
}
use maintainerd_secret.Limiter.{
  Limiter, Ask, Verdict, over_ceiling, local_only, pays, budget_gone, backing_off, Progress, done,
  asks, fresh_bucket, sweep, rotate, bucket_locked, put_bucket, decide, retry_after_for,
  allow_begin,
}
use maintainerd_secret.Limiter.Table.{Bucket, bucket_at, bucket_at-set_bucket}
use maintainerd_secret.Limiter.Held.{
  IsAligned, IsLimiter, unspent_of, unspent, paid, unit, Within, put_bucket-IsLimiter, Within-refl,
  Within-trans, sweep-Within, put_bucket-unspent, zero_if, put_bucket-Within, fresh-unspent,
}

-- The live bucket is in the table of the limiter that looked it up.
abbrev Located : String → Limiter → Bucket × Limiter → Type 0
Located key l out =
    Within l out.1 × (bucket_at key out.1.buckets ≡ some out.0) × IsAligned out.1.window out.0

rotate-Located :
    (key : String) (now : ℕ) (l : Limiter) → IsLimiter l → Located key l (rotate key now l)
unfolding rotate
rotate-Located key now l h =
    let w = sweep-Within now l h in
    let b = fresh_bucket now l.window in
    (
      Within-trans l (sweep now l) _ w (
          put_bucket-Within key b (sweep now l) w.proper (rw w.same_window refl)
            (λ start. rw (fresh-unspent now l.window start) (omega arith))),
      bucket_at-set_bucket key b (sweep now l).buckets,
      rw w.same_window refl,
    )

bucket_locked-Located :
    (key : String) (now : ℕ) (l : Limiter) → IsLimiter l → Located key l (bucket_locked key now l)
unfolding bucket_locked
bucket_locked-Located key now l h = elim (Option-cases (bucket_at key l.buckets)) [
  | inl e ↦ rw (e, bucket_locked) (rotate-Located key now l h)
  | inr (b, e) ↦
      rw (e, bucket_locked)
        (elim (Bool-cases (ltb now b.reset_at)) [
          | inl live ↦ rw live (Within-refl l h, e, h.aligned key b e)
          | inr over ↦ rw over (rotate-Located key now l h)
        ])
]

-- An ask for a whole window of the key, under the limit.
abbrev pub AskOf : ℕ → ℕ → Ask → Type 0
AskOf limit window a = (a.window_end ≡ a.window_start + window) × (a.limit ≡ limit)

-- What a replica paid it had reserved.
abbrev pub Settles : String → ℕ → Limiter → Limiter × Progress → Type 0
Settles key limit l (l', done v) =
    IsLimiter l'
    × (l'.window ≡ l.window)
    × ((k : String) (start : ℕ) → unspent k start l' + unit k start (key, v) ≤ unspent k start l)
Settles key limit l (l', asks a) = Within l l' × AskOf limit l'.window a

-- A bucket is put back: what it paid comes out of what it held.
put_bucket-Settles :
    (key : String) (limit : ℕ) (b b' : Bucket) (v : Verdict) (l₀ l : Limiter)
    → Within l₀ l
    → bucket_at key l.buckets ≡ some b
    → IsAligned l.window b'
    → ((start : ℕ) → unspent_of start (some b') + paid start v ≤ unspent_of start (some b))
    → Settles key limit l₀ (put_bucket key b' l, done v)
put_bucket-Settles key limit b b' v l₀ l w e al h = (
  put_bucket-IsLimiter key b' l w.proper al,
  w.same_window,
  λ k start.
      let r =
        put_bucket-unspent key b' l (λ s. paid s v) (λ s. 0) (λ s. rw e (omega (arith, h s))) k
          start in
      omega (arith, r, zero_if (str_eq key k), w.less k start),
)

module _ (key : String) (limit now : ℕ) (b : Bucket) (l₀ l : Limiter) (w : Within l₀ l)
    (e : bucket_at key l.buckets ≡ some b) (al : IsAligned l.window b) where
  decide-Settles : Settles key limit l₀ (decide key limit now (b, l))
  unfolding decide
  decide-Settles =
      let plain = λ (v : Verdict) (free : (s : ℕ) → paid s v ≡ 0).
        put_bucket-Settles key limit b (record b { count = b.count + 1 }) v l₀ l w e al
          (λ s. omega (arith, free s)) in
      let P = Settles key limit l₀ in
      if-cases P (ltb limit (b.count + 1)) _ _
        (λ c.
          plain (over_ceiling (retry_after_for (record b { count = b.count + 1 }) now)) (λ s. refl))
        (λ c.
          if-cases P (not l.has_store) _ _ (λ c. plain local_only (λ s. refl))
            (λ c.
              if-cases P (ltb b.spent b.granted) _ _
                (λ c.
                  put_bucket-Settles key limit b
                    (record b { count = b.count + 1; spent = b.spent + 1 }) (pays b.window_start) l₀
                    l w e al (λ s. ground arith))
                (λ c.
                  if-cases P b.exhausted _ _
                    (λ c.
                      plain (budget_gone (retry_after_for (record b { count = b.count + 1 }) now))
                        (λ s. refl))
                    (λ c.
                      if-cases P (ltb now b.backoff_at) _ _ (λ c. plain backing_off (λ s. refl))
                        (λ c. (
                          Within-trans l₀ l _ w (
                              put_bucket-Within key (record b { count = b.count + 1 }) l w.proper al
                                (λ s. rw e (omega arith))),
                          (al, refl),
                        ))))))

pub allow_begin-Settles :
    (key : String) (limit now : ℕ) (l : Limiter)
    → IsLimiter l
    → Settles key limit l (allow_begin key limit now l)
unfolding allow_begin
allow_begin-Settles key limit now l h = elim (Bool-cases (limit == 0)) [
  | inl e ↦ rw e (h, refl, λ k start. omega (arith, zero_if (str_eq key k)))
  | inr e ↦
      let found = bucket_locked-Located key now l h in
      rw e (decide-Settles key limit now _ l (bucket_locked key now l).1 found.0 found.1 found.2)
]
