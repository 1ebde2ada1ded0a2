-- ===== src/Limiter/Finish.antt =====
-- Allow after the call of the store (internal/platform/middleware/rate_limit.go): what a replica
-- pays and keeps is covered by what it held and the grant.
use maintainerd_secret.Base.{
  ℕ, ◌+◌, ◌≤◌, ◌≡◌, refl, ◌⊎◌, inl, inr, Bool, true, false, ◌||◌, Option, none, some, String, arith,
  str_eq, ltb, ◌==◌, if◌then◌else◌, Bool-cases, Option-cases, if-cases,
}
use maintainerd_secret.Limiter.{
  Limiter, Ask, Verdict, pays, budget_gone, window_over, store_failed, put_bucket, retry_after_for,
  apply_grant, back_off, allow_finish,
}
use maintainerd_secret.Limiter.Table.{Bucket, bucket_at}
use maintainerd_secret.Limiter.Held.{
  IsAligned, IsLimiter, unspent_of, unspent, paid, unit, put_bucket-IsLimiter, put_bucket-unspent,
  zero_if,
}

-- The units of a key's window that one reservation was granted.
abbrev pub grant_in : String → ℕ → Ask × ℕ → ℕ
grant_in key start (a, n) =
    if str_eq a.key key then (if a.window_start == start then n else 0) else 0

abbrev granted_units : Option ℕ → ℕ
granted_units none = 0
granted_units (some n) = n

abbrev pub Covers : Ask → ℕ → Limiter → Limiter × Verdict → Type 0
Covers a n l out =
    IsLimiter out.0
    × (out.0.window ≡ l.window)
    × ((k : String) (start : ℕ)
        → unspent k start out.0 + unit k start (a.key, out.1)
          ≤ unspent k start l + grant_in k start (a, n))

degraded-IsLimiter : (d : Bool) (l : Limiter) → IsLimiter l → IsLimiter (record l { degraded = d })
degraded-IsLimiter d l h = record { distinct = h.distinct; aligned = h.aligned }

put_bucket-Covers :
    (a : Ask) (n : ℕ) (b cur : Bucket) (v : Verdict) (d : Bool) (l : Limiter)
    → IsLimiter l
    → bucket_at a.key l.buckets ≡ some cur
    → IsAligned l.window b
    → ((s : ℕ)
        → unspent_of s (some b) + paid s v
          ≤ unspent_of s (some cur) + (if a.window_start == s then n else 0))
    → Covers a n l (put_bucket a.key b (record l { degraded = d }), v)
put_bucket-Covers a n b cur v d l h e al le = (
  put_bucket-IsLimiter a.key b (record l { degraded = d }) (degraded-IsLimiter d l h) al,
  refl,
  put_bucket-unspent a.key b (record l { degraded = d }) (λ s. paid s v)
      (λ s. if a.window_start == s then n else 0) (λ s. rw e (le s)),
)

apply_grant-Covers :
    (a : Ask) (n now : ℕ) (cur : Bucket) (l : Limiter)
    → IsLimiter l
    → bucket_at a.key l.buckets ≡ some cur
    → cur.window_start ≡ a.window_start
    → Covers a n l (apply_grant a n now cur l)
unfolding apply_grant
apply_grant-Covers a n now cur l h e same =
    let al = h.aligned a.key cur e in
    let b = record cur { granted = cur.granted + n; exhausted = cur.exhausted || ltb n a.slice } in
    if-cases (Covers a n l) (ltb cur.spent (cur.granted + n)) _ _
      (λ c.
        put_bucket-Covers a n (record b { spent = b.spent + 1 }) cur (pays cur.window_start) false l
          h e al (λ s. ground arith))
      (λ c.
        put_bucket-Covers a n b cur (budget_gone (retry_after_for b now)) false l h e al
          (λ s. ground arith))

back_off-Covers :
    (a : Ask) (n now : ℕ) (cur : Bucket) (l : Limiter)
    → IsLimiter l
    → bucket_at a.key l.buckets ≡ some cur
    → Covers a n l (back_off a now cur l)
unfolding back_off
back_off-Covers a n now cur l h e =
    put_bucket-Covers a n _ cur store_failed true l h e (h.aligned a.key cur e) (λ s. ground arith)

unmoved-Covers : (a : Ask) (n : ℕ) (l : Limiter) → IsLimiter l → Covers a n l (l, window_over)
unmoved-Covers a n l h = (h, refl, λ k s. omega (arith, zero_if (str_eq a.key k)))

pub allow_finish-Covers :
    (a : Ask) (n now : ℕ) (result : Option ℕ) (l : Limiter)
    → IsLimiter l
    → a.window_end ≡ a.window_start + l.window
    → (result ≡ none) ⊎ (result ≡ some n)
    → Covers a n l (allow_finish a result now l)
unfolding allow_finish
allow_finish-Covers a n now result l h al r = elim (Option-cases (bucket_at a.key l.buckets)) [
  | inl e ↦ rw (e, allow_finish) (unmoved-Covers a n l h)
  | inr (cur, e) ↦
      rw (e, allow_finish)
        (elim (Bool-cases (cur.reset_at == a.window_end)) [
          | inr c ↦ rw c (unmoved-Covers a n l h)
          | inl c ↦
              let same : cur.window_start ≡ a.window_start =
                (let al' = h.aligned a.key cur e in ground arith) in
              rw c (elim r [
                | inl gone ↦ rw gone (back_off-Covers a n now cur l h e)
                | inr got ↦ rw got (apply_grant-Covers a n now cur l h e same)
              ])
        ])
]
