-- ===== src/Limiter/Held.antt =====
-- What one replica holds of a window's shared budget, and what Allow
-- (internal/platform/middleware/rate_limit.go) does to it.
use maintainerd_secret.Base.{
  ℕ, ◌+◌, ◌-◌, ◌/◌, ◌%◌, ◌≤◌, ◌≡◌, refl, inl, inr, Bool, true, false, Option, none, some, [],
  String, arith, sym, ◌∙◌, subst, str_eq, str_eq_iff, ltb, leb, ◌==◌, if◌then◌else◌, keep, length,
  Bool-cases,
}
use maintainerd_secret.Limiter.{Limiter, Verdict, pays, live_after, fresh_bucket, sweep, put_bucket}
use maintainerd_secret.Limiter.Table.{
  Bucket, bucket_at, set_bucket, bucket_at-set_bucket, bucket_at-set_bucket-other, Distinct,
  bucket_at-keep, keep-Distinct, set_bucket-Distinct,
}

abbrev pub IsAligned : ℕ → Bucket → Type 0
IsAligned window b = b.reset_at ≡ b.window_start + window

-- Buckets have different keys, and each spans one window.
pub record IsLimiter (l : Limiter) : Type 0 where
  pub distinct : Distinct l.buckets
  pub aligned : (k : String) (b : Bucket) → bucket_at k l.buckets ≡ some b → IsAligned l.window b

-- The units of a window that are reserved and not spent.
abbrev pub unspent_of : ℕ → Option Bucket → ℕ
unspent_of start none = 0
unspent_of start (some b) = if b.window_start == start then b.granted - b.spent else 0

abbrev pub unspent : String → ℕ → Limiter → ℕ
unspent key start l = unspent_of start (bucket_at key l.buckets)

abbrev pub paid : ℕ → Verdict → ℕ
paid start (pays s) = if s == start then 1 else 0
paid start _ = 0

-- The units of a key's window that one answer has spent.
abbrev pub unit : String → ℕ → String × Verdict → ℕ
unit key start (k, v) = if str_eq k key then paid start v else 0

pub put_bucket-IsLimiter :
    (key : String) (b : Bucket) (l : Limiter)
    → IsLimiter l
    → IsAligned l.window b
    → IsLimiter (put_bucket key b l)
put_bucket-IsLimiter key b l h al = record {
  distinct = set_bucket-Distinct key b l.buckets h.distinct;
  aligned = λ k b' e. elim (Bool-cases (str_eq key k)) [
    | inl same ↦
        let e' : bucket_at key (set_bucket key b l.buckets) ≡ some b' =
          subst (λ s. bucket_at s (set_bucket key b l.buckets) ≡ some b')
            (sym ((str_eq_iff key k).0 same)) e in
        let eb : some b ≡ some b' = sym (bucket_at-set_bucket key b l.buckets) ∙ e' in
        let eq : b ≡ b' = cc in subst (IsAligned l.window) eq al
    | inr other ↦ h.aligned k b' (sym (bucket_at-set_bucket-other key k b l.buckets other) ∙ e)
  ];
}

-- A limiter that holds what another holds, or less.
pub record Within (l l' : Limiter) : Type 0 where
  pub proper : IsLimiter l'
  pub same_window : l'.window ≡ l.window
  pub less : (key : String) (start : ℕ) → unspent key start l' ≤ unspent key start l

pub Within-refl : (l : Limiter) → IsLimiter l → Within l l
Within-refl l h = record { proper = h; same_window = refl; less = λ key start. omega arith }

keep-Within :
    (now : ℕ) (l : Limiter)
    → IsLimiter l
    → Within l (record l { buckets = keep (live_after now) l.buckets })
keep-Within now l h = record {
  proper = record {
    distinct = keep-Distinct (live_after now) l.buckets h.distinct;
    aligned = λ k b e. elim (bucket_at-keep (live_after now) k l.buckets h.distinct) [
      | inl same ↦ h.aligned k b (sym same ∙ e)
      | inr gone ↦ absurd (let no_bucket : none ≡ some b = sym gone ∙ e in cc)
    ];
  };
  same_window = refl;
  less = λ key start. elim (bucket_at-keep (live_after now) key l.buckets h.distinct) [
    | inl same ↦ rw same (omega arith)
    | inr gone ↦ rw gone (omega arith)
  ];
}

none-Within : (l : Limiter) → IsLimiter l → Within l (record l { buckets = [] })
unfolding bucket_at
none-Within l h = record {
  proper = record { distinct = tt; aligned = λ k b e. absurd (cc) };
  same_window = refl;
  less = λ key start. omega arith;
}

pub sweep-Within : (now : ℕ) (l : Limiter) → IsLimiter l → Within l (sweep now l)
unfolding sweep
sweep-Within now l h = elim (Bool-cases (ltb (length l.buckets) l.max_keys)) [
  | inl e ↦ rw e (elim (Bool-cases (ltb (length l.buckets) (l.max_keys / 2))) [
    | inl e' ↦ rw e' (Within-refl l h)
    | inr e' ↦ rw e' (keep-Within now l h)
  ])
  | inr e ↦ rw e (elim (Bool-cases (leb l.max_keys (length (keep (live_after now) l.buckets)))) [
    | inl e' ↦ rw e' (none-Within l h)
    | inr e' ↦ rw e' (keep-Within now l h)
  ])
]

-- What is held after a bucket is put, with units paid and units granted for its key.
pub put_bucket-unspent :
    (key' : String) (b : Bucket) (l : Limiter) (u g : ℕ → ℕ)
    → ((start : ℕ) → unspent_of start (some b) + u start ≤ unspent key' start l + g start)
    → (key : String) (start : ℕ)
    → unspent key start (put_bucket key' b l) + (if str_eq key' key then u start else 0)
      ≤ unspent key start l + (if str_eq key' key then g start else 0)
put_bucket-unspent key' b l u g h key start = elim (Bool-cases (str_eq key' key)) [
  | inl e ↦
      subst
        (λ k.
          unspent k start (put_bucket key' b l) + (if str_eq key' k then u start else 0)
          ≤ unspent k start l + (if str_eq key' k then g start else 0))
        ((str_eq_iff key' key).0 e)
        (rw ((str_eq_iff key' key').1 refl) (rw (bucket_at-set_bucket key' b l.buckets) (h start)))
  | inr e ↦ rw e (rw (bucket_at-set_bucket-other key' key b l.buckets e) (omega arith))
]

pub zero_if : (c : Bool) → let n : ℕ = 0 in (if c then n else n) ≡ n
zero_if true = refl
zero_if false = refl

pub put_bucket-Within :
    (key' : String) (b : Bucket) (l : Limiter)
    → IsLimiter l
    → IsAligned l.window b
    → ((start : ℕ) → unspent_of start (some b) ≤ unspent key' start l)
    → Within l (put_bucket key' b l)
put_bucket-Within key' b l h al le = record {
  proper = put_bucket-IsLimiter key' b l h al;
  same_window = refl;
  less = λ key start.
      let r = put_bucket-unspent key' b l (λ s. 0) (λ s. 0) (λ s. omega (arith, le s)) key start in
      omega (arith, r, zero_if (str_eq key' key));
}

pub Within-trans : (l l' l'' : Limiter) → Within l l' → Within l' l'' → Within l l''
Within-trans l l' l'' a b = record {
  proper = b.proper;
  same_window = b.same_window ∙ a.same_window;
  less = λ key start. omega (arith, a.less key start, b.less key start);
}

pub fresh-unspent : (now window start : ℕ) → unspent_of start (some (fresh_bucket now window)) ≡ 0
fresh-unspent now window start = elim (Bool-cases ((now - now % window) == start)) [
  | inl e ↦ rw e refl
  | inr e ↦ rw e refl
]
