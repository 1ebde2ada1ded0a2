-- ===== src/Webhooks/Schedule.antt =====
-- The delays of the re-drive worker, Backoff of internal/webhook/redrive.go.
use maintainerd_secret.Base.{
  ℕ, zero, suc, ◌-◌, ◌*◌, ◌^◌, ◌≤◌, ◌<◌, ◌≡◌, refl, sym, subst, Bool, true, false, inl, inr, ltb,
  leb, min, arith, if◌then◌else◌, Bool-cases,
}
use native.Mathlib.Nat.{pow-suc}
use maintainerd_secret.Webhooks.Doubles.{float64_exact}
use maintainerd_secret.Webhooks.{RedriveOptions, redrive_defaults, backoff, doubled}

-- Past the largest shift, the doubled base is beyond every duration.
pow_large : (n : ℕ) → 62 < n → 2 ^ 63 ≤ 2 ^ n
pow_large zero h = absurd (omega arith)
pow_large (suc n) h = elim (Bool-cases (ltb 62 n)) [
  | inl e ↦ omega (arith, pow-suc 2 n, pow_large n (ground arith))
  | inr e ↦ let f : n ≡ 62 = ground arith in rw f (omega arith)
]

times_large : (base p q : ℕ) → 0 < base → q ≤ p → q ≤ base * p
times_large base p q h k = grind arith

times_pow : (base n : ℕ) → base * 2 ^ suc n ≡ 2 * (base * 2 ^ n)
times_pow base n = rw (pow-suc 2 n) (grind arith)

capped_twice :
    (cap x y : ℕ) (big bigger : Bool)
    → y ≡ 2 * x
    → (bigger ≡ true → cap ≤ y)
    → (big ≡ true → bigger ≡ true)
    → (if bigger then cap else if leb cap y then cap else y)
      ≡ min cap (2 * (if big then cap else if leb cap x then cap else x))
capped_twice cap x y true true e f g = ground arith
capped_twice cap x y true false e f g = absurd (let h = g refl in cc)
capped_twice cap x y false true e f g = let h = f refl in ground arith
capped_twice cap x y false false e f g = ground arith

-- Below 2 ^ 53 the source's arithmetic is exact.
doubled_exact :
    (base cap shift : ℕ)
    → base ≤ cap
    → cap < 2 ^ 53
    → doubled base cap shift
      ≡ (if ltb 62 shift then cap else if leb cap (base * 2 ^ shift) then cap else base * 2 ^ shift)
doubled_exact base cap shift k l =
    rw (float64_exact base (omega (arith, k, l)), float64_exact cap l) refl

doubled-suc :
    (base cap n : ℕ)
    → 0 < base
    → base ≤ cap
    → cap < 2 ^ 53
    → doubled base cap (suc n) ≡ min cap (2 * doubled base cap n)
doubled-suc base cap n h k l =
    rw (doubled_exact base cap (suc n) k l, doubled_exact base cap n k l)
      (capped_twice cap (base * 2 ^ n) (base * 2 ^ suc n) (ltb 62 n) (ltb 62 (suc n))
        (times_pow base n)
        (λ e.
          omega
            (arith, l, times_large base (2 ^ suc n) (2 ^ 63) h (pow_large (suc n) (ground arith))))
        (λ e. ground arith))

backoff-doubled :
    (base cap attempt : ℕ)
    → 0 < base
    → base ≤ cap
    → backoff base cap attempt ≡ doubled base cap (attempt - 1)
unfolding backoff
backoff-doubled base cap attempt h k = ground arith

doubled-next :
    (base cap i j : ℕ)
    → i ≡ suc j
    → 0 < base
    → base ≤ cap
    → cap < 2 ^ 53
    → doubled base cap i ≡ min cap (2 * doubled base cap j)
doubled-next base cap i j e h k l =
    subst (λ (m : ℕ). doubled base cap m ≡ min cap (2 * doubled base cap j)) (sym e)
      (doubled-suc base cap j h k l)

backoff_doubles :
    (base cap n : ℕ)
    → 0 < base
    → base ≤ cap
    → cap < 2 ^ 53
    → (backoff base cap 1 ≡ base)
      × (backoff base cap (suc (suc n)) ≡ min cap (2 * backoff base cap (suc n)))
backoff_doubles base cap n h k l =
    let first : doubled base cap (1 - 1) ≡ base =
      rw (doubled_exact base cap (1 - 1) k l) (ground arith) in
    rw
      (
        backoff-doubled base cap 1 h k,
        backoff-doubled base cap (suc (suc n)) h k,
        backoff-doubled base cap (suc n) h k,
      )
      (first, doubled-next base cap (suc (suc n) - 1) (suc n - 1) (omega arith) h k l)

-- The defaults leave a positive base, a cap that is no less, and a duration.
redrive_defaults-bounds :
    (o : RedriveOptions)
    → o.base_backoff < 2 ^ 53
    → o.max_backoff < 2 ^ 53
    → (0 < (redrive_defaults o).base_backoff)
      × ((redrive_defaults o).base_backoff ≤ (redrive_defaults o).max_backoff)
      × ((redrive_defaults o).max_backoff < 2 ^ 53)
unfolding redrive_defaults
redrive_defaults-bounds o h k = (ground arith, ground arith, ground arith)

-- For options whose delays are below 2 ^ 53 nanoseconds, which is 104 days: the worker's first delay is
-- its base, which is positive, and each later delay is twice the one before it, or the cap.
pub worker_delays :
    (o : RedriveOptions) (n : ℕ)
    → o.base_backoff < 2 ^ 53
    → o.max_backoff < 2 ^ 53
    → (0 < (redrive_defaults o).base_backoff)
      × (backoff (redrive_defaults o).base_backoff (redrive_defaults o).max_backoff 1
          ≡ (redrive_defaults o).base_backoff)
      × (backoff (redrive_defaults o).base_backoff (redrive_defaults o).max_backoff (suc (suc n))
          ≡ min (redrive_defaults o).max_backoff (
              2
              * backoff (redrive_defaults o).base_backoff (redrive_defaults o).max_backoff (suc n)))
worker_delays o n h k =
    let (positive, capped, bounded) = redrive_defaults-bounds o h k in
    let (first, next) =
      backoff_doubles (redrive_defaults o).base_backoff (redrive_defaults o).max_backoff n positive
        capped bounded in
    (positive, first, next)
