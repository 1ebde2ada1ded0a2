-- ===== src/Webhooks/Doubles.antt =====
-- Go's conversion of an int64 that is not negative to float64, as Backoff of internal/webhook/redrive.go
-- uses it: the nearest number of 53 binary digits, and of two that are as near the one with an even last
-- digit. A product with a power of two keeps its digits.
use maintainerd_secret.Base.{
  ℕ, zero, suc, ◌+◌, ◌*◌, ◌/◌, ◌%◌, ◌^◌, ◌<◌, ◌≡◌, refl, true, arith, ltb, ◌==◌, if◌then◌else◌,
}

-- The weight of the last digit: the least power of two with which 53 digits reach the number. Eleven
-- doublings reach every number below 2 ^ 64.
unfoldable pub last_digit : ℕ → ℕ → ℕ → ℕ
last_digit zero n unit = unit
last_digit (suc fuel) n unit =
    let rest = last_digit fuel n (2 * unit) in if ltb n (2 ^ 53 * unit) then unit else rest

unfoldable pub nearest_multiple : ℕ → ℕ → ℕ
nearest_multiple unit n =
    let below = n / unit * unit in
    let above = (n / unit + 1) * unit in
    if ltb (2 * (n % unit)) unit
    then below
    else if ltb unit (2 * (n % unit))
    then above
    else if n / unit % 2 == 0
    then below
    else above

unfoldable pub float64 : ℕ → ℕ
float64 n = nearest_multiple (last_digit 11 n 1) n

-- Numbers of 53 digits are exact.
pub float64_exact : (n : ℕ) → n < 2 ^ 53 → float64 n ≡ n
unfolding float64 last_digit nearest_multiple
float64_exact n h =
    let small : ltb n (2 ^ 53 * 1) ≡ true = ground (arith, h) in rw small (ground arith)

-- The first number that is not.
float64_rounds : float64 (2 ^ 53 + 1) ≡ 2 ^ 53
unfolding float64 last_digit nearest_multiple
float64_rounds = refl
