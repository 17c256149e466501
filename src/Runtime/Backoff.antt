-- ===== src/Runtime/Backoff.antt =====
-- `submission_backoff_delay`: the delay before a retry, in nanoseconds.
use Prim.Native.Nat.pow
use triggerlane.Common.{
  ℕ, zero, suc, ◌+◌, ◌*◌, ◌-◌, ◌^◌, ◌≤◌, ◌<◌, min, ◌≡◌, Option, none, some, ltb, ◌||◌, ◌==◌, nat_eq,
  if◌then◌else◌, arith, dite, dec_lt,
}
use triggerlane.Event.{unwrap_or}

abbrev pub u32_max : ℕ
u32_max = 2 ^ 32 - 1

-- `Duration::MAX`
abbrev pub duration_max : ℕ
duration_max = 2 ^ 64 * 10 ^ 9 - 1

abbrev pub max_submission_backoff : ℕ
max_submission_backoff = 30 * 10 ^ 9

-- `1u32.checked_shl(n)`
unfoldable pub checked_shl_one : ℕ → Option ℕ
checked_shl_one n = if ltb n 32 then some (2 ^ n) else none

-- `Duration::saturating_mul`
unfoldable pub saturating_mul : ℕ → ℕ → ℕ
saturating_mul base factor = min (base * factor) duration_max

unfoldable pub submission_backoff_delay : ℕ → ℕ → ℕ
unfolding checked_shl_one saturating_mul
submission_backoff_delay retry_index base =
    if base == 0 || retry_index == 0
    then 0
    else (let factor = unwrap_or (checked_shl_one (retry_index - 1)) u32_max in
        min (saturating_mul base factor) max_submission_backoff)

two_pow_ge : (k : ℕ) → 2 ^ 32 ≤ 2 ^ (k + 32)
two_pow_ge zero = ground arith
two_pow_ge (suc k) = ground (arith, two_pow_ge k, pow.suc 2 (k + 32))

mul_le : (a b d : ℕ) → a ≤ d → a * b ≤ d * b
mul_le a zero d h = ground arith
mul_le a (suc b) d h = ground (arith, mul_le a b d h)

-- The delay never exceeds thirty seconds, and there is none before the first attempt or with a base
-- of zero.
pub delay_bounds :
    (retry_index base : ℕ)
    → (submission_backoff_delay retry_index base ≤ max_submission_backoff)
      × (submission_backoff_delay 0 base ≡ 0)
      × (submission_backoff_delay retry_index 0 ≡ 0)
unfolding submission_backoff_delay
delay_bounds retry_index base = ground arith

delay_small :
    (i base : ℕ)
    → 7 ≤ base
    → i < 32
    → submission_backoff_delay (suc i) base ≡ min (base * 2 ^ i) max_submission_backoff
unfolding submission_backoff_delay
delay_small i base h k = ground arith

delay_large :
    (k base : ℕ) → 7 ≤ base → submission_backoff_delay (suc (k + 32)) base ≡ max_submission_backoff
unfolding submission_backoff_delay
delay_large k base h = ground (arith, mul_le 7 u32_max base h)

-- The delay before the retry after `i` retries is the base doubled `i` times, or thirty seconds if
-- that is less, for every base of at least 7 nanoseconds: neither the `u32` factor nor the multiplication
-- that saturates shows.
pub delay-eq-min :
    (i base : ℕ)
    → 7 ≤ base
    → submission_backoff_delay (suc i) base ≡ min (base * 2 ^ i) max_submission_backoff
delay-eq-min i base h =
    dite (dec_lt i 32) (delay_small i base h) (λ n.
      ground (arith, delay_large (i - 32) base h, two_pow_ge (i - 32), mul_le 7 (2 ^ i) base h))
