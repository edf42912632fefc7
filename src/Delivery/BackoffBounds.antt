-- ===== src/Delivery/BackoffBounds.antt =====
-- The range and the growth of the retry delay.
use autonomous_csa.Base.{
  ℕ, zero, suc, ◌+◌, ◌-◌, ◌*◌, ◌/◌, ◌^◌, ◌≤◌, min, Option, Text, ℤ, pos, negsuc, at_least, arith,
}
use autonomous_csa.Delivery.Backoff.{backoff_delay_ms, parse_int_env}

pow-pos : (k : ℕ) → 1 ≤ 2 ^ k
pow-pos zero = omega arith
pow-pos (suc k) = grind (arith, pow-pos k)

pow_mono : (a b : ℕ) → a ≤ b → 2 ^ a ≤ 2 ^ b
pow_mono zero b h = pow-pos b
pow_mono (suc a) zero h = elim h [ ]
pow_mono (suc a) (suc b) h = grind (arith, pow_mono a b)

at_least-le : (floor : ℕ) (z : ℤ) → floor ≤ at_least floor z
at_least-le floor (pos n) = omega arith
at_least-le floor (negsuc n) = omega arith

delay_mono : (a b : ℕ) → a ≤ b → min a 60000 + min a 60000 / 5 ≤ min b 60000 + min b 60000 / 5
delay_mono a b h = omega arith

mul_mono : (base x y : ℕ) → x ≤ y → base * x ≤ base * y
mul_mono base x y h = grind arith

base_mono : (base a b : ℕ) → a ≤ b → base * 2 ^ (a - 1) ≤ base * 2 ^ (b - 1)
base_mono base a b h = mul_mono base _ _ (pow_mono (a - 1) (b - 1) (omega arith))

base-le : (base a : ℕ) → 100 ≤ base → 100 ≤ base * 2 ^ (a - 1)
base-le base a h = grind (arith, pow-pos (a - 1))

-- Whatever the environment sets, a retry waits between 120 and 72,000 milliseconds.
pub backoff_delay_ms_bounds :
    (value : Option Text) (attempt : ℕ)
    → (120 ≤ backoff_delay_ms value attempt) × (backoff_delay_ms value attempt ≤ 72000)
unfolding backoff_delay_ms
backoff_delay_ms_bounds value attempt =
    let low =
      base-le (at_least 100 (parse_int_env value 1000)) attempt
        (at_least-le 100 (parse_int_env value 1000)) in
    (omega (arith, low), omega arith)

-- The wait between 120 and 72,000 milliseconds does not shrink from one attempt to a later one.
pub backoff_delay_ms_mono :
    (value : Option Text) (a b : ℕ) → a ≤ b → backoff_delay_ms value a ≤ backoff_delay_ms value b
unfolding backoff_delay_ms
backoff_delay_ms_mono value a b h =
    let base = at_least 100 (parse_int_env value 1000) in
    delay_mono (base * 2 ^ (a - 1)) (base * 2 ^ (b - 1)) (base_mono base a b h)
