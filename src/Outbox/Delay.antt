-- ===== src/Outbox/Delay.antt =====
-- The pause before another attempt (`_retry_delay`).
use buddy_web_ver.Base.{refl, ℕ, zero, suc, ◌-◌, ◌*◌, ◌^◌, ◌≤◌, ◌≡◌, min, arith}
use buddy_web_ver.Time.{minute, hour}

unfoldable pub retry_delay : ℕ → ℕ
retry_delay attempts = min (2 ^ (attempts - 1) * minute) hour

-- After one to four attempts the pause doubles from a minute, and stays below the bound.
pub delay_small : (n : ℕ) → n ≤ 3 → retry_delay (suc n) ≡ 2 ^ n * minute
unfolding retry_delay
delay_small zero h = refl
delay_small (suc zero) h = refl
delay_small (suc (suc zero)) h = refl
delay_small (suc (suc (suc zero))) h = refl
delay_small (suc (suc (suc (suc n)))) h = omega arith
