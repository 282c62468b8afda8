-- ===== src/Webhook/Bucket.antt =====
-- internal/webhook/limiter.go: the token bucket. The amounts are float64, counted as Float counts
-- them; a time and a duration are nanoseconds, and the clock does not run backwards. The product and
-- the sum of a refill are rounded one by one, as on amd64: Go lets other machines fuse them.
use node_box.Prelude.{ℕ, ◌-◌, ◌/◌, ◌%◌, Bool, true, false, ltb, if◌then◌else◌}
use node_box.Webhook.Float.{unit, of_int, add, sub, mul, div, min}

pub record Limiter : Type 0 where
  pub tokens : ℕ
  pub burst : ℕ
  pub per_sec : ℕ
  pub last_fill : ℕ

-- Duration.Seconds
unfoldable pub seconds : ℕ → ℕ
unfolding add of_int div
seconds d =
    add (of_int (d / 1_000_000_000)) (div (of_int (d % 1_000_000_000)) (of_int 1_000_000_000))

unfoldable pub new_limiter : ℕ → ℕ → ℕ → Limiter
unfolding of_int div seconds
new_limiter burst window now = record {
  tokens = of_int burst;
  burst = of_int burst;
  per_sec = div (of_int burst) (seconds window);
  last_fill = now;
}

unfoldable pub refill : Limiter → ℕ → Limiter
unfolding add mul seconds
refill l now = record {
  tokens = min l.burst (add l.tokens (mul (seconds (now - l.last_fill)) l.per_sec));
  burst = l.burst;
  per_sec = l.per_sec;
  last_fill = now;
}

pub record Allowed : Type 0 where
  pub limiter : Limiter
  pub taken : Bool

unfoldable pub take_token : Limiter → Allowed
unfolding sub
take_token l =
    if ltb l.tokens unit
    then record { limiter = l; taken = false }
    else record { limiter = record l { tokens = sub l.tokens unit }; taken = true }

unfoldable pub allow : Limiter → ℕ → Allowed
unfolding refill take_token
allow l now = take_token (refill l now)
