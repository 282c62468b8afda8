-- ===== src/Webhook/Float.antt =====
-- float64 as internal/webhook/limiter.go uses it: numbers that are finite and not negative, each a
-- multiple of 2^-1074. A number is how many of these it is; each operation rounds once, to the nearest
-- number of 53 significant bits and to the even one of two. No sum or product here overflows.
use node_box.Prelude.{
  ℕ, zero, suc, ◌+◌, ◌*◌, ◌-◌, ◌/◌, ◌%◌, ◌^◌, true, false, ltb, leb, if◌then◌else◌,
}

-- 1.0
abbrev pub unit : ℕ
unit = 2 ^ 1074

-- The largest n below 2^levels for which q * 2^n is at most p, where q is.
unfoldable pub doublings : ℕ → ℕ → ℕ → ℕ
doublings zero p q = 0
doublings (suc level) p q =
    let scaled = q * 2 ^ (2 ^ level) in
    elim (leb scaled p) [
      | true ↦ 2 ^ level + doublings level p scaled
      | false ↦ doublings level p q
    ]

-- How many bits p / q has to lose to have 53. The largest finite number has 2098 bits.
unfoldable pub excess_bits : ℕ → ℕ → ℕ
unfolding doublings
excess_bits p q =
    let full = 9007199254740992 * q in
    elim (ltb p full) [ true ↦ 0 | false ↦ doublings 12 p full + 1 ]

unfoldable pub nearest_even : ℕ → ℕ → ℕ
nearest_even p q =
    let down = p / q in
    let twice = 2 * (p % q) in
    if ltb twice q then down else if ltb q twice then down + 1 else down + down % 2

-- p / q, rounded
unfoldable pub rounded : ℕ → ℕ → ℕ
unfolding excess_bits nearest_even
rounded p q = let step = 2 ^ excess_bits p q in nearest_even p (q * step) * step

unfoldable pub of_int : ℕ → ℕ
unfolding rounded
of_int n = rounded (n * unit) 1

unfoldable pub add : ℕ → ℕ → ℕ
unfolding rounded
add a b = rounded (a + b) 1

-- of a number that is not smaller
unfoldable pub sub : ℕ → ℕ → ℕ
unfolding rounded
sub a b = rounded (a - b) 1

unfoldable pub mul : ℕ → ℕ → ℕ
unfolding rounded
mul a b = rounded (a * b) unit

unfoldable pub div : ℕ → ℕ → ℕ
unfolding rounded
div a b = rounded (a * unit) b

abbrev pub min : ℕ → ℕ → ℕ
min a b = if leb a b then a else b
