-- ===== src/Runner/Schedule/Delays.antt =====
-- nextScheduleDelay of internal/runner/loops.go: how long the schedule loop waits.
use node_box.Prelude.{
  ℕ, ◌+◌, ◌%◌, ◌<◌, ◌≤◌, ◌≡◌, ◌≢◌, ◌⊎◌, refl, inl, inr, true, false, Option, none, some, arith,
  ◌==◌, eq_iff, eq_false→ne, Bool-cases, pos, is_zero, is_negative,
}
use node_box.Model.{Schedule, Duration}
use node_box.Runner.Schedule.{hour, until_next_hour, next_delay_of, next_schedule_delay}

-- A wait that ends at the next full hour.
abbrev pub IsUntilHour : ℕ → ℕ → Type 0
IsUntilHour now n = (0 < n) × (n ≤ hour) × ((now + n) % hour ≡ 0)

until_next_hour-IsUntilHour : (now : ℕ) → IsUntilHour now (until_next_hour now)
unfolding until_next_hour
until_next_hour-IsUntilHour now = (omega arith, omega arith, omega arith)

-- What each schedule waits for: the next full hour, its period, or an hour where the type is
-- spelt in no other way.
abbrev pub IsDelay : Option Schedule → ℕ → Duration → Type 0
IsDelay none now d = d ≡ pos hour
IsDelay (some s) now d =
    ((s.type ≡ "hourly") × (n : ℕ) × (d ≡ pos n) × IsUntilHour now n)
    ⊎ ((s.type ≡ "interval")
        × (is_zero s.every ≡ false)
        × (is_negative s.every ≡ false)
        × (d ≡ s.every))
    ⊎ ((s.type ≢ "hourly")
        × ((s.type ≢ "interval") ⊎ (is_zero s.every ≡ true) ⊎ (is_negative s.every ≡ true))
        × (d ≡ pos hour))

next_delay_of-IsDelay : (s : Schedule) (now : ℕ) → IsDelay (some s) now (next_delay_of s now)
unfolding next_delay_of
next_delay_of-IsDelay s now = elim (Bool-cases (s.type == "hourly")) [
  | inl h ↦ rw h (
      inl
        ((eq_iff s.type "hourly").0 h, until_next_hour now, refl, until_next_hour-IsUntilHour now))
  | inr h ↦ elim (Bool-cases (s.type == "interval")) [
    | inr i ↦
        rw (h, i)
          (inr (inr (eq_false→ne s.type "hourly" h, inl (eq_false→ne s.type "interval" i), refl)))
    | inl i ↦ elim (Bool-cases (is_zero s.every)) [
      | inl z ↦ rw (h, i, z) (inr (inr (eq_false→ne s.type "hourly" h, inr (inl refl), refl)))
      | inr z ↦ elim (Bool-cases (is_negative s.every)) [
        | inl n ↦ rw (h, i, z, n) (inr (inr (eq_false→ne s.type "hourly" h, inr (inr refl), refl)))
        | inr n ↦ rw (h, i, z, n) (inr (inl ((eq_iff s.type "interval").0 i, refl, refl, refl)))
      ]
    ]
  ]
]

positive : (n : ℕ) → 0 < n → (is_zero (pos n) ≡ false) × (is_negative (pos n) ≡ false)
positive ℕ.zero h = absurd (omega (arith, h))
positive (ℕ.suc n) h = (refl, refl)

-- The wait before the next scheduled update: it is positive in every case, so that the loop never
-- spins; an hourly schedule wakes at a full hour, at most an hour on; an interval waits its period
-- if that is positive; and everything else, a type that is not spelt exactly like one of the two
-- included, waits an hour.
pub next_schedule_delay-IsDelay :
    (s : Option Schedule) (now : ℕ)
    → IsDelay s now (next_schedule_delay s now)
      × (is_zero (next_schedule_delay s now) ≡ false)
      × (is_negative (next_schedule_delay s now) ≡ false)
unfolding next_schedule_delay
next_schedule_delay-IsDelay none now = (refl, refl, refl)
next_schedule_delay-IsDelay (some s) now =
    let d = next_delay_of-IsDelay s now in
    let (z, n) = waits s now (next_delay_of s now) d in (d, z, n)
  where
    waits :
        (s : Schedule) (now : ℕ) (d : Duration)
        → IsDelay (some s) now d
        → (is_zero d ≡ false) × (is_negative d ≡ false)
    waits s now d (inl (t, n, e, (p, l, m))) = rw e (positive n p)
    waits s now d (inr (inl (t, z, n, e))) = rw e (z, n)
    waits s now d (inr (inr (t, c, e))) = rw e (refl, refl)
