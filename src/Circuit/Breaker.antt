-- ===== src/Circuit/Breaker.antt =====
-- `CircuitBreaker` of backend/app/engines/threat_intel/circuit.py. Times are numbers, read from a
-- clock that is a parameter. With a threshold of 0 the source sets the failures to -1 where this
-- sets 0; the next failure opens the circuit in both.
use ai_powered_security_inve.Base.{
  ℕ, zero, suc, ◌+◌, ◌-◌, ◌≡◌, refl, Option, none, some, Bool, true, false, not, ◌||◌,
  if◌then◌else◌, leb, arith, is_some, Bool-cases, inl, inr,
}

pub record CircuitBreaker : Type 0 where
  pub failures : ℕ
  pub opened_at : Option ℕ
  -- how often the clock was read
  pub readings : ℕ

pub record Settings : Type 0 where
  pub threshold : ℕ
  pub cooldown : ℕ
  pub now : ℕ → ℕ

abbrev pub new_breaker : CircuitBreaker
new_breaker = record { failures = 0; opened_at = none; readings = 0 }

abbrev pub record_success : CircuitBreaker → CircuitBreaker
record_success c = record c { failures = 0; opened_at = none }

module _ (set : Settings) where
  abbrev pub available_at : Option ℕ → CircuitBreaker → Bool × CircuitBreaker
  available_at none c = (true, c)
  available_at (some opened) c =
      if leb (opened + set.cooldown) (set.now c.readings)
      then (
        true,
        record { failures = set.threshold - 1; opened_at = none; readings = c.readings + 1 },
      )
      else (false, record c { readings = c.readings + 1 })

  unfoldable pub available : CircuitBreaker → Bool × CircuitBreaker
  available c = available_at c.opened_at c

  unfoldable pub record_failure : CircuitBreaker → CircuitBreaker
  record_failure c =
      if leb set.threshold (c.failures + 1)
      then record {
        failures = c.failures + 1;
        opened_at = some (set.now c.readings);
        readings = c.readings + 1;
      }
      else record c { failures = c.failures + 1 }

  -- failures one after the other
  abbrev pub fail_times : ℕ → CircuitBreaker → CircuitBreaker
  fail_times zero c = c
  fail_times (suc n) c = fail_times n (record_failure c)

  failures-record_failure : (c : CircuitBreaker) → (record_failure c).failures ≡ c.failures + 1
  unfolding record_failure
  failures-record_failure c = elim (Bool-cases (leb set.threshold (c.failures + 1))) [
    | inl over ↦ rw over refl
    | inr under ↦ rw under refl
  ]

  -- a failure at the threshold opens the circuit, and none closes it
  opened-record_failure :
      (c : CircuitBreaker)
      → is_some (record_failure c).opened_at
        ≡ (leb set.threshold (c.failures + 1) || is_some c.opened_at)
  unfolding record_failure
  opened-record_failure c = elim (Bool-cases (leb set.threshold (c.failures + 1))) [
    | inl over ↦ rw over refl
    | inr under ↦ rw under refl
  ]

  -- After n failures in a row, at least one, the circuit is open exactly if they reach the threshold
  -- together with the failures before, or it was open before.
  pub fail_times_opens :
      (n : ℕ) (c : CircuitBreaker)
      → is_some (fail_times (suc n) c).opened_at
        ≡ (leb set.threshold (c.failures + suc n) || is_some c.opened_at)
  fail_times_opens zero c = opened-record_failure c
  fail_times_opens (suc n) c = ground (
    arith,
    fail_times_opens n (record_failure c),
    failures-record_failure c,
    opened-record_failure c,
  )

  abbrev pub has_cooled : Option ℕ → ℕ → Bool
  has_cooled none now = true
  has_cooled (some opened) now = leb (opened + set.cooldown) now

  -- Calls are let through exactly while the circuit is closed or once the cooldown is over; a circuit
  -- that stays shut stays open at the same time; and one that was open opens again at the next
  -- failure, be it that of the one probe after the cooldown.
  pub available_outcome :
      (c : CircuitBreaker)
      → ((available c).0 ≡ has_cooled c.opened_at (set.now c.readings))
        × (((available c).1.opened_at ≡ (if (available c).0 then none else c.opened_at)))
        × ((not (is_some c.opened_at) || is_some (record_failure (available c).1).opened_at) ≡ true)
  unfolding available record_failure
  available_outcome c = by_opening c.opened_at c refl
    where
      by_opening :
          (o : Option ℕ) (c : CircuitBreaker)
          → c.opened_at ≡ o
          → ((available_at o c).0 ≡ has_cooled o (set.now c.readings))
            × ((available_at o c).1.opened_at ≡ (if (available_at o c).0 then none else o))
            × ((not (is_some o) || is_some (record_failure (available_at o c).1).opened_at) ≡ true)
      by_opening none c e = (refl, e, refl)
      by_opening (some opened) c e =
          elim (Bool-cases (leb (opened + set.cooldown) (set.now c.readings))) [
            | inl cooled ↦ rw cooled (refl, refl, reopened)
            | inr hot ↦ rw hot (refl, e, still c e)
          ]
        where
          reopened :
              is_some
                (record_failure (record {
                  failures = set.threshold - 1;
                  opened_at = none;
                  readings = c.readings + 1;
                })).opened_at
              ≡ true
          reopened = ground arith

          still :
              (c : CircuitBreaker)
              → c.opened_at ≡ some opened
              → is_some (record_failure (record c { readings = c.readings + 1 })).opened_at ≡ true
          still c e = ground (arith, e)
