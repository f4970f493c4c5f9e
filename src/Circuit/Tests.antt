-- ===== src/Circuit/Tests.antt =====
-- A circuit that opens at the second failure and cools down in ten.
use ai_powered_security_inve.Base.{◌+◌, ◌≡◌, refl, false, ◌||◌, leb, is_some}
use ai_powered_security_inve.Circuit.Breaker.{
  Settings, new_breaker, available, record_failure, fail_times, fail_times_opens,
}

abbrev set : Settings
set = record { threshold = 2; cooldown = 10; now = λ n. n }

shut : (available set (fail_times set 2 new_breaker)).0 ≡ false
unfolding available record_failure
shut = refl

fail_times_opens_example :
    is_some (fail_times set 2 new_breaker).opened_at
    ≡ (leb set.threshold (new_breaker.failures + 2) || is_some new_breaker.opened_at)
fail_times_opens_example = fail_times_opens set 1 new_breaker
