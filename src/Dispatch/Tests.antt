-- ===== src/Dispatch/Tests.antt =====
-- A dispatcher for one investigation at a time.
use ai_powered_security_inve.Base.{
  ℕ, zero, suc, String, ◌≡◌, refl, none, some, List, [], ◌∷◌, arith,
}
use ai_powered_security_inve.Base.Tenants.{find}
use ai_powered_security_inve.Base.Exec.{err}
use ai_powered_security_inve.Dispatch.Dispatcher.{
  Ticket, Dispatcher, Settings, at_capacity, submit, submit_inline,
}
use ai_powered_security_inve.Dispatch.Capacity.{
  IsWithin, Event, submission, ending, run, run-IsWithin, placeholder, Admits, submit_outcome,
}

abbrev ids : ℕ → String
ids zero = "a"
ids (suc n) = String.◌∷◌ "x" (ids n)

abbrev set : Settings
set = record { limit = 1; uuid4 = ids; now = λ n. n }

abbrev start : Dispatcher
start = record { inflight = 0; tasks = []; repo = []; drawn = 0; readings = 0 }

start-IsWithin : IsWithin set start
start-IsWithin = record { counted = refl; bounded = omega arith }

abbrev busy : Dispatcher
unfolding submit submit_inline
busy = (submit set "acme" start).1

second_refused : (submit set "acme" busy).0 ≡ err at_capacity
unfolding submit submit_inline
second_refused = refl

abbrev events : List (Event set)
events = submission "acme" ∷ submission "acme" ∷ ending 0 none ∷ submission "rival" ∷ []

run-IsWithin_example : IsWithin set (run set events start)
run-IsWithin_example = run-IsWithin set events start start-IsWithin

submit_outcome_example :
    (find "acme" (ids busy.drawn) (submit set "acme" busy).1.repo
      ≡ some (placeholder set "acme" busy))
    × Admits set "acme" busy (submit set "acme" busy).0 (submit set "acme" busy).1
submit_outcome_example = submit_outcome set "acme" busy

abbrev ticket : Ticket
ticket = record { tenant = "acme"; investigation_id = "a" }
