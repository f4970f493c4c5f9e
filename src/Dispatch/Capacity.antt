-- ===== src/Dispatch/Capacity.antt =====
-- The bound on the concurrent investigations, and what becomes of a submission and of a task.
use ai_powered_security_inve.Base.{
  ℕ, zero, suc, ◌+◌, ◌≤◌, String, ◌≡◌, refl, ◌∙◌, Option, none, some, true, false, List, [], ◌∷◌,
  ◌++◌, leb, arith, eq_refl, length, length-append, is_some, Bool-cases, Option-cases, inl, inr,
}
use ai_powered_security_inve.Base.Tenants.{find}
use ai_powered_security_inve.Base.Exec.{Result, ok, err}
use ai_powered_security_inve.Schemas.Common.{queued, complete, failed}
use ai_powered_security_inve.Stores.Investigations.{InvestigationPackage, saved}
use ai_powered_security_inve.Dispatch.Dispatcher.{
  Ticket, Dispatcher, Settings, CapacityError, at_capacity, package_of, submit_inline, drawn_ticket,
  submit, ticket_at, without, finish_ticket, finish,
}

module _ (set : Settings) where
  pub record IsWithin (d : Dispatcher) : Type 0 where
    pub counted : d.inflight ≡ length d.tasks
    pub bounded : d.inflight ≤ set.limit

  length-without :
      (n : ℕ) (ts : List Ticket)
      → is_some (ticket_at set n ts) ≡ true
      → length (without set n ts) + 1 ≡ length ts
  length-without n [] h = cc
  length-without zero (t ∷ ts) h = omega arith
  length-without (suc n) (t ∷ ts) h = omega (arith, length-without n ts h)

  submit-IsWithin :
      (tenant : String) (d : Dispatcher) → IsWithin d → IsWithin (submit set tenant d).1
  unfolding submit submit_inline
  submit-IsWithin tenant d h = elim (Bool-cases (leb set.limit d.inflight)) [
    | inl full ↦ rw full (record { counted = h.counted; bounded = h.bounded })
    | inr room ↦ rw room (record {
      counted = omega (arith, length-append d.tasks (drawn_ticket set tenant d ∷ []), h.counted);
      bounded = ground (arith, room);
    })
  ]

  finish-IsWithin :
      (n : ℕ) (result : Option ℕ) (d : Dispatcher) → IsWithin d → IsWithin (finish set n result d)
  unfolding finish
  finish-IsWithin n result d h = elim (Option-cases (ticket_at set n d.tasks)) [
    | inl absent ↦ rw absent h
    | inr (t, there) ↦ rw there (ended result t (length-without n d.tasks (rw there refl)))
  ]
    where
      ended :
          (result : Option ℕ) (t : Ticket)
          → length (without set n d.tasks) + 1 ≡ length d.tasks
          → IsWithin (finish_ticket set n result (some t) d)
      ended none t e = record {
        counted = omega (arith, e, h.counted);
        bounded = omega (arith, h.bounded);
      }
      ended (some c) t e = record {
        counted = omega (arith, e, h.counted);
        bounded = omega (arith, h.bounded);
      }

  pub data Event : Type 0 where
    submission : String → Event
    ending : ℕ → Option ℕ → Event

  abbrev pub handle : Event → Dispatcher → Dispatcher
  handle (submission tenant) d = (submit set tenant d).1
  handle (ending n result) d = finish set n result d

  abbrev pub run : List Event → Dispatcher → Dispatcher
  run [] d = d
  run (e ∷ es) d = run es (handle e d)

  -- Whatever is submitted and however the tasks end, the count of the investigations in flight is the
  -- number of the tasks and never exceeds the limit.
  pub run-IsWithin : (es : List Event) (d : Dispatcher) → IsWithin d → IsWithin (run es d)
  run-IsWithin [] d h = h
  run-IsWithin (submission tenant ∷ es) d h =
      run-IsWithin es (submit set tenant d).1 (submit-IsWithin tenant d h)
  run-IsWithin (ending n result ∷ es) d h =
      run-IsWithin es (finish set n result d) (finish-IsWithin n result d h)

  -- the package that a submission saves first
  abbrev pub placeholder : String → Dispatcher → InvestigationPackage
  placeholder tenant d = package_of (drawn_ticket set tenant d) queued (set.now d.readings)

  -- what a submission does to the tasks, by its result
  abbrev pub Admits : String → Dispatcher → Result CapacityError String → Dispatcher → Type 0
  Admits tenant d (ok i) d' =
      (i ≡ set.uuid4 d.drawn)
      × ((leb set.limit d.inflight) ≡ false)
      × (d'.tasks ≡ d.tasks ++ drawn_ticket set tenant d ∷ [])
  Admits tenant d (err at_capacity) d' = (leb set.limit d.inflight ≡ true) × (d'.tasks ≡ d.tasks)

  -- A submission saves a queued package under the id that it draws, for its tenant, whether it is
  -- accepted or not. Below the limit it returns the id and adds a task; at the limit it raises and
  -- leaves the tasks as they were.
  pub submit_outcome :
      (tenant : String) (d : Dispatcher)
      → (find tenant (set.uuid4 d.drawn) (submit set tenant d).1.repo ≡ some (placeholder tenant d))
        × Admits tenant d (submit set tenant d).0 (submit set tenant d).1
  unfolding submit submit_inline
  submit_outcome tenant d =
      let stored =
        saved tenant (set.uuid4 d.drawn) (placeholder tenant d) d.repo
        ∙ rw (eq_refl tenant, eq_refl (set.uuid4 d.drawn)) refl in
      elim (Bool-cases (leb set.limit d.inflight)) [
        | inl full ↦ rw full (stored, (full, refl))
        | inr room ↦ rw room (stored, (refl, room, refl))
      ]

  abbrev pub concluded : Ticket → Dispatcher → Option ℕ → InvestigationPackage
  concluded t d none = package_of t failed (set.now d.readings)
  concluded t d (some created_at) = package_of t complete created_at

  -- When a task ends, the package of its investigation is complete, or failed where the run raised,
  -- and the task is gone from the tasks.
  pub finish_outcome :
      (n : ℕ) (result : Option ℕ) (t : Ticket) (d : Dispatcher)
      → ticket_at set n d.tasks ≡ some t
      → (find t.tenant t.investigation_id (finish set n result d).repo
          ≡ some (concluded t d result))
        × ((finish set n result d).tasks ≡ without set n d.tasks)
  unfolding finish
  finish_outcome n result t d there = rw there (ended result)
    where
      ended :
          (result : Option ℕ)
          → (find t.tenant t.investigation_id (finish_ticket set n result (some t) d).repo
              ≡ some (concluded t d result))
            × ((finish_ticket set n result (some t) d).tasks ≡ without set n d.tasks)
      ended none = (
        saved t.tenant t.investigation_id (concluded t d none) d.repo
            ∙ rw (eq_refl t.tenant, eq_refl t.investigation_id) refl,
        refl,
      )
      ended (some c) = (
        saved t.tenant t.investigation_id (concluded t d (some c)) d.repo
            ∙ rw (eq_refl t.tenant, eq_refl t.investigation_id) refl,
        refl,
      )
