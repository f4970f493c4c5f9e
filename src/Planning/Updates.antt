-- ===== src/Planning/Updates.antt =====
-- Assignments to attributes of the tasks of a graph, seen on the list of tasks.
use ai_powered_security_inve.Base.{
  ℕ, ◌<◌, ◌≡◌, refl, true, false, not, ◌||◌, List, [], ◌∷◌, if◌then◌else◌, eqb, arith, All,
  Bool-cases, inl, inr, is_some,
}
use ai_powered_security_inve.Planning.Task.{Task, key, terminal}
use ai_powered_security_inve.Planning.Graph.{find, update}
use ai_powered_security_inve.Planning.Sound.{Increasing, InCount, DepsBelow, clash, Unclashing}

-- a change to a task that leaves alone what identifies it
pub record KeepsIdentity (f : Task → Task) : Type 0 where
  pub id : (t : Task) → (f t).id ≡ t.id
  pub depends_on : (t : Task) → (f t).depends_on ≡ t.depends_on
  pub key : (t : Task) → key (f t) ≡ key t

-- the task after `update i f`
abbrev pub changed : ℕ → (Task → Task) → Task → Task
changed i f t = if eqb t.id i then f t else t

module _ (i : ℕ) (f : Task → Task) (k : KeepsIdentity f) where
  id_changed : (t : Task) → (changed i f t).id ≡ t.id
  id_changed t = elim (Bool-cases (eqb t.id i)) [ inl e ↦ rw e (k.id t) | inr e ↦ rw e refl ]

  deps_changed : (t : Task) → (changed i f t).depends_on ≡ t.depends_on
  deps_changed t = elim (Bool-cases (eqb t.id i)) [
    | inl e ↦ rw e (k.depends_on t)
    | inr e ↦ rw e refl
  ]

  key_changed : (t : Task) → key (changed i f t) ≡ key t
  key_changed t = elim (Bool-cases (eqb t.id i)) [ inl e ↦ rw e (k.key t) | inr e ↦ rw e refl ]

  after-update :
      (n : ℕ) (ts : List Task) → All (λ u. n < u.id) ts → All (λ u. n < u.id) (update i f ts)
  unfolding update
  after-update n [] h = tt
  after-update n (t ∷ ts) h = (rw (id_changed t) h.0, after-update n ts h.1)

  pub Increasing-update : (ts : List Task) → Increasing ts → Increasing (update i f ts)
  unfolding update
  Increasing-update [] h = tt
  Increasing-update (t ∷ ts) h =
      (rw (id_changed t) (unfold update in after-update t.id ts h.0), Increasing-update ts h.1)

  pub InCount-update :
      (n : ℕ) (ts : List Task) → All (InCount n) ts → All (InCount n) (update i f ts)
  unfolding update
  InCount-update n [] h = tt
  InCount-update n (t ∷ ts) h =
      ((rw (id_changed t) h.0.0, rw (id_changed t) h.0.1), InCount-update n ts h.1)

  pub DepsBelow-update : (ts : List Task) → All DepsBelow ts → All DepsBelow (update i f ts)
  unfolding update
  DepsBelow-update [] h = tt
  DepsBelow-update (t ∷ ts) h = (rw (deps_changed t, id_changed t) h.0, DepsBelow-update ts h.1)

  -- only active tasks are changed
  abbrev pub ActiveAt : Task → Type 0
  ActiveAt t = (not (eqb t.id i) || not (terminal t)) ≡ true

  terminal-changed : (t : Task) → ActiveAt t → terminal (changed i f t) ≡ false → terminal t ≡ false
  terminal-changed t a h = ground arith

  clash-changed :
      (a b : Task)
      → ActiveAt a
      → ActiveAt b
      → clash a b ≡ false
      → clash (changed i f a) (changed i f b) ≡ false
  clash-changed a b x y h =
      rw (key_changed a, key_changed b)
        (ground (arith, terminal-changed a x, terminal-changed b y, h))

  clash-update :
      (t : Task) (ts : List Task)
      → ActiveAt t
      → All ActiveAt ts
      → All (λ u. clash t u ≡ false) ts
      → All (λ u. clash (changed i f t) u ≡ false) (update i f ts)
  unfolding update
  clash-update t [] a b h = tt
  clash-update t (u ∷ ts) a b h = (clash-changed t u a b.0 h.0, clash-update t ts a b.1 h.1)

  pub Unclashing-update :
      (ts : List Task) → All ActiveAt ts → Unclashing ts → Unclashing (update i f ts)
  unfolding update
  Unclashing-update [] a h = tt
  Unclashing-update (t ∷ ts) a h =
      (unfold update in clash-update t ts a.0 a.1 h.0, Unclashing-update ts a.1 h.1)

  pub find-update :
      (j : ℕ) (ts : List Task) → is_some (find j (update i f ts)) ≡ is_some (find j ts)
  unfolding update find
  find-update j [] = refl
  find-update j (t ∷ ts) =
      rw (id_changed t)
        (elim (Bool-cases (eqb t.id j)) [ inl e ↦ rw e refl | inr e ↦ rw e (find-update j ts) ])
