-- ===== src/Planning/Graph.antt =====
-- `TaskGraph` of backend/app/agents/planning/graph.py. The dict from ids to tasks is the list of its
-- tasks in insertion order, each of which carries its id.
use Prim.Native.String.{◌++◌ as cat, compare}
use text.Mathlib.Text.{is_le}
use ai_powered_security_inve.Base.{
  ℕ, zero, suc, ◌+◌, String, Option, none, some, Bool, true, not, ◌&&◌, ◌||◌, List, [], ◌∷◌, map,
  if◌then◌else◌, ◌==◌, eqb, ltb, all, keep, length, is_some,
}
use ai_powered_security_inve.Base.Decimal.{decimal}
use ai_powered_security_inve.Base.Sort.{sort}
use ai_powered_security_inve.Planning.Task.{Task, key, terminal, is_pending}

pub record TaskGraph : Type 0 where
  pub tasks : List Task
  pub counter : ℕ

abbrev pub new_graph : TaskGraph
new_graph = record { tasks = []; counter = 0 }

-- the text of an id
abbrev pub id_text : ℕ → String
id_text zero = ""
id_text (suc n) = cat "t" (decimal (suc n))

-- `_active_with_key`
unfoldable pub active_with_key : String → List Task → Option Task
active_with_key k [] = none
active_with_key k (t ∷ ts) = if key t == k && not (terminal t) then some t else active_with_key k ts

-- `has_key`
abbrev pub has_key : String → TaskGraph → Bool
has_key k g = is_some (active_with_key k g.tasks)

-- `self._tasks.get(d)`
unfoldable pub find : ℕ → List Task → Option Task
find d [] = none
find d (t ∷ ts) = if eqb t.id d then some t else find d ts

-- `self._tasks[task.id] = task`
unfoldable pub put_task : Task → List Task → List Task
put_task task [] = task ∷ []
put_task task (t ∷ ts) = if eqb t.id task.id then task ∷ ts else t ∷ put_task task ts

-- the id that `add` gives to a task that has none, and the counter after it
abbrev pub with_id : Task → ℕ → Task × ℕ
with_id task counter =
    if eqb task.id 0 then (record task { id = counter + 1 }, counter + 1) else (task, counter)

-- `add`: the graph, and the id of the task that has the slot
unfoldable pub add_new : Task → TaskGraph → TaskGraph × ℕ
add_new task g =
    let (task', counter) = with_id task g.counter in
    (record { tasks = put_task task' g.tasks; counter = counter }, task'.id)

unfoldable pub add : Task → TaskGraph → TaskGraph × ℕ
unfolding add_new
add task g = elim (active_with_key (key task) g.tasks) [
  | none ↦ add_new task g
  | some t ↦ (g, t.id)
]

abbrev pub is_done : Option Task → Bool
is_done none = true
is_done (some t) = terminal t

-- `all(self._tasks[d].terminal for d in t.depends_on if d in self._tasks)`
abbrev pub deps_done : List Task → Task → Bool
deps_done ts t = all (λ d. is_done (find d ts)) t.depends_on

abbrev pub is_ready : List Task → Task → Bool
is_ready ts t = is_pending t.status && deps_done ts t

abbrev pub id_le : ℕ → ℕ → Bool
id_le a b = is_le (compare (id_text a) (id_text b))

-- the sort key `(-t.priority, t.wave, t.id)`
unfoldable pub runs_before : Task → Task → Bool
runs_before a b =
    ltb b.priority a.priority
    || (eqb a.priority b.priority && (ltb a.wave b.wave || (eqb a.wave b.wave && id_le a.id b.id)))

unfoldable pub ready : TaskGraph → List Task
ready g = sort runs_before (keep (is_ready g.tasks) g.tasks)

-- `all_terminal`, `progress` and `remaining`
abbrev pub all_terminal : TaskGraph → Bool
all_terminal g = all terminal g.tasks

abbrev pub progress : TaskGraph → ℕ × ℕ
progress g = (length (keep terminal g.tasks), length g.tasks)

abbrev pub remaining : TaskGraph → ℕ
remaining g = length (keep (λ t. not (terminal t)) g.tasks)

-- an assignment to attributes of the task object that the graph holds under an id
unfoldable pub update : ℕ → (Task → Task) → List Task → List Task
update i f = map (λ t. if eqb t.id i then f t else t)
