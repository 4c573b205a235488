-- ===== src/Dag.antt =====
-- auction_core/src/auction_core/scheduling/dag.py: task dependencies and what can run now.
pub mod Missing
pub mod Visit
pub mod Kahn
pub mod Accepted
pub mod Progress
pub mod Tests
use distributed_mobile_robot.Base.{
  ℕ, zero, suc, ℤ, pos, ◌==ℤ◌, ◌-ℤ◌, ◌==◌, Bool, true, false, not, ◌&&◌, ◌||◌, map, if◌then◌else◌,
  List, [], ◌∷◌, ◌++◌, Result, ok, raise_if, value_error, dependency_cycle, ◌>>=◌, ◌>>◌, length,
  contains, is_subset, select,
}
use distributed_mobile_robot.Base.Dict.{Dict, get, set, keys, values, or_key_error}
use distributed_mobile_robot.Types.{TaskId, Task}

pub record TaskDag : Type 0 where
  pub tasks : Dict Task

-- `{t.id: t for t in tasks}`
unfoldable pub by_id : Dict Task → List Task → Dict Task
by_id d [] = d
by_id d (t ∷ ts) = by_id (set t.id t d) ts

-- No prerequisite is missing.
abbrev pub all_known : List TaskId → List Task → Bool
all_known known [] = true
all_known known (t ∷ ts) = is_subset t.prerequisites known && all_known known ts

-- `{tid: len(t.prerequisites) for tid, t in self.tasks.items()}`
unfoldable pub in_degrees : Dict Task → Dict ℤ
in_degrees [] = []
in_degrees ((tid, t) ∷ rest) = (tid, pos (length t.prerequisites)) ∷ in_degrees rest

-- The frontier is a stack: the head of the list is the end of the source's list.
unfoldable pub initial_frontier : Dict ℤ → List TaskId → List TaskId
initial_frontier [] frontier = frontier
initial_frontier ((tid, deg) ∷ rest) frontier =
    initial_frontier rest (if deg ==ℤ pos 0 then tid ∷ frontier else frontier)

-- The loop over `self.tasks.values()`, on `in_degree` and `frontier`.
unfoldable pub visit : TaskId → List Task → Dict ℤ × List TaskId → Result (Dict ℤ × List TaskId)
visit tid [] s = ok s
visit tid (other ∷ others) (in_degree, frontier) =
    let rest = visit tid others in
    if contains tid other.prerequisites
    then (do
      deg ← or_key_error (get other.id in_degree)
      let left = deg -ℤ pos 1
      rest (set other.id left in_degree, if left ==ℤ pos 0 then other.id ∷ frontier else frontier))
    else rest (in_degree, frontier)

-- The `while frontier` loop. The fuel is one more than the number of tasks: a longer order is not
-- the length of the tasks.
unfoldable pub topological_loop :
    ℕ → List Task → Dict ℤ × List TaskId → List TaskId → Result (List TaskId)
topological_loop zero tasks s order = ok order
topological_loop (suc fuel) tasks (in_degree, []) order = ok order
topological_loop (suc fuel) tasks (in_degree, tid ∷ frontier) order = do
  s ← visit tid tasks (in_degree, frontier)
  topological_loop fuel tasks s (order ++ tid ∷ [])

unfoldable pub topological_order : TaskDag → Result (List TaskId)
unfolding topological_loop visit in_degrees initial_frontier
topological_order d = do
  let in_degree = in_degrees d.tasks
  order ←
      topological_loop (suc (length d.tasks)) (values d.tasks)
        (in_degree, initial_frontier in_degree []) []
  raise_if (not (length order == length d.tasks)) dependency_cycle
  ok order

-- The constructor with its checks.
unfoldable pub task_dag : List Task → Result TaskDag
unfolding by_id topological_order
task_dag ts = do
  let tasks = by_id [] ts
  raise_if (not (all_known (keys tasks) (values tasks))) value_error
  _ ← topological_order (record { tasks = tasks })
  ok (record { tasks = tasks })

abbrev pub is_available : List TaskId → TaskId × Task → Bool
is_available completed item =
    not (contains item.0 completed) && is_subset item.1.prerequisites completed

-- A set, as the list of its members.
unfoldable pub available : TaskDag → List TaskId → List TaskId
available d completed = keys (select (is_available completed) d.tasks)

-- `t.prerequisites & frontier`, as a test.
abbrev meets : List TaskId → List TaskId → Bool
meets [] frontier = false
meets (p ∷ ps) frontier = contains p frontier || meets ps frontier

-- The loop of `dependents`. Every round but the first begins with tasks that are new in `out`, so
-- the fuel is one more than the number of tasks.
unfoldable pub dependents_loop : ℕ → List Task → List TaskId → List TaskId → List TaskId
dependents_loop zero tasks out frontier = out
dependents_loop (suc fuel) tasks out [] = out
dependents_loop (suc fuel) tasks out (tid ∷ rest) =
    let next =
      map (λ (t : Task). t.id)
        (select (λ t. not (contains t.id out) && meets t.prerequisites (tid ∷ rest)) tasks) in
    dependents_loop fuel tasks (out ++ next) next

unfoldable pub dependents : TaskDag → TaskId → List TaskId
unfolding dependents_loop
dependents d task_id = dependents_loop (suc (length d.tasks)) (values d.tasks) [] (task_id ∷ [])
