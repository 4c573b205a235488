-- ===== src/Cpm.antt =====
-- auction_core/src/auction_core/scheduling/cpm.py: the longest dependency chain, and the lower bound of
-- a makespan. The load for each robot, a float division, is a parameter.
pub mod Chains
pub mod Returns
pub mod Tests
use distributed_mobile_robot.Base.{
  ℕ, zero, suc, ℤ, pos, ◌+ℤ◌, max_ℤ, List, [], ◌∷◌, Option, none, some, Result, ok, err,
  recursion_error, ◌>>=◌, length, map,
}
use distributed_mobile_robot.Base.Dict.{Dict, get, set, keys, values, or_key_error}
use distributed_mobile_robot.Types.{TaskId, Task}
use distributed_mobile_robot.Dag.{TaskDag}

-- A finish time, and `earliest_finish` as it is then.
abbrev pub Memo : Type 0
Memo = Dict ℤ

abbrev pub Finish : Type 0
Finish = TaskId → Memo → Result (ℤ × Memo)

-- `max(finish(p) for p in ps)`, from a first value on
unfoldable pub max_from : Finish → ℤ → List TaskId → Memo → Result (ℤ × Memo)
max_from finish best [] memo = ok (best, memo)
max_from finish best (p ∷ ps) memo = do
  (time, memo') ← finish p memo
  max_from finish (max_ℤ best time) ps memo'

-- `max((finish(p) for p in ps), default=0.0)`
unfoldable pub max_finish : Finish → List TaskId → Memo → Result (ℤ × Memo)
unfolding max_from
max_finish finish [] memo = ok (pos 0, memo)
max_finish finish (p ∷ ps) memo = do (time, memo') ← finish p memo; max_from finish time ps memo'

-- The body of `finish` for a task that is not in the memo.
unfoldable pub finish_new : Finish → Dict Task → TaskId → Memo → Result (ℤ × Memo)
unfolding max_finish
finish_new finish tasks tid memo = do
  task ← or_key_error (get tid tasks)
  (start, memo') ← max_finish finish task.prerequisites memo
  ok (start +ℤ task.duration, set tid (start +ℤ task.duration) memo')

-- The inner function `finish`; the fuel is the depth of the interpreter's stack.
unfoldable pub finish : ℕ → Dict Task → Finish
unfolding finish_new
finish zero tasks tid memo = err recursion_error
finish (suc fuel) tasks tid memo = elim (get tid memo) [
  | some time ↦ ok (time, memo)
  | none ↦ finish_new (finish fuel tasks) tasks tid memo
]

-- No chain is longer than the tasks.
unfoldable pub critical_path_length : TaskDag → Result ℤ
unfolding finish
critical_path_length dag = do
  (length, memo) ← max_finish (finish (suc (length dag.tasks)) dag.tasks) (keys dag.tasks) []
  ok length

abbrev pub total_duration : List Task → ℤ
total_duration [] = pos 0
total_duration (t ∷ ts) = t.duration +ℤ total_duration ts

abbrev pub longest_duration : ℤ → List Task → ℤ
longest_duration best [] = best
longest_duration best (t ∷ ts) = longest_duration (max_ℤ best t.duration) ts

-- The bound on the values of the tasks. `quotient` is `/`, which raises for no robots.
unfoldable pub bound_on : (ℤ → ℤ → Result ℤ) → List Task → Result ℤ → ℤ → Result ℤ
bound_on quotient [] critical num_robots = ok (pos 0)
bound_on quotient (t ∷ ts) critical num_robots = do
  load ← quotient (total_duration (t ∷ ts)) num_robots
  path ← critical
  ok (max_ℤ (max_ℤ load (longest_duration t.duration ts)) path)

unfoldable pub makespan_lower_bound : (ℤ → ℤ → Result ℤ) → TaskDag → ℤ → Result ℤ
unfolding bound_on critical_path_length
makespan_lower_bound quotient dag num_robots =
    bound_on quotient (values dag.tasks) (critical_path_length dag) num_robots
