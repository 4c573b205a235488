-- ===== src/Cpm/Tests.antt =====
-- A task of 2 before a task of 5, and a task of 4 on its own.
use distributed_mobile_robot.Base.{ℤ, pos, ◌+ℤ◌, ◌-ℤ◌, List, [], ◌∷◌, ◌≡◌, refl, ok, All, Apart}
use distributed_mobile_robot.Base.Dict.{get, set}
use distributed_mobile_robot.Types.{TaskId, Task}
use distributed_mobile_robot.Dag.{
  TaskDag, by_id, task_dag, topological_order, topological_loop, visit, in_degrees,
  initial_frontier,
}
use distributed_mobile_robot.Cpm.{
  max_from, max_finish, finish_new, finish, critical_path_length, bound_on, makespan_lower_bound,
}
use distributed_mobile_robot.Cpm.Returns.{IsCritical, critical_path_length_lem}

abbrev task : TaskId → ℤ → List TaskId → Task
task id duration prerequisites = record {
  id = id;
  position = [];
  duration = duration;
  capabilities = [];
  prerequisites = prerequisites;
  required_robots = pos 1;
}

abbrev tasks : List Task
tasks = task (pos 2) (pos 5) (pos 1 ∷ []) ∷ task (pos 1) (pos 2) [] ∷ task (pos 3) (pos 4) [] ∷ []

abbrev dag : TaskDag
dag = record {
  tasks =
      (pos 2, task (pos 2) (pos 5) (pos 1 ∷ []))
      ∷ (pos 1, task (pos 1) (pos 2) [])
      ∷ (pos 3, task (pos 3) (pos 4) [])
      ∷ [];
}

accepted : task_dag tasks ≡ ok dag
unfolding task_dag by_id set topological_order topological_loop visit in_degrees initial_frontier
    get ◌-ℤ◌
accepted = refl

longest : critical_path_length dag ≡ ok (pos 7)
unfolding critical_path_length finish finish_new max_finish max_from get set ◌+ℤ◌
longest = refl

-- Eleven units of work for two robots are at most six each.
bound : makespan_lower_bound (λ total robots. ok (pos 6)) dag (pos 2) ≡ ok (pos 7)
unfolding makespan_lower_bound bound_on critical_path_length finish finish_new max_finish max_from
    get set ◌+ℤ◌
bound = refl

tasks-Apart : All (λ (t : Task). Apart t.prerequisites) tasks
tasks-Apart = ((λ _ i. absurd i, tt), (tt, (tt, tt)))

critical_path_length_example :
    (time : ℤ) × (critical_path_length dag ≡ ok time) × IsCritical dag.tasks time
critical_path_length_example = critical_path_length_lem tasks dag tasks-Apart accepted
