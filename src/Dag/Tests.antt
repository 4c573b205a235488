-- ===== src/Dag/Tests.antt =====
-- Four tasks: what depends on the first, and what can run at the start.
use distributed_mobile_robot.Base.{
  pos, List, [], ◌∷◌, ◌≡◌, refl, inl, ◌-ℤ◌, ok, err, dependency_cycle, value_error, All, Apart, In,
}
use distributed_mobile_robot.Base.Dict.{set, get}
use distributed_mobile_robot.Types.{TaskId, Task}
use distributed_mobile_robot.Dag.{
  TaskDag, by_id, dependents_loop, dependents, available, task_dag, topological_order,
  topological_loop, visit, in_degrees, initial_frontier,
}
use distributed_mobile_robot.Dag.Progress.{Ordered, task_dag_lem, last_of, available_lem}

abbrev dag_task : TaskId → List TaskId → Task
dag_task id prerequisites = record {
  id = id;
  position = [];
  duration = pos 1;
  capabilities = [];
  prerequisites = prerequisites;
  required_robots = pos 1;
}

-- Task 4 needs 3, which needs 1; task 2 is free.
chain_dependents :
    dependents
      (record {
        tasks = by_id [] (
            dag_task (pos 4) (pos 3 ∷ [])
            ∷ dag_task (pos 3) (pos 1 ∷ [])
            ∷ dag_task (pos 1) []
            ∷ dag_task (pos 2) []
            ∷ []);
      })
      (pos 1)
    ≡ pos 3 ∷ pos 4 ∷ []
unfolding dependents dependents_loop by_id set
chain_dependents = refl

chain_available :
    available
      (record { tasks = by_id [] (dag_task (pos 3) (pos 1 ∷ []) ∷ dag_task (pos 1) [] ∷ []) })
      []
    ≡ pos 1 ∷ []
unfolding available by_id set
chain_available = refl

cycle_reported :
    task_dag (dag_task (pos 3) (pos 1 ∷ []) ∷ dag_task (pos 1) (pos 3 ∷ []) ∷ [])
    ≡ err dependency_cycle
unfolding task_dag by_id set topological_order topological_loop visit in_degrees initial_frontier
    get ◌-ℤ◌
cycle_reported = refl

unknown_reported : task_dag (dag_task (pos 3) (pos 1 ∷ []) ∷ []) ≡ err value_error
unfolding task_dag by_id set
unknown_reported = refl

abbrev chain : List Task
chain = dag_task (pos 3) (pos 1 ∷ []) ∷ dag_task (pos 1) [] ∷ []

abbrev chain_dag : TaskDag
chain_dag = record {
  tasks = (pos 3, dag_task (pos 3) (pos 1 ∷ [])) ∷ (pos 1, dag_task (pos 1) []) ∷ [];
}

chain_accepted : task_dag chain ≡ ok chain_dag
unfolding task_dag by_id set topological_order topological_loop visit in_degrees initial_frontier
    get ◌-ℤ◌
chain_accepted = refl

chain_sets : All (λ (t : Task). Apart t.prerequisites) chain
chain_sets = ((λ _ i. absurd i, tt), (tt, tt))

task_dag_example : Ordered chain_dag × ((k : TaskId) → get k chain_dag.tasks ≡ last_of k chain)
task_dag_example = task_dag_lem chain chain_dag chain_sets chain_accepted

available_example : (y : TaskId) × In y (available chain_dag [])
available_example =
    available_lem chain chain_dag [] (pos 3) chain_sets chain_accepted (inl refl) refl
