-- ===== src/Allocator/Tests.antt =====
-- One robot, two tasks of which the second needs the first, and a third for two robots.
use distributed_mobile_robot.Base.{
  inr, ◌≤ℤ◌, ℤ, pos, ◌+ℤ◌, ◌-ℤ◌, List, [], ◌∷◌, ◌≡◌, refl, subst, inl, some, ok, All, Apart, sorted,
  insert_sorted, arith,
}
use distributed_mobile_robot.Base.Dict.{Dict, get, set, del, AllItems}
use distributed_mobile_robot.Types.{TaskId, Task, RoundResult}
use distributed_mobile_robot.Dag.{
  TaskDag, by_id, task_dag, topological_order, topological_loop, visit, in_degrees,
  initial_frontier, available, dependents, dependents_loop,
}
use distributed_mobile_robot.Benefits.{RobotState, matrix, matrix_rows, matrix_row}
use distributed_mobile_robot.Allocator.{
  RoundRunner, RepeatedRoundsAllocator, AllocationResult, Reason, unsupported, blocked_by,
  report_blocked, robot_by_id, put_robot, pad_rows, round_benefits, tasks_of, dispatch,
  dispatch_all, auction_round,
}
use distributed_mobile_robot.Allocator.Loop.{
  complete, advance_on, advance, pass, allocate_loop, allocate_from, allocate, split_tasks,
}
use distributed_mobile_robot.Allocator.Offers.{Offered}
use distributed_mobile_robot.Allocator.Ready.{Honest}
use distributed_mobile_robot.Cpm.{max_from, max_finish, finish_new, finish, critical_path_length}
use distributed_mobile_robot.Allocator.Lower.{critical_path-le-makespan}
use distributed_mobile_robot.Allocator.Covers.{Covers, allocate-Covers}
use distributed_mobile_robot.Allocator.Order.{InOrder, WellTimed, allocate-InOrder}

-- The first robot gets its first task.
abbrev first_come : RoundRunner
first_come calls [] config =
    ok (record { assignment = []; ticks = 0; messages_sent = 0; prices = [] })
first_come calls ((a, []) ∷ rows) config =
    ok (record { assignment = []; ticks = 0; messages_sent = 0; prices = [] })
first_come calls ((a, (t, b) ∷ row) ∷ rows) config =
    ok (record { assignment = (a, some t) ∷ []; ticks = 0; messages_sent = 1; prices = [] })

same_run : (a b : RoundResult) → ok a ≡ ok b → a ≡ b
same_run a b h = cc

same_task : (t u : TaskId) → some t ≡ some u → t ≡ u
same_task t u h = cc

-- What `Honest` asks of a result.
abbrev Kept : Dict (Dict ℤ) → RoundResult → Type 0
Kept rows result =
    AllItems (λ _ choice. (t : TaskId) → choice ≡ some t → Offered rows t) result.assignment

abbrev allocator : RepeatedRoundsAllocator
allocator = record {
  model = record { benefit = λ r t. pos 1 };
  run_round = first_come;
  round_config = record { epsilon = pos 1; quiescence_rounds = pos 2 };
  one = pos 1;
  distance_over = λ p q speed. pos 3;
}

first_come-Honest : Honest first_come allocator.round_config
first_come-Honest calls [] result differ runs = subst (Kept []) (same_run _ result runs) tt
first_come-Honest calls ((a, []) ∷ rows) result differ runs =
    subst (Kept ((a, []) ∷ rows)) (same_run _ result runs) tt
first_come-Honest calls ((a, (t, b) ∷ row) ∷ rows) result differ runs =
    subst (Kept ((a, (t, b) ∷ row) ∷ rows)) (same_run _ result runs)
      (λ u same. inl (inl (same_task t u same)), tt)

abbrev robots : List RobotState
robots =
    record { id = pos 7; position = []; capabilities = []; speed = pos 1; workload = pos 0 } ∷ []

abbrev task : TaskId → List TaskId → ℤ → Task
task id prerequisites required_robots = record {
  id = id;
  position = pos 2 ∷ [];
  duration = pos 5;
  capabilities = [];
  prerequisites = prerequisites;
  required_robots = required_robots;
}

abbrev tasks : List Task
tasks =
    task (pos 2) (pos 1 ∷ []) (pos 1)
    ∷ task (pos 1) [] (pos 1)
    ∷ task (pos 3) [] (pos 2)
    ∷ task (pos 4) (pos 3 ∷ []) (pos 1)
    ∷ []

abbrev schedulable : List Task
schedulable = task (pos 2) (pos 1 ∷ []) (pos 1) ∷ task (pos 1) [] (pos 1) ∷ []

abbrev reported : Dict Reason
reported = (pos 3, unsupported) ∷ (pos 4, blocked_by (pos 3)) ∷ []

abbrev dag : TaskDag
dag = record {
  tasks = (pos 2, task (pos 2) (pos 1 ∷ []) (pos 1)) ∷ (pos 1, task (pos 1) [] (pos 1)) ∷ [];
}

abbrev result : AllocationResult
result = record {
  schedule =
      record { task_id = pos 1; robot_id = pos 7; start = pos 0; finish = pos 8 }
      ∷ record { task_id = pos 2; robot_id = pos 7; start = pos 8; finish = pos 16 }
      ∷ [];
  makespan = pos 16;
  rounds = 2;
  total_messages = 2;
  unallocated = reported;
}

tasks_split : split_tasks tasks ≡ ok (schedulable, reported)
unfolding split_tasks report_blocked task_dag by_id set topological_order topological_loop visit
    in_degrees initial_frontier get ◌-ℤ◌ dependents dependents_loop
tasks_split = refl

dag_accepted : task_dag schedulable ≡ ok dag
unfolding task_dag by_id set topological_order topological_loop visit in_degrees initial_frontier
    get ◌-ℤ◌
dag_accepted = refl

allocated : allocate 5 allocator robots tasks ≡ ok (some result)
unfolding allocate allocate_from allocate_loop pass advance advance_on complete auction_round
    dispatch_all dispatch robot_by_id put_robot tasks_of round_benefits pad_rows matrix matrix_rows
    matrix_row available sorted insert_sorted split_tasks report_blocked task_dag by_id set get del
    topological_order topological_loop visit in_degrees initial_frontier ◌-ℤ◌ ◌+ℤ◌ dependents
    dependents_loop
allocated = refl

one : (k : ℤ) → Apart (k ∷ [])
one k = (λ _ i. absurd i, tt)

tasks-WellTimed : All WellTimed tasks
tasks-WellTimed = (
  (one (pos 1), omega arith),
  ((tt, omega arith), ((tt, omega arith), ((one (pos 3), omega arith), tt))),
)

allocate_example : InOrder dag.tasks result
allocate_example =
    allocate-InOrder 5 allocator robots tasks schedulable reported dag result first_come-Honest
      (λ p q speed moves. omega arith) tasks-WellTimed tasks_split dag_accepted allocated

dag_path : critical_path_length dag ≡ ok (pos 10)
unfolding critical_path_length finish finish_new max_finish max_from get set ◌+ℤ◌
dag_path = refl

lower_bound_example : pos 10 ≤ℤ result.makespan
lower_bound_example =
    critical_path-le-makespan 5 allocator robots tasks schedulable reported dag result (pos 10)
      first_come-Honest (λ p q speed moves. omega arith) tasks-WellTimed tasks_split dag_accepted
      allocated
      (λ k i. elim i [
        | inl same ↦ inr (inl same)
        | inr rest ↦ elim rest [ inl same ↦ inl same | inr none_left ↦ absurd none_left ]
      ])
      dag_path

allocated_all_example : Covers result (pos 4)
allocated_all_example =
    allocate-Covers 5 allocator robots tasks result (task (pos 4) (pos 3 ∷ []) (pos 1)) allocated
      (inr (inr (inr (inl refl))))
