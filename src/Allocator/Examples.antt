-- ===== src/Allocator/Examples.antt =====
-- Two robots and two tasks, of which one waits for the other, in rounds over a network without loss.
use distributed_mobile_robot.Base.{
  ℕ, ℤ, pos, false, ◌≡◌, refl, ◌⊎◌, List, [], ◌∷◌, ok, err, Error, some, Apart, inl, inr, arith,
}
use distributed_mobile_robot.Base.Dict.{Dict, keys}
use distributed_mobile_robot.Types.{AgentId, TaskId, Task, RoundConfig}
use distributed_mobile_robot.Benefits.{RobotState}
use distributed_mobile_robot.Transport.{sim_transport, complete}
use distributed_mobile_robot.Harness.{Transport}
use distributed_mobile_robot.Allocator.{RepeatedRoundsAllocator, AllocationResult}
use distributed_mobile_robot.Allocator.Loop.{allocate}
use distributed_mobile_robot.Allocator.Counted.{robot_ids}
use distributed_mobile_robot.Allocator.Shares.{Shares}
use distributed_mobile_robot.Allocator.Runner.{rounds_over, run_round-Shares}
use distributed_mobile_robot.Allocator.Returns.{allocate_lem}

-- `SimTransport(complete(benefits.keys()))`
abbrev calm_for : ℕ → Dict (Dict ℤ) → Transport ℕ
calm_for calls rows =
    sim_transport (λ now. complete (keys rows)) (λ s. (false, s)) (λ s. (pos 0, s)) 0

abbrev calm_config : RoundConfig
calm_config = record { epsilon = pos 1; quiescence_rounds = pos 2 }

calm_for-Shares_example : Shares (rounds_over calm_for 20) calm_config
unfolding sim_transport
calm_for-Shares_example = run_round-Shares calm_for 20 calm_config (omega arith) (λ n rows. refl)

calm_for-Shares : Shares (rounds_over calm_for 20) calm_config
unfolding sim_transport
calm_for-Shares = run_round-Shares calm_for 20 calm_config (omega arith) λ n rows. refl

abbrev calm_allocator : RepeatedRoundsAllocator
calm_allocator = record {
  model = record { benefit = λ r t. pos 1 };
  run_round = rounds_over calm_for 20;
  round_config = calm_config;
  one = pos 1;
  distance_over = λ p q speed. pos 3;
}

abbrev idle_robot : AgentId → RobotState
idle_robot id = record {
  id = id;
  position = [];
  capabilities = [];
  speed = pos 1;
  workload = pos 0;
}

abbrev two_robots : List RobotState
two_robots = idle_robot (pos 7) ∷ idle_robot (pos 8) ∷ []

abbrev short_task : TaskId → List TaskId → Task
short_task id prerequisites = record {
  id = id;
  position = pos 2 ∷ [];
  duration = pos 5;
  capabilities = [];
  prerequisites = prerequisites;
  required_robots = pos 1;
}

abbrev two_tasks : List Task
two_tasks = short_task (pos 2) (pos 1 ∷ []) ∷ short_task (pos 1) [] ∷ []

robots_differ : Apart (robot_ids two_robots)
robots_differ = (
  λ a i same. elim i [ inl there ↦ ground (arith, there, same) | inr none_left ↦ absurd none_left ],
  (λ a i. absurd i, tt),
)

allocate_lem_example :
    ((why : Error) × (allocate 5 calm_allocator two_robots two_tasks ≡ err why))
    ⊎ ((result : AllocationResult) × (allocate 5 calm_allocator two_robots two_tasks
          ≡ ok (some result)))
allocate_lem_example =
    allocate_lem 5 calm_allocator two_robots two_tasks calm_for-Shares robots_differ
      (((λ _ i. absurd i, tt), refl), ((tt, refl), tt)) (omega arith)
