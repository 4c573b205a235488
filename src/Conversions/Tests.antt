-- ===== src/Conversions/Tests.antt =====
-- A task on the wire.
use distributed_mobile_robot.Base.{ok, refl, pos, ◌≡◌, [], ◌∷◌, Apart, inl, inr}
use distributed_mobile_robot.Types.{Task}
use distributed_mobile_robot.Msgs.{TaskSpec}
use distributed_mobile_robot.Conversions.{task_to_core, task_to_msg}
use distributed_mobile_robot.Conversions.RoundTrip.{task_round_trip}

abbrev job : Task
job = record {
  id = pos 9;
  position = pos 1 ∷ pos 2 ∷ [];
  duration = pos 4;
  capabilities = pos 1 ∷ [];
  prerequisites = pos 1 ∷ pos 2 ∷ [];
  required_robots = pos 2;
}

job-Apart : Apart job.prerequisites
job-Apart = (
  λ k i same. elim i [ inl two ↦ cc | inr none_left ↦ absurd none_left ],
  (λ k none_left. absurd none_left, tt),
)

task_round_trip_example : (msg : TaskSpec) × (task_to_msg job ≡ ok msg) × (task_to_core msg ≡ job)
task_round_trip_example = task_round_trip job job-Apart refl (refl, (refl, tt)) refl
