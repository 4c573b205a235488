-- ===== src/MissionNode.antt =====
-- ros2_ws/src/auction_ros/auction_ros/mission_node.py: the tasks that are latched for all agents. The
-- YAML file is not modelled: the tasks that it gives are an argument. The clock is an argument too.
pub mod Tests
pub mod Latched
use distributed_mobile_robot.Base.{
  ℤ, ◌==ℤ◌, Bool, true, false, ◌||◌, if◌then◌else◌, List, [], ◌∷◌, ◌++◌,
}
use distributed_mobile_robot.Msgs.{TaskSpec, TaskArray}

-- The tasks, and what stands latched on `auction/tasks`.
pub record MissionNode : Type 0 where
  pub tasks : List TaskSpec
  pub latched : TaskArray

unfoldable pub latch : List TaskSpec → ℤ → MissionNode
latch tasks now = record { tasks = tasks; latched = record { stamp = now; tasks = tasks } }

unfoldable pub mission_node : List TaskSpec → ℤ → MissionNode
unfolding latch
mission_node tasks now = latch tasks now

-- `any(t.id.value == spec.id.value for t in tasks)`
abbrev pub has_id : ℤ → List TaskSpec → Bool
has_id id [] = false
has_id id (t ∷ ts) = t.id.value ==ℤ id || has_id id ts

unfoldable pub on_inject : MissionNode → TaskSpec → ℤ → MissionNode
unfolding latch
on_inject n spec now = if has_id spec.id.value n.tasks then n else latch (n.tasks ++ spec ∷ []) now
