-- ===== src/MissionNode/Tests.antt =====
-- One task of a mission is injected again.
use distributed_mobile_robot.Base.{ℤ, pos, ◌==ℤ◌, ◌||◌, ◌≡◌, refl, [], ◌∷◌}
use distributed_mobile_robot.Msgs.{TaskSpec, Int64}
use distributed_mobile_robot.MissionNode.{MissionNode, mission_node, has_id, on_inject}
use distributed_mobile_robot.MissionNode.Latched.{IsValid, on_inject_lem}

abbrev spec : Int64 → TaskSpec
spec id = record {
  id = id;
  position = [];
  duration = pos 1;
  capabilities = [];
  prerequisites = [];
  required_robots = record { value = pos 1; fits = refl };
}

abbrev two : Int64
two = record { value = pos 2; fits = refl }

abbrev mission : MissionNode
mission = mission_node (spec (record { value = pos 1; fits = refl }) ∷ []) (pos 0)

mission-IsValid : IsValid mission
unfolding mission_node
mission-IsValid = record { current = refl; apart = (refl, tt) }

on_inject_example :
    IsValid (on_inject mission (spec two) (pos 5))
    × ((id : ℤ)
        → has_id id (on_inject mission (spec two) (pos 5)).tasks
          ≡ (has_id id mission.tasks || pos 2 ==ℤ id))
    × (on_inject (on_inject mission (spec two) (pos 5)) (spec two) (pos 6)
        ≡ on_inject mission (spec two) (pos 5))
on_inject_example = on_inject_lem mission (spec two) (pos 5) (pos 6) mission-IsValid
