-- ===== src/Benefits.antt =====
-- auction_core/src/auction_core/scheduling/benefits.py: robots, and the benefit of a task for a
-- robot. The formula (a division, a Euclidean distance and a cosine, all in floats) is a parameter:
-- a model is any function.
use distributed_mobile_robot.Base.{ℤ, List, [], ◌∷◌}
use distributed_mobile_robot.Base.Dict.{Dict, set}
use distributed_mobile_robot.Types.{AgentId, Task}

pub record RobotState : Type 0 where
  pub id : AgentId
  pub position : List ℤ
  pub capabilities : List ℤ
  pub speed : ℤ
  pub workload : ℤ

pub record BenefitModel : Type 0 where
  pub benefit : RobotState → Task → ℤ

unfoldable pub matrix_row : BenefitModel → RobotState → List Task → Dict ℤ → Dict ℤ
matrix_row model r [] row = row
matrix_row model r (t ∷ ts) row = matrix_row model r ts (set t.id (model.benefit r t) row)

unfoldable pub matrix_rows :
    BenefitModel → List RobotState → List Task → Dict (Dict ℤ) → Dict (Dict ℤ)
unfolding matrix_row
matrix_rows model [] tasks rows = rows
matrix_rows model (r ∷ rs) tasks rows =
    matrix_rows model rs tasks (set r.id (matrix_row model r tasks []) rows)

unfoldable pub matrix : BenefitModel → List RobotState → List Task → Dict (Dict ℤ)
unfolding matrix_rows
matrix model robots tasks = matrix_rows model robots tasks []
