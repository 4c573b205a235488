-- ===== src/Hungarian.antt =====
-- auction_core/src/auction_core/validation/hungarian.py: the total benefit of an assignment. The
-- optimal assignment itself is a call of scipy, and is not modelled.
use distributed_mobile_robot.Base.{ℤ, pos, ◌+ℤ◌, [], ◌∷◌, Option, none, some, Result, ok, ◌>>=◌}
use distributed_mobile_robot.Base.Dict.{Dict, get, or_key_error}
use distributed_mobile_robot.Types.{AgentId, TaskId}

-- `benefits[a][t]`
unfoldable pub benefit_in : Dict (Dict ℤ) → AgentId → TaskId → Result ℤ
benefit_in benefits a t = do row ← or_key_error (get a benefits); or_key_error (get t row)

unfoldable pub total_benefit : Dict (Dict ℤ) → Dict (Option TaskId) → Result ℤ
total_benefit benefits [] = ok (pos 0)
total_benefit benefits ((a, none) ∷ assignment) = total_benefit benefits assignment
total_benefit benefits ((a, some t) ∷ assignment) = do
  b ← benefit_in benefits a t
  rest ← total_benefit benefits assignment
  ok (b +ℤ rest)
