-- ===== src/Allocator.antt =====
-- auction_core/src/auction_core/allocator/repeated_rounds.py and base.py: rounds of the auction, one
-- after another, until each task is done. What the source computes in floats is a parameter.
pub mod Loop
pub mod Offers
pub mod Ready
pub mod Respect
pub mod Endings
pub mod Passes
pub mod Order
pub mod Accounted
pub mod Reports
pub mod Covers
pub mod Counted
pub mod Progress
pub mod Rounds
pub mod Sentinels
pub mod Idle
pub mod Shares
pub mod Ends
pub mod Returns
pub mod Lower
pub mod Tests
pub mod Runner
pub mod Examples
use distributed_mobile_robot.Base.{
  ℕ, zero, suc, ◌+◌, ◌-◌, ltb, ℤ, pos, negsuc, ltb_ℤ, leb_ℤ, ◌+ℤ◌, ◌-ℤ◌, ◌==ℤ◌, max_ℤ, Bool, true,
  false, not, ◌&&◌, ◌||◌, if◌then◌else◌, List, [], ◌∷◌, ◌++◌, map, Option, none, some, Result, ok,
  err, value_error, ◌>>=◌, length, contains, select, sorted,
}
use distributed_mobile_robot.Base.Dict.{Dict, get, set, del, is_some, keys, values, or_key_error}
use distributed_mobile_robot.Types.{AgentId, TaskId, Task, collaborative, RoundConfig, RoundResult}
use distributed_mobile_robot.Dag.{TaskDag, task_dag, available, dependents}
use distributed_mobile_robot.Benefits.{RobotState, BenefitModel, matrix}

-- What the runner answers may change from call to call: the number counts the calls before.
abbrev pub RoundRunner : Type 0
RoundRunner = ℕ → Dict (Dict ℤ) → RoundConfig → Result RoundResult

pub record ScheduledTask : Type 0 where
  pub task_id : TaskId
  pub robot_id : AgentId
  pub start : ℤ
  pub finish : ℤ

-- The messages of the source, without their words.
pub data Reason : Type 0 where
  unsupported no_progress : Reason
  blocked_by : TaskId → Reason

pub record AllocationResult : Type 0 where
  pub schedule : List ScheduledTask
  pub makespan : ℤ
  pub rounds : ℕ
  pub total_messages : ℕ
  pub unallocated : Dict Reason

pub record RepeatedRoundsAllocator : Type 0 where
  pub model : BenefitModel
  pub run_round : RoundRunner
  pub round_config : RoundConfig
  -- `1.0`, in units
  pub one : ℤ
  -- `_distance(a, b) / speed`, of a speed above 0
  pub distance_over : List ℤ → List ℤ → ℤ → ℤ

-- The variables of the loop.
pub record Simulation : Type 0 where
  pub robots : List RobotState
  pub schedule : List ScheduledTask
  pub completed : List TaskId
  pub running : Dict (TaskId × ℤ)
  pub now : ℤ
  pub rounds : ℕ
  pub messages : ℕ
  pub unallocated : Dict Reason

-- `d.setdefault(k, v)`
abbrev set_default : TaskId → Reason → Dict Reason → Dict Reason
set_default k v d = if is_some (get k d) then d else set k v d

abbrev report_unsupported : List Task → Dict Reason → Dict Reason
report_unsupported [] d = d
report_unsupported (t ∷ ts) d =
    report_unsupported ts (if collaborative t then set t.id unsupported d else d)

abbrev report_all : Reason → List TaskId → Dict Reason → Dict Reason
report_all why [] d = d
report_all why (k ∷ ks) d = report_all why ks (set_default k why d)

unfoldable pub report_blocked : List Task → List Task → Dict Reason → Result (Dict Reason)
report_blocked tasks [] d = ok d
report_blocked tasks (t ∷ ts) d =
    let rest = report_blocked tasks ts in
    if collaborative t
    then (do dag ← task_dag tasks; rest (report_all (blocked_by t.id) (dependents dag t.id) d))
    else rest d

-- `robot_by_id.get(id)`: the last robot of the id.
unfoldable pub robot_by_id : AgentId → List RobotState → Option RobotState
robot_by_id id [] = none
robot_by_id id (r ∷ rs) = elim (robot_by_id id rs) [
  | some s ↦ some s
  | none ↦ if r.id ==ℤ id then some r else none
]

-- A change of that robot, which the list shares.
unfoldable pub put_robot : RobotState → List RobotState → List RobotState
unfolding robot_by_id
put_robot new [] = []
put_robot new (r ∷ rs) =
    let rest = put_robot new rs in
    if r.id ==ℤ new.id && not (is_some (robot_by_id new.id rs)) then new ∷ rs else r ∷ rest

-- `min(row.values())`
abbrev lowest_from : ℤ → Dict ℤ → ℤ
lowest_from low [] = low
lowest_from low ((t, b) ∷ row) = lowest_from (if ltb_ℤ b low then b else low) row

abbrev pub lowest : Dict ℤ → Result ℤ
lowest [] = err value_error
lowest ((t, b) ∷ row) = ok (lowest_from b row)

-- `for k in range(deficit): row[_IDLE_BASE - k] = floor`, from `k` on
abbrev pub pad : ℕ → ℕ → ℤ → Dict ℤ → Dict ℤ
pad k zero floor row = row
pad k (suc deficit) floor row = pad (suc k) deficit floor (set (negsuc k) floor row)

unfoldable pub pad_rows : ℤ → ℕ → Dict (Dict ℤ) → Result (Dict (Dict ℤ))
pad_rows one deficit [] = ok []
pad_rows one deficit ((a, row) ∷ rows) = do
  low ← lowest row
  rest ← pad_rows one deficit rows
  ok ((a, pad 0 deficit (low -ℤ one) row) ∷ rest)

abbrev pub travel : RepeatedRoundsAllocator → RobotState → Task → ℤ
travel self robot task =
    if ltb_ℤ (pos 0) robot.speed
    then self.distance_over robot.position task.position robot.speed
    else pos 0

unfoldable pub round_benefits :
    RepeatedRoundsAllocator → List RobotState → List Task → Result (Dict (Dict ℤ))
unfolding pad_rows
round_benefits self idle tasks =
    let benefits = matrix self.model idle tasks in
    if ltb (length tasks) (length idle)
    then pad_rows self.one (length idle - length tasks) benefits
    else ok benefits

-- `[dag.tasks[t] for t in available]`
unfoldable pub tasks_of : TaskDag → List TaskId → Result (List Task)
tasks_of dag [] = ok []
tasks_of dag (k ∷ ks) = do t ← or_key_error (get k dag.tasks); ts ← tasks_of dag ks; ok (t ∷ ts)

unfoldable pub dispatch :
    RepeatedRoundsAllocator → TaskDag → AgentId → TaskId → Simulation → Result Simulation
unfolding robot_by_id put_robot
dispatch self dag agent_id task_id s = do
  robot ← or_key_error (robot_by_id agent_id s.robots)
  task ← or_key_error (get task_id dag.tasks)
  let finish = s.now +ℤ travel self robot task +ℤ task.duration
  let entry : ScheduledTask = record {
    task_id = task_id;
    robot_id = agent_id;
    start = s.now;
    finish = finish;
  }
  ok (record s {
    running = set agent_id (task_id, finish) s.running;
    schedule = s.schedule ++ entry ∷ [];
    robots = put_robot (record robot { workload = robot.workload +ℤ task.duration }) s.robots;
  })

-- `for agent_id, task_id in result.assignment.items()`
unfoldable pub dispatch_all :
    RepeatedRoundsAllocator → TaskDag → Dict (Option TaskId) → Simulation → Result Simulation
unfolding dispatch
dispatch_all self dag [] s = ok s
dispatch_all self dag ((agent_id, none) ∷ rest) s = dispatch_all self dag rest s
dispatch_all self dag ((agent_id, some task_id) ∷ rest) s =
    let others = dispatch_all self dag rest in
    if ltb_ℤ task_id (pos 0)
    then others s
    else (do s1 ← dispatch self dag agent_id task_id s; others s1)

abbrev pub in_progress : Simulation → List TaskId
in_progress s = map (λ (work : TaskId × ℤ). work.0) (values s.running)

abbrev pub offered_tasks : TaskDag → Simulation → List TaskId
offered_tasks dag s =
    sorted (select (λ k. not (contains k (in_progress s))) (available dag s.completed))

abbrev pub idle_robots : Simulation → List RobotState
idle_robots s = select (λ (r : RobotState). not (is_some (get r.id s.running))) s.robots

unfoldable pub auction_round :
    RepeatedRoundsAllocator
    → TaskDag
    → List TaskId
    → List RobotState
    → Simulation
    → Result Simulation
unfolding dispatch_all round_benefits tasks_of
auction_round self dag offered idle s = do
  tasks ← tasks_of dag offered
  benefits ← round_benefits self idle tasks
  result ← self.run_round s.rounds benefits self.round_config
  dispatch_all self dag result.assignment
      (record s { rounds = suc s.rounds; messages = s.messages + result.messages_sent })
