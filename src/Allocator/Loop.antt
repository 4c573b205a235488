-- ===== src/Allocator/Loop.antt =====
-- The loop of `allocate`: rounds and completions in turn.
use distributed_mobile_robot.Base.{
  ℕ, zero, suc, ltb, ℤ, pos, ltb_ℤ, leb_ℤ, max_ℤ, Bool, true, false, not, ◌&&◌, ◌||◌, if◌then◌else◌,
  List, [], ◌∷◌, ◌++◌, Option, none, some, Result, ok, ◌>>=◌, length, contains, select, sorted,
}
use distributed_mobile_robot.Base.Dict.{Dict, get, del, is_some, keys, or_key_error}
use distributed_mobile_robot.Types.{AgentId, TaskId, Task, collaborative}
use distributed_mobile_robot.Dag.{TaskDag, task_dag}
use distributed_mobile_robot.Benefits.{RobotState}
use distributed_mobile_robot.Allocator.{
  ScheduledTask, Reason, no_progress, AllocationResult, RepeatedRoundsAllocator, Simulation,
  report_unsupported, report_all, report_blocked, robot_by_id, put_robot, offered_tasks,
  idle_robots, auction_round,
}

-- `any(t >= 0 for t, _ in running.values())`
abbrev pub any_working : Dict (TaskId × ℤ) → Bool
any_working [] = false
any_working ((a, (t, finish)) ∷ running) = leb_ℤ (pos 0) t || any_working running

-- `min(running, key=lambda r: running[r][1])`: the first of the least.
abbrev pub earliest_from : AgentId × (TaskId × ℤ) → Dict (TaskId × ℤ) → AgentId × (TaskId × ℤ)
earliest_from first [] = first
earliest_from first (item ∷ running) =
    earliest_from (if ltb_ℤ item.1.1 first.1.1 then item else first) running

-- `position or robot.position`
abbrev or_position : List ℤ → List ℤ → List ℤ
or_position [] q = q
or_position (x ∷ p) q = x ∷ p

-- `completed.add(k)`
abbrev pub add : TaskId → List TaskId → List TaskId
add k ks = if contains k ks then ks else ks ++ k ∷ []

unfoldable pub complete : TaskDag → AgentId × (TaskId × ℤ) → Simulation → Result Simulation
complete dag (id, (task_id, finish)) s = do
  robot ← or_key_error (robot_by_id id s.robots)
  task ← or_key_error (get task_id dag.tasks)
  ok (record s {
    running = del id s.running;
    now = finish;
    completed = add task_id s.completed;
    robots =
        put_robot (record robot { position = or_position task.position robot.position }) s.robots;
  })

-- What a pass of the loop does: another pass follows, or `break`.
pub data Pass : Type 0 where
  again stop : Simulation → Pass

-- The end of a pass, on the items of `running`.
unfoldable pub advance_on : TaskDag → Dict (TaskId × ℤ) → Simulation → Result Pass
unfolding complete
advance_on dag [] s =
    let left = sorted (select (λ k. not (contains k s.completed)) (keys dag.tasks)) in
    ok (stop (record s { unallocated = report_all no_progress left s.unallocated }))
advance_on dag (item ∷ running) s = do
  s1 ← complete dag (earliest_from item running) s
  ok (again s1)

unfoldable pub advance : TaskDag → Simulation → Result Pass
unfolding advance_on
advance dag s = advance_on dag s.running s

abbrev pub has_none {ℓ} : {A : Type ℓ} → List A → Bool
has_none [] = true
has_none (x ∷ xs) = false

-- `available and idle`
abbrev pub round_due : TaskDag → Simulation → Bool
round_due dag s = not (has_none (offered_tasks dag s)) && not (has_none (idle_robots s))

unfoldable pub pass : RepeatedRoundsAllocator → TaskDag → Simulation → Result Pass
unfolding advance
pass self dag s =
    if round_due dag s
    then (do
      s1 ← auction_round self dag (offered_tasks dag s) (idle_robots s) s
      if any_working s1.running then ok (again s1) else advance dag s1)
    else advance dag s

-- `break`, or the next pass.
abbrev pub follow : (Simulation → Result (Option Simulation)) → Pass → Result (Option Simulation)
follow rest (again s) = rest s
follow rest (stop s) = ok (some s)

-- The loop, on fuel: `none` while it has not ended.
unfoldable pub allocate_loop :
    ℕ → RepeatedRoundsAllocator → TaskDag → ℕ → Simulation → Result (Option Simulation)
unfolding pass
allocate_loop zero self dag total s = ok none
allocate_loop (suc fuel) self dag total s =
    let rest = allocate_loop fuel self dag total in
    if ltb (length s.completed) total then (do p ← pass self dag s; follow rest p) else ok (some s)

-- `max((s.finish for s in schedule), default=0.0)`
abbrev pub latest : ℤ → List ScheduledTask → ℤ
latest finish [] = finish
latest finish (s ∷ schedule) = latest (max_ℤ finish s.finish) schedule

abbrev pub makespan : List ScheduledTask → ℤ
makespan [] = pos 0
makespan (s ∷ schedule) = latest s.finish schedule

abbrev pub result_of : Simulation → AllocationResult
result_of s = record {
  schedule = s.schedule;
  makespan = makespan s.schedule;
  rounds = s.rounds;
  total_messages = s.messages;
  unallocated = s.unallocated;
}

abbrev pub simulation : List RobotState → Dict Reason → Simulation
simulation robots unallocated = record {
  robots = robots;
  schedule = [];
  completed = [];
  running = [];
  now = pos 0;
  rounds = 0;
  messages = 0;
  unallocated = unallocated;
}

-- The tasks that rounds can give out, and the others with a reason.
unfoldable pub split_tasks : List Task → Result (List Task × Dict Reason)
unfolding report_blocked
split_tasks tasks = do
  unallocated ← report_blocked tasks tasks (report_unsupported tasks [])
  let supported = select (λ t. not (collaborative t)) tasks
  ok (select (λ t. not (is_some (get t.id unallocated))) supported, unallocated)

abbrev pub finished : Option Simulation → Option AllocationResult
finished none = none
finished (some s) = some (result_of s)

-- From the schedulable tasks on: no tasks, no graph.
unfoldable pub allocate_from :
    ℕ → RepeatedRoundsAllocator → List Task → Simulation → Result (Option AllocationResult)
unfolding allocate_loop
allocate_from fuel self [] start = ok (some (result_of start))
allocate_from fuel self (t ∷ ts) start = do
  dag ← task_dag (t ∷ ts)
  ended ← allocate_loop fuel self dag (length (t ∷ ts)) start
  ok (finished ended)

unfoldable pub allocate :
    ℕ → RepeatedRoundsAllocator → List RobotState → List Task → Result (Option AllocationResult)
unfolding allocate_from split_tasks
allocate fuel self robots tasks = do
  (schedulable, unallocated) ← split_tasks tasks
  allocate_from fuel self schedulable (simulation robots unallocated)
