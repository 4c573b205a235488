-- ===== src/SystemSim.antt =====
-- auction_core/src/auction_core/validation/system_sim.py: participants over the transport, with mock
-- execution and scripted failures. The travel time, a float computation, is a parameter.
pub mod Run
pub mod Touched
pub mod InStep
pub mod Steps
pub mod Outcome
pub mod Tests
use distributed_mobile_robot.Base.{
  ℕ, ℤ, pos, leb_ℤ, ltb_ℤ, ◌+ℤ◌, ◌==ℤ◌, Bool, true, false, not, ◌&&◌, if◌then◌else◌, List, [], ◌∷◌,
  ◌++◌, Option, none, some, Result, ok, err, stop_iteration, ◌>>=◌, contains,
}
use distributed_mobile_robot.Base.Dict.{Dict, get, set, del, or_key_error}
use distributed_mobile_robot.Types.{AgentId, TaskId, Task}
use distributed_mobile_robot.Benefits.{RobotState, BenefitModel}
use distributed_mobile_robot.Messages.{CoordinationMessage, task_injected}
use distributed_mobile_robot.Transport.{SimTransport, send_payload, deliver_due}
use distributed_mobile_robot.Participant.State.{
  Participant, load_mission, pop_aborts, pop_dispatches, task_finished,
}
use distributed_mobile_robot.Participant.Handle.{handle}
use distributed_mobile_robot.Participant.Cycle.{tick}

pub record Execution : Type 0 where
  pub task_id : TaskId
  pub robot : AgentId
  pub started : ℤ
  pub finish : ℤ

-- The events of the source, without their words.
pub data Event : Type 0 where
  killed : AgentId → Event
  injected : TaskId → Event
  aborted started_task completed_task : AgentId → TaskId → Event

pub record SystemResult : Type 0 where
  pub mission_time : Option ℤ
  pub executions : List Execution
  pub events : List (ℤ × Event)
  pub messages_sent : ℕ

-- `result` is the variable of `run`.
pub record SystemSim (S : Type 0) : Type 0 where
  pub tick_period : ℤ
  pub kill_at : Dict ℤ
  pub inject : List (ℤ × Task)
  pub tasks : List Task
  pub transport : SimTransport S CoordinationMessage
  pub participants : Dict Participant
  pub dead : List AgentId
  pub executing : Dict Execution
  pub result : SystemResult

-- `sorted(inject, key=lambda x: x[0])`: stable.
abbrev insert_timed : ℤ × Task → List (ℤ × Task) → List (ℤ × Task)
insert_timed x [] = x ∷ []
insert_timed x (y ∷ ys) = if ltb_ℤ y.0 x.0 then y ∷ insert_timed x ys else x ∷ y ∷ ys

abbrev sorted_by_time : List (ℤ × Task) → List (ℤ × Task)
sorted_by_time [] = []
sorted_by_time (x ∷ xs) = insert_timed x (sorted_by_time xs)

-- The loop of the constructor. `make` is `CoordinationParticipant` with the keyword arguments.
unfoldable pub make_participants :
    (RobotState → Result Participant)
    → List Task
    → List RobotState
    → Dict Participant
    → Result (Dict Participant)
make_participants make tasks [] ps = ok ps
make_participants make tasks (robot ∷ robots) ps = do
  p ← make robot
  make_participants make tasks robots (set robot.id (load_mission p tasks) ps)

-- Every robot that is not dead handles the message.
unfoldable pub handle_all :
    List AgentId → CoordinationMessage → ℤ → Dict Participant → Result (Dict Participant)
handle_all dead msg now [] = ok []
handle_all dead msg now ((robot, p) ∷ ps) = do
  p' ← if contains robot dead then ok p else handle p msg now
  ps' ← handle_all dead msg now ps
  ok ((robot, p') ∷ ps')

module _ {S : Type 0} where
  unfoldable pub system_sim :
      (RobotState → Result Participant)
      → List RobotState
      → List Task
      → SimTransport S CoordinationMessage
      → ℤ
      → Dict ℤ
      → List (ℤ × Task)
      → Result (SystemSim S)
  unfolding make_participants
  system_sim make robots tasks transport tick_period kill_at inject = do
    ps ← make_participants make tasks robots []
    ok (record {
      tick_period = tick_period;
      kill_at = kill_at;
      inject = sorted_by_time inject;
      tasks = tasks;
      transport = transport;
      participants = ps;
      dead = [];
      executing = [];
      result = record { mission_time = none; executions = []; events = []; messages_sent = 0 };
    })

  -- `result.events.append((now, event))`
  abbrev pub log_event : ℤ → Event → SystemSim S → SystemSim S
  log_event now event s = record s {
    result = record s.result { events = s.result.events ++ (now, event) ∷ [] };
  }

  unfoldable pub kill_due : ℤ → Dict ℤ → SystemSim S → SystemSim S
  kill_due now [] s = s
  kill_due now ((robot, kill_time) ∷ rest) s =
      let others = kill_due now rest in
      if not (contains robot s.dead) && leb_ℤ kill_time now
      then others (
          log_event now (killed robot)
            (record s { dead = s.dead ++ robot ∷ []; executing = del robot s.executing }))
      else others s

  unfoldable pub inject_due : ℤ → List (ℤ × Task) → SystemSim S → Result (SystemSim S)
  unfolding handle_all
  inject_due now [] s = ok (record s { inject = [] })
  inject_due now ((time, task) ∷ rest) s =
      let later = inject_due now rest in
      if leb_ℤ time now
      then (do
        ps ←
            handle_all s.dead (task_injected (record { task = task; stamp = now })) now
              s.participants
        later (
            log_event now (injected task.id)
              (record s { tasks = s.tasks ++ task ∷ []; participants = ps })))
      else ok (record s { inject = (time, task) ∷ rest })

  unfoldable pub deliver_all :
      ℤ → List (AgentId × CoordinationMessage) → SystemSim S → Result (SystemSim S)
  deliver_all now [] s = ok s
  deliver_all now ((dest, message) ∷ due) s =
      let others = deliver_all now due in
      if contains dest s.dead then others s else (do
        p ← or_key_error (get dest s.participants)
        p' ← handle p message now
        others (record s { participants = set dest p' s.participants }))

  unfoldable pub send_all : List CoordinationMessage → AgentId → ℕ → SystemSim S → SystemSim S
  send_all [] robot i s = s
  send_all (msg ∷ out) robot i s =
      send_all out robot i (record s { transport = send_payload msg robot i s.transport })

  unfoldable pub abort_all : ℤ → AgentId → List TaskId → SystemSim S → SystemSim S
  abort_all now robot [] s = s
  abort_all now robot (task_id ∷ aborts) s =
      abort_all now robot aborts
        (log_event now (aborted robot task_id) (record s { executing = del robot s.executing }))

-- `next(t for t in self.tasks if t.id == task_id)`
unfoldable pub task_named : TaskId → List Task → Result Task
task_named task_id [] = err stop_iteration
task_named task_id (t ∷ tasks) = if t.id ==ℤ task_id then ok t else task_named task_id tasks

module _ {S : Type 0} (travel : RobotState → Task → ℤ) where
  unfoldable pub start_all :
      ℤ → AgentId → RobotState → List TaskId → SystemSim S → Result (SystemSim S)
  unfolding task_named
  start_all now robot me [] s = ok s
  start_all now robot me (task_id ∷ dispatches) s = do
    task ← task_named task_id s.tasks
    let execution : Execution = record {
      task_id = task_id;
      robot = robot;
      started = now;
      finish = now +ℤ travel me task +ℤ task.duration;
    }
    start_all now robot me dispatches (
        log_event now (started_task robot task_id)
          (record s { executing = set robot execution s.executing }))

  unfoldable pub tick_robot : ℤ → ℕ → AgentId → SystemSim S → Result (SystemSim S)
  unfolding send_all abort_all start_all
  tick_robot now i robot s = do
    p ← or_key_error (get robot s.participants)
    (out, p1) ← tick p now
    let (aborts, p2) = pop_aborts p1
    let (dispatches, p3) = pop_dispatches p2
    let heard = send_all out robot i (record s { participants = set robot p3 s.participants })
    start_all now robot p3.me dispatches (abort_all now robot aborts heard)

  unfoldable pub tick_all : ℤ → ℕ → List AgentId → SystemSim S → Result (SystemSim S)
  unfolding tick_robot
  tick_all now i [] s = ok s
  tick_all now i (robot ∷ robots) s =
      let others = tick_all now i robots in
      if contains robot s.dead then others s else (do s' ← tick_robot now i robot s; others s')
