-- ===== src/Participant/State.antt =====
-- participant.py: the fields of `CoordinationParticipant`, its constructor and its mission API.
use distributed_mobile_robot.Base.{
  ℤ, pos, ◌+ℤ◌, ◌*ℤ◌, ◌==ℤ◌, Bool, true, false, ◌&&◌, if◌then◌else◌, List, [], ◌∷◌, Option, none,
  some, Result, ok, assert, ◌>>=◌, ◌>>◌, is_subset,
}
use distributed_mobile_robot.Base.Dict.{Dict, get, set, keys, or_key_error}
use distributed_mobile_robot.Types.{AgentId, TaskId, Task, collaborative}
use distributed_mobile_robot.Prices.{PriceTable}
use distributed_mobile_robot.Engine.{AuctionAgent}
use distributed_mobile_robot.Heartbeat.{HeartbeatMonitor, heartbeat_monitor}
use distributed_mobile_robot.Leases.{TaskLeases, task_leases, release}
use distributed_mobile_robot.Benefits.{RobotState, BenefitModel}
use distributed_mobile_robot.Messages.{RoundAnnouncement, CoordinationMessage, task_completed}

-- Why a task is not scheduled.
pub data Reason : Type 0 where
  collaborative_unsupported : Reason

-- `none` in `last_heartbeat` is `float("-inf")`.
pub record Participant : Type 0 where
  pub me : RobotState
  pub model : BenefitModel
  pub heartbeat_interval : ℤ
  pub monitor : HeartbeatMonitor
  pub leases : TaskLeases
  pub epsilon : ℤ
  pub quiescence_rounds : ℤ
  pub round_timeout : ℤ
  -- `1.0`, in units
  pub one : ℤ
  pub tasks : Dict Task
  pub completed : Dict AgentId
  pub unsupported : Dict Reason
  pub executing : Option TaskId
  pub idle_flags : Dict (ℤ × Bool)
  pub announcement : Option RoundAnnouncement
  pub round_opened_at : ℤ
  pub agent : Option AuctionAgent
  pub relay : Option PriceTable
  pub relay_dirty : Bool
  pub max_round_seen : ℤ
  pub last_heartbeat : Option ℤ
  pub dispatches : List TaskId
  pub aborts : List TaskId

-- `lease_duration or default`: None and 0 are false.
abbrev pub or_default : Option ℤ → ℤ → ℤ
or_default none default = default
or_default (some d) default = if d ==ℤ pos 0 then default else d

unfoldable pub participant :
    RobotState → BenefitModel → ℤ → ℤ → Option ℤ → ℤ → ℤ → ℤ → ℤ → Result Participant
participant me model heartbeat_interval eta lease_duration epsilon quiescence_rounds round_timeout
      one =
    do
      monitor ← heartbeat_monitor heartbeat_interval eta
      leases ← task_leases (or_default lease_duration (pos 2 *ℤ eta *ℤ heartbeat_interval))
      ok (record {
        me = me;
        model = model;
        heartbeat_interval = heartbeat_interval;
        monitor = monitor;
        leases = leases;
        epsilon = epsilon;
        quiescence_rounds = quiescence_rounds;
        round_timeout = round_timeout;
        one = one;
        tasks = [];
        completed = [];
        unsupported = [];
        executing = none;
        idle_flags = [];
        announcement = none;
        round_opened_at = pos 0;
        agent = none;
        relay = none;
        relay_dirty = false;
        max_round_seen = pos 0;
        last_heartbeat = none;
        dispatches = [];
        aborts = [];
      })

unfoldable pub add_task : Participant → Task → Participant
add_task p task =
    if collaborative task
    then record p { unsupported = set task.id collaborative_unsupported p.unsupported }
    else record p { tasks = set task.id task p.tasks }

unfoldable pub load_mission : Participant → List Task → Participant
load_mission p [] = p
load_mission p (task ∷ tasks) = load_mission (add_task p task) tasks

abbrev has_tasks : Dict Task → Bool
has_tasks [] = false
has_tasks (x ∷ d) = true

unfoldable pub mission_complete : Participant → Bool
mission_complete p = has_tasks p.tasks && is_subset (keys p.tasks) (keys p.completed)

unfoldable pub pop_dispatches : Participant → List TaskId × Participant
pop_dispatches p = (p.dispatches, record p { dispatches = [] })

unfoldable pub pop_aborts : Participant → List TaskId × Participant
pop_aborts p = (p.aborts, record p { aborts = [] })

-- `executing == task_id`
abbrev pub is_task : Option TaskId → TaskId → Bool
is_task none task = false
is_task (some t) task = t ==ℤ task

-- `position or other`: the empty tuple is false.
abbrev pub or_position : List ℤ → List ℤ → List ℤ
or_position [] other = other
or_position (x ∷ position) other = x ∷ position

unfoldable pub task_finished :
    Participant → TaskId → ℤ → Result (List CoordinationMessage × Participant)
task_finished p task_id now = do
  assert (is_task p.executing task_id)
  let me : RobotState = p.me
  task ← or_key_error (get task_id p.tasks)
  ok (
    task_completed (record { task_id = task_id; by = me.id; stamp = now }) ∷ [],
    record p {
      executing = none;
      completed = set task_id me.id p.completed;
      leases = (release p.leases task_id me.id).1;
      me = record me {
        workload = me.workload +ℤ task.duration;
        position = or_position task.position me.position;
      };
    },
  )
