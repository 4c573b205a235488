-- ===== src/AgentNode.antt =====
-- ros2_ws/src/auction_ros/auction_ros/agent_node.py: the host of a participant on a robot. The clock
-- is an argument, and what is published is returned. A timer fires again and again until it is
-- destroyed, also when no field names it any more. `travel` is the float computation of the travel
-- time.
pub mod Topics
pub mod Duty
pub mod Finish
pub mod Runs
pub mod Tests
use distributed_mobile_robot.Base.{
  ℕ, suc, ◌==◌, select, ℤ, ◌+ℤ◌, Bool, true, false, not, ◌&&◌, ◌||◌, if◌then◌else◌, List, [], ◌∷◌,
  Option, none, some, Result, ok, err, key_error, assertion_error, attribute_error, ◌>>=◌, ◌++◌,
}
use distributed_mobile_robot.Base.Dict.{get, or_key_error, is_some}
use distributed_mobile_robot.Types.{TaskId, Task}
use distributed_mobile_robot.Benefits.{RobotState}
use distributed_mobile_robot.Messages.{
  CoordinationMessage, heartbeat, round_announcement, round_gossip, lease_renewal, task_completed,
  task_injected,
}
use distributed_mobile_robot.Msgs.{
  HeartbeatMsg, LeaseRenewalMsg, RoundAnnouncementMsg, RoundGossipMsg, TaskCompletedMsg, TaskSpec,
}
use distributed_mobile_robot.Conversions.{
  heartbeat_to_core, announcement_to_core, gossip_to_core, lease_to_core, completed_to_core,
  task_to_core, heartbeat_to_msg, announcement_to_msg, gossip_to_msg, lease_to_msg,
  completed_to_msg,
}
use distributed_mobile_robot.Participant.State.{
  Participant, mission_complete, pop_dispatches, pop_aborts, task_finished,
}
use distributed_mobile_robot.Participant.Handle.{handle}
use distributed_mobile_robot.Participant.Cycle.{tick}

-- A message on one of the coordination topics.
pub data Wire : Type 0 where
  on_heartbeat_topic : HeartbeatMsg → Wire
  on_round_topic : RoundAnnouncementMsg → Wire
  on_gossip_topic : RoundGossipMsg → Wire
  on_lease_topic : LeaseRenewalMsg → Wire
  on_completed_topic : TaskCompletedMsg → Wire

-- `_publish`: no topic and no conversion is known for an injected task.
unfoldable pub publish : CoordinationMessage → Result Wire
publish (heartbeat msg) = do m ← heartbeat_to_msg msg; ok (on_heartbeat_topic m)
publish (round_announcement msg) = do m ← announcement_to_msg msg; ok (on_round_topic m)
publish (round_gossip msg) = do m ← gossip_to_msg msg; ok (on_gossip_topic m)
publish (lease_renewal msg) = do m ← lease_to_msg msg; ok (on_lease_topic m)
publish (task_completed msg) = do m ← completed_to_msg msg; ok (on_completed_topic m)
publish (task_injected msg) = err key_error

-- The conversion that the subscription of each topic makes.
unfoldable pub to_core : Wire → CoordinationMessage
to_core (on_heartbeat_topic msg) = heartbeat (heartbeat_to_core msg)
to_core (on_round_topic msg) = round_announcement (announcement_to_core msg)
to_core (on_gossip_topic msg) = round_gossip (gossip_to_core msg)
to_core (on_lease_topic msg) = lease_renewal (lease_to_core msg)
to_core (on_completed_topic msg) = task_completed (completed_to_core msg)

unfoldable pub publish_all : List CoordinationMessage → Result (List Wire)
unfolding publish
publish_all [] = ok []
publish_all (m ∷ ms) = do w ← publish m; ws ← publish_all ms; ok (w ∷ ws)

-- A timer of the node: its serial number is its identity.
pub record Timer : Type 0 where
  pub serial : ℕ
  pub period : ℤ

-- `timers` are those that `create_timer` has made for executions and no one has destroyed; `created`
-- is how many it has made.
pub record AgentNode : Type 0 where
  pub participant : Participant
  pub exec_task : Option TaskId
  pub exec_timer : Option Timer
  pub timers : List Timer
  pub created : ℕ
  pub mission_logged : Bool

unfoldable pub agent_node : Participant → AgentNode
agent_node p = record {
  participant = p;
  exec_task = none;
  exec_timer = none;
  timers = [];
  created = 0;
  mission_logged = false;
}

-- The handler of a topic.
unfoldable pub on_message : AgentNode → Wire → ℤ → Result AgentNode
unfolding to_core
on_message n msg now = do
  p ← handle n.participant (to_core msg) now
  ok (record n { participant = p })

unfoldable pub on_task_array : AgentNode → List TaskSpec → ℤ → Result AgentNode
on_task_array n [] now = ok n
on_task_array n (spec ∷ tasks) now =
    let p = n.participant in
    let injected = task_injected (record { task = task_to_core spec; stamp = now }) in
    (do
      p' ← if is_some (get spec.id.value p.tasks) then ok p else handle p injected now
      on_task_array (record n { participant = p' }) tasks now)

-- `timer.cancel()` and `self.destroy_timer(timer)`
abbrev pub destroy_timer : Timer → List Timer → List Timer
destroy_timer timer timers = select (λ (t : Timer). not (t.serial == timer.serial)) timers

unfoldable pub cancel_execution : AgentNode → AgentNode
cancel_execution n = elim n.exec_timer [
  | none ↦ n
  | some timer ↦ record n {
    exec_task = none;
    exec_timer = none;
    timers = destroy_timer timer n.timers;
  }
]

unfoldable pub cancel_all : List TaskId → AgentNode → AgentNode
unfolding cancel_execution
cancel_all [] n = n
cancel_all (task ∷ tasks) n = cancel_all tasks (cancel_execution n)

-- `self.participant.task_finished(task_id, now)`, where `task_id` may be None: then the assertion
-- fails, or the task is looked up under None.
abbrev pub finish_task :
    Participant → Option TaskId → ℤ → Result (List CoordinationMessage × Participant)
finish_task p none now = if is_some p.executing then err assertion_error else err key_error
finish_task p (some task_id) now = task_finished p task_id now

-- The callback of each timer: it destroys the timer of the field, whichever has fired.
abbrev pub finish_on : Option Timer → AgentNode → ℤ → Result (List Wire × AgentNode)
finish_on none n now = err attribute_error
finish_on (some timer) n now = do
  (messages, p) ← finish_task n.participant n.exec_task now
  out ← publish_all messages
  ok (
    out,
    record n {
      participant = p;
      exec_task = none;
      exec_timer = none;
      timers = destroy_timer timer n.timers;
    },
  )

unfoldable pub finish_execution : AgentNode → ℤ → Result (List Wire × AgentNode)
finish_execution n now = finish_on n.exec_timer n now

module _ (travel : RobotState → Task → ℤ) where
  unfoldable pub start_execution : AgentNode → TaskId → ℤ → Result AgentNode
  start_execution n task_id now = do
    task ← or_key_error (get task_id n.participant.tasks)
    let timer : Timer = record {
      serial = n.created;
      period = travel n.participant.me task +ℤ task.duration;
    }
    ok (record n {
      exec_task = some task_id;
      exec_timer = some timer;
      timers = n.timers ++ timer ∷ [];
      created = suc n.created;
    })

  unfoldable pub start_all : List TaskId → AgentNode → ℤ → Result AgentNode
  unfolding start_execution
  start_all [] n now = ok n
  start_all (task_id ∷ tasks) n now = do n' ← start_execution n task_id now; start_all tasks n' now

  -- `_tick`
  unfoldable pub node_tick : AgentNode → ℤ → Result (List Wire × AgentNode)
  node_tick n now = do
    (messages, p) ← tick n.participant now
    out ← publish_all messages
    let (aborts, p') = pop_aborts p
    let n' = cancel_all aborts (record n { participant = p' })
    let (dispatches, p'') = pop_dispatches n'.participant
    n'' ← start_all dispatches (record n' { participant = p'' }) now
    ok (out, record n'' { mission_logged = n''.mission_logged || mission_complete n''.participant })
