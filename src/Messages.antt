-- ===== src/Messages.antt =====
-- auction_core/src/auction_core/coordination/messages.py: the coordination vocabulary.
use distributed_mobile_robot.Base.{ℤ, ltb_ℤ, ◌==ℤ◌, Bool, not, if◌then◌else◌, List}
use distributed_mobile_robot.Types.{AgentId, TaskId, Task, PriceTableMessage}

pub record Heartbeat : Type 0 where
  pub sender : AgentId
  pub stamp : ℤ
  pub idle : Bool

pub record RoundAnnouncement : Type 0 where
  pub round_id : ℤ
  pub coordinator : AgentId
  pub task_ids : List TaskId
  pub participants : List AgentId
  pub idle_slots : ℤ
  pub epsilon : ℤ
  pub quiescence_rounds : ℤ

-- Whether `other` should replace `a`.
unfoldable pub precedes : RoundAnnouncement → RoundAnnouncement → Bool
precedes a other =
    if not (other.round_id ==ℤ a.round_id)
    then ltb_ℤ a.round_id other.round_id
    else ltb_ℤ other.coordinator a.coordinator

pub record RoundGossip : Type 0 where
  pub round_id : ℤ
  pub inner : PriceTableMessage

pub record LeaseRenewal : Type 0 where
  pub task_id : TaskId
  pub holder : AgentId
  pub stamp : ℤ

pub record TaskCompleted : Type 0 where
  pub task_id : TaskId
  pub by : AgentId
  pub stamp : ℤ

pub record TaskInjected : Type 0 where
  pub task : Task
  pub stamp : ℤ

pub data CoordinationMessage : Type 0 where
  heartbeat : Heartbeat → CoordinationMessage
  round_announcement : RoundAnnouncement → CoordinationMessage
  round_gossip : RoundGossip → CoordinationMessage
  lease_renewal : LeaseRenewal → CoordinationMessage
  task_completed : TaskCompleted → CoordinationMessage
  task_injected : TaskInjected → CoordinationMessage
