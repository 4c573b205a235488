-- ===== src/Conversions.antt =====
-- ros2_ws/src/auction_ros/auction_ros/conversions.py: between the messages on the wire and the core's.
pub mod Tests
pub mod RoundTrip
use distributed_mobile_robot.Base.{
  Result, ok, ◌>>=◌, ℤ, if◌then◌else◌, List, [], ◌∷◌, ◌++◌, map, contains,
}
use distributed_mobile_robot.Base.Dict.{Dict, set}
use distributed_mobile_robot.Types.{PriceEntry, PriceTableMessage, Task}
use distributed_mobile_robot.Messages.{
  Heartbeat, RoundAnnouncement, RoundGossip, LeaseRenewal, TaskCompleted,
}
use distributed_mobile_robot.Msgs.{
  HeartbeatMsg, LeaseRenewalMsg, PriceEntryMsg, RoundAnnouncementMsg, RoundGossipMsg,
  TaskCompletedMsg, TaskSpec, int64, int32, int64s, plain,
}

unfoldable pub heartbeat_to_core : HeartbeatMsg → Heartbeat
heartbeat_to_core msg = record { sender = msg.sender.value; stamp = msg.stamp; idle = msg.idle }

unfoldable pub announcement_to_core : RoundAnnouncementMsg → RoundAnnouncement
announcement_to_core msg = record {
  round_id = msg.round_id.value;
  coordinator = msg.coordinator.value;
  task_ids = plain msg.task_ids;
  participants = plain msg.participants;
  idle_slots = msg.idle_slots.value;
  epsilon = msg.epsilon;
  quiescence_rounds = msg.quiescence_rounds.value;
}

-- `{e.task_id: PriceEntry(e.price, e.bidder) for e in entries}`
unfoldable pub entries_to_core : List PriceEntryMsg → Dict PriceEntry → Dict PriceEntry
entries_to_core [] d = d
entries_to_core (e ∷ es) d =
    entries_to_core es (set e.task_id.value (record { price = e.price; bidder = e.bidder.value }) d)

unfoldable pub gossip_to_core : RoundGossipMsg → RoundGossip
unfolding entries_to_core
gossip_to_core msg = record {
  round_id = msg.round_id.value;
  inner = record {
    sender = msg.table.sender.value;
    entries = entries_to_core msg.table.entries [];
  };
}

unfoldable pub lease_to_core : LeaseRenewalMsg → LeaseRenewal
lease_to_core msg = record {
  task_id = msg.task_id.value;
  holder = msg.holder.value;
  stamp = msg.stamp;
}

unfoldable pub completed_to_core : TaskCompletedMsg → TaskCompleted
completed_to_core msg = record { task_id = msg.task_id.value; by = msg.by.value; stamp = msg.stamp }

-- `frozenset(xs)`: each member once.
unfoldable pub members : List ℤ → List ℤ → List ℤ
members seen [] = seen
members seen (x ∷ xs) = members (if contains x seen then seen else seen ++ x ∷ []) xs

unfoldable pub task_to_core : TaskSpec → Task
unfolding members
task_to_core msg = record {
  id = msg.id.value;
  position = msg.position;
  duration = msg.duration;
  capabilities = msg.capabilities;
  prerequisites = members [] (plain msg.prerequisites);
  required_robots = msg.required_robots.value;
}

unfoldable pub heartbeat_to_msg : Heartbeat → Result HeartbeatMsg
heartbeat_to_msg hb = do
  sender ← int64 hb.sender
  ok (record { sender = sender; stamp = hb.stamp; idle = hb.idle })

unfoldable pub announcement_to_msg : RoundAnnouncement → Result RoundAnnouncementMsg
unfolding int64s
announcement_to_msg a = do
  round_id ← int64 a.round_id
  coordinator ← int64 a.coordinator
  task_ids ← int64s a.task_ids
  participants ← int64s a.participants
  idle_slots ← int32 a.idle_slots
  quiescence_rounds ← int32 a.quiescence_rounds
  ok (record {
    round_id = round_id;
    coordinator = coordinator;
    task_ids = task_ids;
    participants = participants;
    idle_slots = idle_slots;
    epsilon = a.epsilon;
    quiescence_rounds = quiescence_rounds;
  })

-- `[m.PriceEntry(...) for t, e in entries.items()]`
unfoldable pub entries_to_msg : Dict PriceEntry → Result (List PriceEntryMsg)
entries_to_msg [] = ok []
entries_to_msg ((t, e) ∷ d) = do
  task_id ← int64 t
  bidder ← int64 e.bidder
  rest ← entries_to_msg d
  ok (record { task_id = task_id; price = e.price; bidder = bidder } ∷ rest)

unfoldable pub gossip_to_msg : RoundGossip → Result RoundGossipMsg
unfolding entries_to_msg
gossip_to_msg g = do
  round_id ← int64 g.round_id
  sender ← int64 g.inner.sender
  entries ← entries_to_msg g.inner.entries
  ok (record { round_id = round_id; table = record { sender = sender; entries = entries } })

unfoldable pub lease_to_msg : LeaseRenewal → Result LeaseRenewalMsg
lease_to_msg l = do
  task_id ← int64 l.task_id
  holder ← int64 l.holder
  ok (record { task_id = task_id; holder = holder; stamp = l.stamp })

unfoldable pub completed_to_msg : TaskCompleted → Result TaskCompletedMsg
completed_to_msg c = do
  task_id ← int64 c.task_id
  by ← int64 c.by
  ok (record { task_id = task_id; by = by; stamp = c.stamp })

unfoldable pub task_to_msg : Task → Result TaskSpec
unfolding int64s
task_to_msg t = do
  id ← int64 t.id
  prerequisites ← int64s t.prerequisites
  required_robots ← int32 t.required_robots
  ok (record {
    id = id;
    position = t.position;
    duration = t.duration;
    capabilities = t.capabilities;
    prerequisites = prerequisites;
    required_robots = required_robots;
  })
