-- ===== src/AgentNode/Topics.antt =====
-- What a robot publishes, as the others receive it.
use distributed_mobile_robot.Base.{◌≡◌, refl, ap, ok, All}
use distributed_mobile_robot.Messages.{
  CoordinationMessage, heartbeat, round_announcement, round_gossip, lease_renewal, task_completed,
  task_injected,
}
use distributed_mobile_robot.Conversions.{
  heartbeat_to_core, announcement_to_core, lease_to_core, completed_to_core, heartbeat_to_msg,
  announcement_to_msg, lease_to_msg, completed_to_msg,
}
use distributed_mobile_robot.Conversions.RoundTrip.{
  Fits64, Fits32, FitsGossip, int_of-fits, int64s-fits, gossip_round_trip,
}
use distributed_mobile_robot.AgentNode.{
  Wire, on_heartbeat_topic, on_round_topic, on_gossip_topic, on_lease_topic, on_completed_topic,
  publish, to_core,
}

-- The messages that robots send each other: each id and number is in its field's range, and the
-- entries of a gossip are a dict.
abbrev pub IsSendable : CoordinationMessage → Type 0
IsSendable (heartbeat msg) = Fits64 msg.sender
IsSendable (round_announcement msg) =
    Fits64 msg.round_id
    × Fits64 msg.coordinator
    × All Fits64 msg.task_ids
    × All Fits64 msg.participants
    × Fits32 msg.idle_slots
    × Fits32 msg.quiescence_rounds
IsSendable (round_gossip msg) = FitsGossip msg
IsSendable (lease_renewal msg) = Fits64 msg.task_id × Fits64 msg.holder
IsSendable (task_completed msg) = Fits64 msg.task_id × Fits64 msg.by
IsSendable (task_injected msg) = ⊥

-- Every message that robots send each other is published on its topic and read there as the same
-- message, if its ids and numbers fit the int64 and int32 fields and the entries of a gossip have
-- different tasks. A task injection is not such a message.
pub publish-to_core :
    (msg : CoordinationMessage)
    → IsSendable msg
    → (w : Wire) × (publish msg ≡ ok w) × (to_core w ≡ msg)
unfolding publish to_core heartbeat_to_core announcement_to_core lease_to_core completed_to_core
    heartbeat_to_msg announcement_to_msg lease_to_msg completed_to_msg
publish-to_core (heartbeat msg) h =
    let (sender, set_sender, same) = int_of-fits 9223372036854775808 msg.sender h in
    (
      on_heartbeat_topic (record { sender = sender; stamp = msg.stamp; idle = msg.idle }),
      rw set_sender refl,
      λ i. heartbeat (record { sender = same i; stamp = msg.stamp; idle = msg.idle }),
    )
publish-to_core (round_announcement msg) (h1, h2, h3, h4, h5, h6) =
    let (round_id, set_round, same_round) = int_of-fits 9223372036854775808 msg.round_id h1 in
    let (coordinator, set_coordinator, same_coordinator) =
      int_of-fits 9223372036854775808 msg.coordinator h2 in
    let (task_ids, set_tasks, same_tasks) = int64s-fits msg.task_ids h3 in
    let (participants, set_participants, same_participants) = int64s-fits msg.participants h4 in
    let (slots, set_slots, same_slots) = int_of-fits 2147483648 msg.idle_slots h5 in
    let (rounds, set_rounds, same_rounds) = int_of-fits 2147483648 msg.quiescence_rounds h6 in
    (
      on_round_topic (record {
        round_id = round_id;
        coordinator = coordinator;
        task_ids = task_ids;
        participants = participants;
        idle_slots = slots;
        epsilon = msg.epsilon;
        quiescence_rounds = rounds;
      }),
      rw set_round (
          rw set_coordinator
            (rw set_tasks (rw set_participants (rw set_slots (rw set_rounds refl))))),
      λ i. round_announcement (record {
        round_id = same_round i;
        coordinator = same_coordinator i;
        task_ids = same_tasks i;
        participants = same_participants i;
        idle_slots = same_slots i;
        epsilon = msg.epsilon;
        quiescence_rounds = same_rounds i;
      }),
    )
publish-to_core (round_gossip msg) h =
    let (m, sent, same) = gossip_round_trip msg h in
    (on_gossip_topic m, rw sent refl, ap round_gossip same)
publish-to_core (lease_renewal msg) h =
    let (task_id, set_task, same_task) = int_of-fits 9223372036854775808 msg.task_id h.0 in
    let (holder, set_holder, same_holder) = int_of-fits 9223372036854775808 msg.holder h.1 in
    (
      on_lease_topic (record { task_id = task_id; holder = holder; stamp = msg.stamp }),
      rw set_task (rw set_holder refl),
      λ i.
          lease_renewal
            (record { task_id = same_task i; holder = same_holder i; stamp = msg.stamp }),
    )
publish-to_core (task_completed msg) h =
    let (task_id, set_task, same_task) = int_of-fits 9223372036854775808 msg.task_id h.0 in
    let (by, set_by, same_by) = int_of-fits 9223372036854775808 msg.by h.1 in
    (
      on_completed_topic (record { task_id = task_id; by = by; stamp = msg.stamp }),
      rw set_task (rw set_by refl),
      λ i. task_completed (record { task_id = same_task i; by = same_by i; stamp = msg.stamp }),
    )
publish-to_core (task_injected msg) h = absurd h
