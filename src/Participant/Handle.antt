-- ===== src/Participant/Handle.antt =====
-- participant.py: `handle`, a method for each kind of message.
use distributed_mobile_robot.Base.{
  ℕ, zero, suc, ℤ, pos, negsuc, pos_part, ltb_ℤ, max_ℤ, ◌-ℤ◌, ◌==ℤ◌, Bool, true, false, not,
  if◌then◌else◌, List, [], ◌∷◌, ◌++◌, Option, none, some, Result, ok, err, value_error, ◌>>=◌,
  contains,
}
use distributed_mobile_robot.Base.Dict.{Dict, get, set, values}
use distributed_mobile_robot.Types.{AgentId, TaskId, Task, round_config}
use distributed_mobile_robot.Prices.{PriceTable, price_table, merge}
use distributed_mobile_robot.Engine.{AuctionAgent, auction_agent, handle_message}
use distributed_mobile_robot.Heartbeat.{record_seen}
use distributed_mobile_robot.Leases.{holder, grant, renew, release}
use distributed_mobile_robot.Messages.{
  Heartbeat, RoundAnnouncement, RoundGossip, LeaseRenewal, TaskCompleted, CoordinationMessage,
  heartbeat, round_announcement, round_gossip, lease_renewal, task_completed, task_injected,
  precedes,
}
use distributed_mobile_robot.Participant.State.{Participant, add_task}

-- `prev is None or stamp > prev[0]`
abbrev is_newer : Option (ℤ × Bool) → ℤ → Bool
is_newer none stamp = true
is_newer (some prev) stamp = ltb_ℤ prev.0 stamp

unfoldable pub on_heartbeat : Participant → Heartbeat → ℤ → Participant
on_heartbeat p msg now =
    if msg.sender ==ℤ p.me.id
    then p
    else let seen : Participant = record p { monitor = record_seen p.monitor msg.sender now } in
      if is_newer (get msg.sender p.idle_flags) msg.stamp
      then record seen { idle_flags = set msg.sender (msg.stamp, msg.idle) p.idle_flags }
      else seen

-- `[_IDLE_BASE - k for k in range(n)]`, where `_IDLE_BASE` is -1.
unfoldable pub idle_ids : ℕ → ℕ → List TaskId
idle_ids k zero = []
idle_ids k (suc n) = negsuc k ∷ idle_ids (suc k) n

-- The benefit of a task, 0 if the task is not known yet.
abbrev benefit_of : Participant → Option Task → ℤ
benefit_of p none = pos 0
benefit_of p (some task) = p.model.benefit p.me task

unfoldable pub real_row : Participant → List TaskId → Dict ℤ → Dict ℤ
real_row p [] row = row
real_row p (tid ∷ tids) row = real_row p tids (set tid (benefit_of p (get tid p.tasks)) row)

abbrev pub min_from : ℤ → List ℤ → ℤ
min_from x [] = x
min_from x (y ∷ ys) = min_from (if ltb_ℤ y x then y else x) ys

-- `min(values)`
abbrev pub min_of : List ℤ → Result ℤ
min_of [] = err value_error
min_of (x ∷ xs) = ok (min_from x xs)

unfoldable pub set_all : List TaskId → ℤ → Dict ℤ → Dict ℤ
set_all [] floor row = row
set_all (tid ∷ tids) floor row = set_all tids floor (set tid floor row)

unfoldable pub benefit_row : Participant → List TaskId → ℤ → Result (Dict ℤ)
unfolding real_row set_all idle_ids
benefit_row p task_ids idle_slots =
    let row = real_row p task_ids [] in
    if idle_slots ==ℤ pos 0 then ok row else (do
      least ← min_of (values row)
      ok (set_all (idle_ids 0 (pos_part idle_slots)) (least -ℤ p.one) row))

-- `self._announcement is not None and not self._announcement.precedes(msg)`
abbrev pub is_superseded : Option RoundAnnouncement → RoundAnnouncement → Bool
is_superseded none msg = false
is_superseded (some current) msg = not (precedes current msg)

unfoldable pub on_announcement : Participant → RoundAnnouncement → ℤ → Result Participant
on_announcement p msg now =
    let adopted : Participant = record p {
      announcement = some msg;
      max_round_seen = max_ℤ p.max_round_seen msg.round_id;
      round_opened_at = now;
    } in
    if is_superseded p.announcement msg
    then ok p
    else if contains p.me.id msg.participants
    then (do
      row ← benefit_row adopted msg.task_ids msg.idle_slots
      config ← round_config msg.epsilon msg.quiescence_rounds
      agent ← auction_agent p.me.id row config
      ok (record adopted { agent = some agent; relay = none }))
    else ok (record adopted {
      agent = none;
      relay = some (price_table (msg.task_ids ++ idle_ids 0 (pos_part msg.idle_slots)));
      relay_dirty = false;
    })

abbrev pub relay_gossip : Participant → Option PriceTable → RoundGossip → Result Participant
relay_gossip p none msg = ok p
relay_gossip p (some relay) msg = do
  (changed, table) ← merge relay msg.inner.entries
  ok (record p { relay = some table; relay_dirty = if changed then true else p.relay_dirty })

abbrev pub host_gossip : Participant → Option AuctionAgent → RoundGossip → Result Participant
host_gossip p none msg = relay_gossip p p.relay msg
host_gossip p (some agent) msg = do
  agent' ← handle_message agent msg.inner
  ok (record p { agent = some agent' })

-- The round of the gossip is the current one.
abbrev pub is_current : Option RoundAnnouncement → ℤ → Bool
is_current none round_id = false
is_current (some current) round_id = round_id ==ℤ current.round_id

unfoldable pub on_gossip : Participant → RoundGossip → Result Participant
on_gossip p msg =
    if not (is_current p.announcement msg.round_id) then ok p else host_gossip p p.agent msg

unfoldable pub on_lease_renewal : Participant → LeaseRenewal → ℤ → Participant
on_lease_renewal p msg now = elim (holder p.leases msg.task_id) [
  | none ↦ record p { leases = (grant p.leases msg.task_id msg.holder now).1 }
  | some current ↦
      if current ==ℤ msg.holder
      then record p { leases = (renew p.leases msg.task_id msg.holder now).1 }
      else if ltb_ℤ msg.holder current
      then record p {
        leases = (grant (release p.leases msg.task_id current).1 msg.task_id msg.holder now).1;
      }
      else p
]

-- `self.completed.setdefault(task_id, by)`
abbrev set_default : TaskId → AgentId → Dict AgentId → Dict AgentId
set_default task_id by d = elim (get task_id d) [ none ↦ set task_id by d | some other ↦ d ]

unfoldable pub on_completed : Participant → TaskCompleted → Participant
on_completed p msg =
    let done : Participant = record p { completed = set_default msg.task_id msg.by p.completed } in
    elim (holder p.leases msg.task_id) [
      | none ↦ done
      | some current ↦ record done { leases = (release p.leases msg.task_id current).1 }
    ]

-- The source also returns a list of messages to send, which is always empty.
unfoldable pub handle : Participant → CoordinationMessage → ℤ → Result Participant
handle p (heartbeat msg) now = ok (on_heartbeat p msg now)
handle p (round_announcement msg) now = on_announcement p msg now
handle p (round_gossip msg) now = on_gossip p msg
handle p (lease_renewal msg) now = ok (on_lease_renewal p msg now)
handle p (task_completed msg) now = ok (on_completed p msg)
handle p (task_injected msg) now = ok (add_task p msg.task)
