-- ===== src/Participant/Duty.antt =====
-- What each call does to the task in execution and to the tasks to start and to stop.
use distributed_mobile_robot.Base.{
  ℤ, ◌≡◌, refl, subst, inl, inr, Option, none, some, Bool-cases, ok, Result, List, >>=-eq-ok,
  contains, arith,
}
use distributed_mobile_robot.Base.Dict.{get, or_key_error}
use distributed_mobile_robot.Types.{TaskId, Task, round_config}
use distributed_mobile_robot.Prices.{PriceTable, merge}
use distributed_mobile_robot.Engine.{AuctionAgent, auction_agent, handle_message}
use distributed_mobile_robot.Messages.{
  RoundAnnouncement, RoundGossip, LeaseRenewal, TaskCompleted, Heartbeat, CoordinationMessage,
  heartbeat, round_announcement, round_gossip, lease_renewal, task_completed, task_injected,
}
use distributed_mobile_robot.Participant.State.{Participant, add_task, task_finished, is_task}
use distributed_mobile_robot.Participant.Handle.{
  on_heartbeat, on_announcement, is_superseded, benefit_row, on_gossip, is_current, host_gossip,
  relay_gossip, on_lease_renewal, on_completed, handle,
}

-- The three fields are the same.
abbrev pub SameDuty : Participant → Participant → Type 0
SameDuty p p' =
    (p'.executing ≡ p.executing) × (p'.dispatches ≡ p.dispatches) × (p'.aborts ≡ p.aborts)

on_heartbeat-SameDuty :
    (p : Participant) (msg : Heartbeat) (now : ℤ) → SameDuty p (on_heartbeat p msg now)
unfolding on_heartbeat
on_heartbeat-SameDuty p msg now = ground arith

pub add_task-SameDuty : (p : Participant) (t : Task) → SameDuty p (add_task p t)
unfolding add_task
add_task-SameDuty p t = ground arith

on_lease_renewal-SameDuty :
    (p : Participant) (msg : LeaseRenewal) (now : ℤ) → SameDuty p (on_lease_renewal p msg now)
unfolding on_lease_renewal
on_lease_renewal-SameDuty p msg now = ground arith

on_completed-SameDuty : (p : Participant) (msg : TaskCompleted) → SameDuty p (on_completed p msg)
unfolding on_completed
on_completed-SameDuty p msg = ground arith

SameDuty-ok : (p q p' : Participant) → SameDuty p q → ok q ≡ ok p' → SameDuty p p'
SameDuty-ok p q p' same runs = let now : q ≡ p' = cc runs in subst (SameDuty p) now same

pub on_announcement-SameDuty :
    (p p' : Participant) (msg : RoundAnnouncement) (now : ℤ)
    → on_announcement p msg now ≡ ok p'
    → SameDuty p p'
unfolding on_announcement
on_announcement-SameDuty p p' msg now runs = elim (Bool-cases (is_superseded p.announcement msg)) [
  | inl old ↦ SameDuty-ok p p p' (refl, refl, refl) (rw old at runs)
  | inr new ↦ elim (Bool-cases (contains p.me.id msg.participants)) [
    | inl hosted ↦
        let runs1 = rw (new, hosted) at runs in
        let (row, r1, runs2) = >>=-eq-ok (benefit_row _ msg.task_ids msg.idle_slots) _ runs1 in
        let (config, r2, runs3) =
          >>=-eq-ok (round_config msg.epsilon msg.quiescence_rounds) _ runs2 in
        let (agent, r3, runs4) = >>=-eq-ok (auction_agent p.me.id row config) _ runs3 in
        SameDuty-ok p _ p' (refl, refl, refl) runs4
    | inr passive ↦ SameDuty-ok p _ p' (refl, refl, refl) (rw (new, passive) at runs)
  ]
]

relay_gossip-SameDuty :
    (p p' : Participant) (relay : Option PriceTable) (msg : RoundGossip)
    → relay_gossip p relay msg ≡ ok p'
    → SameDuty p p'
relay_gossip-SameDuty p p' none msg runs = SameDuty-ok p p p' (refl, refl, refl) runs
relay_gossip-SameDuty p p' (some relay) msg runs =
    let ((changed, table), r1, runs1) = >>=-eq-ok (merge relay msg.inner.entries) _ runs in
    SameDuty-ok p _ p' (refl, refl, refl) runs1

host_gossip-SameDuty :
    (p p' : Participant) (agent : Option AuctionAgent) (msg : RoundGossip)
    → host_gossip p agent msg ≡ ok p'
    → SameDuty p p'
host_gossip-SameDuty p p' none msg runs = relay_gossip-SameDuty p p' p.relay msg runs
host_gossip-SameDuty p p' (some agent) msg runs =
    let (agent', r1, runs1) = >>=-eq-ok (handle_message agent msg.inner) _ runs in
    SameDuty-ok p _ p' (refl, refl, refl) runs1

on_gossip-SameDuty :
    (p p' : Participant) (msg : RoundGossip) → on_gossip p msg ≡ ok p' → SameDuty p p'
unfolding on_gossip
on_gossip-SameDuty p p' msg runs = elim (Bool-cases (is_current p.announcement msg.round_id)) [
  | inl current ↦ host_gossip-SameDuty p p' p.agent msg (rw current at runs)
  | inr other ↦ SameDuty-ok p p p' (refl, refl, refl) (rw other at runs)
]

-- No message starts or stops a task by itself.
pub handle-SameDuty :
    (p p' : Participant) (msg : CoordinationMessage) (now : ℤ)
    → handle p msg now ≡ ok p'
    → SameDuty p p'
unfolding handle
handle-SameDuty p p' (heartbeat msg) now runs =
    SameDuty-ok p _ p' (on_heartbeat-SameDuty p msg now) runs
handle-SameDuty p p' (round_announcement msg) now runs = on_announcement-SameDuty p p' msg now runs
handle-SameDuty p p' (round_gossip msg) now runs = on_gossip-SameDuty p p' msg runs
handle-SameDuty p p' (lease_renewal msg) now runs =
    SameDuty-ok p _ p' (on_lease_renewal-SameDuty p msg now) runs
handle-SameDuty p p' (task_completed msg) now runs =
    SameDuty-ok p _ p' (on_completed-SameDuty p msg) runs
handle-SameDuty p p' (task_injected msg) now runs =
    SameDuty-ok p _ p' (add_task-SameDuty p msg.task) runs

-- The participant is idle, with nothing else to start or to stop.
abbrev pub Finished : Participant → Participant → Type 0
Finished p p' = (p'.executing ≡ none) × (p'.dispatches ≡ p.dispatches) × (p'.aborts ≡ p.aborts)

Finished-ok :
    (p q p' : Participant) (out out' : List CoordinationMessage)
    → Finished p q
    → ◌≡◌ {A = Result (List CoordinationMessage × Participant)} (ok (out, q)) (ok (out', p'))
    → Finished p p'
Finished-ok p q p' out out' f runs =
    let same : ◌≡◌ {A = List CoordinationMessage × Participant} (out, q) (out', p') = cc runs in
    subst (λ (x : List CoordinationMessage × Participant). Finished p x.1) same f

pub task_finished-Finished :
    (p p' : Participant) (task_id : TaskId) (now : ℤ) (messages : List CoordinationMessage)
    → task_finished p task_id now ≡ ok (messages, p')
    → Finished p p'
unfolding task_finished
task_finished-Finished p p' task_id now messages runs =
    elim (Bool-cases (is_task p.executing task_id)) [
      | inl it ↦
          let (task, found, runs1) =
            >>=-eq-ok (or_key_error (get task_id p.tasks)) _ (rw it at runs) in
          Finished-ok p _ p' _ messages (refl, refl, refl) runs1
      | inr another ↦ absurd (cc (rw another at runs))
    ]
