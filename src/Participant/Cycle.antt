-- ===== src/Participant/Cycle.antt =====
-- participant.py: `tick`, in its three parts: the hosted round, the heartbeat, and the coordinator.
use distributed_mobile_robot.Base.{
  ℤ, pos, ltb_ℤ, max_ℤ, ◌+ℤ◌, ◌-ℤ◌, ◌==ℤ◌, length, Bool, true, false, not, ◌&&◌, ◌||◌,
  if◌then◌else◌, List, [], ◌∷◌, ◌++◌, Option, none, some, Result, ok, assert, ◌>>=◌, ◌>>◌, contains,
  select, sorted,
}
use distributed_mobile_robot.Base.Dict.{Dict, get, keys, values, is_some}
use distributed_mobile_robot.Types.{AgentId, TaskId, Task, PriceTableMessage}
use distributed_mobile_robot.Prices.{PriceTable, snapshot}
use distributed_mobile_robot.Engine.{AuctionAgent, tick as agent_tick, terminated}
use distributed_mobile_robot.Heartbeat.{record_seen, alive, is_alive}
use distributed_mobile_robot.Heartbeat
use distributed_mobile_robot.Leases.{holder, grant, renew}
use distributed_mobile_robot.Leases
use distributed_mobile_robot.Dag.{task_dag, available}
use distributed_mobile_robot.Messages.{
  RoundAnnouncement, CoordinationMessage, heartbeat, round_announcement, round_gossip,
  lease_renewal, task_completed,
}
use distributed_mobile_robot.Participant.State.{Participant}
use distributed_mobile_robot.Participant.Handle.{on_announcement, min_from}

-- Messages to send, and the new state.
abbrev pub Outcome : Type 0
Outcome = List CoordinationMessage × Participant

-- `holder is not None and holder != me`
abbrev pub is_lost : Option AgentId → AgentId → Bool
is_lost none me = false
is_lost (some other) me = not (other ==ℤ me)

abbrev pub abort_task : Participant → Option TaskId → Participant
abort_task p none = p
abort_task p (some task) =
    if is_lost (holder p.leases task) p.me.id
    then record p { aborts = p.aborts ++ task ∷ []; executing = none }
    else p

-- Stop a task whose lease another robot now holds.
unfoldable pub abort_lost : Participant → Participant
abort_lost p = abort_task p p.executing

abbrev pub gossip : ℤ → List PriceTableMessage → List CoordinationMessage
gossip round_id [] = []
gossip round_id (m ∷ ms) =
    round_gossip (record { round_id = round_id; inner = m }) ∷ gossip round_id ms

-- The task that a terminated agent has won: not a sentinel, and not completed.
abbrev pub real_win : Participant → Option TaskId → Option TaskId
real_win p none = none
real_win p (some won) =
    if ltb_ℤ won (pos 0) || is_some (get won p.completed) then none else some won

abbrev pub take_win : Participant → Option TaskId → ℤ → Outcome
take_win p none now = ([], p)
take_win p (some won) now = (
  lease_renewal (record { task_id = won; holder = p.me.id; stamp = now }) ∷ [],
  record p {
    leases = (grant p.leases won p.me.id now).1;
    executing = some won;
    dispatches = p.dispatches ++ won ∷ [];
  },
)

unfoldable pub tick_agent : Participant → RoundAnnouncement → AuctionAgent → ℤ → Result Outcome
tick_agent p a agent now = do
  (messages, agent') ← agent_tick agent
  let out = gossip a.round_id messages
  let (won, p') = take_win (record p { agent = none }) (real_win p agent'.assignment) now
  if terminated agent' then ok (out ++ won, p') else ok (out, record p { agent = some agent' })

unfoldable pub tick_relay : Participant → RoundAnnouncement → Option PriceTable → Outcome
tick_relay p a none = ([], p)
tick_relay p a (some relay) =
    if p.relay_dirty
    then (
      round_gossip (record {
        round_id = a.round_id;
        inner = record { sender = p.me.id; entries = snapshot relay };
      })
          ∷ [],
      record p { relay_dirty = false },
    )
    else ([], p)

-- The assertion: an agent or a relay is hosted only in an announced round.
abbrev pub round_of :
    Participant → Option RoundAnnouncement → Option AuctionAgent → ℤ → Result Outcome
round_of p none none now = ok ([], p)
round_of p none (some agent) now = do assert false; ok ([], p)
round_of p (some a) none now = ok (tick_relay p a p.relay)
round_of p (some a) (some agent) now = tick_agent p a agent now

unfoldable pub tick_round : Participant → ℤ → Result Outcome
tick_round p now = round_of p p.announcement p.agent now

unfoldable pub is_idle : Participant → Bool
is_idle p = not (is_some p.executing) && not (is_some p.agent)

-- `now - self._last_heartbeat < self.heartbeat_interval`
abbrev pub is_early : Option ℤ → ℤ → ℤ → Bool
is_early none now interval = false
is_early (some last) now interval = ltb_ℤ (now -ℤ last) interval

abbrev pub own_announcement : AgentId → Option RoundAnnouncement → List CoordinationMessage
own_announcement me none = []
own_announcement me (some a) = if a.coordinator ==ℤ me then round_announcement a ∷ [] else []

abbrev pub renew_own : Participant → Option TaskId → ℤ → Outcome
renew_own p none now = ([], p)
renew_own p (some task) now = (
  lease_renewal (record { task_id = task; holder = p.me.id; stamp = now }) ∷ [],
  record p { leases = (renew p.leases task p.me.id now).1 },
)

abbrev pub completions : Dict AgentId → ℤ → List CoordinationMessage
completions [] now = []
completions ((task, by) ∷ rest) now =
    task_completed (record { task_id = task; by = by; stamp = now }) ∷ completions rest now

unfoldable pub tick_heartbeat : Participant → ℤ → Outcome
unfolding is_idle
tick_heartbeat p now = if is_early p.last_heartbeat now p.heartbeat_interval then ([], p) else (
  heartbeat (record { sender = p.me.id; stamp = now; idle = is_idle p })
      ∷ (own_announcement p.me.id p.announcement
          ++ ((renew_own p p.executing now).0 ++ completions p.completed now)),
  record (renew_own p p.executing now).1 { last_heartbeat = some now },
)

unfoldable pub is_coordinator : Participant → ℤ → Bool
is_coordinator p now = p.me.id ==ℤ min_from p.me.id (alive p.monitor now)

-- Every announced real task is leased or completed.
abbrev pub settled : Participant → List TaskId → Bool
settled p [] = true
settled p (tid ∷ tids) =
    (is_some (get tid p.completed) || is_some (holder p.leases tid)) && settled p tids

unfoldable pub round_open : Participant → RoundAnnouncement → ℤ → Bool
round_open p a now =
    if is_some p.agent
    then true
    else if ltb_ℤ p.round_timeout (now -ℤ p.round_opened_at)
    then false
    else not (settled p a.task_ids)

abbrev pub in_open_round : Participant → Option RoundAnnouncement → ℤ → Bool
in_open_round p none now = false
in_open_round p (some a) now = round_open p a now

-- Without tasks no DAG is built.
abbrev pub tasks_of : Participant → List Task → Result (List TaskId)
tasks_of p [] = ok []
tasks_of p (t ∷ ts) = do
  dag ← task_dag (t ∷ ts)
  let done = select (λ tid. is_some (get tid p.tasks)) (keys p.completed)
  ok (select (λ tid. not (is_some (holder p.leases tid))) (available dag done))

unfoldable pub available_tasks : Participant → Result (List TaskId)
available_tasks p = tasks_of p (values p.tasks)

abbrev pub is_idle_robot : Participant → ℤ → AgentId × (ℤ × Bool) → Bool
is_idle_robot p now item = item.1.1 && is_alive p.monitor item.0 now

abbrev pub add_member : AgentId → List AgentId → List AgentId
add_member i is = if contains i is then is else is ++ i ∷ []

unfoldable pub idle_robots : Participant → ℤ → List AgentId
unfolding is_idle
idle_robots p now =
    let idle = keys (select (is_idle_robot p now) p.idle_flags) in
    if is_idle p then add_member p.me.id idle else idle

abbrev pub is_nil : List ℤ → Bool
is_nil [] = true
is_nil (x ∷ xs) = false

unfoldable pub framing : Participant → List TaskId → List AgentId → RoundAnnouncement
framing p tasks robots = record {
  round_id = p.max_round_seen +ℤ pos 1;
  coordinator = p.me.id;
  task_ids = tasks;
  participants = robots;
  idle_slots = max_ℤ (pos 0) (pos (length robots) -ℤ pos (length tasks));
  epsilon = p.epsilon;
  quiescence_rounds = p.quiescence_rounds;
}

unfoldable pub frame_round : Participant → ℤ → Result Outcome
unfolding framing
frame_round p now = do
  found ← available_tasks p
  let tasks = sorted found
  let robots = sorted (idle_robots p now)
  if is_nil tasks || is_nil robots then ok ([], p) else (do
    p' ← on_announcement p (framing p tasks robots) now
    ok (round_announcement (framing p tasks robots) ∷ [], p'))

unfoldable pub tick_coordinator : Participant → ℤ → Result Outcome
tick_coordinator p now =
    if not (is_coordinator p now)
    then ok ([], p)
    else if in_open_round p p.announcement now
    then ok ([], p)
    else frame_round p now

-- The upkeep at the head of `tick`: liveness, leases, and a lost task.
unfoldable pub tick_upkeep : Participant → ℤ → Result Participant
unfolding abort_lost
tick_upkeep p now = do
  let seen = record_seen p.monitor p.me.id now
  (_, leases) ← Leases.sweep p.leases now
  ok (abort_lost (record p { monitor = (Heartbeat.sweep seen now).1; leases = leases }))

unfoldable pub tick : Participant → ℤ → Result Outcome
tick p now = do
  p₀ ← tick_upkeep p now
  (out₁, p₁) ← tick_round p₀ now
  let (out₂, p₂) = tick_heartbeat p₁ now
  (out₃, p₃) ← tick_coordinator p₂ now
  ok (out₁ ++ (out₂ ++ out₃), p₃)
