-- ===== src/AgentNode/Duty.antt =====
-- The node executes exactly the task that its participant takes it to execute.
use distributed_mobile_robot.Base.{
  suc, ◌⊎◌, ◌++◌, ℤ, ◌+ℤ◌, Bool, false, ◌≡◌, refl, ◌∙◌, sym, ap, subst, inl, inr, List, [], ◌∷◌,
  Option, none, some, Bool-cases, Option-cases, ok, >>=-eq-ok, ◌||◌, ok_inj, arith,
}
use distributed_mobile_robot.Base.Dict.{get, or_key_error, is_some}
use distributed_mobile_robot.Types.{TaskId, Task}
use distributed_mobile_robot.Benefits.{RobotState}
use distributed_mobile_robot.Msgs.{TaskSpec}
use distributed_mobile_robot.Participant.State.{
  Participant, mission_complete, pop_dispatches, pop_aborts,
}
use distributed_mobile_robot.Participant.Handle.{handle}
use distributed_mobile_robot.Participant.Cycle.{tick}
use distributed_mobile_robot.Participant.Duty.{SameDuty, handle-SameDuty}
use distributed_mobile_robot.Participant.Duties.{started, stopped, Tracks, tick-Tracks}
use distributed_mobile_robot.AgentNode.{
  Timer, AgentNode, Wire, on_message, on_task_array, to_core, publish_all, cancel_execution,
  cancel_all, start_execution, start_all, node_tick,
}

-- The timer has not been destroyed.
abbrev pub IsRunning : Timer → List Timer → Type 0
IsRunning timer [] = ⊥
IsRunning timer (t ∷ ts) = (t ≡ timer) ⊎ IsRunning timer ts

pub record InStep (n : AgentNode) : Type 0 where
  pub same : n.exec_task ≡ n.participant.executing
  pub timed : is_some n.exec_timer ≡ is_some n.exec_task
  pub running : (timer : Timer) → n.exec_timer ≡ some timer → IsRunning timer n.timers
  pub no_dispatch : n.participant.dispatches ≡ []
  pub no_abort : n.participant.aborts ≡ []

SameDuty-InStep :
    (n : AgentNode) (p : Participant)
    → SameDuty n.participant p
    → InStep n
    → InStep (record n { participant = p })
SameDuty-InStep n p (executing, dispatches, aborts) s = record {
  same = s.same ∙ sym executing;
  timed = s.timed;
  running = s.running;
  no_dispatch = dispatches ∙ s.no_dispatch;
  no_abort = aborts ∙ s.no_abort;
}

pub on_message-InStep :
    (n n' : AgentNode) (msg : Wire) (now : ℤ) → on_message n msg now ≡ ok n' → InStep n → InStep n'
unfolding on_message
on_message-InStep n n' msg now runs s =
    let (p, handled, runs1) = >>=-eq-ok (handle n.participant (to_core msg) now) _ runs in
    let now_n : record n { participant = p } ≡ n' = cc runs1 in
    subst InStep now_n (SameDuty-InStep n p (handle-SameDuty n.participant p _ now handled) s)

pub on_task_array-InStep :
    (tasks : List TaskSpec) (n n' : AgentNode) (now : ℤ)
    → on_task_array n tasks now ≡ ok n'
    → InStep n
    → InStep n'
unfolding on_task_array
on_task_array-InStep [] n n' now runs s = let same : n ≡ n' = cc runs in subst InStep same s
on_task_array-InStep (spec ∷ tasks) n n' now runs s =
    elim (Bool-cases (is_some (get spec.id.value n.participant.tasks))) [
      | inl known ↦ on_task_array-InStep tasks n n' now (rw known at runs) s
      | inr new ↦
          let (p, handled, runs1) = >>=-eq-ok (handle n.participant _ now) _ (rw new at runs) in
          on_task_array-InStep tasks (record n { participant = p }) n' now runs1
            (SameDuty-InStep n p (handle-SameDuty n.participant p _ now handled) s)
    ]

-- The node between the calls of `pop_aborts` and `pop_dispatches`.
record Timed (n : AgentNode) (e : Option TaskId) : Type 0 where
  task : n.exec_task ≡ e
  timed : is_some n.exec_timer ≡ is_some n.exec_task
  running : (timer : Timer) → n.exec_timer ≡ some timer → IsRunning timer n.timers

IsRunning-append : (timer : Timer) (timers : List Timer) → IsRunning timer (timers ++ timer ∷ [])
IsRunning-append timer [] = inl refl
IsRunning-append timer (t ∷ timers) = inr (IsRunning-append timer timers)

newest :
    (new timer : Timer) (timers : List Timer)
    → some new ≡ some timer
    → IsRunning timer (timers ++ new ∷ [])
newest new timer timers same =
    subst (λ t. IsRunning t (timers ++ new ∷ [])) (one new timer same) (IsRunning-append new timers)
  where
    one : (new timer : Timer) → some new ≡ some timer → new ≡ timer
    one new timer same = cc

cancel_execution-Timed :
    (n : AgentNode) (e : Option TaskId) → Timed n e → Timed (cancel_execution n) none
unfolding cancel_execution
cancel_execution-Timed n e t = elim (Option-cases n.exec_timer) [
  | inl idle ↦
      rw (idle, cancel_execution)
        (record {
          task = no_task (n.exec_task) (rw idle at (sym t.timed));
          timed = t.timed;
          running = t.running;
        })
  | inr (timer, busy) ↦
      rw (busy, cancel_execution)
        (record { task = refl; timed = refl; running = λ u same. absurd (cc) })
]
  where
    no_task : (o : Option TaskId) → is_some o ≡ false → o ≡ none
    no_task none h = refl
    no_task (some t) h = cc

cancel_all-Timed :
    (tasks : List TaskId) (n : AgentNode) (e : Option TaskId)
    → Timed n e
    → Timed (cancel_all tasks n) (stopped tasks e)
unfolding cancel_all
cancel_all-Timed [] n e t = t
cancel_all-Timed (task ∷ tasks) n e t =
    cancel_all-Timed tasks (cancel_execution n) none (cancel_execution-Timed n e t)

cancel_execution-participant : (n : AgentNode) → (cancel_execution n).participant ≡ n.participant
unfolding cancel_execution
cancel_execution-participant n = ground arith

cancel_all-participant :
    (tasks : List TaskId) (n : AgentNode) → (cancel_all tasks n).participant ≡ n.participant
unfolding cancel_all
cancel_all-participant [] n = refl
cancel_all-participant (task ∷ tasks) n =
    cancel_all-participant tasks (cancel_execution n) ∙ cancel_execution-participant n

-- Starting tasks leaves the participant alone, and ends with the last of them.
record StartedAll (n n' : AgentNode) (tasks : List TaskId) (e : Option TaskId) : Type 0 where
  timed : Timed n' (started tasks e)
  participant : n'.participant ≡ n.participant

start_all-StartedAll :
    (travel : RobotState → Task → ℤ) (tasks : List TaskId) (n n' : AgentNode) (now : ℤ)
    (e : Option TaskId)
    → start_all travel tasks n now ≡ ok n'
    → Timed n e
    → StartedAll n n' tasks e
unfolding start_all start_execution
start_all-StartedAll travel [] n n' now e runs t =
    let same : n ≡ n' = cc runs in
    subst (λ x. StartedAll n x [] e) same (record { timed = t; participant = refl })
start_all-StartedAll travel (task_id ∷ tasks) n n' now e runs t =
    let (n1, started_one, runs1) = >>=-eq-ok (start_execution travel n task_id now) _ runs in
    let (task, found, runs2) =
      >>=-eq-ok (or_key_error (get task_id n.participant.tasks)) _ started_one in
    let timer : Timer = record {
      serial = n.created;
      period = travel n.participant.me task +ℤ task.duration;
    } in
    let now_n : record n {
      exec_task = some task_id;
      exec_timer = some timer;
      timers = n.timers ++ timer ∷ [];
      created = suc n.created;
    }
        ≡ n1 =
      cc runs2 in
    let rest = start_all-StartedAll travel tasks n1 n' now (some task_id) runs1 (
      subst (λ x. Timed x (some task_id)) now_n
        (record { task = refl; timed = refl; running = λ u same. newest timer u n.timers same })) in
    record {
      timed = rest.timed;
      participant = rest.participant ∙ ap (λ (x : AgentNode). x.participant) (sym now_n);
    }

InStep-of_parts :
    (n : AgentNode) (p : Participant) (e : Option TaskId) (logged : Bool)
    → Timed n (started p.dispatches (stopped p.aborts e))
    → n.participant ≡ record p { aborts = []; dispatches = [] }
    → Tracks e p
    → InStep (record n { mission_logged = logged })
InStep-of_parts n p e logged t same tracks = record {
  same = t.task ∙ sym tracks ∙ ap (λ (x : Participant). x.executing) (sym same);
  timed = t.timed;
  running = t.running;
  no_dispatch = ap (λ (x : Participant). x.dispatches) same;
  no_abort = ap (λ (x : Participant). x.aborts) same;
}

InStep-Tracks : (n : AgentNode) → InStep n → Tracks n.exec_task n.participant
InStep-Tracks n s = rw (s.no_dispatch, s.no_abort) (sym s.same)

pub node_tick-InStep :
    (travel : RobotState → Task → ℤ) (n n' : AgentNode) (now : ℤ) (out : List Wire)
    → node_tick travel n now ≡ ok (out, n')
    → InStep n
    → InStep n'
unfolding node_tick pop_aborts pop_dispatches
node_tick-InStep travel n n' now out runs s =
    let ((messages, p), ticked, runs1) = >>=-eq-ok (tick n.participant now) _ runs in
    let (sent, published, runs2) = >>=-eq-ok (publish_all messages) _ runs1 in
    let n0 : AgentNode = record n { participant = record p { aborts = [] } } in
    let n1 : AgentNode = cancel_all p.aborts n0 in
    let begin : AgentNode = record n1 { participant = record n1.participant { dispatches = [] } } in
    let (n2, begun, runs3) =
      >>=-eq-ok (start_all travel n1.participant.dispatches begin now) _ runs2 in
    let same = cancel_all-participant p.aborts n0 in
    let cancelled =
      cancel_all-Timed p.aborts n0 n.exec_task
        (record { task = refl; timed = s.timed; running = s.running }) in
    let all =
      start_all-StartedAll travel n1.participant.dispatches begin n2 now
        (stopped p.aborts n.exec_task) begun
        (record { task = cancelled.task; timed = cancelled.timed; running = cancelled.running }) in
    let timed =
      subst (λ ts. Timed n2 (started ts (stopped p.aborts n.exec_task)))
        (ap (λ (x : Participant). x.dispatches) same) all.timed in
    let final : AgentNode = record n2 {
      mission_logged = n2.mission_logged || mission_complete n2.participant;
    } in
    let result = ok_inj (sent, final) (out, n') runs3 in
    subst (λ (x : List Wire × AgentNode). InStep x.1) result
      (InStep-of_parts n2 p n.exec_task _ timed
        (all.participant ∙ ap (λ (x : Participant). record x { dispatches = [] }) same)
        (tick-Tracks n.exec_task n.participant p now messages s.no_dispatch ticked
          (InStep-Tracks n s)))
