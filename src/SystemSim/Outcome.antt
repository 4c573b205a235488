-- ===== src/SystemSim/Outcome.antt =====
-- A whole run, from the constructor on.
use distributed_mobile_robot.Base.{
  ℕ, ℤ, pos, ◌*ℤ◌, ℤ-cases, ◌≡◌, refl, sym, ◌∙◌, subst, inl, inr, List, [], ◌∷◌, Option, none, some,
  Result, ok, >>=-eq-ok, ok_inj,
}
use distributed_mobile_robot.Base.Dict.{Dict, get, set, get-set_self, get-set_ne}
use distributed_mobile_robot.Types.{AgentId, Task}
use distributed_mobile_robot.Benefits.{RobotState, BenefitModel}
use distributed_mobile_robot.Heartbeat.{heartbeat_monitor}
use distributed_mobile_robot.Leases.{task_leases}
use distributed_mobile_robot.Messages.{CoordinationMessage}
use distributed_mobile_robot.Transport.{SimTransport}
use distributed_mobile_robot.Participant.State.{
  Participant, participant, or_default, load_mission, add_task,
}
use distributed_mobile_robot.Participant.Duty.{add_task-SameDuty}
use distributed_mobile_robot.SystemSim.{SystemSim, SystemResult, make_participants, system_sim}
use distributed_mobile_robot.SystemSim.Run.{run, run_loop}
use distributed_mobile_robot.SystemSim.InStep.{InStep}
use distributed_mobile_robot.SystemSim.Steps.{run_loop-InStep}

-- As the constructor of a participant leaves it.
abbrev pub IsNew : Participant → Type 0
IsNew p = (p.executing ≡ none) × (p.dispatches ≡ []) × (p.aborts ≡ [])

pub participant-IsNew :
    (me : RobotState) (model : BenefitModel) (interval eta : ℤ) (lease_duration : Option ℤ)
    (epsilon quiescence_rounds round_timeout one : ℤ) (p : Participant)
    → participant me model interval eta lease_duration epsilon quiescence_rounds round_timeout one
      ≡ ok p
    → IsNew p
unfolding participant
participant-IsNew me model interval eta lease_duration epsilon quiescence_rounds round_timeout one p
      runs =
    let (monitor, watched, runs1) = >>=-eq-ok (heartbeat_monitor interval eta) _ runs in
    let (leases, table, runs2) =
      >>=-eq-ok (task_leases (or_default lease_duration (pos 2 *ℤ eta *ℤ interval))) _ runs1 in
    subst IsNew (ok_inj _ p runs2) (refl, refl, refl)

load_mission-IsNew : (tasks : List Task) (p : Participant) → IsNew p → IsNew (load_mission p tasks)
unfolding load_mission
load_mission-IsNew [] p new = new
load_mission-IsNew (t ∷ tasks) p (idle, no_dispatch, no_abort) =
    let (same, same', same'') = add_task-SameDuty p t in
    load_mission-IsNew tasks (add_task p t) (same ∙ idle, same' ∙ no_dispatch, same'' ∙ no_abort)

abbrev AllNew : Dict Participant → Type 0
AllNew ps = (r : AgentId) (p : Participant) → get r ps ≡ some p → IsNew p

set-AllNew :
    (k : AgentId) (q : Participant) (ps : Dict Participant)
    → IsNew q
    → AllNew ps
    → AllNew (set k q ps)
set-AllNew k q ps new all r p found = elim (ℤ-cases k r) [
  | inl same ↦
      let held = subst (λ x. get x (set k q ps) ≡ some q) same (get-set_self k q ps) in
      subst IsNew (one held found) new
  | inr other ↦ all r p (sym (get-set_ne k r q ps other) ∙ found)
]
  where
    one : {o : Option Participant} → o ≡ some q → o ≡ some p → q ≡ p
    one first second = cc

make_participants-AllNew :
    (make : RobotState → Result Participant) (tasks : List Task) (robots : List RobotState)
    (ps made : Dict Participant)
    → ((robot : RobotState) (p : Participant) → make robot ≡ ok p → IsNew p)
    → make_participants make tasks robots ps ≡ ok made
    → AllNew ps
    → AllNew made
unfolding make_participants
make_participants-AllNew make tasks [] ps made fresh runs all =
    subst AllNew (ok_inj ps made runs) all
make_participants-AllNew make tasks (robot ∷ robots) ps made fresh runs all =
    let (p, one, runs1) = >>=-eq-ok (make robot) _ runs in
    make_participants-AllNew make tasks robots _ made fresh runs1 (
      set-AllNew robot.id (load_mission p tasks) ps (load_mission-IsNew tasks p (fresh robot p one))
        all)

module _ {S : Type 0} where
  system_sim-InStep :
      (make : RobotState → Result Participant) (robots : List RobotState) (tasks : List Task)
      (transport : SimTransport S CoordinationMessage) (tick_period : ℤ) (kill_at : Dict ℤ)
      (inject : List (ℤ × Task)) (s : SystemSim S)
      → ((robot : RobotState) (p : Participant) → make robot ≡ ok p → IsNew p)
      → system_sim make robots tasks transport tick_period kill_at inject ≡ ok s
      → InStep s
  unfolding system_sim get
  system_sim-InStep make robots tasks transport tick_period kill_at inject s fresh runs =
      let (ps, made, runs1) = >>=-eq-ok (make_participants make tasks robots []) _ runs in
      let new = make_participants-AllNew make tasks robots [] ps fresh made (λ r p found. cc) in
      subst InStep (ok_inj _ s runs1) (record {
        distinct = tt;
        alive =
            λ r p found lives. let (idle, rest, rest') = new r p found in (sym idle, rest, rest');
        buried = λ r dead. refl;
      })

  -- If the constructor of the simulator and run return, with participants that are new, then at the
  -- end each participant that is not dead takes itself to execute exactly the task that the
  -- simulator executes for its robot, with no start or abort left over, no dead robot executes
  -- anything, and no robot executes twice.
  pub run-InStep :
      (make : RobotState → Result Participant) (travel : RobotState → Task → ℤ) (ticks : ℕ)
      (robots : List RobotState) (tasks : List Task)
      (transport : SimTransport S CoordinationMessage) (tick_period : ℤ) (kill_at : Dict ℤ)
      (inject : List (ℤ × Task)) (s s' : SystemSim S) (result : SystemResult)
      → ((robot : RobotState) (p : Participant) → make robot ≡ ok p → IsNew p)
      → system_sim make robots tasks transport tick_period kill_at inject ≡ ok s
      → run travel ticks s ≡ ok (result, s')
      → InStep s'
  unfolding run
  run-InStep make travel ticks robots tasks transport tick_period kill_at inject s s' result fresh
        start runs =
      let h =
        system_sim-InStep make robots tasks transport tick_period kill_at inject s fresh start in
      let begun = record s {
        result = record { mission_time = none; executions = []; events = []; messages_sent = 0 };
      } in
      let (ended, looped, runs1) = >>=-eq-ok (run_loop travel ticks 0 begun) _ runs in
      subst InStep (last_sim ended runs1) (
        run_loop-InStep travel ticks 0 begun ended looped
          (record { distinct = h.distinct; alive = h.alive; buried = h.buried }))
    where
      last_sim :
          (ended : SystemSim S) {r : SystemResult}
          → ◌≡◌ {A = Result (SystemResult × SystemSim S)} (ok (r, ended)) (ok (result, s'))
          → ended ≡ s'
      last_sim ended same = cc
