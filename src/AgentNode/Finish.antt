-- ===== src/AgentNode/Finish.antt =====
-- The end of a task: the timer, the participant and the assertion between them.
use distributed_mobile_robot.Base.{
  ℤ, ◌+ℤ◌, true, ◌≡◌, refl, ◌∙◌, sym, subst, inl, inr, List, [], ◌∷◌, Option, none, some,
  Bool-cases, Option-cases, ok, >>=-eq-ok, ==ℤ_refl, ok_inj,
}
use distributed_mobile_robot.Base.Dict.{get, set, get-set_self, is_some}
use distributed_mobile_robot.Types.{TaskId, Task}
use distributed_mobile_robot.Benefits.{RobotState}
use distributed_mobile_robot.Messages.{CoordinationMessage}
use distributed_mobile_robot.Conversions.{completed_to_msg}
use distributed_mobile_robot.Conversions.RoundTrip.{Fits64, int_of-fits}
use distributed_mobile_robot.Participant.State.{Participant, task_finished, or_position}
use distributed_mobile_robot.Participant.Duty.{Finished, task_finished-Finished}
use distributed_mobile_robot.Leases.{release}
use distributed_mobile_robot.AgentNode.{
  AgentNode, Wire, on_completed_topic, publish, publish_all, finish_task, finish_execution,
  destroy_timer,
}
use distributed_mobile_robot.AgentNode.Duty.{InStep}

finish_task-Finished :
    (p p' : Participant) (task : Option TaskId) (now : ℤ) (messages : List CoordinationMessage)
    → finish_task p task now ≡ ok (messages, p')
    → Finished p p'
unfolding task_finished
finish_task-Finished p p' none now messages runs = elim (Bool-cases (is_some p.executing)) [
  | inl busy ↦ absurd (cc (rw busy at runs))
  | inr idle ↦ absurd (cc (rw idle at runs))
]
finish_task-Finished p p' (some task_id) now messages runs =
    task_finished-Finished p p' task_id now messages runs

pub finish_execution-InStep :
    (n n' : AgentNode) (now : ℤ) (out : List Wire)
    → finish_execution n now ≡ ok (out, n')
    → InStep n
    → InStep n'
unfolding finish_execution
finish_execution-InStep n n' now out runs s = elim (Option-cases n.exec_timer) [
  | inl none_set ↦ absurd (cc (rw none_set at runs))
  | inr (timer, waiting) ↦
      let ((messages, p), finished, runs1) =
        >>=-eq-ok (finish_task n.participant n.exec_task now) _ (rw waiting at runs) in
      let (sent, published, runs2) = >>=-eq-ok (publish_all messages) _ runs1 in
      let (idle, dispatches, aborts) =
        finish_task-Finished n.participant p n.exec_task now messages finished in
      let final : AgentNode = record n {
        participant = p;
        exec_task = none;
        exec_timer = none;
        timers = destroy_timer timer n.timers;
      } in
      let result = ok_inj (sent, final) (out, n') runs2 in
      subst (λ (x : List Wire × AgentNode). InStep x.1) result
        (record {
          same = sym idle;
          timed = refl;
          running = λ u none_left. absurd (cc);
          no_dispatch = dispatches ∙ s.no_dispatch;
          no_abort = aborts ∙ s.no_abort;
        })
]

-- When a timer of a node in step fires while it executes a task that the participant knows, and the
-- task's and the robot's ids fit int64 fields, the callback raises no exception, and the task is
-- recorded as completed by this robot.
pub finish_execution_lem :
    (n : AgentNode) (task_id : TaskId) (task : Task) (now : ℤ)
    → InStep n
    → n.exec_task ≡ some task_id
    → get task_id n.participant.tasks ≡ some task
    → Fits64 task_id
    → Fits64 n.participant.me.id
    → (out : List Wire) × (n' : AgentNode) × (finish_execution n now ≡ ok (out, n'))
      × (get task_id n'.participant.completed ≡ some n.participant.me.id)
unfolding finish_execution task_finished publish_all publish completed_to_msg
finish_execution_lem n task_id task now s busy known fits fits_me =
    let executing : n.participant.executing ≡ some task_id = sym s.same ∙ busy in
    let timer : is_some n.exec_timer ≡ true = rw busy at s.timed in
    elim (Option-cases n.exec_timer) [
      | inl none_set ↦ absurd (cc (rw none_set at timer))
      | inr (wait, waiting) ↦
          let me : RobotState = n.participant.me in
          let (task64, set_task, _) = int_of-fits 9223372036854775808 task_id fits in
          let (me64, set_me, _) = int_of-fits 9223372036854775808 me.id fits_me in
          (
            on_completed_topic (record { task_id = task64; by = me64; stamp = now }) ∷ [],
            record n {
              participant = record n.participant {
                executing = none;
                completed = set task_id me.id n.participant.completed;
                leases = (release n.participant.leases task_id me.id).1;
                me = record me {
                  workload = me.workload +ℤ task.duration;
                  position = or_position task.position me.position;
                };
              };
              exec_task = none;
              exec_timer = none;
              timers = destroy_timer wait n.timers;
            },
            rw (waiting, busy)
                (rw executing (rw (==ℤ_refl task_id, known) (rw set_task (rw set_me refl)))),
            get-set_self task_id me.id n.participant.completed,
          )
    ]
