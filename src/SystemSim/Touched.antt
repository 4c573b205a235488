-- ===== src/SystemSim/Touched.antt =====
-- What aborts and starts of one robot do to the executions.
use distributed_mobile_robot.Base.{
  ℕ, ℤ, ◌==ℤ◌, false, ◌≡◌, refl, ◌∙◌, subst, List, [], ◌∷◌, Option, none, some, ok, >>=-eq-ok,
  ok_inj,
}
use distributed_mobile_robot.Base.Dict.{
  get, IsDistinct, IsDistinct-set, IsDistinct-del, get-set_self, get-set_ne, get-del_self,
  get-del_ne,
}
use distributed_mobile_robot.Types.{AgentId, TaskId, Task}
use distributed_mobile_robot.Benefits.{RobotState}
use distributed_mobile_robot.Messages.{CoordinationMessage}
use distributed_mobile_robot.Participant.Duties.{started, stopped}
use distributed_mobile_robot.SystemSim.{
  Execution, SystemSim, send_all, abort_all, task_named, start_all,
}

abbrev pub task_of : Option Execution → Option TaskId
task_of none = none
task_of (some e) = some e.task_id

module _ {S : Type 0} (r : AgentId) where
  -- From `s` to `s'` only the robot's execution has changed, to one of the task.
  pub record Touched (s : SystemSim S) (task : Option TaskId) (s' : SystemSim S) : Type 0 where
    pub people : s'.participants ≡ s.participants
    pub graves : s'.dead ≡ s.dead
    pub others : (k : AgentId) → (r ==ℤ k) ≡ false → get k s'.executing ≡ get k s.executing
    pub distinct : IsDistinct s'.executing
    pub task_is : task_of (get r s'.executing) ≡ task

  pub send_all-Touched :
      (out : List CoordinationMessage) (i : ℕ) (s0 s : SystemSim S) (task : Option TaskId)
      → Touched s0 task s
      → Touched s0 task (send_all out r i s)
  unfolding send_all
  send_all-Touched [] i s0 s task h = h
  send_all-Touched (msg ∷ out) i s0 s task h = send_all-Touched out i s0 _ task (record {
    people = h.people;
    graves = h.graves;
    others = h.others;
    distinct = h.distinct;
    task_is = h.task_is;
  })

  pub abort_all-Touched :
      (now : ℤ) (aborts : List TaskId) (s0 s : SystemSim S) (task : Option TaskId)
      → Touched s0 task s
      → Touched s0 (stopped aborts task) (abort_all now r aborts s)
  unfolding abort_all
  abort_all-Touched now [] s0 s task h = h
  abort_all-Touched now (t ∷ aborts) s0 s task h = abort_all-Touched now aborts s0 _ none (record {
    people = h.people;
    graves = h.graves;
    others = λ k other. get-del_ne r k s.executing other ∙ h.others k other;
    distinct = IsDistinct-del r s.executing h.distinct;
    task_is = rw (get-del_self r s.executing h.distinct) refl;
  })

  pub start_all-Touched :
      (travel : RobotState → Task → ℤ) (now : ℤ) (me : RobotState) (dispatches : List TaskId)
      (s0 s s' : SystemSim S) (task : Option TaskId)
      → start_all travel now r me dispatches s ≡ ok s'
      → Touched s0 task s
      → Touched s0 (started dispatches task) s'
  unfolding start_all
  start_all-Touched travel now me [] s0 s s' task runs h =
      subst (Touched s0 task) (ok_inj s s' runs) h
  start_all-Touched travel now me (t ∷ dispatches) s0 s s' task runs h =
      let (found, known, runs1) = >>=-eq-ok (task_named t s.tasks) _ runs in
      start_all-Touched travel now me dispatches s0 _ s' (some t) runs1 (record {
        people = h.people;
        graves = h.graves;
        others = λ k other. get-set_ne r k _ s.executing other ∙ h.others k other;
        distinct = IsDistinct-set r _ s.executing h.distinct;
        task_is = rw (get-set_self r _ s.executing) refl;
      })
