-- ===== src/SystemSim/Steps.antt =====
-- Injections, ticks, ends of executions, and the whole run.
use distributed_mobile_robot.Base.{
  ℕ, zero, suc, ℤ, pos, ◌*ℤ◌, leb_ℤ, ==ℤ_refl, ℤ-cases, false, if◌then◌else◌, ◌≡◌, refl, sym, ◌∙◌,
  subst, ap, inl, inr, List, [], ◌∷◌, Option, none, some, ok, >>=-eq-ok, ok_inj, contains,
  Bool-cases, arith,
}
use distributed_mobile_robot.Base.Dict.{
  Dict, get, set, del, keys, or_key_error, or_key_error-inv, IsDistinct-del, get-del_self,
  get-del_ne,
}
use distributed_mobile_robot.Types.{AgentId, Task}
use distributed_mobile_robot.Benefits.{RobotState}
use distributed_mobile_robot.Messages.{CoordinationMessage, task_injected}
use distributed_mobile_robot.Transport.{deliver_due}
use distributed_mobile_robot.Participant.State.{
  Participant, task_finished, pop_aborts, pop_dispatches,
}
use distributed_mobile_robot.Participant.Handle.{handle}
use distributed_mobile_robot.Participant.Cycle.{tick}
use distributed_mobile_robot.Participant.Duty.{task_finished-Finished, SameDuty, handle-SameDuty}
use distributed_mobile_robot.Participant.Duties.{stopped, Tracks, tick-Tracks}
use distributed_mobile_robot.SystemSim.{
  Execution, SystemSim, kill_due, handle_all, inject_due, deliver_all, send_all, abort_all,
  tick_robot, tick_all,
}
use distributed_mobile_robot.SystemSim.Run.{finish_due, run_tick, run_loop, is_over, live}
use distributed_mobile_robot.SystemSim.Touched.{
  task_of, send_all-Touched, abort_all-Touched, start_all-Touched,
}
use distributed_mobile_robot.SystemSim.InStep.{
  SameDuty-Follows, InStep, changed-InStep, same-InStep, kill_due-InStep, deliver_all-InStep,
}

-- Who handled the message took no task up and gave none up.
handle_all-SameDuty :
    (dead : List AgentId) (msg : CoordinationMessage) (now : ℤ) (ps ps' : Dict Participant)
    (k : AgentId) (q : Participant)
    → handle_all dead msg now ps ≡ ok ps'
    → get k ps' ≡ some q
    → contains k dead ≡ false
    → (p : Participant) × (get k ps ≡ some p) × SameDuty p q
unfolding handle_all get
handle_all-SameDuty dead msg now [] ps' k q runs found lives =
    absurd (cc (subst (λ d. get k d ≡ some q) (sym (ok_inj [] ps' runs)) found))
handle_all-SameDuty dead msg now ((robot, p) ∷ ps) ps' k q runs found lives =
    let (p', handled, runs1) =
      >>=-eq-ok (if contains robot dead then ok p else handle p msg now) _ runs in
    let (rest, there, runs2) = >>=-eq-ok (handle_all dead msg now ps) _ runs1 in
    let found1 : get k ((robot, p') ∷ rest) ≡ some q =
      subst (λ d. get k d ≡ some q) (sym (ok_inj ((robot, p') ∷ rest) ps' runs2)) found in
    elim (ℤ-cases robot k) [
      | inl same ↦
          let held : p' ≡ q = ground (arith, found1, same, ==ℤ_refl k) in
          let spared : contains robot dead ≡ false =
            subst (λ x. contains x dead ≡ false) (sym same) lives in
          (
            p,
            rw (same, ==ℤ_refl k) refl,
            subst (SameDuty p) held (handle-SameDuty p p' msg now (rw spared at handled)),
          )
      | inr other ↦
          let (p0, found0, duty) =
            handle_all-SameDuty dead msg now ps rest k q there (rw other at found1) lives in
          (p0, rw other found0, duty)
    ]

module _ {S : Type 0} where
  inject_due-InStep :
      (now : ℤ) (rest : List (ℤ × Task)) (s s' : SystemSim S)
      → inject_due now rest s ≡ ok s'
      → InStep s
      → InStep s'
  unfolding inject_due
  inject_due-InStep now [] s s' runs h =
      subst InStep (ok_inj (record s { inject = [] }) s' runs) (same-InStep s _ refl refl refl h)
  inject_due-InStep now ((time, task) ∷ rest) s s' runs h = elim (Bool-cases (leb_ℤ time now)) [
    | inr early ↦
        subst InStep (ok_inj (record s { inject = (time, task) ∷ rest }) s' (rw early at runs))
          (same-InStep s _ refl refl refl h)
    | inl due ↦
        let (ps, told, runs1) =
          >>=-eq-ok
            (handle_all s.dead (task_injected (record { task = task; stamp = now })) now
              s.participants)
            _ (rw due at runs) in
        inject_due-InStep now rest _ s' runs1 (record {
          distinct = h.distinct;
          alive = λ k q found lives.
              let (p, known, duty) =
                handle_all-SameDuty s.dead (task_injected (record { task = task; stamp = now })) now
                  s.participants ps k q told found lives in
              SameDuty-Follows s.executing k p q duty (h.alive k p known lives);
          buried = h.buried;
        })
  ]

  module _ (travel : RobotState → Task → ℤ) (now : ℤ) (i : ℕ) where
    tick_robot-InStep :
        (r : AgentId) (s s' : SystemSim S)
        → contains r s.dead ≡ false
        → tick_robot travel now i r s ≡ ok s'
        → InStep s
        → InStep s'
    unfolding tick_robot pop_aborts pop_dispatches
    tick_robot-InStep r s s' lives runs h =
        let (p, found, runs1) = >>=-eq-ok (or_key_error (get r s.participants)) _ runs in
        let ((out, p1), ticked, runs2) = >>=-eq-ok (tick p now) _ runs1 in
        let (task, no_dispatch, no_abort) = h.alive r p (or_key_error-inv _ p found) lives in
        let e = task_of (get r s.executing) in
        let tracks : Tracks e p = rw (no_dispatch, no_abort) (sym task) in
        let tracks1 = tick-Tracks e p p1 now out no_dispatch ticked tracks in
        let p3 : Participant = record p1 { aborts = []; dispatches = [] } in
        let s0 : SystemSim S = record s { participants = set r p3 s.participants } in
        let t =
          start_all-Touched r travel now p1.me p1.dispatches s0
            (abort_all now r p1.aborts (send_all out r i s0)) s' (stopped p1.aborts e) runs2
            (abort_all-Touched r now p1.aborts s0 _ e (
              send_all-Touched r out i s0 s0 e (record {
                people = refl;
                graves = refl;
                others = λ k other. refl;
                distinct = h.distinct;
                task_is = refl;
              }))) in
        changed-InStep s s' r p3 h t.people t.graves t.others t.distinct
          (λ alive. (t.task_is ∙ sym tracks1, refl, refl)) (λ dead. absurd (cc))

    tick_all-InStep :
        (robots : List AgentId) (s s' : SystemSim S)
        → tick_all travel now i robots s ≡ ok s'
        → InStep s
        → InStep s'
    unfolding tick_all
    tick_all-InStep [] s s' runs h = subst InStep (ok_inj s s' runs) h
    tick_all-InStep (robot ∷ robots) s s' runs h = elim (Bool-cases (contains robot s.dead)) [
      | inl dead ↦ tick_all-InStep robots s s' (rw dead at runs) h
      | inr lives ↦
          let (s1, ticked, runs1) =
            >>=-eq-ok (tick_robot travel now i robot s) _ (rw lives at runs) in
          tick_all-InStep robots s1 s' runs1 (tick_robot-InStep robot s s1 lives ticked h)
    ]

  finish_due-InStep :
      (now : ℤ) (i : ℕ) (works : Dict Execution) (s s' : SystemSim S)
      → finish_due now i works s ≡ ok s'
      → InStep s
      → InStep s'
  unfolding finish_due
  finish_due-InStep now i [] s s' runs h = subst InStep (ok_inj s s' runs) h
  finish_due-InStep now i ((r, e) ∷ works) s s' runs h = elim (Bool-cases (leb_ℤ e.finish now)) [
    | inr later ↦ finish_due-InStep now i works s s' (rw later at runs) h
    | inl due ↦
        let (p, found, runs1) =
          >>=-eq-ok (or_key_error (get r s.participants)) _ (rw due at runs) in
        let ((out, p'), finished, runs2) = >>=-eq-ok (task_finished p e.task_id now) _ runs1 in
        let (idle, dispatches, aborts) = task_finished-Finished p p' e.task_id now out finished in
        let s0 : SystemSim S = record s {
          executing = del r s.executing;
          participants = set r p' s.participants;
        } in
        let gone = get-del_self r s.executing h.distinct in
        let t = send_all-Touched r out i s0 s0 none (record {
          people = refl;
          graves = refl;
          others = λ k other. refl;
          distinct = IsDistinct-del r s.executing h.distinct;
          task_is = ap task_of gone;
        }) in
        finish_due-InStep now i works _ s' runs2 (
          changed-InStep s _ r p' h t.people t.graves
            (λ k other. t.others k other ∙ get-del_ne r k s.executing other) t.distinct
            (λ lives.
              let (_, no_dispatch, no_abort) = h.alive r p (or_key_error-inv _ p found) lives in
              (t.task_is ∙ sym idle, dispatches ∙ no_dispatch, aborts ∙ no_abort))
            (λ dead. no_work _ t.task_is))
  ]
    where
      no_work : (o : Option Execution) → task_of o ≡ none → o ≡ none
      no_work none same = refl
      no_work (some x) same = cc

  module _ (travel : RobotState → Task → ℤ) where
    run_tick-InStep :
        (now : ℤ) (i : ℕ) (s s' : SystemSim S)
        → run_tick travel now i s ≡ ok s'
        → InStep s
        → InStep s'
    unfolding run_tick deliver_due
    run_tick-InStep now i s s' runs h =
        let s1 = kill_due now s.kill_at s in
        let (s2, injected, runs1) = >>=-eq-ok (inject_due now s1.inject s1) _ runs in
        let h2 =
          inject_due-InStep now s1.inject s1 s2 injected (kill_due-InStep now s.kill_at s h) in
        let (due, transport) = deliver_due i s2.transport in
        let heard : SystemSim S = record s2 { transport = transport } in
        let (s3, delivered, runs2) = >>=-eq-ok (deliver_all now due heard) _ runs1 in
        let h3 =
          deliver_all-InStep now due heard s3 delivered (same-InStep s2 heard refl refl refl h2) in
        let (s4, ticked, runs3) =
          >>=-eq-ok (tick_all travel now i (keys s3.participants) s3) _ runs2 in
        finish_due-InStep now i s4.executing s4 s' runs3
          (tick_all-InStep travel now i (keys s3.participants) s3 s4 ticked h3)

    pub run_loop-InStep :
        (left i : ℕ) (s s' : SystemSim S) → run_loop travel left i s ≡ ok s' → InStep s → InStep s'
    unfolding run_loop
    run_loop-InStep zero i s s' runs h = subst InStep (ok_inj s s' runs) h
    run_loop-InStep (suc left) i s s' runs h =
        let (s1, passed, runs1) = >>=-eq-ok (run_tick travel (pos i *ℤ s.tick_period) i s) _ runs in
        let h1 = run_tick-InStep (pos i *ℤ s.tick_period) i s s1 passed h in
        elim (Bool-cases (is_over (live s1))) [
          | inl over ↦
              subst InStep
                (ok_inj
                  (record s1 {
                    result = record s1.result { mission_time = some (pos i *ℤ s.tick_period) };
                  })
                  s' (rw over at runs1))
                (same-InStep s1 _ refl refl refl h1)
          | inr goes_on ↦ run_loop-InStep left (suc i) s1 s' (rw goes_on at runs1) h1
        ]
