-- ===== src/Allocator/Accounted.antt =====
-- What the loop has taken up stands on the schedule, and what it completes is a task of the graph.
use distributed_mobile_robot.Base.{
  suc, ◌+◌, ℤ, pos, ltb_ℤ, ◌+ℤ◌, true, false, ◌≡◌, refl, subst, inl, inr, List, [], ◌∷◌, ◌++◌,
  Option, none, some, ok, >>=-eq-ok, ok_inj, All-mono, In, Apart, contains, map, Bool-cases,
}
use distributed_mobile_robot.Base.Dict.{
  Dict, get, keys, or_key_error, or_key_error-inv, AllItems, AllItems-set, AllItems-del, keys-In,
}
use distributed_mobile_robot.Types.{AgentId, TaskId, Task}
use distributed_mobile_robot.Dag.{TaskDag}
use distributed_mobile_robot.Dag.Missing.{In-contains}
use distributed_mobile_robot.Dag.Kahn.{Apart-append}
use distributed_mobile_robot.Allocator.{
  RepeatedRoundsAllocator, ScheduledTask, Reason, Simulation, robot_by_id, travel, dispatch,
  dispatch_all, auction_round, offered_tasks, idle_robots, round_benefits, tasks_of,
}
use distributed_mobile_robot.Allocator.Loop.{earliest_from, add, complete}
use distributed_mobile_robot.Allocator.Endings.{Work}
use distributed_mobile_robot.Allocator.Passes.{earliest_from-All, In-add}

-- The tasks that the schedule has entries of.
abbrev pub task_ids : List ScheduledTask → List TaskId
task_ids = map λ (e : ScheduledTask). e.task_id

task_ids-append :
    (k : TaskId) (es : List ScheduledTask) (e : ScheduledTask)
    → In k (task_ids es)
    → In k (task_ids (es ++ e ∷ []))
task_ids-append k [] e i = absurd i
task_ids-append k (f ∷ es) e (inl same) = inl same
task_ids-append k (f ∷ es) e (inr i) = inr (task_ids-append k es e i)

task_ids-last :
    (es : List ScheduledTask) (e : ScheduledTask) → In e.task_id (task_ids (es ++ e ∷ []))
task_ids-last [] e = inl refl
task_ids-last (f ∷ es) e = inr (task_ids-last es e)

pub Apart-add : (k : TaskId) (ks : List TaskId) → Apart ks → Apart (add k ks)
Apart-add k ks h = elim (Bool-cases (contains k ks)) [
  | inl there ↦ rw there h
  | inr new ↦ rw new (Apart-append ks k h λ i. let old = In-contains k ks i in cc_false old new)
]
  where
    cc_false : contains k ks ≡ true → contains k ks ≡ false → ⊥
    cc_false old new = absurd (cc)

-- `reported` is what was reported before the loop.
pub record Accounted (tasks : Dict Task) (reported : Dict Reason) (s : Simulation) : Type 0 where
  pub apart : Apart s.completed
  pub known : (k : TaskId) → In k s.completed → In k (keys tasks)
  pub listed : (k : TaskId) → In k s.completed → In k (task_ids s.schedule)
  pub going : AllItems (λ _ work. In work.0 (task_ids s.schedule)) s.running
  pub same_reports : s.unallocated ≡ reported

module _ (self : RepeatedRoundsAllocator) (dag : TaskDag) (reported : Dict Reason) where
  dispatch-Accounted :
      (agent_id : AgentId) (task_id : TaskId) (s s1 : Simulation)
      → Accounted dag.tasks reported s
      → dispatch self dag agent_id task_id s ≡ ok s1
      → Accounted dag.tasks reported s1
  unfolding dispatch
  dispatch-Accounted agent_id task_id s s1 h runs =
      let (robot, found, runs1) = >>=-eq-ok (or_key_error (robot_by_id agent_id s.robots)) _ runs in
      let (task, known, runs2) = >>=-eq-ok (or_key_error (get task_id dag.tasks)) _ runs1 in
      let finish = s.now +ℤ travel self robot task +ℤ task.duration in
      let e : ScheduledTask = record {
        task_id = task_id;
        robot_id = agent_id;
        start = s.now;
        finish = finish;
      } in
      subst (Accounted dag.tasks reported) (ok_inj _ s1 runs2) (record {
        apart = h.apart;
        known = h.known;
        listed = λ k i. task_ids-append k s.schedule e (h.listed k i);
        going =
            AllItems-set (λ _ (work : TaskId × ℤ). In work.0 (task_ids (s.schedule ++ e ∷ [])))
              agent_id (task_id, finish) s.running (task_ids-last s.schedule e)
              (All-mono _ _ (λ item i. task_ids-append item.1.0 s.schedule e i) s.running h.going);
        same_reports = h.same_reports;
      })

  dispatch_all-Accounted :
      (choices : Dict (Option TaskId)) (s s1 : Simulation)
      → Accounted dag.tasks reported s
      → dispatch_all self dag choices s ≡ ok s1
      → Accounted dag.tasks reported s1
  unfolding dispatch_all
  dispatch_all-Accounted [] s s1 h runs = subst (Accounted dag.tasks reported) (ok_inj s s1 runs) h
  dispatch_all-Accounted ((a, none) ∷ rest) s s1 h runs = dispatch_all-Accounted rest s s1 h runs
  dispatch_all-Accounted ((a, some t) ∷ rest) s s1 h runs = elim (Bool-cases (ltb_ℤ t (pos 0))) [
    | inl idle ↦ dispatch_all-Accounted rest s s1 h (rw idle at runs)
    | inr real ↦
        let (s2, sent, runs1) = >>=-eq-ok (dispatch self dag a t s) _ (rw real at runs) in
        dispatch_all-Accounted rest s2 s1 (dispatch-Accounted a t s s2 h sent) runs1
  ]

  pub auction_round-Accounted :
      (s s1 : Simulation)
      → Accounted dag.tasks reported s
      → auction_round self dag (offered_tasks dag s) (idle_robots s) s ≡ ok s1
      → Accounted dag.tasks reported s1
  unfolding auction_round
  auction_round-Accounted s s1 h runs =
      let (tasks, found, runs1) = >>=-eq-ok (tasks_of dag (offered_tasks dag s)) _ runs in
      let (benefits, offered_rows, runs2) =
        >>=-eq-ok (round_benefits self (idle_robots s) tasks) _ runs1 in
      let (result, ran, runs3) =
        >>=-eq-ok (self.run_round s.rounds benefits self.round_config) _ runs2 in
      dispatch_all-Accounted result.assignment
        (record s { rounds = suc s.rounds; messages = s.messages + result.messages_sent }) s1
        (record {
          apart = h.apart;
          known = h.known;
          listed = h.listed;
          going = h.going;
          same_reports = h.same_reports;
        })
        runs3

  complete-Accounted :
      (work : Work) (s s1 : Simulation)
      → Accounted dag.tasks reported s
      → In work.1.0 (task_ids s.schedule)
      → complete dag work s ≡ ok s1
      → Accounted dag.tasks reported s1
  unfolding complete
  complete-Accounted (id, (k, finish)) s s1 h scheduled runs =
      let (robot, found, runs1) = >>=-eq-ok (or_key_error (robot_by_id id s.robots)) _ runs in
      let (task, known, runs2) = >>=-eq-ok (or_key_error (get k dag.tasks)) _ runs1 in
      let here = keys-In k task dag.tasks (or_key_error-inv _ task known) in
      subst (Accounted dag.tasks reported) (ok_inj _ s1 runs2) (record {
        apart = Apart-add k s.completed h.apart;
        known = λ j i. elim (In-add j k s.completed i) [
          | inl old ↦ h.known j old
          | inr same ↦ subst (λ x. In x (keys dag.tasks)) same here
        ];
        listed = λ j i. elim (In-add j k s.completed i) [
          | inl old ↦ h.listed j old
          | inr same ↦ subst (λ x. In x (task_ids s.schedule)) same scheduled
        ];
        going =
            AllItems-del (λ _ (other : TaskId × ℤ). In other.0 (task_ids s.schedule)) id s.running
              h.going;
        same_reports = h.same_reports;
      })

  pub complete_earliest-Accounted :
      (item : Work) (running : Dict (TaskId × ℤ)) (s s1 : Simulation)
      → s.running ≡ item ∷ running
      → Accounted dag.tasks reported s
      → complete dag (earliest_from item running) s ≡ ok s1
      → Accounted dag.tasks reported s1
  complete_earliest-Accounted item running s s1 same h completed =
      let going : AllItems (λ _ (work : TaskId × ℤ). In work.0 (task_ids s.schedule))
          (item ∷ running) =
        subst (AllItems (λ _ (work : TaskId × ℤ). In work.0 (task_ids s.schedule))) same h.going in
      complete-Accounted (earliest_from item running) s s1 h
        (earliest_from-All (λ (work : TaskId × ℤ). In work.0 (task_ids s.schedule)) item running
          going.0 going.1)
        completed
