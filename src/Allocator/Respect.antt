-- ===== src/Allocator/Respect.antt =====
-- The invariant of the loop: what is done or runs is on the schedule, and each entry of the schedule
-- starts no earlier than its prerequisites end.
use distributed_mobile_robot.Base.{
  suc, ◌+◌, ℤ, pos, ltb_ℤ, ◌≤ℤ◌, ◌+ℤ◌, int_laws, true, ◌≡◌, refl, sym, subst, ◌⊎◌, inl, inr, List,
  [], ◌∷◌, ◌++◌, Option, none, some, ok, >>=-eq-ok, ok_inj, All, All-mono, All-append, In,
  Bool-cases, arith,
}
use distributed_mobile_robot.Base.Dict.{
  Dict, get, set, or_key_error, or_key_error-inv, AllItems, AllItems-set, AllItems-get, IsDistinct,
}
use distributed_mobile_robot.Types.{AgentId, TaskId, Task}
use distributed_mobile_robot.Dag.{TaskDag}
use distributed_mobile_robot.Dag.Accepted.{Keyed}
use distributed_mobile_robot.Benefits.{RobotState}
use distributed_mobile_robot.Allocator.{
  RepeatedRoundsAllocator, ScheduledTask, Simulation, robot_by_id, put_robot, travel, dispatch,
  dispatch_all, auction_round, round_benefits, tasks_of, offered_tasks, idle_robots,
}
use distributed_mobile_robot.Allocator.Rounds.{round_benefits-IsDistinct}
use distributed_mobile_robot.Allocator.Ready.{Honest, Ready, round_benefits-Given}

-- An entry of the schedule ends the task by then.
abbrev pub EndsBy : TaskId → ℤ → List ScheduledTask → Type 0
EndsBy k time [] = ⊥
EndsBy k time (e ∷ es) = ((e.task_id ≡ k) × (e.finish ≤ℤ time)) ⊎ EndsBy k time es

pub EndsBy-later :
    (k : TaskId) (time later : ℤ) (es : List ScheduledTask)
    → time ≤ℤ later
    → EndsBy k time es
    → EndsBy k later es
EndsBy-later k time later [] le h = absurd h
EndsBy-later k time later (e ∷ es) le (inl (same, ends)) = inl (same, omega arith)
EndsBy-later k time later (e ∷ es) le (inr h) = inr (EndsBy-later k time later es le h)

EndsBy-append :
    (k : TaskId) (time : ℤ) (es : List ScheduledTask) (e : ScheduledTask)
    → EndsBy k time es
    → EndsBy k time (es ++ e ∷ [])
EndsBy-append k time [] e h = absurd h
EndsBy-append k time (f ∷ es) e (inl h) = inl h
EndsBy-append k time (f ∷ es) e (inr h) = inr (EndsBy-append k time es e h)

EndsBy-last :
    (es : List ScheduledTask) (e : ScheduledTask) → EndsBy e.task_id e.finish (es ++ e ∷ [])
EndsBy-last [] e = inl (refl, omega arith)
EndsBy-last (f ∷ es) e = inr (EndsBy-last es e)

-- Each prerequisite of the entry's task has an entry that ends before this one starts.
abbrev pub Waits : Dict Task → List ScheduledTask → ScheduledTask → Type 0
Waits tasks es e =
    (t : Task)
    → get e.task_id tasks ≡ some t
    → (p : TaskId) → In p t.prerequisites
    → EndsBy p e.start es

-- The entry starts at 0 or later, and takes no less than its task's duration.
abbrev pub Lasts : Dict Task → ScheduledTask → Type 0
Lasts tasks e =
    pos 0 ≤ℤ e.start
    × e.start ≤ℤ e.finish
    × ((t : Task) → get e.task_id tasks ≡ some t → e.start +ℤ t.duration ≤ℤ e.finish)

abbrev pub Runs : Simulation → TaskId × ℤ → Type 0
Runs s (k, finish) = EndsBy k finish s.schedule × s.now ≤ℤ finish

pub record Respects (tasks : Dict Task) (s : Simulation) : Type 0 where
  pub done : (k : TaskId) → In k s.completed → EndsBy k s.now s.schedule
  pub going : AllItems (λ _ work. Runs s work) s.running
  pub waits : All (Waits tasks s.schedule) s.schedule
  pub lasts : All (Lasts tasks) s.schedule
  pub begun : pos 0 ≤ℤ s.now

-- No task takes, and no travel takes, less than no time.
pub record Timed (self : RepeatedRoundsAllocator) (tasks : Dict Task) : Type 0 where
  pub durations : AllItems (λ _ t. pos 0 ≤ℤ t.duration) tasks
  pub distances :
      (p q : List ℤ) (speed : ℤ)
      → ltb_ℤ (pos 0) speed ≡ true
      → pos 0 ≤ℤ self.distance_over p q speed

travel_nonneg :
    (self : RepeatedRoundsAllocator) (tasks : Dict Task)
    → Timed self tasks
    → (robot : RobotState) (task : Task) → pos 0 ≤ℤ travel self robot task
travel_nonneg self tasks timed robot task = elim (Bool-cases (ltb_ℤ (pos 0) robot.speed)) [
  | inl moves ↦ rw moves (timed.distances robot.position task.position robot.speed moves)
  | inr stays ↦ rw stays (omega arith)
]

no_less :
    {o : Option Task} (task t : Task) (now travel_time : ℤ)
    → o ≡ some task
    → o ≡ some t
    → pos 0 ≤ℤ travel_time
    → now +ℤ t.duration ≤ℤ now +ℤ travel_time +ℤ task.duration
no_less task t now travel_time known there le =
    let same : t ≡ task = cc in rw same (omega (int_laws, le))

module _ (self : RepeatedRoundsAllocator) (dag : TaskDag) (timed : Timed self dag.tasks) where
  -- The entry is appended, and its robot runs it.
  started : (s : Simulation) (e : ScheduledTask) (robots : List RobotState) → Simulation
  started s e robots = record s {
    running = set e.robot_id (e.task_id, e.finish) s.running;
    schedule = s.schedule ++ e ∷ [];
    robots = robots;
  }

  started-Respects :
      (s : Simulation) (e : ScheduledTask) (robots : List RobotState)
      → Respects dag.tasks s
      → Ready dag s.completed e.task_id
      → e.start ≡ s.now
      → s.now ≤ℤ e.finish
      → Lasts dag.tasks e
      → Respects dag.tasks (started s e robots)
  unfolding started
  started-Respects s e robots h ready start later long =
      let longer : (k : TaskId) (time : ℤ)
          → EndsBy k time s.schedule
          → EndsBy k time (s.schedule ++ e ∷ []) =
        λ k time. EndsBy-append k time s.schedule e in
      record {
        done = λ k i. longer k s.now (h.done k i);
        going =
            AllItems-set (λ _ work. Runs (started s e robots) work) e.robot_id (e.task_id, e.finish)
              s.running (EndsBy-last s.schedule e, later)
              (All-mono _ (λ (item : ℤ × (TaskId × ℤ)). Runs (started s e robots) item.1)
                (λ item r. (longer item.1.0 item.1.1 r.0, r.1)) s.running h.going);
        waits =
            All-append (Waits dag.tasks (s.schedule ++ e ∷ [])) s.schedule (e ∷ [])
              (All-mono (Waits dag.tasks s.schedule) _
                (λ f w t found p i. longer p f.start (w t found p i)) s.schedule h.waits)
              (
                λ t found p i.
                    subst (λ time. EndsBy p time (s.schedule ++ e ∷ [])) (sym start)
                      (longer p s.now (h.done p (ready t found p i))),
                tt,
              );
        lasts = All-append (Lasts dag.tasks) s.schedule (e ∷ []) h.lasts (long, tt);
        begun = h.begun;
      }

  dispatch-Respects :
      (agent_id : AgentId) (task_id : TaskId) (s s1 : Simulation)
      → Respects dag.tasks s
      → Ready dag s.completed task_id
      → dispatch self dag agent_id task_id s ≡ ok s1
      → Respects dag.tasks s1 × (s1.completed ≡ s.completed)
  unfolding dispatch started
  dispatch-Respects agent_id task_id s s1 h ready runs =
      let (robot, found, runs1) = >>=-eq-ok (or_key_error (robot_by_id agent_id s.robots)) _ runs in
      let (task, known, runs2) = >>=-eq-ok (or_key_error (get task_id dag.tasks)) _ runs1 in
      let finish = s.now +ℤ travel self robot task +ℤ task.duration in
      let e : ScheduledTask = record {
        task_id = task_id;
        robot_id = agent_id;
        start = s.now;
        finish = finish;
      } in
      let robots =
        put_robot (record robot { workload = robot.workload +ℤ task.duration }) s.robots in
      let long =
        AllItems-get (λ _ t. pos 0 ≤ℤ t.duration) task_id task dag.tasks timed.durations
          (or_key_error-inv _ task known) in
      let later : s.now ≤ℤ finish =
        omega (int_laws, long, travel_nonneg self dag.tasks timed robot task) in
      let takes : (t : Task) → get task_id dag.tasks ≡ some t → s.now +ℤ t.duration ≤ℤ finish =
        λ t there.
          no_less task t s.now (travel self robot task) (or_key_error-inv _ task known) there
            (travel_nonneg self dag.tasks timed robot task) in
      subst (λ (z : Simulation). Respects dag.tasks z × (z.completed ≡ s.completed))
        (ok_inj (started s e robots) s1 runs2)
        (started-Respects s e robots h ready refl later (h.begun, later, takes), refl)

  dispatch_all-Respects :
      (choices : Dict (Option TaskId)) (s s1 : Simulation)
      → Respects dag.tasks s
      → AllItems
          (λ _ choice.
            (t : TaskId) → choice ≡ some t → (ltb_ℤ t (pos 0) ≡ true) ⊎ Ready dag s.completed t)
          choices
      → dispatch_all self dag choices s ≡ ok s1
      → Respects dag.tasks s1
  unfolding dispatch_all
  dispatch_all-Respects [] s s1 h given runs = subst (Respects dag.tasks) (ok_inj s s1 runs) h
  dispatch_all-Respects ((a, none) ∷ rest) s s1 h given runs =
      dispatch_all-Respects rest s s1 h given.1 runs
  dispatch_all-Respects ((a, some t) ∷ rest) s s1 h given runs =
      elim (Bool-cases (ltb_ℤ t (pos 0))) [
        | inl idle ↦ dispatch_all-Respects rest s s1 h given.1 (rw idle at runs)
        | inr real ↦
            let (s2, sent, runs1) = >>=-eq-ok (dispatch self dag a t s) _ (rw real at runs) in
            let ready : Ready dag s.completed t = elim (given.0 t refl) [
              | inl idle ↦ absurd (cc)
              | inr r ↦ r
            ] in
            let (h2, same) = dispatch-Respects a t s s2 h ready sent in
            dispatch_all-Respects rest s2 s1 h2
              (subst
                (λ c.
                  AllItems
                    (λ _ choice.
                      (t : TaskId) → choice ≡ some t → (ltb_ℤ t (pos 0) ≡ true) ⊎ Ready dag c t)
                    rest)
                (sym same) given.1)
              runs1
      ]

  pub auction_round-Respects :
      (s s1 : Simulation)
      → Keyed dag.tasks
      → IsDistinct dag.tasks
      → Honest self.run_round self.round_config
      → Respects dag.tasks s
      → auction_round self dag (offered_tasks dag s) (idle_robots s) s ≡ ok s1
      → Respects dag.tasks s1
  unfolding auction_round
  auction_round-Respects s s1 keyed distinct honest h runs =
      let (tasks, found, runs1) = >>=-eq-ok (tasks_of dag (offered_tasks dag s)) _ runs in
      let (benefits, offered_rows, runs2) =
        >>=-eq-ok (round_benefits self (idle_robots s) tasks) _ runs1 in
      let (result, ran, runs3) =
        >>=-eq-ok (self.run_round s.rounds benefits self.round_config) _ runs2 in
      let given =
        round_benefits-Given dag distinct self s tasks benefits keyed found offered_rows in
      dispatch_all-Respects result.assignment
        (record s { rounds = suc s.rounds; messages = s.messages + result.messages_sent }) s1
        (record {
          done = h.done;
          going = h.going;
          waits = h.waits;
          lasts = h.lasts;
          begun = h.begun;
        })
        (All-mono _ _ (λ item o t same. given t (o t same)) result.assignment
          (honest s.rounds benefits result
            (round_benefits-IsDistinct self (idle_robots s) tasks benefits offered_rows) ran))
        runs3
