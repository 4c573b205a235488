-- ===== src/Allocator/Order.antt =====
-- The schedule that `allocate` returns.
use distributed_mobile_robot.Base.{
  arith, ◌⊎◌, ℕ, ℤ, pos, ltb_ℤ, ◌≤ℤ◌, true, not, ◌≡◌, refl, subst, inl, inr, List, [], ◌∷◌, Option,
  none, some, ok, >>=-eq-ok, ok_inj, All, All-mono, select-All, Apart, length,
}
use distributed_mobile_robot.Base.Dict.{Dict, get, set, is_some, AllItems, AllItems-set}
use distributed_mobile_robot.Types.{Task, collaborative}
use distributed_mobile_robot.Dag.{TaskDag, by_id, task_dag}
use distributed_mobile_robot.Dag.Progress.{task_dag-tasks, task_dag-Ordered}
use distributed_mobile_robot.Benefits.{RobotState}
use distributed_mobile_robot.Allocator.{
  RepeatedRoundsAllocator, AllocationResult, Reason, Simulation, report_blocked, report_unsupported,
}
use distributed_mobile_robot.Allocator.Loop.{
  allocate_loop, finished, allocate_from, allocate, split_tasks, simulation, result_of,
}
use distributed_mobile_robot.Allocator.Ready.{Honest}
use distributed_mobile_robot.Allocator.Respect.{Waits, Respects, Timed}
use distributed_mobile_robot.Allocator.Passes.{allocate_loop-Respects}

by_id-durations :
    (ts : List Task) (d : Dict Task)
    → All (λ (t : Task). pos 0 ≤ℤ t.duration) ts
    → AllItems (λ _ t. pos 0 ≤ℤ t.duration) d
    → AllItems (λ _ t. pos 0 ≤ℤ t.duration) (by_id d ts)
unfolding by_id
by_id-durations [] d h kept = kept
by_id-durations (t ∷ ts) d h kept =
    by_id-durations ts (set t.id t d) h.1
      (AllItems-set (λ _ t. pos 0 ≤ℤ t.duration) t.id t d h.0 kept)

-- What `allocate` expects of tasks: prerequisites are a set, and no task takes less than no time.
abbrev pub WellTimed : Task → Type 0
WellTimed t = Apart t.prerequisites × pos 0 ≤ℤ t.duration

pub split_tasks-All :
    (P : Task → Type 0) (tasks schedulable : List Task) (unallocated : Dict Reason)
    → All P tasks
    → split_tasks tasks ≡ ok (schedulable, unallocated)
    → All P schedulable
unfolding split_tasks
split_tasks-All P tasks schedulable unallocated h runs =
    let (reported, blocked, runs1) =
      >>=-eq-ok (report_blocked tasks tasks (report_unsupported tasks [])) _ runs in
    subst (λ (split : List Task × Dict Reason). All P split.0)
      (ok_inj _ (schedulable, unallocated) runs1)
      (select-All P (λ t. not (is_some (get t.id reported))) _
        (select-All P (λ t. not (collaborative t)) tasks h))

start-Respects :
    (tasks : Dict Task) (robots : List RobotState) (unallocated : Dict Reason)
    → Respects tasks (simulation robots unallocated)
start-Respects tasks robots unallocated = record {
  done = λ k i. absurd i;
  going = tt;
  waits = tt;
  lasts = tt;
  begun = omega arith;
}

-- Each entry of the schedule starts no earlier than its task's prerequisites end.
abbrev pub InOrder : Dict Task → AllocationResult → Type 0
InOrder tasks result = All (Waits tasks result.schedule) result.schedule

pub same_result :
    (s : Simulation) (result : AllocationResult)
    → ok (some (result_of s)) ≡ ok (some result)
    → result_of s ≡ result
same_result s result h = cc

pub finished-some :
    (ended : Option Simulation) (result : AllocationResult)
    → ok (finished ended) ≡ ok (some result)
    → (s : Simulation) × (ended ≡ some s) × (result_of s ≡ result)
finished-some none result h = cc
finished-some (some s) result h = (s, refl, cc)

-- The state that the result was read from: the end of the loop, or the start where no task is left.
pub allocate_from-some :
    (fuel : ℕ) (self : RepeatedRoundsAllocator) (ts : List Task) (start : Simulation)
    (dag : TaskDag) (result : AllocationResult)
    → task_dag ts ≡ ok dag
    → allocate_from fuel self ts start ≡ ok (some result)
    → (s : Simulation) × (result_of s ≡ result)
      × (((ts ≡ []) × (start ≡ s)) ⊎ (allocate_loop fuel self dag (length ts) start ≡ ok (some s)))
unfolding allocate_from
allocate_from-some fuel self [] start dag result graph runs =
    (start, same_result start result runs, inl (refl, refl))
allocate_from-some fuel self (t ∷ ts) start dag result graph runs =
    let runs1 = rw graph at runs in
    let (ended, looped, runs2) =
      >>=-eq-ok (allocate_loop fuel self dag (length (t ∷ ts)) start) _ runs1 in
    let (s, ends, same) = finished-some ended result runs2 in (s, same, inr (rw ends at looped))

allocate_from-Respects :
    (fuel : ℕ) (self : RepeatedRoundsAllocator) (ts : List Task) (start : Simulation)
    (dag : TaskDag) (result : AllocationResult)
    → Honest self.run_round self.round_config
    → Timed self dag.tasks
    → All (λ (t : Task). Apart t.prerequisites) ts
    → Respects dag.tasks start
    → task_dag ts ≡ ok dag
    → allocate_from fuel self ts start ≡ ok (some result)
    → (s : Simulation) × (result_of s ≡ result) × Respects dag.tasks s
allocate_from-Respects fuel self ts start dag result honest timed sets h graph runs =
    let (s, same, how) = allocate_from-some fuel self ts start dag result graph runs in
    let o = task_dag-Ordered ts dag sets graph in
    (
      s,
      same,
      elim how [
        | inl (none_left, begun) ↦ subst (Respects dag.tasks) begun h
        | inr looped ↦
            allocate_loop-Respects dag self fuel (length ts) start s o.keyed o.distinct timed honest
              h looped
      ],
    )

pub allocate-Respects :
    (fuel : ℕ) (self : RepeatedRoundsAllocator) (robots : List RobotState)
    (tasks schedulable : List Task) (unallocated : Dict Reason) (dag : TaskDag)
    (result : AllocationResult)
    → Honest self.run_round self.round_config
    → ((p q : List ℤ) (speed : ℤ)
        → ltb_ℤ (pos 0) speed ≡ true
        → pos 0 ≤ℤ self.distance_over p q speed)
    → All WellTimed tasks
    → split_tasks tasks ≡ ok (schedulable, unallocated)
    → task_dag schedulable ≡ ok dag
    → allocate fuel self robots tasks ≡ ok (some result)
    → (s : Simulation) × (result_of s ≡ result) × Respects dag.tasks s
unfolding allocate
allocate-Respects fuel self robots tasks schedulable unallocated dag result honest distances sets
      split graph runs =
    let runs1 = rw split at runs in
    let timed = split_tasks-All WellTimed tasks schedulable unallocated sets split in
    let durations =
      by_id-durations schedulable [] (All-mono WellTimed _ (λ t w. w.1) schedulable timed) tt in
    allocate_from-Respects fuel self schedulable (simulation robots unallocated) dag result honest
      (record {
        durations =
            subst (AllItems (λ _ t. pos 0 ≤ℤ t.duration)) (task_dag-tasks schedulable dag graph)
              durations;
        distances = distances;
      })
      (All-mono WellTimed _ (λ t w. w.0) schedulable timed)
      (start-Respects dag.tasks robots unallocated) graph runs1

-- Let the round runner, of the allocator's config and rows of different agents, assign only tasks
-- of these rows, let no travel and no task take less than no time, and let each task's
-- prerequisites be different. If allocate returns, then each entry of its schedule starts no
-- earlier than the end of an entry of every prerequisite of its task in the graph of the
-- schedulable tasks.
pub allocate-InOrder :
    (fuel : ℕ) (self : RepeatedRoundsAllocator) (robots : List RobotState)
    (tasks schedulable : List Task) (unallocated : Dict Reason) (dag : TaskDag)
    (result : AllocationResult)
    → Honest self.run_round self.round_config
    → ((p q : List ℤ) (speed : ℤ)
        → ltb_ℤ (pos 0) speed ≡ true
        → pos 0 ≤ℤ self.distance_over p q speed)
    → All WellTimed tasks
    → split_tasks tasks ≡ ok (schedulable, unallocated)
    → task_dag schedulable ≡ ok dag
    → allocate fuel self robots tasks ≡ ok (some result)
    → InOrder dag.tasks result
allocate-InOrder fuel self robots tasks schedulable unallocated dag result honest distances sets
      split graph runs =
    let (s, same, h) =
      allocate-Respects fuel self robots tasks schedulable unallocated dag result honest distances
        sets split graph runs in
    subst (InOrder dag.tasks) same h.waits
