-- ===== src/Allocator/Lower.antt =====
-- No schedule is shorter than the critical path.
use distributed_mobile_robot.Base.{
  ℕ, ℤ, pos, ltb_ℤ, max_ℤ, ◌≤ℤ◌, int_laws, true, ◌≡◌, sym, subst, inl, inr, List, [], ◌∷◌, some, ok,
  ok_inj, ◌∙◌, Apart, All-mono, In, All, All-both, arith,
}
use distributed_mobile_robot.Base.Dict.{Dict, get, keys}
use distributed_mobile_robot.Types.{TaskId, Task}
use distributed_mobile_robot.Dag.{TaskDag, task_dag}
use distributed_mobile_robot.Cpm.{critical_path_length}
use distributed_mobile_robot.Cpm.Returns.{IsCritical, Chain-listed, critical_path_length_lem}
use distributed_mobile_robot.Allocator.Ready.{Honest}
use distributed_mobile_robot.Allocator.Order.{WellTimed, split_tasks-All, allocate-Respects}
use distributed_mobile_robot.Cpm.Chains.{Chain, first, then_task}
use distributed_mobile_robot.Benefits.{RobotState}
use distributed_mobile_robot.Allocator.{
  RepeatedRoundsAllocator, ScheduledTask, AllocationResult, Reason, Simulation,
}
use distributed_mobile_robot.Allocator.Loop.{allocate, split_tasks, latest, makespan}
use distributed_mobile_robot.Allocator.Accounted.{task_ids}
use distributed_mobile_robot.Allocator.Respect.{EndsBy, Waits, Lasts, Respects}

max_above : (a b : ℤ) → a ≤ℤ max_ℤ a b × b ≤ℤ max_ℤ a b
max_above a b = ground arith

-- An entry of the task that satisfies what all entries do.
entry_of :
    (P : ScheduledTask → Type 0) (k : TaskId) (time : ℤ) (es : List ScheduledTask)
    → All P es
    → EndsBy k time es
    → (e : ScheduledTask) × P e × (e.task_id ≡ k) × (e.finish ≤ℤ time)
entry_of P k time [] h i = absurd i
entry_of P k time (e ∷ es) h (inl (same, ends)) = (e, h.0, same, ends)
entry_of P k time (e ∷ es) h (inr i) = entry_of P k time es h.1 i

module _ (tasks : Dict Task) (es : List ScheduledTask) (waits : All (Waits tasks es) es)
    (lasts : All (Lasts tasks) es) where
  -- A chain takes its time.
  pub Chain-EndsBy :
      (k : TaskId) (total time : ℤ) → Chain tasks k total → EndsBy k time es → total ≤ℤ time
  Chain-EndsBy k total time (first t known no_ps same) ends =
      let (e, (start, forth, long), id, le) = entry_of (Lasts tasks) k time es lasts ends in
      let takes = long t (subst (λ x. get x tasks ≡ some t) (sym id) known) in
      rw same (omega (int_laws, start, takes, le))
  Chain-EndsBy k total time (then_task t p before known i c same) ends =
      let (e, (long, wait), id, le) =
        entry_of (λ e. Lasts tasks e × Waits tasks es e) k time es
          (All-both (Lasts tasks) (Waits tasks es) es lasts waits) ends in
      let here = subst (λ x. get x tasks ≡ some t) (sym id) known in
      let behind = Chain-EndsBy p before e.start c (wait t here p i) in
      let takes = long.2 t here in rw same (omega (int_laws, behind, takes, le))

latest-above :
    (time : ℤ) (es : List ScheduledTask)
    → time ≤ℤ latest time es × All (λ (e : ScheduledTask). e.finish ≤ℤ latest time es) es
latest-above time [] = (omega arith, tt)
latest-above time (e ∷ es) =
    let (le, all) = latest-above (max_ℤ time e.finish) es in
    let (left, right) = max_above time e.finish in
    (omega (arith, le, left), (omega (arith, le, right), all))

makespan-above : (es : List ScheduledTask) → All (λ (e : ScheduledTask). e.finish ≤ℤ makespan es) es
makespan-above [] = tt
makespan-above (e ∷ es) = latest-above e.finish es

makespan_nonneg :
    (tasks : Dict Task) (es : List ScheduledTask) → All (Lasts tasks) es → pos 0 ≤ℤ makespan es
makespan_nonneg tasks [] h = omega arith
makespan_nonneg tasks (e ∷ es) h =
    let ends = (makespan-above (e ∷ es)).0 in omega (arith, h.0.0, h.0.1, ends)

task_ids-EndsBy :
    (k : TaskId) (time : ℤ) (es : List ScheduledTask)
    → In k (task_ids es)
    → All (λ (e : ScheduledTask). e.finish ≤ℤ time) es
    → EndsBy k time es
task_ids-EndsBy k time [] i h = absurd i
task_ids-EndsBy k time (e ∷ es) (inl same) h = inl (same, h.0)
task_ids-EndsBy k time (e ∷ es) (inr i) h = inr (task_ids-EndsBy k time es i h.1)

Respects-critical :
    (tasks : Dict Task) (s : Simulation) (longest : ℤ)
    → Respects tasks s
    → IsCritical tasks longest
    → ((k : TaskId) → In k (keys tasks) → In k (task_ids s.schedule))
    → longest ≤ℤ makespan s.schedule
Respects-critical tasks s longest h c all = elim (c.reached) [
  | inl (no_tasks, zero_longest) ↦ rw zero_longest (makespan_nonneg tasks s.schedule h.lasts)
  | inr (k, chain) ↦
      Chain-EndsBy tasks s.schedule h.waits h.lasts k longest (makespan s.schedule) chain (
        task_ids-EndsBy k (makespan s.schedule) s.schedule
          (all k (Chain-listed tasks k longest chain)) (makespan-above s.schedule))
]

-- Let the round runner, of the allocator's config and rows of different agents, assign only tasks
-- of these rows, let no travel and no task take less than no time, and let each task's
-- prerequisites be different. If allocate returns and its schedule has an entry of every
-- schedulable task, then its makespan is no less than the critical path of the graph of these
-- tasks.
pub critical_path-le-makespan :
    (fuel : ℕ) (self : RepeatedRoundsAllocator) (robots : List RobotState)
    (tasks schedulable : List Task) (unallocated : Dict Reason) (dag : TaskDag)
    (result : AllocationResult) (longest : ℤ)
    → Honest self.run_round self.round_config
    → ((p q : List ℤ) (speed : ℤ)
        → ltb_ℤ (pos 0) speed ≡ true
        → pos 0 ≤ℤ self.distance_over p q speed)
    → All WellTimed tasks
    → split_tasks tasks ≡ ok (schedulable, unallocated)
    → task_dag schedulable ≡ ok dag
    → allocate fuel self robots tasks ≡ ok (some result)
    → ((k : TaskId) → In k (keys dag.tasks) → In k (task_ids result.schedule))
    → critical_path_length dag ≡ ok longest
    → longest ≤ℤ result.makespan
critical_path-le-makespan fuel self robots tasks schedulable unallocated dag result longest honest
      distances sets split graph runs all path =
    let (s, same, h) =
      allocate-Respects fuel self robots tasks schedulable unallocated dag result honest distances
        sets split graph runs in
    let apart =
      split_tasks-All (λ (t : Task). Apart t.prerequisites) tasks schedulable unallocated
        (All-mono WellTimed _ (λ t w. w.0) tasks sets) split in
    let (most, path', c) = critical_path_length_lem schedulable dag apart graph in
    let agree : most ≡ longest = ok_inj most longest (sym path' ∙ path) in
    subst (λ (r : AllocationResult). longest ≤ℤ r.makespan) same
      (Respects-critical dag.tasks s longest h (subst (IsCritical dag.tasks) agree c)
        (λ k i. subst (λ (r : AllocationResult). In k (task_ids r.schedule)) (sym same) (all k i)))
