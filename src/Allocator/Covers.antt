-- ===== src/Allocator/Covers.antt =====
-- Each task is scheduled or reported, whatever the rounds assign.
use distributed_mobile_robot.Base.{
  ℕ, ltb, ◌≤◌, false, not, ◌≡◌, refl, sym, subst, ◌⊎◌, inl, inr, List, [], ◌∷◌, some, ok, >>=-eq-ok,
  In, contains, length, Bool-cases, arith,
}
use distributed_mobile_robot.Base.Dict.{Dict, keys, length-keys}
use distributed_mobile_robot.Types.{TaskId, Task}
use distributed_mobile_robot.Dag.{TaskDag, task_dag}
use distributed_mobile_robot.Dag.Missing.{contains-In}
use distributed_mobile_robot.Dag.Visit.{TaskIn}
use distributed_mobile_robot.Dag.Accepted.{fills}
use distributed_mobile_robot.Benefits.{RobotState}
use distributed_mobile_robot.Allocator.{
  RepeatedRoundsAllocator, AllocationResult, Reason, no_progress, Simulation,
}
use distributed_mobile_robot.Allocator.Loop.{
  allocate_loop, allocate_from, allocate, split_tasks, simulation, result_of,
}
use distributed_mobile_robot.Allocator.Endings.{left_over, stopped_at, allocate_loop-IsEnd}
use distributed_mobile_robot.Dag.Progress.{task_dag-tasks}
use distributed_mobile_robot.Allocator.Order.{finished-some, same_result}
use distributed_mobile_robot.Allocator.Accounted.{
  task_ids, Accounted, auction_round-Accounted, complete_earliest-Accounted,
}
use distributed_mobile_robot.Allocator.Reports.{
  IsReported, report_all-keeps, report_all-IsReported, split_tasks-covers, by_id-In, by_id-length,
  In-sorted, In-select,
}

-- The result has an entry of the task, or a reason.
abbrev pub Covers : AllocationResult → TaskId → Type 0
Covers result k = In k (task_ids result.schedule) ⊎ IsReported k result.unallocated

module _ (dag : TaskDag) (reported : Dict Reason) where
  -- When as many tasks are completed as there are, all are.
  completed_all :
      (total : ℕ) (s : Simulation) (k : TaskId)
      → Accounted dag.tasks reported s
      → length dag.tasks ≤ total
      → ltb (length s.completed) total ≡ false
      → In k (keys dag.tasks)
      → Covers (result_of s) k
  completed_all total s k h enough over i = inl (
      h.listed k (
        fills s.completed (keys dag.tasks) h.apart h.known
          (ground (arith, over, enough, length-keys dag.tasks)) k i))

  stopped-Covers :
      (s : Simulation) (k : TaskId)
      → Accounted dag.tasks reported s
      → In k (keys dag.tasks)
      → Covers (result_of (stopped_at dag s)) k
  stopped-Covers s k h i = elim (Bool-cases (contains k s.completed)) [
    | inl over ↦ inl (h.listed k (contains-In k s.completed over))
    | inr open_task ↦ inr (
        report_all-IsReported k no_progress (left_over dag s) s.unallocated (
          In-sorted k _ (
            In-select (λ j. not (contains j s.completed)) k (keys dag.tasks) i
              (rw open_task refl))))
  ]

  pub allocate_loop-Covers :
      (self : RepeatedRoundsAllocator) (fuel total : ℕ) (s ended : Simulation)
      → Accounted dag.tasks reported s
      → length dag.tasks ≤ total
      → allocate_loop fuel self dag total s ≡ ok (some ended)
      → ((k : TaskId) → In k (keys dag.tasks) → Covers (result_of ended) k)
        × ((k : TaskId) → IsReported k reported → IsReported k ended.unallocated)
  allocate_loop-Covers self fuel total s ended h enough runs =
      elim (allocate_loop-IsEnd self dag (Accounted dag.tasks reported)
        (auction_round-Accounted self dag reported) (complete_earliest-Accounted self dag reported)
        fuel total s ended h runs) [
          | inl (kept, over) ↦ (
            λ k i. completed_all total ended k kept enough over i,
            λ k why. subst (IsReported k) (sym kept.same_reports) why,
          )
          | inr (s0, kept, same) ↦ (
            λ k i.
                subst (λ (x : Simulation). Covers (result_of x) k) same
                  (stopped-Covers s0 k kept i),
            λ k why.
                subst (λ (x : Simulation). IsReported k x.unallocated) same
                  (report_all-keeps k no_progress (left_over dag s0) s0.unallocated
                    (subst (IsReported k) (sym kept.same_reports) why)),
          )
        ]

allocate_from-Covers :
    (fuel : ℕ) (self : RepeatedRoundsAllocator) (robots : List RobotState) (ts : List Task)
    (reported : Dict Reason) (result : AllocationResult)
    → allocate_from fuel self ts (simulation robots reported) ≡ ok (some result)
    → ((t : Task) → TaskIn t ts → Covers result t.id)
      × ((k : TaskId) → IsReported k reported → IsReported k result.unallocated)
unfolding allocate_from
allocate_from-Covers fuel self robots [] reported result runs =
    let same = same_result (simulation robots reported) result runs in
    (
      λ t i. absurd i,
      λ k why. subst (λ (r : AllocationResult). IsReported k r.unallocated) same why,
    )
allocate_from-Covers fuel self robots (t ∷ ts) reported result runs =
    let start = simulation robots reported in
    let (dag, graph, runs1) = >>=-eq-ok (task_dag (t ∷ ts)) _ runs in
    let (ended, looped, runs2) =
      >>=-eq-ok (allocate_loop fuel self dag (length (t ∷ ts)) start) _ runs1 in
    let (s, ends, same) = finished-some ended result runs2 in
    let listed = task_dag-tasks (t ∷ ts) dag graph in
    let enough : length dag.tasks ≤ length (t ∷ ts) =
      subst (λ (d : Dict Task). length d ≤ length (t ∷ ts)) listed
        (omega (arith, by_id-length (t ∷ ts) [])) in
    let (all, kept) =
      allocate_loop-Covers dag reported self fuel (length (t ∷ ts)) start s
        (record {
          apart = tt;
          known = λ k i. absurd i;
          listed = λ k i. absurd i;
          going = tt;
          same_reports = refl;
        })
        enough (rw ends at looped) in
    (
      λ u i.
          subst (λ r. Covers r u.id) same
            (all u.id
              (subst (λ (d : Dict Task). In u.id (keys d)) listed (by_id-In u (t ∷ ts) [] i))),
      λ k why. subst (λ (r : AllocationResult). IsReported k r.unallocated) same (kept k why),
    )

-- If allocate returns, then each of the given tasks has an entry in the schedule or a reason among
-- the unallocated ones, whatever the rounds assign.
pub allocate-Covers :
    (fuel : ℕ) (self : RepeatedRoundsAllocator) (robots : List RobotState) (tasks : List Task)
    (result : AllocationResult) (t : Task)
    → allocate fuel self robots tasks ≡ ok (some result)
    → TaskIn t tasks
    → Covers result t.id
unfolding allocate
allocate-Covers fuel self robots tasks result t runs i =
    let ((schedulable, reported), split, runs1) = >>=-eq-ok (split_tasks tasks) _ runs in
    let (all, kept) = allocate_from-Covers fuel self robots schedulable reported result runs1 in
    elim (split_tasks-covers tasks schedulable reported t split i) [
      | inl listed ↦ all t listed
      | inr why ↦ inr (kept t.id why)
    ]
