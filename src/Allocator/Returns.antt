-- ===== src/Allocator/Returns.antt =====
-- `allocate` returns or raises, of enough fuel.
use distributed_mobile_robot.Base.{
  ℕ, ◌*◌, ◌≤◌, ◌<◌, pos, ltb_ℤ, Bool, false, not, ◌≡◌, refl, subst, ◌⊎◌, inl, inr, List, [], ◌∷◌,
  Option, none, some, Result, ok, err, Error, >>=-eq-ok, ok_inj, All, All-mono, Apart, select,
  length, Bool-cases, arith,
}
use distributed_mobile_robot.Base.Dict.{Dict, get, set, is_some, AllItems, AllItems-set}
use distributed_mobile_robot.Types.{Task, collaborative}
use distributed_mobile_robot.Dag.{task_dag, by_id}
use distributed_mobile_robot.Dag.Progress.{task_dag-tasks, task_dag-Ordered}
use distributed_mobile_robot.Benefits.{RobotState}
use distributed_mobile_robot.Allocator.{
  RepeatedRoundsAllocator, Reason, Simulation, AllocationResult, report_blocked, report_unsupported,
}
use distributed_mobile_robot.Allocator.Loop.{
  allocate_loop, allocate_from, allocate, split_tasks, simulation, finished,
}
use distributed_mobile_robot.Allocator.Reports.{by_id-length}
use distributed_mobile_robot.Allocator.Order.{split_tasks-All}
use distributed_mobile_robot.Allocator.Counted.{robot_ids, Counted}
use distributed_mobile_robot.Allocator.Shares.{Shares, NoSentinels}
use distributed_mobile_robot.Allocator.Idle.{keyed_row}
use distributed_mobile_robot.Allocator.Ends.{allocate_loop-left}

-- A task that `allocate` can tell from a sentinel, with a set of prerequisites.
abbrev pub WellFormed : Task → Type 0
WellFormed t = Apart t.prerequisites × (ltb_ℤ t.id (pos 0) ≡ false)

by_id-ids :
    (ts : List Task) (d : Dict Task)
    → All (λ (t : Task). ltb_ℤ t.id (pos 0) ≡ false) ts
    → AllItems (λ k _. ltb_ℤ k (pos 0) ≡ false) d
    → AllItems (λ k _. ltb_ℤ k (pos 0) ≡ false) (by_id d ts)
unfolding by_id
by_id-ids [] d h kept = kept
by_id-ids (t ∷ ts) d h kept =
    by_id-ids ts (set t.id t d) h.1
      (AllItems-set (λ k _. ltb_ℤ k (pos 0) ≡ false) t.id t d h.0 kept)

length-select : {A : Type 0} (keep : A → Bool) (xs : List A) → length (select keep xs) ≤ length xs
length-select keep [] = omega arith
length-select keep (x ∷ xs) = elim (Bool-cases (keep x)) [
  | inl kept ↦ rw kept (omega (arith, length-select keep xs))
  | inr dropped ↦ rw dropped (omega (arith, length-select keep xs))
]

split_tasks-length :
    (tasks schedulable : List Task) (unallocated : Dict Reason)
    → split_tasks tasks ≡ ok (schedulable, unallocated)
    → length schedulable ≤ length tasks
unfolding split_tasks
split_tasks-length tasks schedulable unallocated runs =
    let (reported, blocked, runs1) =
      >>=-eq-ok (report_blocked tasks tasks (report_unsupported tasks [])) _ runs in
    let supported = select (λ (t : Task). not (collaborative t)) tasks in
    subst (λ (split : List Task × Dict Reason). length split.0 ≤ length tasks)
      (ok_inj _ (schedulable, unallocated) runs1)
      (omega (
        arith,
        length-select (λ (t : Task). not (is_some (get t.id reported))) supported,
        length-select (λ (t : Task). not (collaborative t)) tasks,
      ))

start-Counted :
    (tasks : Dict Task) (robots : List RobotState) (unallocated : Dict Reason)
    → Apart (robot_ids robots)
    → Counted tasks (simulation robots unallocated)
start-Counted tasks robots unallocated ids = record {
  apart_done = tt;
  apart_works = tt;
  disjoint = λ k i. absurd i;
  known_done = λ k i. absurd i;
  known_works = λ k i. absurd i;
  distinct = tt;
  real = λ k i. absurd i;
  ids = ids;
}

finished-none : (o : Option Simulation) → ok (finished o) ≡ ok none → o ≡ none
finished-none none h = refl
finished-none (some s) h = absurd (cc)

allocate_from-ends :
    (fuel : ℕ) (self : RepeatedRoundsAllocator) (ts : List Task) (robots : List RobotState)
    (unallocated : Dict Reason)
    → Shares self.run_round self.round_config
    → Apart (robot_ids robots)
    → All WellFormed ts
    → 2 * length ts < fuel
    → allocate_from fuel self ts (simulation robots unallocated) ≡ ok none
    → ⊥
unfolding allocate_from
allocate_from-ends fuel self [] robots unallocated shares ids_differ sets enough runs = cc
allocate_from-ends fuel self (t ∷ ts) robots unallocated shares ids_differ sets enough runs =
    let start = simulation robots unallocated in
    let (dag, graph, runs1) = >>=-eq-ok (task_dag (t ∷ ts)) _ runs in
    let (ended, looped, runs2) =
      >>=-eq-ok (allocate_loop fuel self dag (length (t ∷ ts)) start) _ runs1 in
    let o =
      task_dag-Ordered (t ∷ ts) dag (All-mono WellFormed _ (λ t w. w.0) (t ∷ ts) sets) graph in
    let listed = task_dag-tasks (t ∷ ts) dag graph in
    let ids : NoSentinels dag.tasks = λ k i.
      keyed_row (λ k. ltb_ℤ k (pos 0) ≡ false) k dag.tasks
        (subst (AllItems (λ k _. ltb_ℤ k (pos 0) ≡ false)) listed
          (by_id-ids (t ∷ ts) [] (All-mono WellFormed _ (λ t w. w.1) (t ∷ ts) sets) tt))
        i in
    let few : length dag.tasks ≤ length (t ∷ ts) =
      subst (λ (d : Dict Task). length d ≤ length (t ∷ ts)) listed
        (omega (arith, by_id-length (t ∷ ts) [])) in
    let left =
      allocate_loop-left self dag o.keyed o.distinct ids shares fuel (length (t ∷ ts)) start
        (start-Counted dag.tasks robots unallocated ids_differ)
        (rw (finished-none ended runs2) at looped) in
    omega (arith, few, left, enough)

outcome-cases :
    (outcome : Result (Option AllocationResult))
    → (outcome ≡ ok none → ⊥)
    → ((why : Error) × (outcome ≡ err why))
      ⊎ ((result : AllocationResult) × (outcome ≡ ok (some result)))
outcome-cases (err why) ends = inl (why, refl)
outcome-cases (ok none) ends = absurd (ends refl)
outcome-cases (ok (some result)) ends = inr (result, refl)

-- Let each round, of the allocator's config and rows of different agents, give every agent of the
-- rows a task of the rows, and no task to two of them. Let the robots have different ids, each
-- task's prerequisites be different and no task's id be negative. Then the loop of allocate ends:
-- with more fuel than twice the number of the tasks, allocate raises an error or returns a result.
pub allocate_lem :
    (fuel : ℕ) (self : RepeatedRoundsAllocator) (robots : List RobotState) (tasks : List Task)
    → Shares self.run_round self.round_config
    → Apart (robot_ids robots)
    → All WellFormed tasks
    → 2 * length tasks < fuel
    → ((why : Error) × (allocate fuel self robots tasks ≡ err why))
      ⊎ ((result : AllocationResult) × (allocate fuel self robots tasks ≡ ok (some result)))
unfolding allocate
allocate_lem fuel self robots tasks shares ids_differ sets enough =
    outcome-cases (allocate fuel self robots tasks) λ runs.
      let ((schedulable, reported), split, runs1) = >>=-eq-ok (split_tasks tasks) _ runs in
      let fewer = split_tasks-length tasks schedulable reported split in
      allocate_from-ends fuel self schedulable robots reported shares ids_differ
        (split_tasks-All WellFormed tasks schedulable reported sets split)
        (omega (arith, enough, fewer)) runs1
