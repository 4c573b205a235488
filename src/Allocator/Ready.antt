-- ===== src/Allocator/Ready.antt =====
-- A round gives out only tasks whose prerequisites are completed.
use distributed_mobile_robot.Base.{
  length, ℕ, ℤ, pos, negsuc, leb_ℤ, ltb_ℤ, Bool, true, not, ◌&&◌, ◌≡◌, subst, ◌⊎◌, inl, inr, List,
  [], ◌∷◌, Option, some, ok, All, All-mono, In, contains, is_subset, select, select-All, sorted,
  insert_sorted, Bool-cases, arith,
}
use distributed_mobile_robot.Base.Dict.{Dict, get, keys, AllItems, IsDistinct, AllItems-of_get}
use distributed_mobile_robot.Types.{TaskId, Task, RoundConfig, RoundResult}
use distributed_mobile_robot.Dag.{TaskDag, is_available, available}
use distributed_mobile_robot.Dag.Accepted.{Keyed}
use distributed_mobile_robot.Dag.Missing.{contains-In}
use distributed_mobile_robot.Allocator.{
  RepeatedRoundsAllocator, RoundRunner, Simulation, offered_tasks, in_progress, idle_robots,
  round_benefits, tasks_of,
}
use distributed_mobile_robot.Allocator.Offers.{Offered, round_benefits-Offered}

-- A round assigns only tasks that it was offered.
abbrev pub Honest : RoundRunner → RoundConfig → Type 0
Honest run_round config =
    (calls : ℕ) (benefits : Dict (Dict ℤ)) (result : RoundResult)
    → IsDistinct benefits
    → run_round calls benefits config ≡ ok result
    → AllItems (λ _ choice. (t : TaskId) → choice ≡ some t → Offered benefits t) result.assignment

module _ (P : ℤ → Type 0) where
  insert_sorted-All : (k : ℤ) (xs : List ℤ) → P k → All P xs → All P (insert_sorted k xs)
  unfolding insert_sorted
  insert_sorted-All k [] p h = (p, tt)
  insert_sorted-All k (x ∷ xs) p h = elim (Bool-cases (leb_ℤ k x)) [
    | inl first ↦ rw first (p, h)
    | inr later ↦ rw later (h.0, insert_sorted-All k xs p h.1)
  ]

  pub sorted-All : (xs : List ℤ) → All P xs → All P (sorted xs)
  unfolding sorted
  sorted-All [] h = tt
  sorted-All (x ∷ xs) h = insert_sorted-All x (sorted xs) h.0 (sorted-All xs h.1)

  pub keys-select-All :
      (keep : ℤ × Task → Bool) (d : Dict Task)
      → AllItems (λ k t. keep (k, t) ≡ true → P k) d
      → All P (keys (select keep d))
  keys-select-All keep [] h = tt
  keys-select-All keep (item ∷ d) h = elim (Bool-cases (keep item)) [
    | inl kept ↦ rw kept (h.0 kept, keys-select-All keep d h.1)
    | inr dropped ↦ rw dropped (keys-select-All keep d h.1)
  ]

is_subset-In :
    (ps completed : List TaskId)
    → is_subset ps completed ≡ true
    → (p : TaskId) → In p ps
    → In p completed
is_subset-In [] completed h p i = absurd i
is_subset-In (q ∷ ps) completed h p i = elim (Bool-cases (contains q completed)) [
  | inl there ↦ elim i [
    | inl same ↦ subst (λ x. In x completed) same (contains-In q completed there)
    | inr later ↦ is_subset-In ps completed (rw there at h) p later
  ]
  | inr absent ↦ absurd (cc (rw absent at h))
]

same_task : (o : Option Task) (t u : Task) → o ≡ some t → o ≡ some u → t ≡ u
same_task o t u first second = cc

and-right : (a b : Bool) → (a && b) ≡ true → b ≡ true
and-right a b h = ground arith

pub below_zero : (k : ℕ) → ltb_ℤ (negsuc k) (pos 0) ≡ true
below_zero k = ground arith

-- All prerequisites of the task are completed.
abbrev pub Ready : TaskDag → List TaskId → TaskId → Type 0
Ready dag completed k =
    (t : Task) → get k dag.tasks ≡ some t → (p : TaskId) → In p t.prerequisites → In p completed

module _ (dag : TaskDag) (distinct : IsDistinct dag.tasks) where
  available-Ready : (completed : List TaskId) → All (Ready dag completed) (available dag completed)
  unfolding available
  available-Ready completed =
      keys-select-All (Ready dag completed) (is_available completed) dag.tasks (
        AllItems-of_get _ dag.tasks distinct λ k t found can u same p i.
          let equal : t ≡ u = same_task (get k dag.tasks) t u found same in
          is_subset-In u.prerequisites completed
            (subst (λ (v : Task). is_subset v.prerequisites completed ≡ true) equal
              (and-right (not (contains k completed)) (is_subset t.prerequisites completed) can))
            p i)

  offered_tasks-Ready : (s : Simulation) → All (Ready dag s.completed) (offered_tasks dag s)
  offered_tasks-Ready s = sorted-All (Ready dag s.completed) _ (
      select-All (Ready dag s.completed) (λ k. not (contains k (in_progress s))) _
        (available-Ready s.completed))

  -- What a task of a round is: a sentinel, or ready.
  abbrev pub Given : List TaskId → TaskId → Type 0
  Given completed k = (ltb_ℤ k (pos 0) ≡ true) ⊎ Ready dag completed k

  -- The rows of a round of the simulation offer nothing else.
  pub round_benefits-Given :
      (self : RepeatedRoundsAllocator) (s : Simulation) (tasks : List Task)
      (benefits : Dict (Dict ℤ))
      → Keyed dag.tasks
      → tasks_of dag (offered_tasks dag s) ≡ ok tasks
      → round_benefits self (idle_robots s) tasks ≡ ok benefits
      → (k : TaskId) → Offered benefits k
      → Given s.completed k
  round_benefits-Given self s tasks benefits keyed found runs k =
      round_benefits-Offered (Given s.completed) (length (idle_robots s))
        (λ j _. inl (below_zero j)) self dag (idle_robots s) (offered_tasks dag s) tasks benefits k
        keyed
        (All-mono (Ready dag s.completed) (Given s.completed) (λ j r. inr r) _
          (offered_tasks-Ready s))
        (omega arith) found runs
