-- ===== src/Allocator/Idle.antt =====
-- The idle robots and the tasks that a round is about.
use distributed_mobile_robot.Base.{
  ap, ◌∙◌, suc, ◌<◌, ℤ, Bool, true, not, ◌&&◌, ◌≡◌, refl, sym, subst, inl, inr, List, [], ◌∷◌,
  Option, none, some, ok, >>=-eq-ok, ok_inj, All, In, Apart, contains, select, length, Bool-cases,
  arith,
}
use distributed_mobile_robot.Base.Dict.{Dict, get, keys, is_some, or_key_error, AllItems}
use distributed_mobile_robot.Types.{AgentId, TaskId, Task}
use distributed_mobile_robot.Dag.{TaskDag}
use distributed_mobile_robot.Dag.Missing.{In-contains}
use distributed_mobile_robot.Benefits.{RobotState}
use distributed_mobile_robot.Allocator.{Simulation, idle_robots, tasks_of}
use distributed_mobile_robot.Allocator.Loop.{has_none}
use distributed_mobile_robot.Allocator.Counted.{robot_ids}

pub some_there : {A : Type 0} (xs : List A) → not (has_none xs) ≡ true → 0 < length xs
some_there [] h = absurd (cc)
some_there (x ∷ xs) h = omega arith

pub right_of : (a b : Bool) → (a && b) ≡ true → b ≡ true
right_of a b h = ground arith

pub tasks_of-length :
    (dag : TaskDag) (ks : List TaskId) (ts : List Task)
    → tasks_of dag ks ≡ ok ts
    → length ts ≡ length ks
unfolding tasks_of
tasks_of-length dag [] ts runs = ap length (sym (ok_inj [] ts runs))
tasks_of-length dag (k ∷ ks) ts runs =
    let (t, known, runs1) = >>=-eq-ok (or_key_error (get k dag.tasks)) _ runs in
    let (rest, there, runs2) = >>=-eq-ok (tasks_of dag ks) _ runs1 in
    ap length (sym (ok_inj (t ∷ rest) ts runs2)) ∙ ap suc (tasks_of-length dag ks rest there)

pub select-ids :
    (keep : RobotState → Bool) (rs : List RobotState)
    → Apart (robot_ids rs)
    → Apart (robot_ids (select keep rs))
select-ids keep [] h = tt
select-ids keep (r ∷ rs) h = elim (Bool-cases (keep r)) [
  | inl kept ↦ rw kept (λ a i. h.0 a (behind rs a i), select-ids keep rs h.1)
  | inr dropped ↦ rw dropped (select-ids keep rs h.1)
]
  where
    behind :
        (rs : List RobotState) (a : AgentId)
        → In a (robot_ids (select keep rs))
        → In a (robot_ids rs)
    behind [] a i = i
    behind (s ∷ rs) a i = elim (Bool-cases (keep s)) [
      | inl kept ↦ elim (rw kept at i) [ inl here ↦ inl here | inr there ↦ inr (behind rs a there) ]
      | inr dropped ↦ inr (behind rs a (rw dropped at i))
    ]

pub select-kept :
    {A : Type 0} (P Q : A → Type 0) (keep : A → Bool) (xs : List A)
    → ((x : A) → P x → keep x ≡ true → Q x)
    → All P xs
    → All Q (select keep xs)
select-kept P Q keep [] step h = tt
select-kept P Q keep (x ∷ xs) step h = elim (Bool-cases (keep x)) [
  | inl kept ↦ rw kept (step x h.0 kept, select-kept P Q keep xs step h.1)
  | inr dropped ↦ rw dropped (select-kept P Q keep xs step h.1)
]

pub All-trivial : {A : Type 0} (xs : List A) → All {0, 0} (λ _. Unit) xs
All-trivial [] = tt
All-trivial (x ∷ xs) = (tt, All-trivial xs)

pub absent : {A : Type 0} (o : Option A) → not (is_some o) ≡ true → o ≡ none
absent none h = refl
absent (some x) h = cc

pub left_of : (a b : Bool) → (a && b) ≡ true → a ≡ true
left_of a b h = ground arith

pub not_in : (k : ℤ) (ks : List ℤ) → not (contains k ks) ≡ true → In k ks → ⊥
not_in k ks out i = clash (contains k ks) out (In-contains k ks i)
  where
    clash : (b : Bool) → not b ≡ true → b ≡ true → ⊥
    clash b out there = ground arith

pub keyed_row :
    {V : Type 0} (P : ℤ → Type 0) (a : ℤ) (d : Dict V)
    → AllItems (λ k _. P k) d
    → In a (keys d)
    → P a
keyed_row P a [] h i = absurd i
keyed_row P a ((b, v) ∷ d) h (inl same) = subst P same h.0
keyed_row P a ((b, v) ∷ d) h (inr i) = keyed_row P a d h.1 i

pub idle_robots-idle :
    (s : Simulation) → All (λ (r : RobotState). get r.id s.running ≡ none) (idle_robots s)
idle_robots-idle s =
    select-kept (λ _. Unit) (λ (r : RobotState). get r.id s.running ≡ none)
      (λ (r : RobotState). not (is_some (get r.id s.running))) s.robots
      (λ r _ idle. absent (get r.id s.running) idle) (All-trivial s.robots)
