-- ===== src/Allocator/Counted.antt =====
-- A round gives tasks that nobody has yet to robots that are idle, and a completion ends one of them.
use distributed_mobile_robot.Base.{
  ==ℤ_iff, Bool, not, ◌&&◌, arith, ℕ, suc, ℤ, pos, ltb_ℤ, ◌+ℤ◌, ◌==ℤ◌, true, false, if◌then◌else◌,
  ◌≡◌, refl, sym, ◌∙◌, subst, ap, ◌⊎◌, inl, inr, List, [], ◌∷◌, ◌++◌, Option, none, some, ok,
  >>=-eq-ok, ok_inj, In, In-append_one, Apart, map, Bool-cases, length,
}
use distributed_mobile_robot.Base.Dict.{
  is_some, Dict, get, keys, values, set, or_key_error, AllItems, IsDistinct, IsDistinct-set,
  get-set_ne,
}
use distributed_mobile_robot.Types.{AgentId, TaskId, Task}
use distributed_mobile_robot.Dag.{TaskDag}
use distributed_mobile_robot.Dag.Kahn.{Apart-append}
use distributed_mobile_robot.Benefits.{RobotState}
use distributed_mobile_robot.Harness.Optimal.{tasks_of as assigned}
use distributed_mobile_robot.Allocator.{
  RepeatedRoundsAllocator, Simulation, robot_by_id, put_robot, travel, dispatch,
}

abbrev pub works : Dict (TaskId × ℤ) → List TaskId
works running = map (λ (work : TaskId × ℤ). work.0) (values running)

abbrev pub robot_ids : List RobotState → List AgentId
robot_ids = map λ (r : RobotState). r.id

-- Completed tasks and tasks in progress are different tasks of the graph, and no sentinels.
pub record Counted (tasks : Dict Task) (s : Simulation) : Type 0 where
  pub apart_done : Apart s.completed
  pub apart_works : Apart (works s.running)
  pub disjoint : (k : TaskId) → In k s.completed → In k (works s.running) → ⊥
  pub known_done : (k : TaskId) → In k s.completed → In k (keys tasks)
  pub known_works : (k : TaskId) → In k (works s.running) → In k (keys tasks)
  pub distinct : IsDistinct s.running
  pub real : (k : TaskId) → In k (works s.running) → ltb_ℤ k (pos 0) ≡ false
  pub ids : Apart (robot_ids s.robots)

-- A task of the graph that nobody has taken up.
pub record Fresh (tasks : Dict Task) (s : Simulation) (k : TaskId) : Type 0 where
  pub real : ltb_ℤ k (pos 0) ≡ false
  pub known : In k (keys tasks)
  pub not_done : In k s.completed → ⊥
  pub not_running : In k (works s.running) → ⊥

pub set-absent :
    {V : Type 0} (k : ℤ) (v : V) (d : Dict V) → get k d ≡ none → set k v d ≡ d ++ (k, v) ∷ []
unfolding get set
set-absent k v [] h = refl
set-absent k v ((j, w) ∷ d) h = elim (Bool-cases (j ==ℤ k)) [
  | inl same ↦ absurd (cc (rw same at h))
  | inr other ↦ rw other (ap (λ rest. (j, w) ∷ rest) (set-absent k v d (rw other at h)))
]

works-append :
    (d : Dict (TaskId × ℤ)) (a : AgentId) (k : TaskId) (time : ℤ)
    → works (d ++ (a, (k, time)) ∷ []) ≡ works d ++ k ∷ []
works-append [] a k time = refl
works-append ((b, w) ∷ d) a k time = ap (λ (ks : List ℤ). w.0 ∷ ks) (works-append d a k time)

length-works_append : {V : Type 0} (d : List V) (v : V) → length (d ++ v ∷ []) ≡ suc (length d)
length-works_append [] v = refl
length-works_append (w ∷ d) v = ap suc (length-works_append d v)

pub put_robot-ids :
    (new : RobotState) (rs : List RobotState) → robot_ids (put_robot new rs) ≡ robot_ids rs
unfolding put_robot
put_robot-ids new [] = refl
put_robot-ids new (r ∷ rs) =
    elim (Bool-cases (r.id ==ℤ new.id && not (is_some (robot_by_id new.id rs)))) [
      | inl here ↦ rw here (ap (λ (i : ℤ). i ∷ robot_ids rs) (sym (same_id r new _ here)))
      | inr other ↦ rw other (ap (λ (ids : List ℤ). r.id ∷ ids) (put_robot-ids new rs))
    ]
  where
    same_id : (r new : RobotState) (b : Bool) → (r.id ==ℤ new.id && b) ≡ true → r.id ≡ new.id
    same_id r new b h = ground (arith, ==ℤ_iff r.id new.id, h)

-- How many tasks that are no sentinels are given out.
abbrev pub real_count : Dict (Option TaskId) → ℕ
real_count [] = 0
real_count ((a, none) ∷ rest) = real_count rest
real_count ((a, some t) ∷ rest) = if ltb_ℤ t (pos 0) then real_count rest else suc (real_count rest)

-- The agents are idle, and the tasks fresh.
pub record Choices (tasks : Dict Task) (s : Simulation) (choices : Dict (Option TaskId))
    : Type 0 where
  pub idle : AllItems (λ a _. get a s.running ≡ none) choices
  pub distinct : IsDistinct choices
  pub fresh :
      AllItems
        (λ _ choice. (t : TaskId) → choice ≡ some t → (ltb_ℤ t (pos 0) ≡ true) ⊎ Fresh tasks s t)
        choices
  pub apart : Apart (assigned choices)

module _ (self : RepeatedRoundsAllocator) (dag : TaskDag) where
  -- `s1` has one more task running.
  pub record Grown (s s1 : Simulation) (a : AgentId) (k : TaskId) : Type 0 where
    pub counted : Counted dag.tasks s1
    pub time : ℤ
    pub runs : s1.running ≡ set a (k, time) s.running
    pub more : works s1.running ≡ works s.running ++ k ∷ []
    pub size : length s1.running ≡ suc (length s.running)
    pub done : s1.completed ≡ s.completed

  pub dispatch-Grown :
      (a : AgentId) (k : TaskId) (s s1 : Simulation)
      → Counted dag.tasks s
      → get a s.running ≡ none
      → Fresh dag.tasks s k
      → dispatch self dag a k s ≡ ok s1
      → Grown s s1 a k
  unfolding dispatch
  dispatch-Grown a k s s1 h idle fresh runs =
      let (robot, found, runs1) = >>=-eq-ok (or_key_error (robot_by_id a s.robots)) _ runs in
      let (task, known, runs2) = >>=-eq-ok (or_key_error (get k dag.tasks)) _ runs1 in
      let time = s.now +ℤ travel self robot task +ℤ task.duration in
      let appended = set-absent a (k, time) s.running idle in
      let more : works (set a (k, time) s.running) ≡ works s.running ++ k ∷ [] =
        ap works appended ∙ works-append s.running a k time in
      subst (λ z. Grown s z a k) (ok_inj _ s1 runs2)
        (record {
          counted = record {
            apart_done = h.apart_done;
            apart_works =
                subst Apart (sym more)
                  (Apart-append (works s.running) k h.apart_works fresh.not_running);
            disjoint = λ j i i'. elim (In-append_one j (works s.running) k (subst (In j) more i')) [
              | inl old ↦ h.disjoint j i old
              | inr same ↦ fresh.not_done (subst (λ x. In x s.completed) (sym same) i)
            ];
            known_done = h.known_done;
            known_works = λ j i. elim (In-append_one j (works s.running) k (subst (In j) more i)) [
              | inl old ↦ h.known_works j old
              | inr same ↦ subst (λ x. In x (keys dag.tasks)) same fresh.known
            ];
            distinct = IsDistinct-set a (k, time) s.running h.distinct;
            real = λ j i. elim (In-append_one j (works s.running) k (subst (In j) more i)) [
              | inl old ↦ h.real j old
              | inr same ↦ subst (λ x. ltb_ℤ x (pos 0) ≡ false) same fresh.real
            ];
            ids =
                subst Apart
                  (sym (
                    put_robot-ids (record robot { workload = robot.workload +ℤ task.duration })
                      s.robots))
                  h.ids;
          };
          time = time;
          runs = refl;
          more = more;
          size = ap length appended ∙ length-works_append s.running (a, (k, time));
          done = refl;
        })

  -- What is left of the choices is fresh still.
  pub Grown-Choices :
      (s s1 : Simulation) (a : AgentId) (k : TaskId) (rest : Dict (Option TaskId))
      → Choices dag.tasks s ((a, some k) ∷ rest)
      → Grown s s1 a k
      → Choices dag.tasks s1 rest
  Grown-Choices s s1 a k rest c g = record {
    idle = still_idle rest c.distinct.0 c.idle.1;
    distinct = c.distinct.1;
    fresh = still_fresh rest c.apart.0 c.fresh.1;
    apart = c.apart.1;
  }
    where
      still_idle :
          (cs : Dict (Option TaskId))
          → AllItems (λ b _. (a ==ℤ b) ≡ false) cs
          → AllItems (λ b _. get b s.running ≡ none) cs
          → AllItems (λ b _. get b s1.running ≡ none) cs
      still_idle [] other idle = tt
      still_idle ((b, c') ∷ cs) other idle = (
        subst (λ d. get b d ≡ none) (sym g.runs)
            (get-set_ne a b (k, g.time) s.running other.0 ∙ idle.0),
        still_idle cs other.1 idle.1,
      )

      move : (u : TaskId) → (k ≡ u → ⊥) → Fresh dag.tasks s u → Fresh dag.tasks s1 u
      move u differs f = record {
        real = f.real;
        known = f.known;
        not_done = λ i. f.not_done (subst (In u) g.done i);
        not_running = λ i. elim (In-append_one u (works s.running) k (subst (In u) g.more i)) [
          | inl old ↦ f.not_running old
          | inr same ↦ differs same
        ];
      }

      still_fresh :
          (cs : Dict (Option TaskId))
          → ((u : TaskId) → In u (assigned cs) → k ≡ u → ⊥)
          → AllItems
              (λ _ choice.
                (t : TaskId) → choice ≡ some t → (ltb_ℤ t (pos 0) ≡ true) ⊎ Fresh dag.tasks s t)
              cs
          → AllItems
              (λ _ choice.
                (t : TaskId) → choice ≡ some t → (ltb_ℤ t (pos 0) ≡ true) ⊎ Fresh dag.tasks s1 t)
              cs
      still_fresh [] other fresh = tt
      still_fresh ((b, none) ∷ cs) other fresh =
          (λ t same. absurd (cc), still_fresh cs other fresh.1)
      still_fresh ((b, some v) ∷ cs) other fresh = (
        λ t same. elim (fresh.0 t same) [
          | inl sentinel ↦ inl sentinel
          | inr f ↦ inr (move t (other t (inl (one v t same))) f)
        ],
        still_fresh cs (λ u i. other u (inr i)) fresh.1,
      )
        where
          one : (v t : TaskId) → some v ≡ some t → v ≡ t
          one v t h = cc
