-- ===== src/Dag/Progress.antt =====
-- What the constructor's check is for: while a task is left, some task can run.
use distributed_mobile_robot.Base.{
  Bool, ◌==ℤ◌, if◌then◌else◌, Option, none, some, Option-cases, suc, ◌==◌, true, false, ◌≡◌, refl,
  ◌∙◌, ap, sym, subst, inl, inr, List, [], ◌∷◌, ◌++◌, In-append, ok, >>=-eq-ok, ok_inj, contains,
  is_subset, select, All, In, Apart, length, Bool-cases, arith,
}
use distributed_mobile_robot.Base.Dict.{
  get, set, get-set, Dict, keys, values, IsDistinct, length-keys, keys-Apart,
}
use distributed_mobile_robot.Types.{TaskId, Task}
use distributed_mobile_robot.Dag.{
  TaskDag, by_id, all_known, in_degrees, initial_frontier, topological_loop, topological_order,
  task_dag, is_available, available,
}
use distributed_mobile_robot.Dag.Visit.{ids, TaskIn}
use distributed_mobile_robot.Dag.Kahn.{Topological, topological_loop-IsOrder}
use distributed_mobile_robot.Dag.Accepted.{
  Keyed, by_id-Keyed, Keyed-ids, Keyed-sets, initial-Kahn, fills,
}

-- An order of all tasks, prerequisites first.
pub record Ordered (d : TaskDag) : Type 0 where
  pub keyed : Keyed d.tasks
  pub distinct : IsDistinct d.tasks
  pub order : List TaskId
  pub sorted_order : Topological (values d.tasks) [] order
  pub apart : Apart order
  pub listed : (y : TaskId) → In y order → In y (keys d.tasks)
  pub size : length order ≡ length d.tasks
  pub complete : (y : TaskId) → In y (keys d.tasks) → In y order

topological_order-Ordered :
    (d : TaskDag) (result : List TaskId)
    → Keyed d.tasks
    → IsDistinct d.tasks
    → Apart (ids (values d.tasks))
    → topological_order d ≡ ok result
    → Ordered d
unfolding topological_order
topological_order-Ordered d result keyed distinct apart runs =
    let in_degree = in_degrees d.tasks in
    let (order, looped, runs1) =
      >>=-eq-ok
        (topological_loop (suc (length d.tasks)) (values d.tasks)
          (in_degree, initial_frontier in_degree []) [])
        _ runs in
    let (sorted_order, apart_order, listed) =
      topological_loop-IsOrder (values d.tasks) apart (Keyed-sets d.tasks keyed)
        (suc (length d.tasks)) in_degree (initial_frontier in_degree []) [] order
        (initial-Kahn d.tasks keyed distinct) looped in
    let same_ids = Keyed-ids d.tasks keyed in
    let listed' : (y : TaskId) → In y order → In y (keys d.tasks) =
      λ y i. subst (In y) same_ids (listed y i) in
    elim (Bool-cases (length order == length d.tasks)) [
      | inl full ↦ record {
        keyed = keyed;
        distinct = distinct;
        order = order;
        sorted_order = sorted_order;
        apart = apart_order;
        listed = listed';
        size = ground (arith, full);
        complete =
            fills order (keys d.tasks) apart_order listed'
              (ground (arith, full, length-keys d.tasks));
      }
      | inr short ↦ absurd (cc (rw short at runs1))
    ]

pub task_dag-Ordered :
    (ts : List Task) (d : TaskDag)
    → All (λ (t : Task). Apart t.prerequisites) ts
    → task_dag ts ≡ ok d
    → Ordered d
unfolding task_dag
task_dag-Ordered ts d sets runs =
    let (keyed, distinct) = by_id-Keyed ts [] sets tt tt in
    elim (Bool-cases (all_known (keys (by_id [] ts)) (values (by_id [] ts)))) [
      | inr unknown ↦ absurd (cc (rw unknown at runs))
      | inl known ↦
          let runs1 = rw known at runs in
          let (order, ordered, runs2) =
            >>=-eq-ok (topological_order (record { tasks = by_id [] ts })) _ runs1 in
          subst Ordered (ok_inj (record { tasks = by_id [] ts }) d runs2) (
            topological_order-Ordered (record { tasks = by_id [] ts }) order keyed distinct
              (subst Apart (sym (Keyed-ids (by_id [] ts) keyed))
                (keys-Apart (by_id [] ts) distinct))
              ordered)
    ]

pub task_dag-tasks : (ts : List Task) (d : TaskDag) → task_dag ts ≡ ok d → by_id [] ts ≡ d.tasks
unfolding task_dag
task_dag-tasks ts d runs =
    elim (Bool-cases (all_known (keys (by_id [] ts)) (values (by_id [] ts)))) [
      | inr unknown ↦ absurd (cc (rw unknown at runs))
      | inl known ↦
          let (order, ordered, runs2) =
            >>=-eq-ok (topological_order (record { tasks = by_id [] ts })) _ (rw known at runs) in
          ap (λ (x : TaskDag). x.tasks) (ok_inj (record { tasks = by_id [] ts }) d runs2)
    ]

-- The last of the tasks of that id.
abbrev pub last_of : TaskId → List Task → Option Task
last_of k [] = none
last_of k (t ∷ ts) = elim (last_of k ts) [
  | some s ↦ some s
  | none ↦ if t.id ==ℤ k then some t else none
]

abbrev or_else : Option Task → Option Task → Option Task
or_else none o = o
or_else (some t) o = some t

by_id-get :
    (k : TaskId) (ts : List Task) (d : Dict Task)
    → get k (by_id d ts) ≡ or_else (last_of k ts) (get k d)
unfolding by_id
by_id-get k [] d = refl
by_id-get k (t ∷ ts) d =
    let rest = by_id-get k ts (set t.id t d) in
    elim (Option-cases (last_of k ts)) [
      | inr (s, later) ↦ rest ∙ rw later refl
      | inl none_later ↦ rest ∙ rw (none_later, get-set t.id k t d) (or_held (t.id ==ℤ k))
    ]
  where
    or_held :
        (b : Bool)
        → (if b then some t else get k d) ≡ or_else (if b then some t else none) (get k d)
    or_held true = refl
    or_held false = refl

or_none : (o : Option Task) → or_else o none ≡ o
or_none none = refl
or_none (some t) = refl

-- If the constructor accepts the tasks, each with different prerequisites, then its dict holds
-- under each id the last of the given tasks that have it, and nothing else, and it has an order of
-- exactly its keys, each once, in which every task stands behind all of its prerequisites.
pub task_dag_lem :
    (ts : List Task) (d : TaskDag)
    → All (λ (t : Task). Apart t.prerequisites) ts
    → task_dag ts ≡ ok d
    → Ordered d × ((k : TaskId) → get k d.tasks ≡ last_of k ts)
unfolding get
task_dag_lem ts d sets runs = (
  task_dag-Ordered ts d sets runs,
  λ k.
      ap (λ (x : Dict Task). get k x) (sym (task_dag-tasks ts d runs))
      ∙ (by_id-get k ts [] ∙ or_none (last_of k ts)),
)

is_subset-all :
    (ps completed : List TaskId)
    → ((p : TaskId) → In p ps → contains p completed ≡ true)
    → is_subset ps completed ≡ true
is_subset-all [] completed h = refl
is_subset-all (p ∷ ps) completed h =
    ground (arith, h p (inl refl), is_subset-all ps completed λ q i. h q (inr i))

In-select_keys :
    (completed : List TaskId) (d : Dict Task) (t : Task)
    → Keyed d
    → TaskIn t (values d)
    → contains t.id completed ≡ false
    → is_subset t.prerequisites completed ≡ true
    → In t.id (keys (select (is_available completed) d))
In-select_keys completed [] t keyed i new ready = absurd i
In-select_keys completed ((k, s) ∷ d) t keyed (inl same) new ready =
    let id : k ≡ t.id = sym keyed.0.0 ∙ ap (λ (r : Task). r.id) same in
    let fresh : contains k completed ≡ false =
      subst (λ x. contains x completed ≡ false) (sym id) new in
    let runs : is_subset s.prerequisites completed ≡ true =
      subst (λ (r : Task). is_subset r.prerequisites completed ≡ true) (sym same) ready in
    rw (fresh, runs) (inl id)
In-select_keys completed ((k, s) ∷ d) t keyed (inr i) new ready =
    let later = In-select_keys completed d t keyed.1 i new ready in
    elim (Bool-cases (is_available completed (k, s))) [
      | inl first ↦ rw first (inr later)
      | inr other ↦ rw other later
    ]

module _ (d : TaskDag) (completed : List TaskId) (keyed : Keyed d.tasks) where
  first_left :
      (rest before : List TaskId) (k : TaskId)
      → Topological (values d.tasks) before rest
      → ((y : TaskId) → In y before → contains y completed ≡ true)
      → In k rest
      → contains k completed ≡ false
      → (y : TaskId) × In y (available d completed)
  unfolding available
  first_left [] before k order finished i left = absurd i
  first_left (x ∷ rest) before k ((t, listed, id, ready), order) finished i left =
      elim (Bool-cases (contains x completed)) [
        | inr new ↦ (
          t.id,
          In-select_keys completed d.tasks t keyed listed
              (subst (λ y. contains y completed ≡ false) (sym id) new)
              (is_subset-all t.prerequisites completed λ p j. finished p (ready p j)),
        )
        | inl over ↦
            first_left rest (before ++ x ∷ []) k order
              (λ y j. elim (In-append y before (x ∷ []) j) [
                | inl old ↦ finished y old
                | inr last ↦ elim last [
                  | inl same ↦ subst (λ z. contains z completed ≡ true) same over
                  | inr none_left ↦ absurd none_left
                ]
              ])
              (elim i [
                | inl same ↦ absurd (cc (subst (λ z. contains z completed ≡ true) same over))
                | inr later ↦ later
              ])
              left
      ]

-- If the constructor accepts the tasks, each with different prerequisites, and some task of the
-- graph is not in completed, then some task is available. completed may be any list of ids.
pub available_lem :
    (ts : List Task) (d : TaskDag) (completed : List TaskId) (k : TaskId)
    → All (λ (t : Task). Apart t.prerequisites) ts
    → task_dag ts ≡ ok d
    → In k (keys d.tasks)
    → contains k completed ≡ false
    → (y : TaskId) × In y (available d completed)
available_lem ts d completed k sets runs listed left =
    let o = task_dag-Ordered ts d sets runs in
    first_left d completed o.keyed o.order [] k o.sorted_order (λ y none_yet. absurd none_yet)
      (o.complete k listed) left
