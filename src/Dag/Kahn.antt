-- ===== src/Dag/Kahn.antt =====
-- The `while` loop of `_topological_order`: what it returns is ordered by the prerequisites.
use distributed_mobile_robot.Base.{
  ℕ, zero, suc, ℤ, false, ◌≡◌, refl, ◌∙◌, ap, sym, subst, ◌⊎◌, inl, inr, List, [], ◌∷◌, ◌++◌,
  In-append, ok, >>=-eq-ok, ok_inj, contains, All, In, Apart, Bool-cases, arith,
}
use mathlib.Core.List.{append_assoc, append-nil}
use distributed_mobile_robot.Base.Dict.{Dict}
use distributed_mobile_robot.Types.{TaskId, Task}
use distributed_mobile_robot.Dag.{visit, topological_loop}
use distributed_mobile_robot.Dag.Missing.{missing, missing-none, missing-append, contains-In}
use distributed_mobile_robot.Dag.Visit.{
  ids, TaskIn, TaskIn-ids, All-TaskIn, Degrees, Freed, Visited, visit-Visited,
}

pub Apart-append : (xs : List ℤ) (y : ℤ) → Apart xs → ((In y xs) → ⊥) → Apart (xs ++ y ∷ [])
Apart-append [] y h new = ((λ k i. absurd i), tt)
Apart-append (x ∷ xs) y h new = (
  λ k i same. elim (In-append k xs (y ∷ []) i) [
    | inl front ↦ h.0 k front same
    | inr back ↦ elim back [
      | inl last ↦ new (inl (same ∙ sym last))
      | inr none_left ↦ absurd none_left
    ]
  ],
  Apart-append xs y h.1 λ i. new (inr i),
)

not_In-contains : (k : ℤ) (xs : List ℤ) → (In k xs → ⊥) → contains k xs ≡ false
not_In-contains k xs h = elim (Bool-cases (contains k xs)) [
  | inl there ↦ absurd (h (contains-In k xs there))
  | inr absent ↦ absent
]

module _ (tasks : List Task) where
  -- The task of an id whose prerequisites are all in `order`.
  pub record Ready (order : List TaskId) (y : TaskId) : Type 0 where
    pub task : Task
    pub listed : TaskIn task tasks
    pub id : task.id ≡ y
    pub waits : missing order task.prerequisites ≡ 0

  -- Each item's prerequisites stand before it.
  abbrev pub Topological : List TaskId → List TaskId → Type 0
  Topological before [] = Unit
  Topological before (x ∷ xs) =
      ((t : Task) × TaskIn t tasks
        × (t.id ≡ x)
        × ((p : TaskId) → In p t.prerequisites → In p before))
      × Topological (before ++ x ∷ []) xs

  Topological-append :
      (xs before : List TaskId) (t : Task) (y : TaskId)
      → Topological before xs
      → TaskIn t tasks
      → t.id ≡ y
      → ((p : TaskId) → In p t.prerequisites → In p (before ++ xs))
      → Topological before (xs ++ y ∷ [])
  Topological-append [] before t y h listed id ready =
      ((t, listed, id, λ p i. subst (In p) (append-nil before) (ready p i)), tt)
  Topological-append (x ∷ xs) before t y h listed id ready = (
    h.0,
    Topological-append xs (before ++ x ∷ []) t y h.1 listed id
        λ p i. subst (In p) (sym (append_assoc before (x ∷ []) xs)) (ready p i),
  )

  pub record Kahn (order : List TaskId) (d : Dict ℤ) (f : List TaskId) : Type 0 where
    pub degrees : Degrees order d tasks
    pub apart_frontier : Apart f
    pub apart_order : Apart order
    pub disjoint : (y : TaskId) → In y f → In y order → ⊥
    pub ready : (y : TaskId) → In y f ⊎ In y order → Ready order y
    pub sorted_order : Topological [] order

module _ (tasks : List Task) (apart_ids : Apart (ids tasks))
    (sets : All (λ (t : Task). Apart t.prerequisites) tasks) where
  same_task :
      (ts : List Task) (s t : Task)
      → Apart (ids ts)
      → TaskIn s ts
      → TaskIn t ts
      → s.id ≡ t.id
      → s ≡ t
  same_task [] s t apart i j same = absurd i
  same_task (x ∷ ts) s t apart (inl here) (inl here') same = sym here ∙ here'
  same_task (x ∷ ts) s t apart (inl here) (inr j) same =
      absurd (apart.0 t.id (TaskIn-ids t ts j) (ap (λ (r : Task). r.id) here ∙ same))
  same_task (x ∷ ts) s t apart (inr i) (inl here') same =
      absurd (apart.0 s.id (TaskIn-ids s ts i) (ap (λ (r : Task). r.id) here' ∙ sym same))
  same_task (x ∷ ts) s t apart (inr i) (inr j) same = same_task ts s t apart.1 i j same

  module _ (order : List TaskId) (tid : TaskId) (new : contains tid order ≡ false) where
    abbrev next : List TaskId
    next = order ++ tid ∷ []

    Ready-next : (y : TaskId) → Ready tasks order y → Ready tasks next y
    Ready-next y r =
        let count =
          missing-append order r.task.prerequisites tid new
            (All-TaskIn (λ (t : Task). Apart t.prerequisites) tasks r.task sets r.listed) in
        let none_left = r.waits in
        record {
          task = r.task;
          listed = r.listed;
          id = r.id;
          waits = ground (arith, count, none_left);
        }

    Freed-clash : (y : TaskId) → Ready tasks order y → Freed order tid y tasks → ⊥
    Freed-clash y r freed =
        let same =
          same_task tasks r.task freed.task apart_ids r.listed freed.listed (r.id ∙ sym freed.id) in
        let none_left = subst (λ (t : Task). missing order t.prerequisites ≡ 0) same r.waits in
        let one_left = freed.waited in ground (arith, none_left, one_left)

    Kahn-next :
        (d d' : Dict ℤ) (f f' : List TaskId)
        → Kahn tasks order d (tid ∷ f)
        → Visited order tid tasks d d' f f'
        → Kahn tasks next d' f'
    Kahn-next d d' f f' k v = record {
      degrees = v.degrees;
      apart_frontier =
          v.apart k.apart_frontier.1 λ y i freed. Freed-clash y (k.ready y (inl (inr i))) freed;
      apart_order = Apart-append order tid k.apart_order (k.disjoint tid (inl refl));
      disjoint = λ y i j. elim (v.front y i) [
        | inl old ↦ elim (In-append y order (tid ∷ []) j) [
          | inl before ↦ k.disjoint y (inr old) before
          | inr last ↦ elim last [
            | inl same ↦ k.apart_frontier.0 y old same
            | inr none_left ↦ absurd none_left
          ]
        ]
        | inr freed ↦ Freed-clash y (k.ready y (was y j)) freed
      ];
      ready = λ y place. elim place [
        | inl i ↦ elim (v.front y i) [
          | inl old ↦ Ready-next y (k.ready y (inl (inr old)))
          | inr freed ↦ record {
            task = freed.task;
            listed = freed.listed;
            id = freed.id;
            waits = freed.ready;
          }
        ]
        | inr j ↦ Ready-next y (k.ready y (was y j))
      ];
      sorted_order =
          let r = k.ready tid (inl (inl refl)) in
          Topological-append tasks order [] r.task tid k.sorted_order r.listed r.id
            (missing-none order r.task.prerequisites r.waits);
    }
      where
        was : (y : TaskId) → In y (order ++ tid ∷ []) → In y (tid ∷ f) ⊎ In y order
        was y j = elim (In-append y order (tid ∷ []) j) [
          | inl before ↦ inr before
          | inr last ↦ elim last [ inl same ↦ inl (inl same) | inr none_left ↦ absurd none_left ]
        ]

  abbrev pub IsOrder : List TaskId → Type 0
  IsOrder order =
      Topological tasks [] order × Apart order × ((y : TaskId) → In y order → In y (ids tasks))

  Kahn-IsOrder :
      (order result : List TaskId) (d : Dict ℤ) (f : List TaskId)
      → Kahn tasks order d f
      → order ≡ result
      → IsOrder result
  Kahn-IsOrder order result d f k same = subst IsOrder same (
    k.sorted_order,
    k.apart_order,
    λ y i.
        let r = k.ready y (inr i) in
        subst (λ x. In x (ids tasks)) r.id (TaskIn-ids r.task tasks r.listed),
  )

  -- What the loop returns, whatever its fuel.
  pub topological_loop-IsOrder :
      (fuel : ℕ) (d : Dict ℤ) (f order result : List TaskId)
      → Kahn tasks order d f
      → topological_loop fuel tasks (d, f) order ≡ ok result
      → IsOrder result
  unfolding topological_loop
  topological_loop-IsOrder zero d f order result k runs =
      Kahn-IsOrder order result d f k (ok_inj order result runs)
  topological_loop-IsOrder (suc fuel) d [] order result k runs =
      Kahn-IsOrder order result d [] k (ok_inj order result runs)
  topological_loop-IsOrder (suc fuel) d (tid ∷ f) order result k runs =
      let new = not_In-contains tid order (k.disjoint tid (inl refl)) in
      let ((d', f'), visited, runs') = >>=-eq-ok (visit tid tasks (d, f)) _ runs in
      topological_loop-IsOrder fuel d' f' (order ++ tid ∷ []) result
        (Kahn-next order tid new d d' f f' k
          (visit-Visited order tid tasks d d' f f' new sets apart_ids k.degrees visited))
        runs'
