-- ===== src/Dag/Visit.antt =====
-- The inner loop of `_topological_order`: one task more is done.
use distributed_mobile_robot.Base.{
  ℕ, ◌+◌, ℤ, pos, ◌-ℤ◌, ◌==ℤ◌, false, ◌≡◌, ◌≢◌, refl, ◌∙◌, ap, sym, subst, ◌⊎◌, inl, inr, List, [],
  ◌∷◌, ◌++◌, map, some, ok, >>=-eq-ok, ok_inj, contains, All, In, Apart, ℤ-cases, ==ℤ_iff,
  Bool-cases, arith,
}
use distributed_mobile_robot.Base.Dict.{Dict, get, set, get-set_self, get-set_ne, or_key_error}
use distributed_mobile_robot.Types.{TaskId, Task}
use distributed_mobile_robot.Dag.{visit}
use distributed_mobile_robot.Dag.Missing.{missing, missing-append, contains-In}

abbrev pub ids : List Task → List TaskId
ids = map λ t. t.id

abbrev pub TaskIn : Task → List Task → Type 0
TaskIn t [] = ⊥
TaskIn t (x ∷ xs) = (x ≡ t) ⊎ TaskIn t xs

pub TaskIn-ids : (t : Task) (ts : List Task) → TaskIn t ts → In t.id (ids ts)
TaskIn-ids t [] i = absurd i
TaskIn-ids t (x ∷ xs) (inl same) = inl (ap (λ (s : Task). s.id) same)
TaskIn-ids t (x ∷ xs) (inr i) = inr (TaskIn-ids t xs i)

pub All-TaskIn {κ} : (P : Task → Type κ) (ts : List Task) (t : Task) → All P ts → TaskIn t ts → P t
All-TaskIn P [] t h i = absurd i
All-TaskIn P (x ∷ xs) t h (inl same) = subst P same h.0
All-TaskIn P (x ∷ xs) t h (inr i) = All-TaskIn P xs t h.1 i

-- The degree of each task is the number of its missing prerequisites.
abbrev pub Degrees : List TaskId → Dict ℤ → List Task → Type 0
Degrees order d = All λ t. get t.id d ≡ some (pos (missing order t.prerequisites))

pos_suc-pred : (m n : ℕ) → m ≡ n + 1 → pos m -ℤ pos 1 ≡ pos n
unfolding ◌-ℤ◌
pos_suc-pred m n h = ground arith

module _ (order : List TaskId) (tid : TaskId) where
  abbrev done : List TaskId
  done = order ++ tid ∷ []

  -- A task whose last missing prerequisite is `tid`.
  pub record Freed (y : TaskId) (others : List Task) : Type 0 where
    pub task : Task
    pub listed : TaskIn task others
    pub id : task.id ≡ y
    pub waited : missing order task.prerequisites ≡ 1
    pub ready : missing done task.prerequisites ≡ 0

  pub record Visited (others : List Task) (d d' : Dict ℤ) (f f' : List TaskId) : Type 0 where
    pub degrees : Degrees done d' others
    pub same : (k : TaskId) → contains k (ids others) ≡ false → get k d' ≡ get k d
    pub front : (y : TaskId) → In y f' → In y f ⊎ Freed y others
    pub apart : Apart f → ((y : TaskId) → In y f → Freed y others → ⊥) → Apart f'

  Freed-later : (y : TaskId) (t : Task) (others : List Task) → Freed y others → Freed y (t ∷ others)
  Freed-later y t others r = record {
    task = r.task;
    listed = inr r.listed;
    id = r.id;
    waited = r.waited;
    ready = r.ready;
  }

  absent_id :
      (t : Task) (others : List Task)
      → ((k : ℤ) → In k (ids others) → t.id ≢ k)
      → contains t.id (ids others) ≡ false
  absent_id t others apart = elim (Bool-cases (contains t.id (ids others))) [
    | inl there ↦ absurd (apart t.id (contains-In t.id (ids others) there) refl)
    | inr absent ↦ absent
  ]

  Degrees-set :
      (t : Task) (others : List Task) (d : Dict ℤ) (x : ℤ)
      → ((k : ℤ) → In k (ids others) → t.id ≢ k)
      → Degrees order d others
      → Degrees order (set t.id x d) others
  Degrees-set t [] d x apart h = tt
  Degrees-set t (s ∷ others) d x apart h = (
    elim (ℤ-cases t.id s.id) [
      | inl same ↦ absurd (apart s.id (inl refl) same)
      | inr other ↦ get-set_ne t.id s.id x d other ∙ h.0
    ],
    Degrees-set t others d x (λ k i. apart k (inr i)) h.1,
  )

  -- After a task, its degree in `d1` and the frontier `f1`, the rest are visited.
  Visited-cons :
      (t : Task) (others : List Task) (d d1 d' : Dict ℤ) (f f1 f' : List TaskId)
      → ((k : ℤ) → In k (ids others) → t.id ≢ k)
      → get t.id d1 ≡ some (pos (missing done t.prerequisites))
      → ((k : TaskId) → (t.id ==ℤ k) ≡ false → get k d1 ≡ get k d)
      → ((y : TaskId) → In y f1 → In y f ⊎ Freed y (t ∷ []))
      → (Apart f → ((y : TaskId) → In y f → Freed y (t ∷ []) → ⊥) → Apart f1)
      → Visited others d1 d' f1 f'
      → Visited (t ∷ others) d d' f f'
  Visited-cons t others d d1 d' f f1 f' apart mine same1 front1 apart1 v = record {
    degrees = (v.same t.id (absent_id t others apart) ∙ mine, v.degrees);
    same = λ k absent. elim (ℤ-cases t.id k) [
      | inl here ↦ absurd (ground (arith, here, absent, ==ℤ_iff t.id k))
      | inr other ↦ v.same k (rw other at absent) ∙ same1 k other
    ];
    front = λ y i. elim (v.front y i) [
      | inl old ↦ elim (front1 y old) [ inl older ↦ inl older | inr freed ↦ inr (first y freed) ]
      | inr freed ↦ inr (Freed-later y t others freed)
    ];
    apart = λ h clash. v.apart (apart1 h λ y i freed. clash y i (first y freed)) λ y i freed.
        elim (front1 y i) [
          | inl old ↦ clash y old (Freed-later y t others freed)
          | inr here ↦
              apart y
                (subst (λ k. In k (ids others)) freed.id
                  (TaskIn-ids freed.task others freed.listed))
                (first_id y here)
        ];
  }
    where
      first : (y : TaskId) → Freed y (t ∷ []) → Freed y (t ∷ others)
      first y r = record {
        task = r.task;
        listed = elim r.listed [ inl here ↦ inl here | inr none_left ↦ absurd none_left ];
        id = r.id;
        waited = r.waited;
        ready = r.ready;
      }

      first_id : (y : TaskId) → Freed y (t ∷ []) → t.id ≡ y
      first_id y r = elim r.listed [
        | inl here ↦ ap (λ (s : Task). s.id) here ∙ r.id
        | inr none_left ↦ absurd none_left
      ]

  pub visit-Visited :
      (others : List Task) (d d' : Dict ℤ) (f f' : List TaskId)
      → contains tid order ≡ false
      → All (λ (t : Task). Apart t.prerequisites) others
      → Apart (ids others)
      → Degrees order d others
      → visit tid others (d, f) ≡ ok (d', f')
      → Visited others d d' f f'
  unfolding visit
  visit-Visited [] d d' f f' new sets apart deg runs =
      let same = ok_inj (d, f) (d', f') runs in
      subst (λ (s : Dict ℤ × List TaskId). Visited [] d s.0 f s.1) same
        (record { degrees = tt; same = λ k absent. refl; front = λ y. inl; apart = λ h clash. h })
  visit-Visited (t ∷ others) d d' f f' new sets apart deg runs =
      let count = missing-append order t.prerequisites tid new sets.0 in
      elim (Bool-cases (contains tid t.prerequisites)) [
        | inr unrelated ↦
            let stays : missing order t.prerequisites ≡ missing done t.prerequisites =
              ground (arith, count, unrelated) in
            Visited-cons t others d d d' f f f' apart.0 (deg.0 ∙ ap (λ n. some (pos n)) stays)
              (λ k other. refl) (λ y. inl) (λ h clash. h)
              (visit-Visited others d d' f f' new sets.1 apart.1 deg.1 (rw unrelated at runs))
        | inl related ↦
            let falls : missing order t.prerequisites ≡ missing done t.prerequisites + 1 =
              ground (arith, count, related) in
            let (deg_t, found, runs1) =
              >>=-eq-ok (or_key_error (get t.id d)) _ (rw related at runs) in
            let was : pos (missing order t.prerequisites) ≡ deg_t =
              ok_inj _ _ (ap or_key_error (sym deg.0) ∙ found) in
            let left : deg_t -ℤ pos 1 ≡ pos (missing done t.prerequisites) =
              ap (λ x. x -ℤ pos 1) (sym was)
              ∙ pos_suc-pred (missing order t.prerequisites) (missing done t.prerequisites) falls in
            let runs2 = rw left at runs1 in
            let n = missing done t.prerequisites in
            let d1 = set t.id (pos n) d in
            elim (Bool-cases (pos n ==ℤ pos 0)) [
              | inl free ↦
                  let zero_n : n ≡ 0 = ground (arith, free) in
                  let one_m : missing order t.prerequisites ≡ 1 = ground (arith, falls, zero_n) in
                  let freed : Freed t.id (t ∷ []) = record {
                    task = t;
                    listed = inl refl;
                    id = refl;
                    waited = one_m;
                    ready = zero_n;
                  } in
                  Visited-cons t others d d1 d' f (t.id ∷ f) f' apart.0
                    (get-set_self t.id (pos n) d) (λ k other. get-set_ne t.id k (pos n) d other)
                    (λ y i. elim i [
                      | inl here ↦ inr (subst (λ k. Freed k (t ∷ [])) here freed)
                      | inr old ↦ inl old
                    ])
                    (λ h clash.
                      ((λ k i same. clash k i (subst (λ x. Freed x (t ∷ [])) same freed)), h))
                    (visit-Visited others d1 d' (t.id ∷ f) f' new sets.1 apart.1
                      (Degrees-set t others d (pos n) apart.0 deg.1) (rw free at runs2))
              | inr waits ↦
                  Visited-cons t others d d1 d' f f f' apart.0 (get-set_self t.id (pos n) d)
                    (λ k other. get-set_ne t.id k (pos n) d other) (λ y. inl) (λ h clash. h)
                    (visit-Visited others d1 d' f f' new sets.1 apart.1
                      (Degrees-set t others d (pos n) apart.0 deg.1) (rw waits at runs2))
            ]
      ]
