-- ===== src/Allocator/Progress.antt =====
-- Each round and each completion makes progress.
use distributed_mobile_robot.Base.{
  suc, ◌+◌, ℤ, pos, ltb_ℤ, ◌==ℤ◌, ==ℤ_refl, ==ℤ_iff, ℤ-cases, false, if◌then◌else◌, ◌≡◌, refl, sym,
  ◌∙◌, subst, ap, inl, inr, List, [], ◌∷◌, ◌++◌, Option, none, some, ok, >>=-eq-ok, ok_inj, In,
  Apart, contains, Bool-cases, length, arith,
}
use distributed_mobile_robot.Base.Dict.{
  Dict, get, keys, del, or_key_error, or_key_error-inv, AllItems, IsDistinct, IsDistinct-del, Item,
  keys-In,
}
use distributed_mobile_robot.Types.{AgentId, TaskId}
use distributed_mobile_robot.Dag.{TaskDag}
use distributed_mobile_robot.Dag.Missing.{contains-In}
use distributed_mobile_robot.Allocator.{
  RepeatedRoundsAllocator, Simulation, robot_by_id, dispatch, dispatch_all,
}
use distributed_mobile_robot.Allocator.Loop.{earliest_from, add, complete}
use distributed_mobile_robot.Allocator.Endings.{Work}
use distributed_mobile_robot.Allocator.Passes.{In-add}
use distributed_mobile_robot.Allocator.Accounted.{Apart-add}
use distributed_mobile_robot.Allocator.Counted.{
  works, put_robot-ids, Counted, Fresh, real_count, Choices, dispatch-Grown, Grown-Choices,
}

module _ (self : RepeatedRoundsAllocator) (dag : TaskDag) where
  sentinel-Choices :
      (s : Simulation) (a : AgentId) (c : Option TaskId) (rest : Dict (Option TaskId))
      → Choices dag.tasks s ((a, c) ∷ rest)
      → Choices dag.tasks s rest
  sentinel-Choices s a none rest h = record {
    idle = h.idle.1;
    distinct = h.distinct.1;
    fresh = h.fresh.1;
    apart = h.apart;
  }
  sentinel-Choices s a (some t) rest h = record {
    idle = h.idle.1;
    distinct = h.distinct.1;
    fresh = h.fresh.1;
    apart = h.apart.1;
  }

  -- As many tasks more are running as are given out.
  pub dispatch_all-Counted :
      (choices : Dict (Option TaskId)) (s s1 : Simulation)
      → Counted dag.tasks s
      → Choices dag.tasks s choices
      → dispatch_all self dag choices s ≡ ok s1
      → Counted dag.tasks s1
        × (s1.completed ≡ s.completed)
        × (length s1.running ≡ real_count choices + length s.running)
  unfolding dispatch_all
  dispatch_all-Counted [] s s1 h c runs =
      subst
        (λ (z : Simulation).
          Counted dag.tasks z
          × (z.completed ≡ s.completed)
          × (length z.running ≡ 0 + length s.running))
        (ok_inj s s1 runs) (h, refl, omega arith)
  dispatch_all-Counted ((a, none) ∷ rest) s s1 h c runs =
      dispatch_all-Counted rest s s1 h (sentinel-Choices s a none rest c) runs
  dispatch_all-Counted ((a, some t) ∷ rest) s s1 h c runs = elim (Bool-cases (ltb_ℤ t (pos 0))) [
    | inl idle ↦
        let (h1, done, size) =
          dispatch_all-Counted rest s s1 h (sentinel-Choices s a (some t) rest c)
            (rw idle at runs) in
        (h1, done, rw idle size)
    | inr real ↦
        let (s2, sent, runs1) = >>=-eq-ok (dispatch self dag a t s) _ (rw real at runs) in
        let fresh : Fresh dag.tasks s t = elim (c.fresh.0 t refl) [
          | inl idle ↦ absurd (cc)
          | inr f ↦ f
        ] in
        let g = dispatch-Grown self dag a t s s2 h c.idle.0 fresh sent in
        let (h1, done, size) =
          dispatch_all-Counted rest s2 s1 g.counted (Grown-Choices self dag s s2 a t rest c g)
            runs1 in
        let size2 : length s2.running ≡ suc (length s.running) = g.size in
        (h1, done ∙ g.done, rw real (omega (arith, size, size2)))
  ]

pub earliest_from-Item :
    (first : Work) (running : Dict (TaskId × ℤ))
    → Item (earliest_from first running).0 (earliest_from first running).1 (first ∷ running)
earliest_from-Item first [] = inl (refl, refl)
earliest_from-Item first (item ∷ running) = elim (Bool-cases (ltb_ℤ item.1.1 first.1.1)) [
  | inl less ↦
      subst (λ b. Is (if b then item else first)) (sym less) (inr (earliest_from-Item item running))
  | inr more ↦
      subst (λ b. Is (if b then item else first)) (sym more)
        (behind (earliest_from-Item first running))
]
  where
    Is : Work → Type 0
    Is next =
        Item (earliest_from next running).0 (earliest_from next running).1 (first ∷ item ∷ running)

    behind :
        {k : ℤ} {w : TaskId × ℤ} → Item k w (first ∷ running) → Item k w (first ∷ item ∷ running)
    behind (inl here) = inl here
    behind (inr there) = inr (inr there)

Item-works : (a : AgentId) (w : TaskId × ℤ) (d : Dict (TaskId × ℤ)) → Item a w d → In w.0 (works d)
Item-works a w [] i = absurd i
Item-works a w ((b, v) ∷ d) (inl (same, held)) = inl (ap (λ (x : TaskId × ℤ). x.0) held)
Item-works a w ((b, v) ∷ d) (inr i) = inr (Item-works a w d i)

del-works :
    (k : TaskId) (a : AgentId) (d : Dict (TaskId × ℤ)) → In k (works (del a d)) → In k (works d)
unfolding del
del-works k a [] i = i
del-works k a ((b, v) ∷ d) i = elim (Bool-cases (b ==ℤ a)) [
  | inl same ↦ inr (rw same at i)
  | inr other ↦ elim (rw other at i) [
    | inl here ↦ inl here
    | inr there ↦ inr (del-works k a d there)
  ]
]

del-Apart : (a : AgentId) (d : Dict (TaskId × ℤ)) → Apart (works d) → Apart (works (del a d))
unfolding del
del-Apart a [] h = h
del-Apart a ((b, v) ∷ d) h = elim (Bool-cases (b ==ℤ a)) [
  | inl same ↦ rw same h.1
  | inr other ↦ rw other (λ k i. h.0 k (del-works k a d i), del-Apart a d h.1)
]

-- The item that is deleted was there once.
del-gone :
    (a : AgentId) (w : TaskId × ℤ) (d : Dict (TaskId × ℤ))
    → Item a w d
    → IsDistinct d
    → Apart (works d)
    → (In w.0 (works (del a d)) → ⊥) × (length d ≡ suc (length (del a d)))
unfolding del
del-gone a w [] i distinct apart = absurd i
del-gone a w ((b, v) ∷ d) (inl (same, held)) distinct apart =
    rw (same, ==ℤ_refl a) (λ i. apart.0 w.0 i (ap (λ (x : TaskId × ℤ). x.0) held), refl)
del-gone a w ((b, v) ∷ d) (inr i) distinct apart = elim (ℤ-cases b a) [
  | inl same ↦ absurd (clash d distinct.0 i same)
  | inr other ↦
      let (gone, size) = del-gone a w d i distinct.1 apart.1 in
      rw other (
        λ j. elim j [ inl here ↦ apart.0 w.0 (Item-works a w d i) here | inr there ↦ gone there ],
        ap suc size,
      )
]
  where
    clash : (d : Dict (TaskId × ℤ)) → AllItems (λ k _. (b ==ℤ k) ≡ false) d → Item a w d → b ≡ a → ⊥
    clash [] other j same = absurd j
    clash ((c, x) ∷ d) other (inl (here, held)) same =
        ground (arith, other.0, here, same, ==ℤ_iff b c)
    clash (y ∷ d) other (inr j) same = clash d other.1 j same

pub length-works : (d : Dict (TaskId × ℤ)) → length (works d) ≡ length d
length-works [] = refl
length-works (w ∷ d) = ap suc (length-works d)

length-add_new :
    (k : TaskId) (ks : List TaskId) → (In k ks → ⊥) → length (add k ks) ≡ suc (length ks)
length-add_new k ks new = elim (Bool-cases (contains k ks)) [
  | inl there ↦ absurd (new (contains-In k ks there))
  | inr absent ↦ rw absent (length-append_one ks)
]
  where
    length-append_one : (js : List TaskId) → length (js ++ k ∷ []) ≡ suc (length js)
    length-append_one [] = refl
    length-append_one (j ∷ js) = ap suc (length-append_one js)

-- A completion moves one task from those in progress to the completed ones.
pub complete-Counted :
    (dag : TaskDag) (id : AgentId) (work : TaskId × ℤ) (s s1 : Simulation)
    → Counted dag.tasks s
    → Item id work s.running
    → complete dag (id, work) s ≡ ok s1
    → Counted dag.tasks s1
      × (length s1.completed ≡ suc (length s.completed))
      × (length s.running ≡ suc (length s1.running))
unfolding complete
complete-Counted dag id (k, finish) s s1 h i runs =
    let (robot, found, runs1) = >>=-eq-ok (or_key_error (robot_by_id id s.robots)) _ runs in
    let (task, known, runs2) = >>=-eq-ok (or_key_error (get k dag.tasks)) _ runs1 in
    let (gone, size) = del-gone id (k, finish) s.running i h.distinct h.apart_works in
    let there = Item-works id (k, finish) s.running i in
    subst
      (λ (z : Simulation).
        Counted dag.tasks z
        × (length z.completed ≡ suc (length s.completed))
        × (length s.running ≡ suc (length z.running)))
      (ok_inj _ s1 runs2)
      (
        record {
          apart_done = Apart-add k s.completed h.apart_done;
          apart_works = del-Apart id s.running h.apart_works;
          disjoint = λ j old now. elim (In-add j k s.completed old) [
            | inl before ↦ h.disjoint j before (del-works j id s.running now)
            | inr same ↦ gone (subst (λ x. In x (works (del id s.running))) (sym same) now)
          ];
          known_done = λ j old. elim (In-add j k s.completed old) [
            | inl before ↦ h.known_done j before
            | inr same ↦
                subst (λ x. In x (keys dag.tasks)) same
                  (keys-In k task dag.tasks (or_key_error-inv _ task known))
          ];
          known_works = λ j now. h.known_works j (del-works j id s.running now);
          distinct = IsDistinct-del id s.running h.distinct;
          real = λ j now. h.real j (del-works j id s.running now);
          ids = subst Apart (sym (put_robot-ids _ s.robots)) h.ids;
        },
        length-add_new k s.completed λ before. h.disjoint k before there,
        size,
      )
