-- ===== src/Allocator/Ends.antt =====
-- The loop of `allocate` ends.
use distributed_mobile_robot.Base.{
  ℕ, zero, suc, ◌+◌, ◌-◌, ◌*◌, ◌≤◌, ◌<◌, ltb, ℤ, ◌≡◌, refl, sym, subst, inl, inr, List, [], ◌∷◌,
  Option, none, Result, ok, >>=-eq-ok, ok_inj, In, Apart, length, Bool-cases, arith,
}
use distributed_mobile_robot.Base.Dict.{Dict, keys, IsDistinct, Item, length-keys}
use distributed_mobile_robot.Base.Sums.{remove, In-remove, length-remove}
use distributed_mobile_robot.Types.{TaskId, Task}
use distributed_mobile_robot.Dag.{TaskDag}
use distributed_mobile_robot.Dag.Accepted.{Apart-fits, Keyed}
use distributed_mobile_robot.Allocator.{
  RepeatedRoundsAllocator, Simulation, offered_tasks, idle_robots, auction_round,
}
use distributed_mobile_robot.Allocator.Loop.{
  earliest_from, complete, Pass, again, stop, advance_on, advance, pass, any_working, round_due,
  follow, allocate_loop,
}
use distributed_mobile_robot.Allocator.Endings.{Work}
use distributed_mobile_robot.Allocator.Counted.{works, Counted}
use distributed_mobile_robot.Allocator.Progress.{earliest_from-Item, length-works, complete-Counted}
use distributed_mobile_robot.Allocator.Shares.{Shares, NoSentinels, auction_round-Counted}

-- Two lists of different items have room for one another.
both-fit :
    (xs ys zs : List ℤ)
    → Apart xs
    → Apart ys
    → ((k : ℤ) → In k xs → In k ys → ⊥)
    → ((k : ℤ) → In k xs → In k zs)
    → ((k : ℤ) → In k ys → In k zs)
    → length xs + length ys ≤ length zs
both-fit [] ys zs apart apart_ys differ sub sub_ys = omega (arith, Apart-fits ys zs apart_ys sub_ys)
both-fit (x ∷ xs) ys zs apart apart_ys differ sub sub_ys =
    let shorter = length-remove x zs (sub x (inl refl)) in
    let rest =
      both-fit xs ys (remove x zs) apart.1 apart_ys (λ k i. differ k (inr i))
        (λ j i. In-remove j x zs (sub j (inr i)) (apart.0 j i))
        (λ j i. In-remove j x zs (sub_ys j i) λ same. differ j (inl same) i) in
    omega (arith, shorter, rest)

-- A task in progress counts once, a completed one twice.
abbrev progress : Simulation → ℕ
progress s = length s.completed + (length s.completed + length s.running)

progress-bound :
    (tasks : Dict Task) (s : Simulation) → Counted tasks s → progress s ≤ 2 * length tasks
progress-bound tasks s h =
    let fit =
      both-fit s.completed (works s.running) (keys tasks) h.apart_done h.apart_works h.disjoint
        h.known_done h.known_works in
    omega (arith, fit, length-works s.running, length-keys tasks)

module _ (self : RepeatedRoundsAllocator) (dag : TaskDag) (keyed : Keyed dag.tasks)
    (distinct : IsDistinct dag.tasks) (ids : NoSentinels dag.tasks)
    (shares : Shares self.run_round self.round_config) where
  -- What a pass that another one follows has done.
  abbrev Gains : ℕ → Pass → Type 0
  Gains before (again s) = Counted dag.tasks s × (before < progress s)
  Gains before (stop s) = Unit

  advance_on-Gains :
      (running : Dict (TaskId × ℤ)) (s : Simulation) (p : Pass)
      → s.running ≡ running
      → Counted dag.tasks s
      → advance_on dag running s ≡ ok p
      → Gains (progress s) p
  unfolding advance_on
  advance_on-Gains [] s p same h runs = subst (Gains (progress s)) (ok_inj (stop _) p runs) tt
  advance_on-Gains (item ∷ running) s p same h runs =
      let (s1, completed, runs1) = >>=-eq-ok (complete dag (earliest_from item running) s) _ runs in
      let next : Work = earliest_from item running in
      let (h1, done, size) =
        complete-Counted dag next.0 next.1 s s1 h
          (subst (Item next.0 next.1) (sym same) (earliest_from-Item item running)) completed in
      subst (Gains (progress s)) (ok_inj (again s1) p runs1) (h1, omega (arith, done, size))

  Gains-more : (less more : ℕ) (p : Pass) → less ≤ more → Gains more p → Gains less p
  Gains-more less more (again s) le g = (g.0, omega (arith, le, g.1))
  Gains-more less more (stop s) le g = tt

  pass-Gains :
      (s : Simulation) (p : Pass)
      → Counted dag.tasks s
      → pass self dag s ≡ ok p
      → Gains (progress s) p
  unfolding pass advance
  pass-Gains s p h runs = elim (Bool-cases (round_due dag s)) [
    | inr waiting ↦ advance_on-Gains s.running s p refl h (rw waiting at runs)
    | inl due ↦
        let (s1, played, runs1) =
          >>=-eq-ok (auction_round self dag (offered_tasks dag s) (idle_robots s) s) _
            (rw due at runs) in
        let (h1, done, size) =
          auction_round-Counted dag keyed distinct ids self s s1 shares h due played in
        let more : progress s < progress s1 = rw done (omega (arith, size)) in
        elim (Bool-cases (any_working s1.running)) [
          | inl working ↦
              subst (Gains (progress s)) (ok_inj (again s1) p (rw working at runs1)) (h1, more)
          | inr none_works ↦
              Gains-more (progress s) (progress s1) p (omega (arith, more))
                (advance_on-Gains s1.running s1 p refl h1 (rw none_works at runs1))
        ]
  ]

  follow-left :
      (rest : Simulation → Result (Option Simulation)) (before bound : ℕ) (p : Pass)
      → ((s : Simulation) → Counted dag.tasks s → rest s ≡ ok none → progress s ≤ bound)
      → Gains before p
      → follow rest p ≡ ok none
      → before < bound
  follow-left rest before bound (again s) ends g runs = omega (arith, ends s g.0 runs, g.1)
  follow-left rest before bound (stop s) ends g runs = absurd (cc)

  pub allocate_loop-left :
      (fuel total : ℕ) (s : Simulation)
      → Counted dag.tasks s
      → allocate_loop fuel self dag total s ≡ ok none
      → progress s + fuel ≤ 2 * length dag.tasks
  unfolding allocate_loop
  allocate_loop-left zero total s h runs = omega (arith, progress-bound dag.tasks s h)
  allocate_loop-left (suc fuel) total s h runs =
      elim (Bool-cases (ltb (length s.completed) total)) [
        | inr over ↦ absurd (let bad = rw over at runs in cc)
        | inl left ↦
            let (p, passed, runs1) = >>=-eq-ok (pass self dag s) _ (rw left at runs) in
            let less =
              follow-left (allocate_loop fuel self dag total) (progress s)
                (2 * length dag.tasks - fuel) p
                (λ s1 h1 runs2. omega (arith, allocate_loop-left fuel total s1 h1 runs2))
                (pass-Gains s p h passed) runs1 in
            omega (arith, less)
      ]
