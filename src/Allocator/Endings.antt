-- ===== src/Allocator/Endings.antt =====
-- How the loop of `allocate` ends, for any property of its state that rounds and completions keep.
use distributed_mobile_robot.Base.{
  ℕ, zero, suc, ltb, ℤ, false, not, ◌≡◌, refl, subst, ◌⊎◌, inl, inr, List, [], ◌∷◌, Option, some,
  Result, ok, >>=-eq-ok, ok_inj, contains, select, sorted, length, Bool-cases,
}
use distributed_mobile_robot.Base.Dict.{Dict, keys}
use distributed_mobile_robot.Types.{AgentId, TaskId}
use distributed_mobile_robot.Dag.{TaskDag}
use distributed_mobile_robot.Allocator.{
  RepeatedRoundsAllocator, Simulation, no_progress, report_all, offered_tasks, idle_robots,
  auction_round,
}
use distributed_mobile_robot.Allocator.Loop.{
  earliest_from, complete, Pass, again, stop, advance_on, advance, pass, any_working, round_due,
  follow, allocate_loop,
}

abbrev pub Work : Type 0
Work = AgentId × (TaskId × ℤ)

-- The tasks that are not completed, and the state that reports them.
abbrev pub left_over : TaskDag → Simulation → List TaskId
left_over dag s = sorted (select (λ k. not (contains k s.completed)) (keys dag.tasks))

abbrev pub stopped_at : TaskDag → Simulation → Simulation
stopped_at dag s = record s { unallocated = report_all no_progress (left_over dag s) s.unallocated }

same_simulation : (s ended : Simulation) → ok (some s) ≡ ok (some ended) → s ≡ ended
same_simulation s ended h = cc

module _ (self : RepeatedRoundsAllocator) (dag : TaskDag) (I : Simulation → Type 0)
    (round_keeps : (s s1 : Simulation)
      → I s
      → auction_round self dag (offered_tasks dag s) (idle_robots s) s ≡ ok s1
      → I s1)
    (complete_keeps : (item : Work) (running : Dict (TaskId × ℤ)) (s s1 : Simulation)
      → s.running ≡ item ∷ running
      → I s
      → complete dag (earliest_from item running) s ≡ ok s1
      → I s1) where
  abbrev IsStop : Simulation → Type 0
  IsStop s = (s0 : Simulation) × I s0 × (stopped_at dag s0 ≡ s)

  -- All tasks are completed, or nothing can go on.
  abbrev pub IsEnd : ℕ → Simulation → Type 0
  IsEnd total s = (I s × (ltb (length s.completed) total ≡ false)) ⊎ IsStop s

  abbrev Kept : Pass → Type 0
  Kept (again s) = I s
  Kept (stop s) = IsStop s

  advance_on-Kept :
      (running : Dict (TaskId × ℤ)) (s : Simulation) (p : Pass)
      → s.running ≡ running
      → I s
      → advance_on dag running s ≡ ok p
      → Kept p
  unfolding advance_on
  advance_on-Kept [] s p same h runs =
      subst Kept (ok_inj (stop (stopped_at dag s)) p runs) (s, h, refl)
  advance_on-Kept (item ∷ running) s p same h runs =
      let (s1, completed, runs1) = >>=-eq-ok (complete dag (earliest_from item running) s) _ runs in
      subst Kept (ok_inj (again s1) p runs1) (complete_keeps item running s s1 same h completed)

  pass-Kept : (s : Simulation) (p : Pass) → I s → pass self dag s ≡ ok p → Kept p
  unfolding pass advance
  pass-Kept s p h runs = elim (Bool-cases (round_due dag s)) [
    | inr waiting ↦ advance_on-Kept s.running s p refl h (rw waiting at runs)
    | inl due ↦
        let (s1, played, runs1) =
          >>=-eq-ok (auction_round self dag (offered_tasks dag s) (idle_robots s) s) _
            (rw due at runs) in
        let h1 = round_keeps s s1 h played in
        elim (Bool-cases (any_working s1.running)) [
          | inl working ↦ subst Kept (ok_inj (again s1) p (rw working at runs1)) h1
          | inr none_works ↦ advance_on-Kept s1.running s1 p refl h1 (rw none_works at runs1)
        ]
  ]

  follow-IsEnd :
      (rest : Simulation → Result (Option Simulation)) (total : ℕ) (p : Pass) (ended : Simulation)
      → ((s : Simulation) → I s → rest s ≡ ok (some ended) → IsEnd total ended)
      → Kept p
      → follow rest p ≡ ok (some ended)
      → IsEnd total ended
  follow-IsEnd rest total (again s) ended kept h runs = kept s h runs
  follow-IsEnd rest total (stop s) ended kept h runs =
      inr (subst IsStop (same_simulation s ended runs) h)

  pub allocate_loop-IsEnd :
      (fuel total : ℕ) (s ended : Simulation)
      → I s
      → allocate_loop fuel self dag total s ≡ ok (some ended)
      → IsEnd total ended
  unfolding allocate_loop
  allocate_loop-IsEnd zero total s ended h runs = absurd (cc)
  allocate_loop-IsEnd (suc fuel) total s ended h runs =
      elim (Bool-cases (ltb (length s.completed) total)) [
        | inr over ↦ subst (IsEnd total) (same_simulation s ended (rw over at runs)) (inl (h, over))
        | inl left ↦
            let (p, passed, runs1) = >>=-eq-ok (pass self dag s) _ (rw left at runs) in
            follow-IsEnd (allocate_loop fuel self dag total) total p ended
              (λ s1 h1. allocate_loop-IsEnd fuel total s1 ended h1) (pass-Kept s p h passed) runs1
      ]
