-- ===== src/Allocator/Passes.antt =====
-- Each pass of the loop of `allocate` keeps the invariant.
use distributed_mobile_robot.Base.{
  In-append_one, ℕ, ℤ, ltb_ℤ, ◌≤ℤ◌, if◌then◌else◌, ◌≡◌, sym, subst, ◌⊎◌, inl, inr, List, [], ◌∷◌,
  some, ok, >>=-eq-ok, ok_inj, All-mono, All-both, In, contains, Bool-cases, arith,
}
use distributed_mobile_robot.Base.Dict.{Dict, get, or_key_error, AllItems, AllItems-del, IsDistinct}
use distributed_mobile_robot.Types.{TaskId}
use distributed_mobile_robot.Dag.{TaskDag}
use distributed_mobile_robot.Dag.Accepted.{Keyed}
use distributed_mobile_robot.Allocator.{RepeatedRoundsAllocator, Simulation, robot_by_id}
use distributed_mobile_robot.Allocator.Loop.{earliest_from, add, complete, allocate_loop}
use distributed_mobile_robot.Allocator.Endings.{Work, allocate_loop-IsEnd}
use distributed_mobile_robot.Allocator.Ready.{Honest}
use distributed_mobile_robot.Allocator.Respect.{
  EndsBy, EndsBy-later, Runs, Respects, Timed, auction_round-Respects,
}

-- No work of the running ones ends earlier.
abbrev Least : Work → Dict (TaskId × ℤ) → Type 0
Least work running = AllItems (λ _ other. work.1.1 ≤ℤ other.1) running

earliest_from-Least :
    (first : Work) (running : Dict (TaskId × ℤ))
    → Least (earliest_from first running) (first ∷ running)
earliest_from-Least first [] = (omega arith, tt)
earliest_from-Least first (item ∷ running) = elim (Bool-cases (ltb_ℤ item.1.1 first.1.1)) [
  | inl less ↦
      let (le, all) = earliest_from-Least item running in
      subst
        (λ b. Least (earliest_from (if b then item else first) running) (first ∷ item ∷ running))
        (sym less) (ground (arith, le, less), (le, all))
  | inr more ↦
      let (le, all) = earliest_from-Least first running in
      subst
        (λ b. Least (earliest_from (if b then item else first) running) (first ∷ item ∷ running))
        (sym more) (le, (ground (arith, le, more), all))
]

pub earliest_from-All :
    (P : TaskId × ℤ → Type 0) (first : Work) (running : Dict (TaskId × ℤ))
    → P first.1
    → AllItems (λ _ work. P work) running
    → P (earliest_from first running).1
earliest_from-All P first [] p h = p
earliest_from-All P first (item ∷ running) p h = elim (Bool-cases (ltb_ℤ item.1.1 first.1.1)) [
  | inl less ↦ rw (earliest_from, less) (earliest_from-All P item running h.0 h.1)
  | inr more ↦ rw (earliest_from, more) (earliest_from-All P first running p h.1)
]

pub In-add : (j k : TaskId) (ks : List TaskId) → In j (add k ks) → In j ks ⊎ (k ≡ j)
In-add j k ks i = elim (Bool-cases (contains k ks)) [
  | inl there ↦ inl (rw there at i)
  | inr new ↦ In-append_one j ks k (rw new at i)
]

module _ (dag : TaskDag) where
  complete-Respects :
      (work : Work) (s s1 : Simulation)
      → Respects dag.tasks s
      → Runs s work.1
      → Least work s.running
      → complete dag work s ≡ ok s1
      → Respects dag.tasks s1
  unfolding complete
  complete-Respects (id, (k, finish)) s s1 h runs_k least runs =
      let (robot, found, runs1) = >>=-eq-ok (or_key_error (robot_by_id id s.robots)) _ runs in
      let (task, known, runs2) = >>=-eq-ok (or_key_error (get k dag.tasks)) _ runs1 in
      subst (Respects dag.tasks) (ok_inj _ s1 runs2) (record {
        done = λ j i. elim (In-add j k s.completed i) [
          | inl old ↦ EndsBy-later j s.now finish s.schedule runs_k.1 (h.done j old)
          | inr same ↦ subst (λ x. EndsBy x finish s.schedule) same runs_k.0
        ];
        going =
            AllItems-del (λ _ other. EndsBy other.0 other.1 s.schedule × finish ≤ℤ other.1) id
              s.running
              (All-mono _ _ (λ item both. (both.0.0, both.1)) s.running
                (All-both (λ (item : Work). Runs s item.1) (λ (item : Work). finish ≤ℤ item.1.1)
                  s.running h.going least));
        waits = h.waits;
        lasts = h.lasts;
        begun = omega (arith, h.begun, runs_k.1);
      })

  complete_earliest-Respects :
      (item : Work) (running : Dict (TaskId × ℤ)) (s s1 : Simulation)
      → s.running ≡ item ∷ running
      → Respects dag.tasks s
      → complete dag (earliest_from item running) s ≡ ok s1
      → Respects dag.tasks s1
  complete_earliest-Respects item running s s1 same h completed =
      let going : AllItems (λ _ work. Runs s work) (item ∷ running) =
        subst (AllItems (λ _ work. Runs s work)) same h.going in
      let least =
        subst (Least (earliest_from item running)) (sym same) (earliest_from-Least item running) in
      complete-Respects (earliest_from item running) s s1 h
        (earliest_from-All (Runs s) item running going.0 going.1) least completed

  pub allocate_loop-Respects :
      (self : RepeatedRoundsAllocator) (fuel total : ℕ) (s ended : Simulation)
      → Keyed dag.tasks
      → IsDistinct dag.tasks
      → Timed self dag.tasks
      → Honest self.run_round self.round_config
      → Respects dag.tasks s
      → allocate_loop fuel self dag total s ≡ ok (some ended)
      → Respects dag.tasks ended
  allocate_loop-Respects self fuel total s ended keyed distinct timed honest h runs =
      elim (allocate_loop-IsEnd self dag (Respects dag.tasks)
        (λ s s1 h. auction_round-Respects self dag timed s s1 keyed distinct honest h)
        complete_earliest-Respects fuel total s ended h runs) [
          | inl (kept, over) ↦ kept
          | inr (s0, kept, same) ↦ subst (Respects dag.tasks) same (record {
            done = kept.done;
            going = kept.going;
            waits = kept.waits;
            lasts = kept.lasts;
            begun = kept.begun;
          })
        ]
