-- ===== src/Allocator/Shares.antt =====
-- A round gives out a task that nobody has yet.
use distributed_mobile_robot.Base.{
  ap, zero, ◌-◌, ℕ, suc, ◌+◌, ◌<◌, ℤ, pos, ltb_ℤ, Bool, true, false, not, ◌≡◌, refl, sym, subst,
  ◌⊎◌, inl, inr, List, Option, none, some, ok, >>=-eq-ok, All, All-mono, In, Apart, contains,
  is_subset, length, arith,
}
use distributed_mobile_robot.Base.Dict.{
  AllItems-of_keys, IsDistinct-of_keys, keys-Apart, length-keys, Dict, get, keys, is_some, AllItems,
  AllItems-of_get, IsDistinct, keys-In,
}
use distributed_mobile_robot.Types.{TaskId, Task, RoundConfig, RoundResult}
use distributed_mobile_robot.Dag.{TaskDag, is_available, available}
use distributed_mobile_robot.Dag.Accepted.{Apart-fits, Keyed}
use distributed_mobile_robot.Benefits.{RobotState}
use distributed_mobile_robot.Harness.Optimal.{tasks_of as assigned}
use distributed_mobile_robot.Allocator.{
  RepeatedRoundsAllocator, RoundRunner, Simulation, in_progress, offered_tasks, idle_robots,
  auction_round, round_benefits, tasks_of,
}
use distributed_mobile_robot.Allocator.Loop.{has_none, round_due}
use distributed_mobile_robot.Allocator.Offers.{Offered, round_benefits-Offered}
use distributed_mobile_robot.Allocator.Ready.{Honest, sorted-All, keys-select-All}
use distributed_mobile_robot.Allocator.Counted.{works, Counted, Fresh, real_count}
use distributed_mobile_robot.Allocator.Progress.{dispatch_all-Counted}
use distributed_mobile_robot.Allocator.Rounds.{
  round_benefits-KeyedBy, round_benefits-IsDistinct, round_benefits-length,
}
use distributed_mobile_robot.Allocator.Sentinels.{
  sentinels, sentinels-In, length-sentinels, sentinels-below, length-served, none_real,
  assigned-All,
}
use distributed_mobile_robot.Allocator.Idle.{
  some_there, right_of, tasks_of-length, select-ids, select-kept, left_of, not_in, keyed_row,
  idle_robots-idle,
}

-- A round gives each agent of its rows a task that it was offered, and no task to two of them.
pub record Shares (run_round : RoundRunner) (config : RoundConfig) : Type 0 where
  pub honest : Honest run_round config
  pub agents :
      (calls : ℕ) (benefits : Dict (Dict ℤ)) (result : RoundResult)
      → IsDistinct benefits
      → run_round calls benefits config ≡ ok result
      → keys result.assignment ≡ keys benefits
  pub served :
      (calls : ℕ) (benefits : Dict (Dict ℤ)) (result : RoundResult)
      → IsDistinct benefits
      → run_round calls benefits config ≡ ok result
      → AllItems (λ _ choice. choice ≡ none → ⊥) result.assignment
  pub apart :
      (calls : ℕ) (benefits : Dict (Dict ℤ)) (result : RoundResult)
      → IsDistinct benefits
      → run_round calls benefits config ≡ ok result
      → Apart (assigned result.assignment)

zero-cases : (n : ℕ) → (n ≡ 0) ⊎ (0 < n)
zero-cases zero = inl refl
zero-cases (suc n) = inr (omega arith)

-- No id of the graph is a sentinel's.
abbrev pub NoSentinels : Dict Task → Type 0
NoSentinels tasks = (k : TaskId) → In k (keys tasks) → ltb_ℤ k (pos 0) ≡ false

module _ (dag : TaskDag) (keyed : Keyed dag.tasks) (distinct : IsDistinct dag.tasks)
    (ids : NoSentinels dag.tasks) where
  offered_tasks-Fresh : (s : Simulation) → All (Fresh dag.tasks s) (offered_tasks dag s)
  unfolding available
  offered_tasks-Fresh s = sorted-All (Fresh dag.tasks s) _ (
      select-kept (λ k. In k (keys dag.tasks) × (In k s.completed → ⊥)) (Fresh dag.tasks s)
        (λ k. not (contains k (in_progress s))) (available dag s.completed)
        (λ k open_task free. record {
          real = ids k open_task.0;
          known = open_task.0;
          not_done = open_task.1;
          not_running = not_in k (works s.running) free;
        })
        (keys-select-All (λ k. In k (keys dag.tasks) × (In k s.completed → ⊥))
          (is_available s.completed) dag.tasks
          (AllItems-of_get _ dag.tasks distinct λ k t found can. (
            keys-In k t dag.tasks found,
            not_in k s.completed (
                left_of (not (contains k s.completed)) (is_subset t.prerequisites s.completed) can),
          ))))

  -- Fewer sentinels than agents: one agent at least gets a task of the graph.
  gives :
      (s : Simulation) (idle : List RobotState) (ts : List Task) (benefits : Dict (Dict ℤ))
      (choices : Dict (Option TaskId))
      → 0 < length idle
      → 0 < length ts
      → length (keys benefits) ≡ length idle
      → ((j : TaskId)
          → Offered benefits j
          → In j (sentinels (length idle - length ts)) ⊎ Fresh dag.tasks s j)
      → AllItems (λ _ choice. (t : TaskId) → choice ≡ some t → Offered benefits t) choices
      → keys choices ≡ keys benefits
      → AllItems (λ _ choice. choice ≡ none → ⊥) choices
      → Apart (assigned choices)
      → 0 < real_count choices
  gives s idle ts benefits choices someone something rows given offered same served apart =
      elim (zero-cases (real_count choices)) [
        | inr some_real ↦ some_real
        | inl no_real ↦
            let few =
              Apart-fits (assigned choices) (sentinels (length idle - length ts)) apart λ j i.
                elim (given j (assigned-All (Offered benefits) choices j offered i)) [
                  | inl sentinel ↦ sentinel
                  | inr f ↦ absurd (clash (ltb_ℤ j (pos 0)) (none_real choices j no_real i) f.real)
                ] in
            absurd (
              omega (
                arith,
                few,
                length-sentinels (length idle - length ts),
                length-served choices served,
                length-keys choices,
                ap length same,
                rows,
                someone,
                something,
              ))
      ]
    where
      clash : (b : Bool) → b ≡ true → b ≡ false → ⊥
      clash b held denied = absurd (cc)

  -- A round that is due sets a robot to work.
  pub auction_round-Counted :
      (self : RepeatedRoundsAllocator) (s s1 : Simulation)
      → Shares self.run_round self.round_config
      → Counted dag.tasks s
      → round_due dag s ≡ true
      → auction_round self dag (offered_tasks dag s) (idle_robots s) s ≡ ok s1
      → Counted dag.tasks s1 × (s1.completed ≡ s.completed) × (length s.running < length s1.running)
  unfolding auction_round
  auction_round-Counted self s s1 shares h due runs =
      let (ts, found, runs1) = >>=-eq-ok (tasks_of dag (offered_tasks dag s)) _ runs in
      let (benefits, rows, runs2) = >>=-eq-ok (round_benefits self (idle_robots s) ts) _ runs1 in
      let (result, ran, runs3) =
        >>=-eq-ok (self.run_round s.rounds benefits self.round_config) _ runs2 in
      let fresh = offered_tasks-Fresh s in
      let rows_differ = round_benefits-IsDistinct self (idle_robots s) ts benefits rows in
      let same = shares.agents s.rounds benefits result rows_differ ran in
      let tasks_differ = shares.apart s.rounds benefits result rows_differ ran in
      let honest = shares.honest s.rounds benefits result rows_differ ran in
      let served = shares.served s.rounds benefits result rows_differ ran in
      let idle =
        round_benefits-KeyedBy (λ a. get a s.running ≡ none) self (idle_robots s) ts benefits
          (idle_robots-idle s) rows in
      let given : (j : TaskId)
          → Offered benefits j
          → In j (sentinels (length (idle_robots s) - length ts)) ⊎ Fresh dag.tasks s j =
        λ j.
          round_benefits-Offered
            (λ i. In i (sentinels (length (idle_robots s) - length ts)) ⊎ Fresh dag.tasks s i)
            (length (idle_robots s) - length ts) (λ i le. inl (sentinels-In i _ le)) self dag
            (idle_robots s) (offered_tasks dag s) ts benefits j keyed
            (All-mono (Fresh dag.tasks s) _ (λ i f. inr f) _ fresh) (omega arith) found rows in
      let more =
        gives s (idle_robots s) ts benefits result.assignment
          (some_there (idle_robots s)
            (right_of (not (has_none (offered_tasks dag s))) (not (has_none (idle_robots s))) due))
          (omega (
            arith,
            tasks_of-length dag (offered_tasks dag s) ts found,
            some_there (offered_tasks dag s) (
                left_of (not (has_none (offered_tasks dag s))) (not (has_none (idle_robots s)))
                  due),
          ))
          (round_benefits-length self (idle_robots s) ts benefits
            (select-ids (λ (r : RobotState). not (is_some (get r.id s.running))) s.robots h.ids)
            rows)
          given honest same served tasks_differ in
      let (h1, done, size) =
        dispatch_all-Counted self dag result.assignment
          (record s { rounds = suc s.rounds; messages = s.messages + result.messages_sent }) s1
          (record {
            apart_done = h.apart_done;
            apart_works = h.apart_works;
            disjoint = h.disjoint;
            known_done = h.known_done;
            known_works = h.known_works;
            distinct = h.distinct;
            real = h.real;
            ids = h.ids;
          })
          (record {
            idle =
                AllItems-of_keys (λ a. get a s.running ≡ none) result.assignment
                  λ a i.
                    keyed_row (λ b. get b s.running ≡ none) a benefits idle (subst (In a) same i);
            distinct =
                IsDistinct-of_keys result.assignment
                  (subst Apart (sym same) (keys-Apart benefits rows_differ));
            fresh =
                All-mono _ _ (λ item o t chosen. again_fresh ts result (given t (o t chosen)))
                  result.assignment honest;
            apart = tasks_differ;
          })
          runs3 in
      (h1, done, omega (arith, size, more))
    where
      moved : RoundResult → Simulation
      moved result = record s {
        rounds = suc s.rounds;
        messages = s.messages + result.messages_sent;
      }

      again_fresh :
          {j : TaskId} (ts : List Task) (result : RoundResult)
          → In j (sentinels (length (idle_robots s) - length ts)) ⊎ Fresh dag.tasks s j
          → (ltb_ℤ j (pos 0) ≡ true) ⊎ Fresh dag.tasks (moved result) j
      again_fresh ts result (inl i) = inl (sentinels-below _ _ i)
      again_fresh ts result (inr f) = inr (record {
        real = f.real;
        known = f.known;
        not_done = f.not_done;
        not_running = f.not_running;
      })
