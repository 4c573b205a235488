-- ===== src/Harness/Bound.antt =====
-- A round's assignment is within epsilon for each agent of the best one.
use distributed_mobile_robot.Base.{
  ℕ, ℤ, pos, ◌≤ℤ◌, ◌<ℤ◌, ◌+ℤ◌, ◌*ℤ◌, int_laws, ◌≡◌, ◌≢◌, ◌∙◌, ap, sym, subst, ◌⊎◌, inl, inr, [],
  none, some, ok, length, In, Apart,
}
use distributed_mobile_robot.Base.Dict.{
  Dict, keys, AllItems, AllItems-of_get, Item-get, IsDistinct, keys-In, In-get, length-keys,
  IsDistinct-of_keys, keys-Apart,
}
use distributed_mobile_robot.Base.Sums.{sum-le-sum}
use distributed_mobile_robot.Types.{TaskId, RoundConfig, RoundResult}
use distributed_mobile_robot.Hungarian.{total_benefit}
use distributed_mobile_robot.Harness.{Transport, run_round}
use distributed_mobile_robot.Harness.Check.{assign_all-get, assign_all-keys}
use distributed_mobile_robot.Harness.Final.{final_nonneg, final-sold}
use distributed_mobile_robot.Harness.Ending.{Ended, run_round-Ended}
use distributed_mobile_robot.Harness.Outcome.{run_round-serves_all}
use distributed_mobile_robot.Harness.Optimal.{
  Assignment, tasks_of, tasks_of-In, price_of, IsServed, total-near,
}

module _ {S : Type 0} (benefits : Dict (Dict ℤ)) (transport : Transport S) (config : RoundConfig)
    (max_ticks : ℕ) (result : RoundResult) (transport' : Transport S)
    (rows : AllItems (λ i row. IsDistinct row) benefits) (pos_eps : pos 0 <ℤ config.epsilon)
    (distinct : IsDistinct benefits) (empty : transport.queue ≡ [])
    (runs : run_round benefits transport config max_ticks ≡ ok (result, transport')) where
  abbrev ended : Ended benefits transport config max_ticks result transport'
  ended =
      run_round-Ended benefits transport config max_ticks result transport' pos_eps distinct empty
        runs

  abbrev value : TaskId → ℤ
  value = price_of benefits config result.prices rows

  result-keys : keys result.assignment ≡ keys benefits
  result-keys = let e = ended in assign_all-keys _ _ [] result.assignment e.assigned ∙ e.ids

  value_nonneg : (task : TaskId) → pos 0 ≤ℤ value task
  value_nonneg task =
      let e = ended in
      subst (λ p. pos 0 ≤ℤ price_of benefits config p rows task) e.prices
        (final_nonneg e.state e.valid e.distinct task)

  value-sold : (task : TaskId) → (value task ≤ℤ pos 0) ⊎ In task (tasks_of result.assignment)
  value-sold task =
      let e = ended in
      elim (final-sold e.state e.valid e.distinct task) [
        | inl unsold ↦
            inl (subst (λ p. price_of benefits config p rows task ≤ℤ pos 0) e.prices unsold)
        | inr (i, a, held, busy) ↦ inr (
            tasks_of-In i task result.assignment (
              Item-get i (some task) result.assignment
                (assign_all-get _ _ [] result.assignment i a e.assigned held ∙ ap some busy)))
      ]

  result-IsServed : AllItems (IsServed benefits config result.prices rows) result.assignment
  result-IsServed =
      AllItems-of_get (IsServed benefits config result.prices rows) result.assignment
        (IsDistinct-of_keys result.assignment
          (subst Apart (sym result-keys) (keys-Apart benefits distinct)))
        λ i choice held.
          let (row, listed) =
            In-get i benefits
              (subst (In i) result-keys (keys-In i choice result.assignment held)) in
          let (task, held', served) =
            run_round-serves_all benefits transport config max_ticks result transport' i row pos_eps
              distinct empty runs listed in
          let same : choice ≡ some task = cc (sym held ∙ held') in (task, same, served)

  -- Let epsilon be positive, the rows be dicts of different agents, and the transport be empty at
  -- the start. If run_round returns, over any topology, losses and delays, then its assignment has
  -- a total benefit, and every assignment of a different task to each of the agents has a total
  -- benefit at most epsilon for each agent above it.
  pub run_round-near_optimal :
      (other : Assignment) (best : ℤ)
      → keys other ≡ keys benefits
      → AllItems (λ i choice. choice ≢ none) other
      → Apart (tasks_of other)
      → total_benefit benefits other ≡ ok best
      → (got : ℤ) × (total_benefit benefits result.assignment ≡ ok got)
        × (best ≤ℤ got +ℤ pos (length benefits) *ℤ config.epsilon)
  run_round-near_optimal other best same full apart total =
      let (got, got_runs, le) =
        total-near benefits config result.prices rows result.assignment other best
          (result-keys ∙ sym same) result-IsServed full total in
      let paid =
        sum-le-sum value (tasks_of other) (tasks_of result.assignment) value_nonneg apart
          (λ k _. value-sold k) in
      let sizes : length result.assignment ≡ length benefits =
        sym (length-keys result.assignment) ∙ ap length result-keys ∙ length-keys benefits in
      (got, got_runs, rw (← sizes) (omega (int_laws, le, paid)))
