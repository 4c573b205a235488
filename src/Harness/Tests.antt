-- ===== src/Harness/Tests.antt =====
-- Two robots and two tasks, over a network with no loss.
use distributed_mobile_robot.Base.{
  ℕ, ℤ, pos, ◌+ℤ◌, ◌-ℤ◌, false, ◌≡◌, refl, some, [], ◌∷◌, ok, arith, inl, inr, Apart, length, ◌≤ℤ◌,
  ◌*ℤ◌,
}
use distributed_mobile_robot.Base.Dict.{Dict, get, set}
use distributed_mobile_robot.Types.{TaskId, RoundConfig, RoundResult}
use distributed_mobile_robot.Prices.{
  price_table, initial_entries, entry, price, bidder, merge_entry, merge_loop, merge, bid,
}
use distributed_mobile_robot.Engine.{
  auction_agent, handle_message, outbid, consider, scan, increment, place_bid, terminated, tick_bid,
  tick_count, tick,
}
use distributed_mobile_robot.Transport.{
  sim_transport, complete, heappush, send_to, send_loop, send_payload, send, pop_due, deliver_due,
  idle,
}
use distributed_mobile_robot.Hungarian.{total_benefit, benefit_in}
use distributed_mobile_robot.Harness.Optimal.{Assignment, tasks_of}
use distributed_mobile_robot.Harness.Bound.{run_round-near_optimal}
use distributed_mobile_robot.Harness.{
  Transport, common_tasks, make_agents, deliver_all, tick_all, round_loop, join_entries, merge_all,
  merged_prices, claim_task, assign_all, consistent_assignment, run_round,
}
use distributed_mobile_robot.Harness.Outcome.{Served, run_round-serves_all}

abbrev config : RoundConfig
config = record { epsilon = pos 1; quiescence_rounds = pos 2 }

abbrev benefits : Dict (Dict ℤ)
benefits =
    (pos 3, (pos 1, pos 10) ∷ (pos 2, pos 7) ∷ [])
    ∷ (pos 5, (pos 1, pos 9) ∷ (pos 2, pos 2) ∷ [])
    ∷ []

abbrev calm : Transport ℕ
calm = sim_transport (λ now. complete (pos 3 ∷ pos 5 ∷ [])) (λ s. (false, s)) (λ s. (pos 0, s)) 0

abbrev outcome : RoundResult
outcome = record {
  assignment = (pos 3, some (pos 2)) ∷ (pos 5, some (pos 1)) ∷ [];
  ticks = 4;
  messages_sent = 7;
  prices =
      (pos 1, record { price = pos 8; bidder = pos 5 })
      ∷ (pos 2, record { price = pos 6; bidder = pos 3 })
      ∷ [];
}

abbrev after : Transport ℕ
after = record calm { seq = 7; messages_sent = 7 }

calm_run : run_round benefits calm config 20 ≡ ok (outcome, after)
unfolding run_round common_tasks make_agents auction_agent price_table initial_entries set get
    round_loop deliver_due pop_due deliver_all handle_message merge merge_loop merge_entry tick_all
    tick tick_bid tick_count outbid bidder price place_bid scan consider increment bid terminated
    send send_payload send_loop send_to heappush idle complete sim_transport consistent_assignment
    assign_all claim_task merged_prices merge_all join_entries entry ◌+ℤ◌ ◌-ℤ◌
calm_run = refl

run_round_example :
    (task : TaskId) × (get (pos 3) outcome.assignment ≡ some (some task))
    × Served benefits config outcome.prices (pos 3) task
unfolding get sim_transport
run_round_example =
    run_round-serves_all benefits calm config 20 outcome after (pos 3)
      ((pos 1, pos 10) ∷ (pos 2, pos 7) ∷ []) (omega arith) ((refl, tt), (tt, tt)) refl calm_run
      refl

abbrev swapped : Assignment
swapped = (pos 3, some (pos 1)) ∷ (pos 5, some (pos 2)) ∷ []

swapped-Apart : Apart (tasks_of swapped)
swapped-Apart = (
  λ k i same. elim i [ inl two ↦ cc | inr none_left ↦ absurd none_left ],
  (λ k none_left. absurd none_left, tt),
)

swapped_total : total_benefit benefits swapped ≡ ok (pos 12)
unfolding total_benefit benefit_in get ◌+ℤ◌
swapped_total = refl

near_optimal_example :
    (got : ℤ) × (total_benefit benefits outcome.assignment ≡ ok got)
    × (pos 12 ≤ℤ got +ℤ pos (length benefits) *ℤ config.epsilon)
unfolding sim_transport
near_optimal_example =
    run_round-near_optimal benefits calm config 20 outcome after
      (((refl, tt), (tt, tt)), (((refl, tt), (tt, tt)), tt)) (omega arith) ((refl, tt), (tt, tt))
      refl calm_run swapped (pos 12) refl ((λ e. cc), ((λ e. cc), tt)) swapped-Apart swapped_total
