-- ===== src/Harness/Outcome.antt =====
-- What a round that ends returns: a consistent assignment, near each agent's best at the final prices.
use distributed_mobile_robot.Base.{ℕ, ℤ, pos, ◌<ℤ◌, ◌≡◌, ◌∙◌, ap, sym, subst, [], some, ok}
use distributed_mobile_robot.Base.Dict.{Dict, get, IsDistinct}
use distributed_mobile_robot.Types.{AgentId, TaskId, PriceEntry, RoundConfig, RoundResult}
use distributed_mobile_robot.Engine.Bid.{NearBest}
use distributed_mobile_robot.Network.{Network}
use distributed_mobile_robot.Network.Invariant.{IsValid}
use distributed_mobile_robot.Harness.{Transport, merged_prices, run_round}
use distributed_mobile_robot.Harness.Agents.{Has}
use distributed_mobile_robot.Harness.Check.{Checked, assign_all-Checked, assign_all-get}
use distributed_mobile_robot.Harness.Final.{merged-NearBest}
use distributed_mobile_robot.Harness.Ending.{run_round-Ended}

-- What the round promises an agent with a task: at the prices that it returns, the agent is the
-- task's highest bidder, and no task of its row is better by more than epsilon.
pub record Served (benefits : Dict (Dict ℤ)) (config : RoundConfig) (prices : Dict PriceEntry)
    (i : AgentId) (task : TaskId) : Type 0 where
  pub row : Dict ℤ
  pub listed : get i benefits ≡ some row
  pub entry : PriceEntry
  pub priced : get task prices ≡ some entry
  pub owner : entry.bidder ≡ i
  pub near : NearBest row (record { entries = prices }) config.epsilon task

Checked-Served :
    (benefits : Dict (Dict ℤ)) (config : RoundConfig) (s : Network) (v : IsValid s)
    (distinct : IsDistinct s.agents) (i : AgentId) (task : TaskId)
    → Has benefits config s
    → Checked (merged_prices s.agents) s.agents i task
    → Served benefits config (merged_prices s.agents) i task
unfolding Has
Checked-Served benefits config s v distinct i task h c =
    let (listed, same) = h i c.agent c.known in
    record {
      row = c.agent.benefits;
      listed = listed;
      entry = c.entry;
      priced = c.priced;
      owner = c.owner;
      near =
          subst
            (λ (k : RoundConfig).
              NearBest c.agent.benefits (record { entries = merged_prices s.agents }) k.epsilon
                task)
            same (merged-NearBest s v distinct i c.agent c.known task c.entry c.priced c.owner);
    }

module _ {S : Type 0} (benefits : Dict (Dict ℤ)) (transport : Transport S) (config : RoundConfig)
    (max_ticks : ℕ) (result : RoundResult) (transport' : Transport S) where
  pub run_round_lem :
      (i : AgentId) (task : TaskId)
      → pos 0 <ℤ config.epsilon
      → IsDistinct benefits
      → transport.queue ≡ []
      → run_round benefits transport config max_ticks ≡ ok (result, transport')
      → get i result.assignment ≡ some (some task)
      → Served benefits config result.prices i task
  run_round_lem i task pos_eps distinct empty runs held =
      let e =
        run_round-Ended benefits transport config max_ticks result transport' pos_eps distinct empty
          runs in
      subst (λ p. Served benefits config p i task) e.prices
        (Checked-Served benefits config e.state e.valid e.distinct i task e.rows (
          assign_all-Checked _ (let st = e.state in st.agents) [] result.assignment i task
            e.assigned held))

  -- Let epsilon be positive, the rows be of different agents, and the transport be empty at the
  -- start. If run_round returns, over any topology, losses and delays, then each agent that has a
  -- row is assigned a task of that row, it is the task's bidder in the prices that run_round
  -- returns, and at these prices no task of its row has a net value more than epsilon above that
  -- task's.
  pub run_round-serves_all :
      (i : AgentId) (row : Dict ℤ)
      → pos 0 <ℤ config.epsilon
      → IsDistinct benefits
      → transport.queue ≡ []
      → run_round benefits transport config max_ticks ≡ ok (result, transport')
      → get i benefits ≡ some row
      → (task : TaskId) × (get i result.assignment ≡ some (some task))
        × Served benefits config result.prices i task
  run_round-serves_all i row pos_eps distinct empty runs listed =
      let e =
        run_round-Ended benefits transport config max_ticks result transport' pos_eps distinct empty
          runs in
      let (a, known) = e.known i row listed in
      let (task, busy) = e.busy i a known in
      let held : get i result.assignment ≡ some (some task) =
        assign_all-get _ _ [] result.assignment i a e.assigned known ∙ ap some busy in
      (task, held, run_round_lem i task pos_eps distinct empty runs held)

  -- If run_round returns, with epsilon positive, rows of different agents and an empty transport at
  -- the start, then two agents to which its assignment gives the same task are the same agent.
  pub run_round-apart :
      (i j : AgentId) (task : TaskId)
      → pos 0 <ℤ config.epsilon
      → IsDistinct benefits
      → transport.queue ≡ []
      → run_round benefits transport config max_ticks ≡ ok (result, transport')
      → get i result.assignment ≡ some (some task)
      → get j result.assignment ≡ some (some task)
      → i ≡ j
  run_round-apart i j task pos_eps distinct empty runs held held' =
      let x = run_round_lem i task pos_eps distinct empty runs held in
      let y = run_round_lem j task pos_eps distinct empty runs held' in
      let same : x.entry ≡ y.entry = cc (sym x.priced ∙ y.priced) in
      sym x.owner ∙ ap (λ (e : PriceEntry). e.bidder) same ∙ y.owner
