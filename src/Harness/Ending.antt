-- ===== src/Harness/Ending.antt =====
-- The state in which a round that returns has ended its loop.
use distributed_mobile_robot.Base.{
  ℕ, ℤ, pos, ltb, ◌<ℤ◌, Bool-cases, ◌≡◌, ◌∙◌, ap, sym, subst, inl, inr, [], Option, some, ok,
  >>=-eq-ok, length,
}
use distributed_mobile_robot.Base.Dict.{Dict, keys, get, IsDistinct}
use distributed_mobile_robot.Types.{AgentId, TaskId, RoundConfig, RoundResult}
use distributed_mobile_robot.Engine.{AuctionAgent}
use distributed_mobile_robot.Network.{Network, Among, here}
use distributed_mobile_robot.Network.Start.{start}
use distributed_mobile_robot.Network.Invariant.{IsValid}
use distributed_mobile_robot.Network.Safety.{execution-IsValid}
use distributed_mobile_robot.Network.Start.{start-IsValid}
use distributed_mobile_robot.Harness.{
  Transport, common_tasks, make_agents, round_loop, merged_prices, assign_all,
  consistent_assignment, run_round,
}
use distributed_mobile_robot.Harness.Run.{AllQueued, Covers, round_loop-Covers}
use distributed_mobile_robot.Harness.Agents.{
  make_agents-same_keys, make_agents-IsDistinct, make_agents-AllStarted, make_agents-Has, Has,
}
use distributed_mobile_robot.Harness.Busy.{Busy, round_loop-Busy}
use distributed_mobile_robot.Harness.Agents.{IsKnown, make_agents-IsKnown}
use distributed_mobile_robot.Harness.Keeps.{Reach-keys, Reach-Has, Reach-IsDistinct, Reach-IsKnown}

module _ {S : Type 0} (benefits : Dict (Dict ℤ)) (transport : Transport S) (config : RoundConfig)
    (max_ticks : ℕ) (result : RoundResult) (transport' : Transport S) where
  -- The run of the loop inside a round that returns.
  record Ran : Type 0 where
    agents : Dict AuctionAgent
    agents' : Dict AuctionAgent
    now : ℕ
    made : make_agents benefits config ≡ ok agents
    looped : round_loop max_ticks 0 (agents, transport) ≡ ok (now, agents', transport')
    assigned : consistent_assignment agents' ≡ ok result.assignment
    prices : merged_prices agents' ≡ result.prices

  ran :
      (agents agents' : Dict AuctionAgent) (now : ℕ) (assignment : Dict (Option TaskId))
      (t : Transport S)
      → make_agents benefits config ≡ ok agents
      → round_loop max_ticks 0 (agents, transport) ≡ ok (now, agents', t)
      → consistent_assignment agents' ≡ ok assignment
      → ◌≡◌ {A = RoundResult × Transport S}
          (
            record {
              assignment = assignment;
              ticks = now;
              messages_sent = t.messages_sent;
              prices = merged_prices agents';
            },
            t,
          )
          (result, transport')
      → Ran
  ran agents agents' now assignment t made looped assigned same = record {
    agents = agents;
    agents' = agents';
    now = now;
    made = made;
    looped = looped ∙ ap (λ (x : RoundResult × Transport S). ok (now, agents', x.1)) same;
    assigned = assigned ∙ ap (λ (x : RoundResult × Transport S). ok (x.0.assignment)) same;
    prices = ap (λ (x : RoundResult × Transport S). x.0.prices) same;
  }

  run_round-Ran : run_round benefits transport config max_ticks ≡ ok (result, transport') → Ran
  unfolding run_round
  run_round-Ran runs =
      let (task_ids, common, runs1) = >>=-eq-ok (common_tasks benefits) _ runs in
      elim (Bool-cases (ltb (length task_ids) (length benefits))) [
        | inl few ↦ absurd (cc (rw few at runs1))
        | inr enough ↦
            let runs2 = rw enough at runs1 in
            let (agents, made, runs3) = >>=-eq-ok (make_agents benefits config) _ runs2 in
            let ((now, agents', t), looped, runs4) =
              >>=-eq-ok (round_loop max_ticks 0 (agents, transport)) _ runs3 in
            let (assignment, assigned, runs5) = >>=-eq-ok (consistent_assignment agents') _ runs4 in
            ran agents agents' now assignment t made looped assigned (cc runs5)
      ]

  -- The state in which the round ends.
  pub record Ended : Type 0 where
    pub state : Network
    pub valid : IsValid state
    pub distinct : IsDistinct state.agents
    pub ids : keys state.agents ≡ keys benefits
    pub rows : Has benefits config state
    pub busy : (i : AgentId) (a : AuctionAgent) → get i state.agents ≡ some a → Busy a
    pub known : (i : AgentId) (row : Dict ℤ) → get i benefits ≡ some row → IsKnown i state.agents
    pub assigned : assign_all (merged_prices state.agents) state.agents [] ≡ ok result.assignment
    pub prices : merged_prices state.agents ≡ result.prices

  pub run_round-Ended :
      pos 0 <ℤ config.epsilon
      → IsDistinct benefits
      → transport.queue ≡ []
      → run_round benefits transport config max_ticks ≡ ok (result, transport')
      → Ended
  unfolding consistent_assignment
  run_round-Ended pos_eps distinct empty runs =
      let r = run_round-Ran runs in
      let started = make_agents-AllStarted benefits config r.agents pos_eps r.made in
      let v0 = start-IsValid config r.agents started in
      let c0 : Covers (start r.agents) r.agents transport = record {
        sent = [];
        reach = here;
        queued = subst (AllQueued λ m. Among m []) (sym empty) tt;
      } in
      let c =
        round_loop-Covers (start r.agents) max_ticks 0 r.now r.agents r.agents' transport transport'
          r.looped c0 in
      record {
        state = record { agents = r.agents'; sent = c.sent };
        valid = execution-IsValid config r.agents _ started c.reach;
        distinct =
            Reach-IsDistinct (make_agents-IsDistinct benefits config r.agents r.made distinct)
              c.reach;
        ids = Reach-keys c.reach ∙ make_agents-same_keys benefits config r.agents r.made;
        rows =
            Reach-Has benefits config v0 (make_agents-Has benefits config r.agents [] r.made)
              c.reach;
        busy =
            round_loop-Busy (start r.agents) v0 max_ticks 0 r.now r.agents r.agents' transport
              transport' r.looped c0;
        known = λ i row listed.
            Reach-IsKnown i (make_agents-IsKnown benefits config r.agents i row r.made listed)
              c.reach;
        assigned = r.assigned;
        prices = r.prices;
      }
