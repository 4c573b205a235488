-- ===== src/Harness.antt =====
-- auction_core/src/auction_core/validation/harness.py: one auction round over the transport.
pub mod Run
pub mod Merged
pub mod Agents
pub mod Busy
pub mod Keeps
pub mod Check
pub mod Final
pub mod Ending
pub mod Outcome
pub mod Optimal
pub mod Bound
pub mod Tests
use distributed_mobile_robot.Base.{
  ℕ, zero, suc, ◌+◌, ltb, ℤ, ◌==ℤ◌, Bool, true, false, not, ◌&&◌, if◌then◌else◌, List, [], ◌∷◌,
  Option, none, some, Result, ok, err, raise_if, value_error, round_did_not_terminate,
  inconsistent_assignment, ◌>>=◌, ◌>>◌, length, is_subset,
}
use distributed_mobile_robot.Base.Dict.{Dict, get, set, keys, or_key_error, is_some}
use distributed_mobile_robot.Types.{
  AgentId, TaskId, PriceEntry, PriceTableMessage, RoundConfig, RoundResult, entry_max,
}
use distributed_mobile_robot.Prices.{snapshot}
use distributed_mobile_robot.Engine.{AuctionAgent, auction_agent, handle_message, tick, terminated}
use distributed_mobile_robot.Transport.{SimTransport, send, deliver_due, idle}

-- `frozenset(b.keys())`, for each row, is the one of the first row.
abbrev all_over : List TaskId → Dict (Dict ℤ) → Bool
all_over task_ids [] = true
all_over task_ids ((i, b) ∷ benefits) =
    is_subset (keys b) task_ids && is_subset task_ids (keys b) && all_over task_ids benefits

-- `(task_ids,) = task_sets`
unfoldable pub common_tasks : Dict (Dict ℤ) → Result (List TaskId)
common_tasks [] = err value_error
common_tasks ((i, b) ∷ benefits) =
    if all_over (keys b) benefits then ok (keys b) else err value_error

unfoldable pub make_agents : Dict (Dict ℤ) → RoundConfig → Result (Dict AuctionAgent)
make_agents [] config = ok []
make_agents ((agent_id, b) ∷ benefits) config = do
  a ← auction_agent agent_id b config
  agents ← make_agents benefits config
  ok ((agent_id, a) ∷ agents)

abbrev pub or_value_error : Option AuctionAgent → Result AuctionAgent
or_value_error none = err value_error
or_value_error (some a) = ok a

-- The loop over the messages due.
unfoldable pub deliver_all :
    List (AgentId × PriceTableMessage) → Dict AuctionAgent → Result (Dict AuctionAgent)
deliver_all [] agents = ok agents
deliver_all ((dest, message) ∷ due) agents = do
  a ← or_value_error (get dest agents)
  b ← handle_message a message
  deliver_all due (set dest b agents)

abbrev pub Transport : Type 0 → Type 0
Transport S = SimTransport S PriceTableMessage

abbrev pub all_terminated : Dict AuctionAgent → Bool
all_terminated [] = true
all_terminated ((i, a) ∷ agents) = terminated a && all_terminated agents

module _ {S : Type 0} where
  abbrev pub send_all : List PriceTableMessage → ℕ → Transport S → Transport S
  send_all [] now t = t
  send_all (m ∷ ms) now t = send_all ms now (send m now t)

  -- The loop over the agents, by their ids.
  unfoldable pub tick_all :
      List AgentId → ℕ → Dict AuctionAgent × Transport S → Result (Dict AuctionAgent × Transport S)
  tick_all [] now s = ok s
  tick_all (i ∷ ids) now (agents, t) = do
    a ← or_key_error (get i agents)
    (out, b) ← tick a
    tick_all ids now (set i b agents, send_all out now t)

  -- The loop of `run_round`, on `agents`, `transport` and `tick`; the fuel is `max_ticks - tick`.
  unfoldable pub round_loop :
      ℕ → ℕ → Dict AuctionAgent × Transport S → Result (ℕ × Dict AuctionAgent × Transport S)
  round_loop zero now s = err round_did_not_terminate
  round_loop (suc fuel) now (agents, t) =
      let rest = round_loop fuel (now + 1) in
      let (due, t') = deliver_due now t in
      (do
        agents' ← deliver_all due agents
        (agents'', t'') ← tick_all (keys agents') now (agents', t')
        if idle t'' && all_terminated agents''
            then ok (now, agents'', t'')
            else rest (agents'', t''))

-- `merged[task_id] = entry if current is None else max(current, entry)`
abbrev pub joined : Option PriceEntry → PriceEntry → PriceEntry
joined none entry = entry
joined (some current) entry = entry_max current entry

unfoldable pub join_entries : Dict PriceEntry → Dict PriceEntry → Dict PriceEntry
join_entries [] merged = merged
join_entries ((task_id, entry) ∷ entries) merged =
    join_entries entries (set task_id (joined (get task_id merged) entry) merged)

unfoldable pub merge_all : Dict AuctionAgent → Dict PriceEntry → Dict PriceEntry
merge_all [] merged = merged
merge_all ((i, a) ∷ agents) merged = merge_all agents (join_entries (snapshot a.prices) merged)

unfoldable pub merged_prices : Dict AuctionAgent → Dict PriceEntry
merged_prices agents = merge_all agents []

-- The body of the loop of `_consistent_assignment` on a task that is not None: the new `holders`.
unfoldable pub claim_task :
    Dict PriceEntry → AgentId → TaskId → Dict AgentId → Result (Dict AgentId)
claim_task global_prices agent_id task holders = do
  e ← or_key_error (get task global_prices)
  raise_if (not (e.bidder ==ℤ agent_id)) inconsistent_assignment
  raise_if (is_some (get task holders)) inconsistent_assignment
  ok (set task agent_id holders)

abbrev pub claim_on :
    Dict PriceEntry → AgentId → Option TaskId → Dict AgentId → Result (Dict AgentId)
claim_on global_prices agent_id none holders = ok holders
claim_on global_prices agent_id (some task) holders = claim_task global_prices agent_id task holders

unfoldable pub assign_all :
    Dict PriceEntry → Dict AuctionAgent → Dict AgentId → Result (Dict (Option TaskId))
assign_all global_prices [] holders = ok []
assign_all global_prices ((agent_id, a) ∷ agents) holders = do
  holders' ← claim_on global_prices agent_id a.assignment holders
  assignment ← assign_all global_prices agents holders'
  ok ((agent_id, a.assignment) ∷ assignment)

unfoldable pub consistent_assignment : Dict AuctionAgent → Result (Dict (Option TaskId))
consistent_assignment agents = assign_all (merged_prices agents) agents []

-- The result, and the transport as the round leaves it.
unfoldable pub run_round :
    {S : Type 0}
    → Dict (Dict ℤ)
    → Transport S
    → RoundConfig
    → ℕ
    → Result (RoundResult × Transport S)
run_round benefits transport config max_ticks = do
  task_ids ← common_tasks benefits
  raise_if (ltb (length task_ids) (length benefits)) value_error
  agents ← make_agents benefits config
  (now, agents', transport') ← round_loop max_ticks 0 (agents, transport)
  assignment ← consistent_assignment agents'
  ok (
    record {
      assignment = assignment;
      ticks = now;
      messages_sent = transport'.messages_sent;
      prices = merged_prices agents';
    },
    transport',
  )
