-- ===== src/Lib.antt =====
-- A verification library of distributed-mobile-robots: decentralised task allocation by auction.
--
-- The program (auction_core/src/auction_core) runs on every robot without a central planner.
-- A round of the auction assigns tasks to idle robots: each robot hosts an `AuctionAgent`, which bids
-- on tasks, broadcasts its table of prices and merges the tables that it hears. Around the rounds a
-- `CoordinationParticipant` announces and joins rounds, watches the other robots by heartbeats, and
-- owns tasks under leases that expire unless they are renewed.
--
-- The files and the code that they model, by paths below auction_core/src/auction_core:
--   Base         integers, lists, Python's dict as its list of items, exceptions as results
--   Types        types.py
--   Prices       auction/prices.py (`PriceTable`); `Order` and `Merge` prove, `Gossip` concludes
--   Engine       auction/engine.py (`AuctionAgent`); `Bidding`, `Nets` and `Bid` for `_place_bid`,
--                `Invariant` and `Claim` for what a bid leaves, `Tick`, `Start`, and `Receive` for
--                `handle_message`
--   Network      agents that tick, and messages that arrive at will, as in the loop of
--                validation/harness.py; `Advance` and `Steps` show that each step keeps `Invariant`,
--                `Start` that new agents have it; `Safety` concludes
--   Transport    validation/transport.py: `SimTransport`, the complete and the line topologies;
--                `Order` on its queue, `Broadcast` on what a broadcast adds to it
--   Harness      validation/harness.py: `run_round`; `Run` shows that its loop runs steps of Network,
--                `Agents` and `Keeps` are on its agents, `Busy` on their tasks, `Merged` and `Final` on
--                `_merged_prices`, `Check` on `_consistent_assignment`, `Ending` and `Outcome` on the
--                result, `Optimal` and `Bound` on its total benefit
--   Heartbeat    liveness/heartbeat.py
--   Leases       liveness/lease.py
--   Dag          scheduling/dag.py; `Missing`, `Visit`, `Kahn` and `Accepted` follow the loop of the
--                constructor's check, `Progress` concludes
--   Cpm          scheduling/cpm.py; `Chains` and `Returns`
--   Allocator    allocator/repeated_rounds.py and base.py; `Loop` is the loop of `allocate`; `Offers`,
--                `Ready` and `Respect` follow a round, `Endings` and `Passes` the loop,
--                `Order` concludes; `Accounted` and `Reports` lead to `Covers`, and `Lower` is on the
--                critical path; `Counted`, `Progress`, `Rounds`, `Sentinels`, `Idle`, `Shares` and
--                `Ends` lead to `Returns`; `Runner` has the rounds of `Harness` as the allocator's, and
--                `Examples` applies both
--   Benefits     scheduling/benefits.py: the robots and the matrix
--   Messages     coordination/messages.py
--   Participant  coordination/participant.py: `State`, `Handle` and `Cycle` have the methods, `Leasing`,
--                `Coordinator`, `Duty` and `Duties` the proofs
--   SystemSim    validation/system_sim.py: participants, transport and mock execution; `Run` ends the
--                executions, `Touched`, `InStep` and `Steps` follow a pass, `Outcome` concludes
--   Hungarian    validation/hungarian.py: `total_benefit`
-- and below ros2_ws/src:
--   Msgs         auction_msgs/msg: the messages on the wire, their integer fields with their ranges
--   Conversions  auction_ros/auction_ros/conversions.py; `RoundTrip`
--   AgentNode    auction_ros/auction_ros/agent_node.py: the host of a participant; `Topics` on what it
--                publishes, `Duty`, `Finish` and `Runs` on the task that it executes
--   MissionNode  auction_ros/auction_ros/mission_node.py; `Latched`
-- A method keeps its name without a leading underscore; a constructor has its class's name in lower
-- case (`auction_agent`, `price_table`), and a method's loop body or test a name of its own. The file
-- `Tests` of each part applies its theorems to concrete inputs.
--
-- How the code is read. An object is a record, and a method returns the new record. An exception is
-- a value of `Result`: what a raising call has changed before is lost with it. A set is the list of
-- its members. Ids are integers, as in Python. Prices, benefits, epsilons, durations and times, floats
-- in the source, are integers: whole multiples of a unit that all of them share. Rounding is not
-- modelled, nor are infinities and NaN as inputs; the `float("-inf")` of the code is `none`. The
-- benefit of a task for a robot is any function (`BenefitModel`), as the source's formula divides and
-- takes roots. Time enters as an argument. The network is the steps of `Network`, or the simulated
-- transport, whose random generator is a parameter: a type of states with the draws of losses and
-- delays. A heap is the list of its items in the order of their pops. An integer field of a ROS message
-- is an integer with the proof that it is in the field's range; the generated classes, which are not in
-- the repository, refuse any other with an AssertionError. A timer of a ROS node has a serial number,
-- and fires until it is destroyed.
--
-- Fuel: the loop of `topological_order` has one round more than there are tasks; a loop that used
-- it all would make an order longer than the tasks, which the code's own check refuses. The loop of
-- `dependents` has as many: every round but the first begins with tasks that it has not met before.
-- `finish` has one more than there are tasks, as no chain is longer (the depth of Python's stack).
-- The loop of `allocate` has as many passes as its first argument says, and gives `none` while it
-- has not ended; the source's loop has no bound. A pass that another one follows takes up a task or
-- completes one, so one pass more than twice the number of the tasks is enough, if each round gives
-- every agent a different task.
-- The loop of `run_round` has `max_ticks` rounds, as in the source, which raises when they are used
-- up.
--
-- Not modelled: the other topologies, `suggested_quiescence`, the
-- optimal assignment (a call of scipy), the experiments, and of the ROS 2 nodes the
-- parameters, the quality of service, the logs and the YAML file.
pub mod Base
pub mod Types
pub mod Prices
pub mod Engine
pub mod Network
pub mod Transport
pub mod Harness
pub mod Hungarian
pub mod Heartbeat
pub mod Leases
pub mod Dag
pub mod Cpm
pub mod Allocator
pub mod Messages
pub mod Benefits
pub mod Participant
pub mod Msgs
pub mod Conversions
pub mod AgentNode
pub mod MissionNode
pub mod SystemSim
