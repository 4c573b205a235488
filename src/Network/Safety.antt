-- ===== src/Network/Safety.antt =====
-- The invariant of every execution, and what it says of the agents' tasks.
use distributed_mobile_robot.Base.{◌≡◌, ◌∙◌, ap, sym, some}
use distributed_mobile_robot.Base.Dict.{Dict, get, Item-get}
use distributed_mobile_robot.Types.{AgentId, TaskId, RoundConfig, PriceEntry}
use distributed_mobile_robot.Prices.Order.{EntryLe, EntryLe-antisymm}
use distributed_mobile_robot.Engine.{AuctionAgent}
use distributed_mobile_robot.Engine.Bid.{NearBest}
use distributed_mobile_robot.Network.{Network, Reach}
use distributed_mobile_robot.Network.Start.{start, AllStarted, start-IsValid}
use distributed_mobile_robot.Network.Invariant.{IsValid, at_agent}
use distributed_mobile_robot.Network.Steps.{Reach-IsValid}

-- In every execution from new agents, over a network that may lose, delay, repeat and reorder
-- messages: every agent keeps its invariant and its id, no entry in an agent's name in any table or
-- message is above the agent's own entry for that task, no price is negative, and each entry is
-- either unsold at price 0 or names an agent of the round.
pub execution-IsValid :
    (config : RoundConfig) (agents : Dict AuctionAgent) (s : Network)
    → AllStarted config agents
    → Reach (start agents) s
    → IsValid s
execution-IsValid config agents s started reach =
    Reach-IsValid (start-IsValid config agents started) reach

-- In every execution from new agents, over a network that may lose, delay, repeat and reorder
-- messages: if a table holds, for a task, an entry in the name of an agent of the round, and that
-- agent's own table has none above it for the task, then that agent is assigned to the task, its
-- own table holds this entry, and the task's net value there is within epsilon of the best.
pub top_entry-assigned :
    (config : RoundConfig) (agents : Dict AuctionAgent) (s : Network) (i : AgentId)
    (a owner : AuctionAgent) (task : TaskId) (top : PriceEntry)
    → AllStarted config agents
    → Reach (start agents) s
    → get i s.agents ≡ some a
    → get task a.prices.entries ≡ some top
    → get top.bidder s.agents ≡ some owner
    → ((e : PriceEntry) → get task owner.prices.entries ≡ some e → EntryLe e top)
    → (owner.assignment ≡ some task)
      × (get task owner.prices.entries ≡ some top)
      × NearBest owner.benefits owner.prices owner.config.epsilon task
top_entry-assigned config agents s i a owner task top started reach held seen owned highest =
    let v = execution-IsValid config agents s started reach in
    let (e, own, le) =
      v.unforged task top (at_agent i a held (Item-get task top a.prices.entries seen)) owner
        owned in
    let same : e ≡ top = EntryLe-antisymm e top (highest e own) le in
    let own' : get task owner.prices.entries ≡ some top = own ∙ ap some same in
    let sound = v.sound top.bidder owner owned in
    let mine = sym (v.ids top.bidder owner owned) in
    (sound.owns task top own' mine, own', sound.near task top own' mine)
