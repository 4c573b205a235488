-- ===== src/Network/Invariant.antt =====
-- The invariant: what holds of the agents and of all messages in flight.
use distributed_mobile_robot.Base.{pos, ◌≤ℤ◌, ◌≡◌, ◌⊎◌, some}
use distributed_mobile_robot.Base.Dict.{get, Item}
use distributed_mobile_robot.Types.{AgentId, TaskId, PriceEntry, PriceTableMessage, no_bidder}
use distributed_mobile_robot.Prices.Order.{EntryLe}
use distributed_mobile_robot.Engine.{AuctionAgent}
use distributed_mobile_robot.Engine.Invariant.{IsSound}
use distributed_mobile_robot.Network.{Network, Among}

-- An entry that some agent's table or some message holds for a task.
pub data Known (s : Network) (task : TaskId) (e : PriceEntry) : Type 0 where
  at_agent :
      (i : AgentId) (a : AuctionAgent)
      → get i s.agents ≡ some a
      → Item task e a.prices.entries
      → Known s task e
  in_message : (m : PriceTableMessage) → Among m s.sent → Item task e m.entries → Known s task e

pub record IsValid (s : Network) : Type 0 where
  pub sound : (i : AgentId) (a : AuctionAgent) → get i s.agents ≡ some a → IsSound a
  pub ids : (i : AgentId) (a : AuctionAgent) → get i s.agents ≡ some a → a.id ≡ i
  -- No entry in an agent's name is above the agent's own entry.
  pub unforged :
      (task : TaskId) (f : PriceEntry)
      → Known s task f
      → (a : AuctionAgent) → get f.bidder s.agents ≡ some a
      → (e : PriceEntry) × (get task a.prices.entries ≡ some e) × EntryLe f e
  -- A price is not negative, and it is 0 or was bid by an agent of the round.
  pub nonneg : (task : TaskId) (f : PriceEntry) → Known s task f → pos 0 ≤ℤ f.price
  pub genuine :
      (task : TaskId) (f : PriceEntry)
      → Known s task f
      → ((f.bidder ≡ no_bidder) × (f.price ≡ pos 0))
        ⊎ ((a : AuctionAgent) × (get f.bidder s.agents ≡ some a))
