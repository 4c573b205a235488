-- ===== src/Network/Start.antt =====
-- A network of new agents, with nothing sent yet.
use distributed_mobile_robot.Base.{pos, ◌≤ℤ◌, ◌≡◌, ap, sym, subst, inl, [], some, arith}
use distributed_mobile_robot.Base.Dict.{Dict, get}
use distributed_mobile_robot.Types.{AgentId, RoundConfig, TaskId, PriceEntry, initial, no_bidder}
use distributed_mobile_robot.Engine.{AuctionAgent}
use distributed_mobile_robot.Engine.Start.{Started}
use distributed_mobile_robot.Network.{Network}
use distributed_mobile_robot.Network.Invariant.{IsValid, Known, at_agent, in_message}

abbrev pub start : Dict AuctionAgent → Network
start agents = record { agents = agents; sent = [] }

abbrev pub AllStarted : RoundConfig → Dict AuctionAgent → Type 0
AllStarted config agents =
    (i : AgentId) (a : AuctionAgent) → get i agents ≡ some a → Started i config a

Known-initial :
    (config : RoundConfig) (agents : Dict AuctionAgent) (task : TaskId) (f : PriceEntry)
    → AllStarted config agents
    → Known (start agents) task f
    → initial ≡ f
Known-initial config agents task f started (at_agent i a held item) =
    let st = started i a held in st.entries task f item
Known-initial config agents task f started (in_message m among item) = absurd among

pub start-IsValid :
    (config : RoundConfig) (agents : Dict AuctionAgent)
    → AllStarted config agents
    → IsValid (start agents)
start-IsValid config agents started = record {
  sound = λ i a held. let st = started i a held in st.sound;
  ids = λ i a held. let st = started i a held in st.id;
  unforged = λ task f known a held.
      let sentinel : no_bidder ≡ f.bidder =
        ap (λ (x : PriceEntry). x.bidder) (Known-initial config agents task f started known) in
      let st = started f.bidder a held in
      let nonneg = st.nonneg in absurd (ground (arith, sentinel, nonneg));
  nonneg = λ task f known.
      subst (λ (x : PriceEntry). pos 0 ≤ℤ x.price)
        (Known-initial config agents task f started known) (omega arith);
  genuine = λ task f known.
      let new = Known-initial config agents task f started known in
      inl (ap (λ (x : PriceEntry). x.bidder) (sym new), ap (λ (x : PriceEntry). x.price) (sym new));
}
