-- ===== src/Network/Tests.antt =====
-- Two robots: robot 3 ticks, and robot 5 hears of it twice.
use distributed_mobile_robot.Base.{pos, true, ◌≡◌, refl, inl, [], ◌∷◌, some, ok, arith}
use distributed_mobile_robot.Base.Dict.{Dict, get, set, AllItems-get}
use distributed_mobile_robot.Types.{PriceEntry}
use distributed_mobile_robot.Prices.{merge}
use distributed_mobile_robot.Prices.Order.{EntryLe}
use distributed_mobile_robot.Engine.{AuctionAgent, handle_message}
use distributed_mobile_robot.Engine.Start.{Started}
use distributed_mobile_robot.Engine.Bid.{NearBest}
use distributed_mobile_robot.Engine.Tests.{
  config, robot, claimed, told, tick_run, robot_3-Started, robot_5-Started,
}
use distributed_mobile_robot.Network.{Network, Step, receives, ticks, Reach, here, next}
use distributed_mobile_robot.Network.Start.{start, AllStarted}
use distributed_mobile_robot.Network.Invariant.{IsValid}
use distributed_mobile_robot.Network.Safety.{execution-IsValid, top_entry-assigned}

abbrev pair : Dict AuctionAgent
pair = (pos 3, robot (pos 3)) ∷ (pos 5, robot (pos 5)) ∷ []

pair-AllStarted : AllStarted config pair
pair-AllStarted i a held =
    AllItems-get (λ j b. Started j config b) i a pair (robot_3-Started, (robot_5-Started, tt)) held

abbrev heard : AuctionAgent
heard = record (robot (pos 5)) { prices = claimed.prices; dirty = true }

heard_run : handle_message (robot (pos 5)) told ≡ ok heard
unfolding handle_message merge get set
heard_run = refl

heard_again_run : handle_message heard told ≡ ok heard
unfolding handle_message merge get set
heard_again_run = refl

abbrev bid_made : Network
bid_made = record { agents = (pos 3, claimed) ∷ (pos 5, robot (pos 5)) ∷ []; sent = told ∷ [] }

abbrev bid_known : Network
bid_known = record { agents = (pos 3, claimed) ∷ (pos 5, heard) ∷ []; sent = told ∷ [] }

first : Step (start pair) bid_made
unfolding get set
first = ticks (pos 3) (robot (pos 3)) claimed (told ∷ []) refl tick_run refl

second : Step bid_made bid_known
unfolding get set
second = receives (pos 5) (robot (pos 5)) heard told refl (inl refl) heard_run refl

third : Step bid_known bid_known
unfolding get set
third = receives (pos 5) heard heard told refl (inl refl) heard_again_run refl

pair_run : Reach (start pair) bid_known
pair_run = next (next (next here first) second) third

execution_example : IsValid bid_known
execution_example = execution-IsValid config pair bid_known pair-AllStarted pair_run

abbrev top : PriceEntry
top = record { price = pos 4; bidder = pos 3 }

top_highest : (e : PriceEntry) → get (pos 1) claimed.prices.entries ≡ some e → EntryLe e top
unfolding get
top_highest e held = ground arith

heard_top : get (pos 1) heard.prices.entries ≡ some top
unfolding get
heard_top = refl

robot_5-known : get (pos 5) bid_known.agents ≡ some heard
unfolding get
robot_5-known = refl

robot_3-known : get (pos 3) bid_known.agents ≡ some claimed
unfolding get
robot_3-known = refl

top_entry_example :
    (claimed.assignment ≡ some (pos 1))
    × (get (pos 1) claimed.prices.entries ≡ some top)
    × NearBest claimed.benefits claimed.prices (pos 1) (pos 1)
top_entry_example =
    top_entry-assigned config pair bid_known (pos 5) heard claimed (pos 1) top pair-AllStarted
      pair_run robot_5-known heard_top robot_3-known top_highest
