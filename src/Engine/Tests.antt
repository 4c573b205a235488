-- ===== src/Engine/Tests.antt =====
-- Two robots and two tasks: runs of the engine, and the theorems at them.
use distributed_mobile_robot.Base.{
  ℤ, pos, ◌+ℤ◌, ◌-ℤ◌, true, false, ◌≡◌, refl, inl, inr, [], ◌∷◌, none, some, ok, arith,
}
use distributed_mobile_robot.Base.Dict.{Dict, get, set, AllItems}
use distributed_mobile_robot.Types.{RoundConfig, PriceTableMessage, initial}
use distributed_mobile_robot.Prices.{price_table, bid, price, bidder, initial_entries}
use distributed_mobile_robot.Engine.{
  AuctionAgent, auction_agent, handle_message, tick, place_bid, outbid, scan, consider, increment,
  tick_bid, tick_count, terminated, broadcast,
}
use distributed_mobile_robot.Engine.Bid.{Placed, place_bid_lem}
use distributed_mobile_robot.Engine.Nets.{IsPriced}
use distributed_mobile_robot.Engine.Invariant.{IsSound}
use distributed_mobile_robot.Engine.Tick.{Ticked, tick_lem}
use distributed_mobile_robot.Engine.Start.{Started, auction_agent_lem}
use distributed_mobile_robot.Engine.Receive.{Received, handle_message_lem, Unforged}

abbrev pub config : RoundConfig
config = record { epsilon = pos 1; quiescence_rounds = pos 3 }

abbrev pub row : Dict ℤ
row = (pos 1, pos 10) ∷ (pos 2, pos 7) ∷ []

abbrev pub robot : ℤ → AuctionAgent
robot i = record {
  id = i;
  config = config;
  benefits = row;
  prices = record { entries = (pos 1, initial) ∷ (pos 2, initial) ∷ [] };
  assignment = none;
  quiescent_ticks = 0;
  dirty = true;
}

robot_3-made : auction_agent (pos 3) row config ≡ ok (robot (pos 3))
unfolding auction_agent price_table initial_entries set
robot_3-made = refl

robot_5-made : auction_agent (pos 5) row config ≡ ok (robot (pos 5))
unfolding auction_agent price_table initial_entries set
robot_5-made = refl

auction_agent_example : Started (pos 3) config (robot (pos 3))
auction_agent_example =
    auction_agent_lem (pos 3) row config (robot (pos 3)) (omega arith) robot_3-made

pub robot_3-Started : Started (pos 3) config (robot (pos 3))
robot_3-Started = auction_agent_lem (pos 3) row config (robot (pos 3)) (omega arith) robot_3-made

pub robot_5-Started : Started (pos 5) config (robot (pos 5))
robot_5-Started = auction_agent_lem (pos 5) row config (robot (pos 5)) (omega arith) robot_5-made

pub robot_3-IsSound : IsSound (robot (pos 3))
robot_3-IsSound = let st = robot_3-Started in st.sound

robot_5-IsSound : IsSound (robot (pos 5))
robot_5-IsSound = let st = robot_5-Started in st.sound

robot_3-IsPriced : AllItems (IsPriced (robot (pos 3)).prices) row
unfolding get
robot_3-IsPriced = ((initial, refl), ((initial, refl), tt))

place_bid_example :
    (a : AuctionAgent) × (place_bid (robot (pos 3)) ≡ ok a) × Placed (robot (pos 3)) a
place_bid_example = place_bid_lem (robot (pos 3)) (omega arith) (λ e. cc) robot_3-IsPriced

tick_example :
    (c : AuctionAgent) × (tick (robot (pos 3)) ≡ ok (broadcast c, c)) × Ticked (robot (pos 3)) c
tick_example = tick_lem (robot (pos 3)) robot_3-IsSound

-- The price of task 1 rises by 10 - 7 + 1.
abbrev pub claimed : AuctionAgent
claimed = record (robot (pos 3)) {
  prices = record {
    entries = (pos 1, record { price = pos 4; bidder = pos 3 }) ∷ (pos 2, initial) ∷ [];
  };
  assignment = some (pos 1);
  quiescent_ticks = 0;
  dirty = false;
}

abbrev pub told : PriceTableMessage
told = record { sender = pos 3; entries = claimed.prices.entries }

pub tick_run : tick (robot (pos 3)) ≡ ok (told ∷ [], claimed)
unfolding tick place_bid outbid scan consider increment tick_bid tick_count terminated bid price
    bidder get set ◌+ℤ◌ ◌-ℤ◌
tick_run = refl

-- Nothing that robot 3 sends is in the name of robot 5.
told-Unforged : Unforged (pos 5) (robot (pos 5)).prices told.entries
told-Unforged task f e (inl (same, now)) mine held = absurd (ground arith)
told-Unforged task f e (inr (inl (same, now))) mine held = absurd (ground arith)
told-Unforged task f e (inr (inr none_left)) mine held = absurd none_left

handle_message_example :
    (b : AuctionAgent) × (handle_message (robot (pos 5)) told ≡ ok b)
    × Received (robot (pos 5)) b told.entries
handle_message_example = handle_message_lem (robot (pos 5)) told robot_5-IsSound told-Unforged
