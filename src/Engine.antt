-- ===== src/Engine.antt =====
-- auction_core/src/auction_core/auction/engine.py: one agent's auction as a state machine.
pub mod Bidding
pub mod Nets
pub mod Bid
pub mod Invariant
pub mod Tick
pub mod Receive
pub mod Start
pub mod Tests
pub mod Claim
use distributed_mobile_robot.Base.{
  ℕ, suc, ◌+◌, ℤ, pos, leb_ℤ, ltb_ℤ, ◌==ℤ◌, ◌+ℤ◌, ◌-ℤ◌, Bool, true, false, not, if◌then◌else◌, List,
  [], ◌∷◌, Option, none, some, Result, ok, err, raise_if, value_error, assertion_error, ◌>>=◌, ◌>>◌,
}
use distributed_mobile_robot.Base.Dict.{Dict, get, keys, or_key_error}
use distributed_mobile_robot.Types.{AgentId, TaskId, RoundConfig, PriceTableMessage}
use distributed_mobile_robot.Prices.{PriceTable, price_table, price, bidder, snapshot, merge, bid}

pub record AuctionAgent : Type 0 where
  pub id : AgentId
  pub config : RoundConfig
  pub benefits : Dict ℤ
  pub prices : PriceTable
  pub assignment : Option TaskId
  pub quiescent_ticks : ℕ
  pub dirty : Bool

abbrev is_empty : Dict ℤ → Bool
is_empty [] = true
is_empty (x ∷ d) = false

-- The constructor with its checks.
unfoldable pub auction_agent : AgentId → Dict ℤ → RoundConfig → Result AuctionAgent
auction_agent agent_id benefits config = do
  raise_if (ltb_ℤ agent_id (pos 0)) value_error
  raise_if (is_empty benefits) value_error
  ok (record {
    id = agent_id;
    config = config;
    benefits = benefits;
    prices = price_table (keys benefits);
    assignment = none;
    quiescent_ticks = 0;
    dirty = true;
  })

unfoldable pub handle_message : AuctionAgent → PriceTableMessage → Result AuctionAgent
handle_message a message = if message.sender ==ℤ a.id then ok a else (do
  (changed, prices) ← merge a.prices message.entries
  ok (record a { prices = prices; dirty = if changed then true else a.dirty }))

abbrev outbid_on : AuctionAgent → Option TaskId → Result Bool
outbid_on a none = ok true
outbid_on a (some task) = do b ← bidder a.prices task; ok (not (b ==ℤ a.id))

unfoldable pub outbid : AuctionAgent → Result Bool
outbid a = outbid_on a a.assignment

-- The variables of the scan in `_place_bid`; `none` for `v` and `w` is `float("-inf")`.
pub record Scan : Type 0 where
  pub best_task : Option TaskId
  pub v : Option ℤ
  pub w : Option ℤ

abbrev pub scan_start : Scan
scan_start = record { best_task = none; v = none; w = none }

-- `net > x`
abbrev pub above : ℤ → Option ℤ → Bool
above net none = true
above net (some x) = ltb_ℤ x net

-- The loop's body, on the net value of `task_id`.
unfoldable pub consider : TaskId → ℤ → Scan → Scan
consider task_id net s =
    if above net s.v
    then record { best_task = some task_id; v = some net; w = s.v }
    else if above net s.w
    then record s { w = some net }
    else s

unfoldable pub scan : PriceTable → Dict ℤ → Scan → Result Scan
scan prices [] s = ok s
scan prices ((task_id, benefit) ∷ benefits) s = do
  p ← price prices task_id
  scan prices benefits (consider task_id (benefit -ℤ p) s)

-- `v - w` is -inf where only `v` is: an increment that the first assertion of `bid` refuses.
unfoldable pub increment : ℤ → Option ℤ → Option ℤ → Result ℤ
increment epsilon v none = ok epsilon
increment epsilon none (some w) = err assertion_error
increment epsilon (some v) (some w) = ok (v -ℤ w +ℤ epsilon)

-- `assert best_task is not None`
abbrev pub assert_some : Option TaskId → Result TaskId
assert_some none = err assertion_error
assert_some (some task) = ok task

unfoldable pub place_bid : AuctionAgent → Result AuctionAgent
place_bid a = do
  s ← scan a.prices a.benefits scan_start
  best_task ← assert_some s.best_task
  gamma ← increment a.config.epsilon s.v s.w
  prices ← bid a.prices best_task gamma a.id a.config.epsilon
  ok (record a { prices = prices; assignment = some best_task })

unfoldable pub terminated : AuctionAgent → Bool
terminated a = leb_ℤ a.config.quiescence_rounds (pos a.quiescent_ticks)

-- The bid of `tick`, if we have been outbid.
unfoldable pub tick_bid : AuctionAgent → Result AuctionAgent
tick_bid a = do
  must_bid ← outbid a
  if must_bid then (do b ← place_bid a; ok (record b { dirty = true })) else ok a

-- The quiescence counter of `tick`.
unfoldable pub tick_count : AuctionAgent → AuctionAgent
tick_count a =
    if a.dirty
    then record a { quiescent_ticks = 0; dirty = false }
    else record a { quiescent_ticks = a.quiescent_ticks + 1 }

abbrev pub broadcast : AuctionAgent → List PriceTableMessage
broadcast a =
    if terminated a then [] else record { sender = a.id; entries = snapshot a.prices } ∷ []

-- The messages to broadcast, and the new state.
unfoldable pub tick : AuctionAgent → Result (List PriceTableMessage × AuctionAgent)
tick a = do b ← tick_bid a; let c = tick_count b; ok (broadcast c, c)

abbrev net_on : AuctionAgent → Option TaskId → Result ℤ
net_on a none = err assertion_error
net_on a (some task) = do
  benefit ← or_key_error (get task a.benefits)
  p ← price a.prices task
  ok (benefit -ℤ p)

unfoldable pub net_value : AuctionAgent → Result ℤ
net_value a = net_on a a.assignment
