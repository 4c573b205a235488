-- ===== src/Types.antt =====
-- auction_core/src/auction_core/types.py: the values that the layers exchange.
-- Ids are ints. Prices, benefits, epsilons, durations and times are whole multiples of one unit.
use distributed_mobile_robot.Base.{
  ℕ, zero, ℤ, pos, negsuc, leb_ℤ, ltb_ℤ, ◌==ℤ◌, Bool, ◌&&◌, ◌||◌, if◌then◌else◌, List, Option,
  Result, ok, raise_if, value_error, ◌>>◌,
}
use distributed_mobile_robot.Base.Dict.{Dict}

abbrev pub AgentId : Type 0
AgentId = ℤ

abbrev pub TaskId : Type 0
TaskId = ℤ

abbrev pub no_bidder : AgentId
no_bidder = negsuc zero

pub record PriceEntry : Type 0 where
  pub price : ℤ
  pub bidder : AgentId

abbrev pub initial : PriceEntry
initial = record { price = pos 0; bidder = no_bidder }

-- `e < f`, in the lexicographic order of the dataclass.
abbrev pub entry_lt : PriceEntry → PriceEntry → Bool
entry_lt e f = ltb_ℤ e.price f.price || (e.price ==ℤ f.price && ltb_ℤ e.bidder f.bidder)

-- `e == f`
abbrev pub entry_eq : PriceEntry → PriceEntry → Bool
entry_eq e f = e.price ==ℤ f.price && e.bidder ==ℤ f.bidder

-- `max(e, f)`: the first unless the second is larger.
abbrev pub entry_max : PriceEntry → PriceEntry → PriceEntry
entry_max e f = if entry_lt e f then f else e

pub record PriceTableMessage : Type 0 where
  pub sender : AgentId
  pub entries : Dict PriceEntry

pub record Task : Type 0 where
  pub id : TaskId
  pub position : List ℤ
  pub duration : ℤ
  pub capabilities : List ℤ
  pub prerequisites : List TaskId
  pub required_robots : ℤ

abbrev pub collaborative : Task → Bool
collaborative t = ltb_ℤ (pos 1) t.required_robots

pub record RoundConfig : Type 0 where
  pub epsilon : ℤ
  pub quiescence_rounds : ℤ

-- The constructor with its checks.
unfoldable pub round_config : ℤ → ℤ → Result RoundConfig
round_config epsilon quiescence_rounds = do
  raise_if (leb_ℤ epsilon (pos 0)) value_error
  raise_if (ltb_ℤ quiescence_rounds (pos 1)) value_error
  ok (record { epsilon = epsilon; quiescence_rounds = quiescence_rounds })

pub record RoundResult : Type 0 where
  pub assignment : Dict (Option TaskId)
  pub ticks : ℕ
  pub messages_sent : ℕ
  pub prices : Dict PriceEntry
