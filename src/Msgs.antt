-- ===== src/Msgs.antt =====
-- ros2_ws/src/auction_msgs/msg: the messages on the wire, as the records that the generated classes
-- are. An int64 or int32 field holds no integer out of its range; a float64 field is an integer.
use distributed_mobile_robot.Base.{
  ℕ, ltb, ℤ, pos, negsuc, Bool, true, false, ◌≡◌, refl, List, [], ◌∷◌, Result, ok, err,
  assertion_error, ◌>>=◌,
}

-- From `- half` on, below `half`.
abbrev pub in_range : ℕ → ℤ → Bool
in_range half (pos n) = ltb n half
in_range half (negsuc n) = ltb n half

pub record Bounded (half : ℕ) : Type 0 where
  pub value : ℤ
  pub fits : in_range half value ≡ true

-- 2 ^ 63 and 2 ^ 31
abbrev pub Int64 : Type 0
Int64 = Bounded 9223372036854775808

abbrev pub Int32 : Type 0
Int32 = Bounded 2147483648

abbrev pub int_from : (half : ℕ) (x : ℤ) (b : Bool) → in_range half x ≡ b → Result (Bounded half)
int_from half x true fits = ok (record { value = x; fits = fits })
int_from half x false out = err assertion_error

-- A field is set: the class refuses what is out of range.
abbrev pub int_of : (half : ℕ) → ℤ → Result (Bounded half)
int_of half x = int_from half x (in_range half x) refl

abbrev pub int64 : ℤ → Result Int64
int64 x = int_of 9223372036854775808 x

abbrev pub int32 : ℤ → Result Int32
int32 x = int_of 2147483648 x

unfoldable pub int64s : List ℤ → Result (List Int64)
int64s [] = ok []
int64s (x ∷ xs) = do y ← int64 x; ys ← int64s xs; ok (y ∷ ys)

abbrev pub plain : List Int64 → List ℤ
plain [] = []
plain (x ∷ xs) = x.value ∷ plain xs

pub record HeartbeatMsg : Type 0 where
  pub sender : Int64
  pub stamp : ℤ
  pub idle : Bool

pub record LeaseRenewalMsg : Type 0 where
  pub task_id : Int64
  pub holder : Int64
  pub stamp : ℤ

pub record PriceEntryMsg : Type 0 where
  pub task_id : Int64
  pub price : ℤ
  pub bidder : Int64

pub record PriceTableMsg : Type 0 where
  pub sender : Int64
  pub entries : List PriceEntryMsg

pub record RoundAnnouncementMsg : Type 0 where
  pub round_id : Int64
  pub coordinator : Int64
  pub task_ids : List Int64
  pub participants : List Int64
  pub idle_slots : Int32
  pub epsilon : ℤ
  pub quiescence_rounds : Int32

pub record RoundGossipMsg : Type 0 where
  pub round_id : Int64
  pub table : PriceTableMsg

pub record TaskCompletedMsg : Type 0 where
  pub task_id : Int64
  pub by : Int64
  pub stamp : ℤ

pub record TaskSpec : Type 0 where
  pub id : Int64
  pub position : List ℤ
  pub duration : ℤ
  pub capabilities : List ℤ
  pub prerequisites : List Int64
  pub required_robots : Int32

pub record TaskArray : Type 0 where
  pub stamp : ℤ
  pub tasks : List TaskSpec
