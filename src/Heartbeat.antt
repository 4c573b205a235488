-- ===== src/Heartbeat.antt =====
-- auction_core/src/auction_core/liveness/heartbeat.py: failure detection by silence. Time is an
-- argument of each call.
pub mod Sweep
pub mod Tests
use distributed_mobile_robot.Base.{
  ℤ, pos, leb_ℤ, ltb_ℤ, ◌-ℤ◌, ◌*ℤ◌, Bool, true, false, not, ◌||◌, if◌then◌else◌, List, [], ◌∷◌,
  ◌++◌, Option, none, some, Result, ok, raise_if, value_error, ◌>>=◌, ◌>>◌,
}
use distributed_mobile_robot.Base.Dict.{Dict, get, set}
use distributed_mobile_robot.Types.{AgentId}

pub record LivenessUpdate : Type 0 where
  pub failed : List AgentId
  pub recovered : List AgentId

pub record HeartbeatMonitor : Type 0 where
  pub timeout : ℤ
  pub last_seen : Dict ℤ
  pub alive_flags : Dict Bool

unfoldable pub heartbeat_monitor : ℤ → ℤ → Result HeartbeatMonitor
heartbeat_monitor interval eta = do
  raise_if (leb_ℤ interval (pos 0) || ltb_ℤ eta (pos 1)) value_error
  ok (record { timeout = eta *ℤ interval; last_seen = []; alive_flags = [] })

-- Named `record` in the source.
unfoldable pub record_seen : HeartbeatMonitor → AgentId → ℤ → HeartbeatMonitor
record_seen m robot now = elim (get robot m.last_seen) [
  | none ↦ record m { last_seen = set robot now m.last_seen }
  | some prev ↦ if ltb_ℤ prev now then record m { last_seen = set robot now m.last_seen } else m
]

-- `(now - last_seen) <= self.timeout`
abbrev pub within : ℤ → ℤ → ℤ → Bool
within timeout now last_seen = leb_ℤ (now -ℤ last_seen) timeout

abbrev pub differs : Bool → Bool → Bool
differs true b = not b
differs false b = b

abbrev report : Bool → AgentId → LivenessUpdate → LivenessUpdate
report true robot u = record u { recovered = u.recovered ++ robot ∷ [] }
report false robot u = record u { failed = u.failed ++ robot ∷ [] }

-- The body of the loop of `sweep`, on the flags and the update.
unfoldable pub sweep_robot :
    AgentId → Bool → LivenessUpdate × Dict Bool → LivenessUpdate × Dict Bool
sweep_robot robot alive_now (update, flags) = elim (get robot flags) [
  | none ↦ (if not alive_now then report false robot update else update, set robot alive_now flags)
  | some alive_before ↦
      if differs alive_now alive_before
      then (report alive_now robot update, set robot alive_now flags)
      else (update, flags)
]

unfoldable pub sweep_loop : ℤ → ℤ → Dict ℤ → LivenessUpdate × Dict Bool → LivenessUpdate × Dict Bool
unfolding sweep_robot
sweep_loop timeout now [] s = s
sweep_loop timeout now ((robot, last_seen) ∷ rest) s =
    sweep_loop timeout now rest (sweep_robot robot (within timeout now last_seen) s)

unfoldable pub sweep : HeartbeatMonitor → ℤ → LivenessUpdate × HeartbeatMonitor
unfolding sweep_loop
sweep m now =
    let (update, flags) =
      sweep_loop m.timeout now m.last_seen
        (record { failed = []; recovered = [] }, m.alive_flags) in
    (update, record m { alive_flags = flags })

unfoldable pub alive_in : ℤ → ℤ → Dict ℤ → List AgentId
alive_in timeout now [] = []
alive_in timeout now ((robot, last_seen) ∷ rest) =
    if within timeout now last_seen
    then robot ∷ alive_in timeout now rest
    else alive_in timeout now rest

-- A set, as the list of its members.
unfoldable pub alive : HeartbeatMonitor → ℤ → List AgentId
unfolding alive_in
alive m now = alive_in m.timeout now m.last_seen

unfoldable pub is_alive : HeartbeatMonitor → AgentId → ℤ → Bool
is_alive m robot now = elim (get robot m.last_seen) [
  | none ↦ false
  | some last_seen ↦ within m.timeout now last_seen
]
