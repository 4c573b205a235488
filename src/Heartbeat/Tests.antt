-- ===== src/Heartbeat/Tests.antt =====
-- A monitor that heard from two robots, and the theorems at it.
use distributed_mobile_robot.Base.{pos, true, ◌≡◌, refl, [], ◌∷◌, some}
use distributed_mobile_robot.Base.Dict.{get}
use distributed_mobile_robot.Heartbeat.{HeartbeatMonitor, sweep, is_alive}
use distributed_mobile_robot.Heartbeat.Sweep.{sweep-flag, sweep_twice}

abbrev monitor : HeartbeatMonitor
monitor = record {
  timeout = pos 3;
  last_seen = (pos 0, pos 1) ∷ (pos 4, pos 6) ∷ [];
  alive_flags = (pos 0, true) ∷ [];
}

robot_4_seen : get (pos 4) monitor.last_seen ≡ some (pos 6)
unfolding get
robot_4_seen = refl

sweep-flag_example :
    get (pos 4) (sweep monitor (pos 8)).1.alive_flags ≡ some (is_alive monitor (pos 4) (pos 8))
sweep-flag_example = sweep-flag monitor (pos 8) (pos 4) (pos 6) ((refl, tt), (tt, tt)) robot_4_seen

sweep_twice_example :
    sweep (sweep monitor (pos 8)).1 (pos 8)
    ≡ (record { failed = []; recovered = [] }, (sweep monitor (pos 8)).1)
sweep_twice_example = sweep_twice monitor (pos 8) ((refl, tt), (tt, tt))
