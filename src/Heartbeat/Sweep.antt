-- ===== src/Heartbeat/Sweep.antt =====
-- `HeartbeatMonitor.sweep`: the flags follow the last heartbeats, and a change is reported once.
use distributed_mobile_robot.Base.{
  ℤ, ◌==ℤ◌, eq_of_parts, Bool, true, false, if◌then◌else◌, ◌≡◌, refl, ◌∙◌, subst, inl, inr, [], ◌∷◌,
  Option, none, some, ℤ-cases, ==ℤ_iff, arith,
}
use distributed_mobile_robot.Base.Dict.{
  Dict, get, get-set, AllItems, IsDistinct, AllItems-of_get, get_absent,
}
use distributed_mobile_robot.Types.{AgentId}
use distributed_mobile_robot.Heartbeat.{
  HeartbeatMonitor, LivenessUpdate, within, sweep_robot, sweep_loop, sweep, is_alive,
}

sweep_robot-flag :
    (robot : AgentId) (alive_now : Bool) (u : LivenessUpdate) (flags : Dict Bool) (j : AgentId)
    → get j (sweep_robot robot alive_now (u, flags)).1
      ≡ (if robot ==ℤ j then some alive_now else get j flags)
unfolding sweep_robot
sweep_robot-flag robot alive_now u flags j =
    ground (arith, get-set robot j alive_now flags, eq_of_parts robot j)

-- The flag that the loop leaves: by the robot's last heartbeat, if it has one.
abbrev swept_flag : ℤ → ℤ → Option ℤ → Option Bool → Option Bool
swept_flag timeout now none flag = flag
swept_flag timeout now (some last) flag = some (within timeout now last)

sweep_loop-flag :
    (timeout now : ℤ) (rest : Dict ℤ) (u : LivenessUpdate) (flags : Dict Bool) (j : AgentId)
    → IsDistinct rest
    → get j (sweep_loop timeout now rest (u, flags)).1
      ≡ swept_flag timeout now (get j rest) (get j flags)
unfolding sweep_loop get
sweep_loop-flag timeout now [] u flags j distinct = refl
sweep_loop-flag timeout now ((robot, last) ∷ rest) u flags j distinct =
    let (u', flags') = sweep_robot robot (within timeout now last) (u, flags) in
    let later = sweep_loop-flag timeout now rest u' flags' j distinct.1 in
    let here = sweep_robot-flag robot (within timeout now last) u flags j in
    elim (ℤ-cases robot j) [
      | inl same ↦
          let absent : get j rest ≡ none =
            subst (λ i. get i rest ≡ none) same (get_absent robot rest distinct.0) in
          let hit = (==ℤ_iff robot j).1 same in later ∙ rw (absent, here, hit)
      | inr other ↦ later ∙ rw (here, other)
    ]

-- After a sweep, the flag of every robot that was ever heard from is what is_alive says of it at
-- that time, if each robot has one last heartbeat.
pub sweep-flag :
    (m : HeartbeatMonitor) (now : ℤ) (robot : AgentId) (last : ℤ)
    → IsDistinct m.last_seen
    → get robot m.last_seen ≡ some last
    → get robot (sweep m now).1.alive_flags ≡ some (is_alive m robot now)
unfolding sweep is_alive
sweep-flag m now robot last distinct seen =
    sweep_loop-flag m.timeout now m.last_seen _ m.alive_flags robot distinct ∙ rw (seen, is_alive)

abbrev UpToDate : ℤ → ℤ → Dict Bool → Dict ℤ → Type 0
UpToDate timeout now flags =
    AllItems (λ robot last. get robot flags ≡ some (within timeout now last))

sweep_loop-UpToDate :
    (timeout now : ℤ) (rest : Dict ℤ) (u : LivenessUpdate) (flags : Dict Bool)
    → UpToDate timeout now flags rest
    → sweep_loop timeout now rest (u, flags) ≡ (u, flags)
unfolding sweep_loop sweep_robot
sweep_loop-UpToDate timeout now [] u flags current = refl
sweep_loop-UpToDate timeout now ((robot, last) ∷ rest) u flags current =
    rw (unchanged (within timeout now last) current.0)
      (sweep_loop-UpToDate timeout now rest u flags current.1)
  where
    unchanged : (b : Bool) → get robot flags ≡ some b → sweep_robot robot b (u, flags) ≡ (u, flags)
    unchanged true held = rw (held, sweep_robot)
    unchanged false held = rw (held, sweep_robot)

sweep-UpToDate :
    (m : HeartbeatMonitor) (now : ℤ)
    → IsDistinct m.last_seen
    → UpToDate m.timeout now (sweep m now).1.alive_flags m.last_seen
unfolding sweep
sweep-UpToDate m now distinct = AllItems-of_get _ m.last_seen distinct λ robot last seen.
    sweep_loop-flag m.timeout now m.last_seen _ m.alive_flags robot distinct ∙ rw seen

-- A second sweep at the same time reports no robot and changes nothing, if each robot has one last
-- heartbeat.
pub sweep_twice :
    (m : HeartbeatMonitor) (now : ℤ)
    → IsDistinct m.last_seen
    → sweep (sweep m now).1 now ≡ (record { failed = []; recovered = [] }, (sweep m now).1)
unfolding sweep
sweep_twice m now distinct = rw (
    sweep_loop-UpToDate m.timeout now m.last_seen (record { failed = []; recovered = [] }) _
      (sweep-UpToDate m now distinct))
