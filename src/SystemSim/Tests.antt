-- ===== src/SystemSim/Tests.antt =====
-- One robot does its one task; a second robot is dead from the start.
use distributed_mobile_robot.Base.{
  pos, ◌+ℤ◌, ◌-ℤ◌, ◌*ℤ◌, ◌≡◌, refl, [], ◌∷◌, none, ok, err, false, Result, sorted, insert_sorted,
}
use distributed_mobile_robot.Base.Dict.{get, set, del}
use distributed_mobile_robot.Types.{AgentId, Task, round_config}
use distributed_mobile_robot.Prices.{initial_entries, price_table, entry, price, bidder, merge, bid}
use distributed_mobile_robot.Engine.{
  auction_agent, outbid, consider, scan, increment, place_bid, terminated, tick_bid, tick_count,
  tick as agent_tick,
}
use distributed_mobile_robot.Heartbeat
use distributed_mobile_robot.Heartbeat.{
  heartbeat_monitor, record_seen, sweep_robot, sweep_loop, alive_in, alive, is_alive,
}
use distributed_mobile_robot.Leases
use distributed_mobile_robot.Leases.{task_leases, grant, renew, release, del_all, holder}
use distributed_mobile_robot.Dag.{
  by_id, in_degrees, initial_frontier, visit, topological_loop, topological_order, task_dag,
  available,
}
use distributed_mobile_robot.Participant.Handle.{
  idle_ids, real_row, set_all, benefit_row, on_announcement, handle,
}
use distributed_mobile_robot.Participant.Cycle.{
  abort_lost, tick_agent, tick_relay, tick_round, is_idle, tick_heartbeat, is_coordinator,
  round_open, available_tasks, idle_robots, framing, frame_round, tick_coordinator, tick_upkeep,
  tick,
}
use distributed_mobile_robot.Benefits.{RobotState, BenefitModel}
use distributed_mobile_robot.Messages.{CoordinationMessage}
use distributed_mobile_robot.Transport.{
  SimTransport, sim_transport, complete, heappush, pop_due, send_to, send_loop, send_payload,
  deliver_due,
}
use distributed_mobile_robot.Participant.State.{
  Participant, participant, load_mission, add_task, mission_complete, pop_dispatches, pop_aborts,
  task_finished,
}
use distributed_mobile_robot.SystemSim.{
  SystemSim, SystemResult, system_sim, make_participants, kill_due, inject_due, deliver_all,
  send_all, abort_all, task_named, start_all, tick_robot, tick_all,
}
use distributed_mobile_robot.SystemSim.Run.{run, run_loop, run_tick, finish_due}
use distributed_mobile_robot.SystemSim.InStep.{InStep}
use distributed_mobile_robot.SystemSim.Outcome.{participant-IsNew, run-InStep}

abbrev model : BenefitModel
model = record { benefit = λ r t. pos 9 }

abbrev make : RobotState → Result Participant
make robot = participant robot model (pos 1) (pos 3) none (pos 1) (pos 1) (pos 5) (pos 1)

abbrev robot : AgentId → RobotState
robot id = record { id = id; position = []; capabilities = []; speed = pos 1; workload = pos 0 }

abbrev job : Task
job = record {
  id = pos 7;
  position = pos 1 ∷ [];
  duration = pos 0;
  capabilities = [];
  prerequisites = [];
  required_robots = pos 1;
}

abbrev fabric : SimTransport Unit CoordinationMessage
fabric =
    sim_transport (λ tick. complete (pos 0 ∷ pos 1 ∷ [])) (λ rng. (false, rng))
      (λ rng. (pos 0, rng)) tt

-- The result, or what is given.
abbrev or_else {ℓ} : {A : Type ℓ} → Result A → A → A
or_else (ok a) b = a
or_else (err e) b = b

abbrev blank : SystemSim Unit
blank = record {
  tick_period = pos 1;
  kill_at = [];
  inject = [];
  tasks = [];
  transport = fabric;
  participants = [];
  dead = [];
  executing = [];
  result = record { mission_time = none; executions = []; events = []; messages_sent = 0 };
}

abbrev start : SystemSim Unit
start =
    or_else
      (system_sim make (robot (pos 0) ∷ robot (pos 1) ∷ []) (job ∷ []) fabric (pos 1)
        ((pos 1, pos 0) ∷ []) [])
      blank

abbrev ended : SystemResult × SystemSim Unit
ended = or_else (run (λ r t. pos 0) 2 start) (blank.result, blank)

constructed :
    system_sim make
      (robot (pos 0) ∷ robot (pos 1) ∷ [])
      (job ∷ [])
      fabric
      (pos 1)
      ((pos 1, pos 0) ∷ [])
      []
    ≡ ok start
unfolding system_sim make_participants participant load_mission add_task heartbeat_monitor
    task_leases set ◌*ℤ◌ sim_transport
constructed = refl

ran : run (λ r t. pos 0) 2 start ≡ ok ended
unfolding run run_loop run_tick finish_due kill_due inject_due deliver_all send_all abort_all
    task_named start_all tick_robot tick_all system_sim make_participants participant load_mission
    add_task mission_complete pop_dispatches pop_aborts task_finished sim_transport complete
    heappush pop_due send_to send_loop send_payload deliver_due heartbeat_monitor record_seen
    sweep_robot sweep_loop Heartbeat.sweep alive_in alive is_alive task_leases grant renew release
    del_all Leases.sweep holder by_id in_degrees initial_frontier visit topological_loop
    topological_order task_dag available idle_ids real_row set_all benefit_row on_announcement
    handle abort_lost tick_agent tick_relay tick_round is_idle tick_heartbeat is_coordinator
    round_open available_tasks idle_robots framing frame_round tick_coordinator tick_upkeep tick
    auction_agent outbid consider scan increment place_bid terminated tick_bid tick_count agent_tick
    initial_entries price_table entry price bidder merge bid get set del sorted insert_sorted
    round_config ◌+ℤ◌ ◌-ℤ◌ ◌*ℤ◌
ran = refl

run_example : InStep ended.1
run_example =
    run-InStep make (λ r t. pos 0) 2 (robot (pos 0) ∷ robot (pos 1) ∷ []) (job ∷ []) fabric (pos 1)
      ((pos 1, pos 0) ∷ []) [] start ended.1 ended.0
      (λ r p made.
        participant-IsNew r model (pos 1) (pos 3) none (pos 1) (pos 1) (pos 5) (pos 1) p made)
      constructed ran
