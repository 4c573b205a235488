-- ===== src/AgentNode/Tests.antt =====
-- A node through a tick and a message, and at the end of its task.
use distributed_mobile_robot.Base.{
  ℤ, pos, negsuc, ◌+ℤ◌, ◌-ℤ◌, ◌≡◌, refl, [], ◌∷◌, none, some, ok, true, false, List, sorted,
}
use distributed_mobile_robot.Base.Dict.{get, set}
use distributed_mobile_robot.Types.{Task}
use distributed_mobile_robot.Prices.{bidder}
use distributed_mobile_robot.Engine.{tick as agent_tick, tick_bid, tick_count, outbid, terminated}
use distributed_mobile_robot.Heartbeat
use distributed_mobile_robot.Heartbeat.{record_seen, alive}
use distributed_mobile_robot.Leases
use distributed_mobile_robot.Leases.{holder, grant}
use distributed_mobile_robot.Benefits.{RobotState}
use distributed_mobile_robot.Messages.{RoundGossip, round_gossip}
use distributed_mobile_robot.Conversions.{lease_to_msg}
use distributed_mobile_robot.Participant.State.{
  Participant, mission_complete, pop_dispatches, pop_aborts,
}
use distributed_mobile_robot.Participant.Cycle.{
  tick, tick_upkeep, tick_round, tick_agent, tick_heartbeat, tick_coordinator, is_coordinator,
  round_open, frame_round, available_tasks,
}
use distributed_mobile_robot.Dag.{task_dag, available}
use distributed_mobile_robot.Participant.Tests.{busy}
use distributed_mobile_robot.AgentNode.{
  AgentNode, Wire, on_lease_topic, agent_node, node_tick, finish_execution, publish, to_core,
  publish_all, cancel_all, start_all, start_execution,
}
use distributed_mobile_robot.AgentNode.Topics.{publish-to_core}
use distributed_mobile_robot.AgentNode.Duty.{InStep}
use distributed_mobile_robot.AgentNode.Finish.{finish_execution_lem}
use distributed_mobile_robot.AgentNode.Runs.{
  at_start, and_then, timer_ticks, node_run-InStep, agent_node-InStep,
}

abbrev travel : RobotState → Task → ℤ
travel r t = pos 2

abbrev job : Task
job = record {
  id = pos 7;
  position = pos 1 ∷ [];
  duration = pos 3;
  capabilities = [];
  prerequisites = [];
  required_robots = pos 1;
}

-- Robot 2 holds task 7 in a round that ends with its next tick.
abbrev winner : Participant
winner = record busy {
  executing = none;
  tasks = (pos 7, job) ∷ [];
  leases = record { duration = pos 6; leases = [] };
  last_heartbeat = some (pos 10);
  announcement = some (record {
    round_id = pos 1;
    coordinator = pos 5;
    task_ids = pos 7 ∷ [];
    participants = pos 2 ∷ [];
    idle_slots = pos 0;
    epsilon = pos 1;
    quiescence_rounds = pos 1;
  });
  agent = some (record {
    id = pos 2;
    config = record { epsilon = pos 1; quiescence_rounds = pos 1 };
    benefits = (pos 7, pos 10) ∷ [];
    prices = record { entries = (pos 7, record { price = pos 4; bidder = pos 2 }) ∷ [] };
    assignment = some (pos 7);
    quiescent_ticks = 0;
    dirty = false;
  });
}

abbrev working : AgentNode
working = record {
  participant = record winner {
    monitor = record {
      timeout = pos 3;
      last_seen = (pos 2, pos 10) ∷ (pos 5, pos 9) ∷ [];
      alive_flags = (pos 2, true) ∷ (pos 5, true) ∷ [];
    };
    leases = record {
      duration = pos 6;
      leases = (pos 7, record { task_id = pos 7; holder = pos 2; expires_at = pos 16 }) ∷ [];
    };
    agent = none;
    executing = some (pos 7);
  };
  exec_task = some (pos 7);
  exec_timer = some (record { serial = 0; period = pos 5 });
  timers = record { serial = 0; period = pos 5 } ∷ [];
  created = 1;
  mission_logged = false;
}

abbrev sent : List Wire
sent =
    on_lease_topic (record {
      task_id = record { value = pos 7; fits = refl };
      holder = record { value = pos 2; fits = refl };
      stamp = pos 10;
    })
    ∷ []

winner_ticks : node_tick travel (agent_node winner) (pos 10) ≡ ok (sent, working)
unfolding node_tick agent_node tick tick_upkeep record_seen Heartbeat.sweep Leases.sweep tick_round
    tick_agent agent_tick tick_bid tick_count outbid bidder terminated grant tick_heartbeat
    tick_coordinator is_coordinator alive round_open holder publish_all publish lease_to_msg
    pop_aborts pop_dispatches cancel_all start_all start_execution mission_complete get set ◌-ℤ◌
    ◌+ℤ◌ frame_round available_tasks task_dag sorted available
winner_ticks = refl

winner-InStep : InStep (agent_node winner)
winner-InStep = agent_node-InStep winner refl refl refl

node_run_example : InStep working
node_run_example =
    node_run-InStep winner-InStep (and_then at_start (timer_ticks (pos 10) sent winner_ticks))

working-InStep : InStep working
working-InStep =
    node_run-InStep winner-InStep (and_then at_start (timer_ticks (pos 10) sent winner_ticks))

finish_execution_example :
    (out : List Wire) × (n' : AgentNode) × (finish_execution working (pos 15) ≡ ok (out, n'))
    × (get (pos 7) n'.participant.completed ≡ some (pos 2))
unfolding get
finish_execution_example =
    finish_execution_lem working (pos 7) job (pos 15) working-InStep refl refl refl refl

abbrev news : RoundGossip
news = record {
  round_id = pos 1;
  inner = record {
    sender = pos 2;
    entries =
        (pos 4, record { price = pos 3; bidder = pos 2 })
        ∷ (negsuc 0, record { price = pos 0; bidder = negsuc 0 })
        ∷ [];
  };
}

publish_example :
    (w : Wire) × (publish (round_gossip news) ≡ ok w) × (to_core w ≡ round_gossip news)
publish_example = publish-to_core (round_gossip news) (record {
  distinct = ((refl, tt), (tt, tt));
  round_id = refl;
  sender = refl;
  entries = ((refl, refl), ((refl, refl), tt));
})
