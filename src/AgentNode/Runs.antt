-- ===== src/AgentNode/Runs.antt =====
-- The callbacks of a node, in any order.
use distributed_mobile_robot.Base.{ℤ, ◌≡◌, refl, sym, List, [], none, ok}
use distributed_mobile_robot.Types.{Task}
use distributed_mobile_robot.Benefits.{RobotState}
use distributed_mobile_robot.Msgs.{TaskSpec}
use distributed_mobile_robot.Participant.State.{Participant}
use distributed_mobile_robot.AgentNode.{
  Timer, AgentNode, Wire, on_message, on_task_array, finish_execution, agent_node, node_tick,
}
use distributed_mobile_robot.AgentNode.Duty.{
  IsRunning, InStep, on_message-InStep, on_task_array-InStep, node_tick-InStep,
}
use distributed_mobile_robot.AgentNode.Finish.{finish_execution-InStep}

-- A callback of the node that returns.
pub data NodeStep (travel : RobotState → Task → ℤ) (n n' : AgentNode) : Type 0 where
  message_arrives : (msg : Wire) (now : ℤ) → on_message n msg now ≡ ok n' → NodeStep travel n n'
  tasks_arrive :
      (tasks : List TaskSpec) (now : ℤ) → on_task_array n tasks now ≡ ok n' → NodeStep travel n n'
  timer_ticks :
      (now : ℤ) (out : List Wire) → node_tick travel n now ≡ ok (out, n') → NodeStep travel n n'
  task_ends :
      (timer : Timer) (now : ℤ) (out : List Wire)
      → IsRunning timer n.timers
      → finish_execution n now ≡ ok (out, n')
      → NodeStep travel n n'

pub data NodeReach (travel : RobotState → Task → ℤ) (n : AgentNode) : AgentNode → Type 0 where
  at_start : NodeReach travel n n
  and_then :
      {m n' : AgentNode} → NodeReach travel n m → NodeStep travel m n' → NodeReach travel n n'

NodeStep-InStep :
    {travel : RobotState → Task → ℤ} {n n' : AgentNode}
    → NodeStep travel n n'
    → InStep n
    → InStep n'
NodeStep-InStep {n = n} {n' = n'} (message_arrives msg now runs) s =
    on_message-InStep n n' msg now runs s
NodeStep-InStep {n = n} {n' = n'} (tasks_arrive tasks now runs) s =
    on_task_array-InStep tasks n n' now runs s
NodeStep-InStep {travel} {n} {n'} (timer_ticks now out runs) s =
    node_tick-InStep travel n n' now out runs s
NodeStep-InStep {n = n} {n' = n'} (task_ends timer now out runs_on runs) s =
    finish_execution-InStep n n' now out runs s

-- Whatever messages, task arrays, ticks and firings of timers, forgotten ones included, a node has
-- handled without an exception, in whatever order, from a state in step on: the node executes
-- exactly the task that its participant takes it to execute, it has an execution timer exactly
-- while it executes one, that timer has not been destroyed, and no start or stop is left over.
pub node_run-InStep :
    {travel : RobotState → Task → ℤ} {n n' : AgentNode}
    → InStep n
    → NodeReach travel n n'
    → InStep n'
node_run-InStep s at_start = s
node_run-InStep s (and_then r st) = NodeStep-InStep st (node_run-InStep s r)

pub agent_node-InStep :
    (p : Participant)
    → p.executing ≡ none
    → p.dispatches ≡ []
    → p.aborts ≡ []
    → InStep (agent_node p)
unfolding agent_node
agent_node-InStep p idle no_dispatch no_abort = record {
  same = sym idle;
  timed = refl;
  running = λ u none_left. absurd (cc);
  no_dispatch = no_dispatch;
  no_abort = no_abort;
}
