-- ===== src/SystemSim/Run.antt =====
-- system_sim.py: the end of executions, and `run`.
use distributed_mobile_robot.Base.{
  ℕ, zero, suc, ℤ, pos, leb_ℤ, ltb_ℤ, ◌*ℤ◌, ◌==ℤ◌, Bool, true, false, not, ◌&&◌, if◌then◌else◌,
  List, [], ◌∷◌, ◌++◌, Option, none, some, Result, ok, ◌>>=◌, contains, select,
}
use distributed_mobile_robot.Base.Dict.{Dict, get, set, del, keys, values, or_key_error}
use distributed_mobile_robot.Types.{AgentId, TaskId, Task}
use distributed_mobile_robot.Benefits.{RobotState}
use distributed_mobile_robot.Transport.{deliver_due}
use distributed_mobile_robot.Participant.State.{Participant, task_finished, mission_complete}
use distributed_mobile_robot.SystemSim.{
  Execution, completed_task, SystemResult, SystemSim, log_event, kill_due, inject_due, deliver_all,
  send_all, tick_all,
}

-- `counts[task] = counts.get(task, 0) + 1`
abbrev count : Option ℕ → ℕ
count none = 1
count (some n) = suc n

abbrev count_all : List Execution → Dict ℕ → Dict ℕ
count_all [] counts = counts
count_all (e ∷ es) counts = count_all es (set e.task_id (count (get e.task_id counts)) counts)

abbrev pub completed_counts : SystemResult → Dict ℕ
completed_counts r = count_all r.executions []

-- `min(times)`, where there are any
abbrev least_of : ℤ → List Execution → ℤ
least_of time [] = time
least_of time (e ∷ es) = least_of (if ltb_ℤ e.finish time then e.finish else time) es

abbrev first_time : List Execution → Option ℤ
first_time [] = none
first_time (e ∷ es) = some (least_of e.finish es)

abbrev pub completion_time : SystemResult → TaskId → Option ℤ
completion_time r task_id =
    first_time (select (λ (e : Execution). e.task_id ==ℤ task_id) r.executions)

abbrev pub all_complete : List Participant → Bool
all_complete [] = true
all_complete (p ∷ ps) = mission_complete p && all_complete ps

-- `live and all(p.mission_complete for p in live)`
abbrev pub is_over : List Participant → Bool
is_over [] = false
is_over (p ∷ ps) = all_complete (p ∷ ps)

module _ {S : Type 0} where
  abbrev pub live : SystemSim S → List Participant
  live s =
      values
        (select (λ (item : AgentId × Participant). not (contains item.0 s.dead)) s.participants)

  -- The loop over `list(self._executing.items())`.
  unfoldable pub finish_due : ℤ → ℕ → Dict Execution → SystemSim S → Result (SystemSim S)
  finish_due now i [] s = ok s
  finish_due now i ((robot, execution) ∷ rest) s =
      let others = finish_due now i rest in
      if leb_ℤ execution.finish now
      then (do
        p ← or_key_error (get robot s.participants)
        (out, p') ← task_finished p execution.task_id now
        let s' = send_all out robot i (record s {
          executing = del robot s.executing;
          participants = set robot p' s.participants;
        })
        let ended = record s' {
          result = record s'.result { executions = s'.result.executions ++ execution ∷ [] };
        }
        others (log_event now (completed_task robot execution.task_id) ended))
      else others s

module _ {S : Type 0} (travel : RobotState → Task → ℤ) where
  -- A pass of the loop of `run`, up to the test of its end.
  unfoldable pub run_tick : ℤ → ℕ → SystemSim S → Result (SystemSim S)
  unfolding finish_due
  run_tick now i s = do
    let s1 = kill_due now s.kill_at s
    s2 ← inject_due now s1.inject s1
    let (due, transport) = deliver_due i s2.transport
    s3 ← deliver_all now due (record s2 { transport = transport })
    s4 ← tick_all travel now i (keys s3.participants) s3
    finish_due now i s4.executing s4

  -- `for i in range(ticks)`, with `left` of them left.
  unfoldable pub run_loop : ℕ → ℕ → SystemSim S → Result (SystemSim S)
  unfolding run_tick
  run_loop zero i s = ok s
  run_loop (suc left) i s = do
    let now = pos i *ℤ s.tick_period
    s' ← run_tick now i s
    let next = run_loop left (suc i) s' in
        if is_over (live s')
        then ok (record s' { result = record s'.result { mission_time = some now } })
        else next

  -- `ticks` is `int(max_time / self.tick_period)`.
  unfoldable pub run : ℕ → SystemSim S → Result (SystemResult × SystemSim S)
  unfolding run_loop
  run ticks s = do
    s' ← run_loop ticks 0 (record s {
      result = record { mission_time = none; executions = []; events = []; messages_sent = 0 };
    })
    ok (record s'.result { messages_sent = s'.transport.messages_sent }, s')
