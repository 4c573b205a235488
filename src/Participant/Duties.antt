-- ===== src/Participant/Duties.antt =====
-- `tick`: the task in execution is the one that the calls of `pop_aborts` and `pop_dispatches` leave.
use distributed_mobile_robot.Base.{
  ℤ, ◌||◌, ◌≡◌, refl, sym, subst, inl, inr, List, [], ◌∷◌, ◌++◌, Option, none, some, Bool-cases,
  Result, ok, >>=-eq-ok, sorted,
}
use distributed_mobile_robot.Types.{TaskId}
use distributed_mobile_robot.Engine.{AuctionAgent, tick as agent_tick, terminated}
use distributed_mobile_robot.Leases.{holder}
use distributed_mobile_robot.Leases
use distributed_mobile_robot.Heartbeat
use distributed_mobile_robot.Heartbeat.{record_seen}
use distributed_mobile_robot.Prices.{PriceTable}
use distributed_mobile_robot.Messages.{RoundAnnouncement, CoordinationMessage}
use distributed_mobile_robot.Participant.State.{Participant}
use distributed_mobile_robot.Participant.Handle.{on_announcement}
use distributed_mobile_robot.Participant.Cycle.{
  Outcome, abort_lost, abort_task, is_lost, tick_upkeep, take_win, real_win, tick_agent, tick_relay,
  round_of, tick_round, tick_heartbeat, renew_own, is_early, tick_coordinator, frame_round, framing,
  available_tasks, is_coordinator, in_open_round, tick, is_nil, idle_robots,
}
use distributed_mobile_robot.Participant.Duty.{SameDuty, on_announcement-SameDuty}

-- The task left after the stops, and then after the starts.
abbrev pub stopped : List TaskId → Option TaskId → Option TaskId
stopped [] e = e
stopped (t ∷ ts) e = stopped ts none

abbrev pub started : List TaskId → Option TaskId → Option TaskId
started [] e = e
started (t ∷ ts) e = started ts (some t)

stopped-append :
    (ts : List TaskId) (t : TaskId) (e : Option TaskId) → stopped (ts ++ t ∷ []) e ≡ none
stopped-append [] t e = refl
stopped-append (s ∷ ts) t e = stopped-append ts t none

started-append :
    (ts : List TaskId) (t : TaskId) (e : Option TaskId) → started (ts ++ t ∷ []) e ≡ some t
started-append [] t e = refl
started-append (s ∷ ts) t e = started-append ts t (some s)

-- A host that executed `e` executes what the participant thinks, once it has heard of all stops and
-- then of all starts.
abbrev pub Tracks : Option TaskId → Participant → Type 0
Tracks e p = p.executing ≡ started p.dispatches (stopped p.aborts e)

pub SameDuty-Tracks :
    (e : Option TaskId) (p p' : Participant) → SameDuty p p' → Tracks e p → Tracks e p'
SameDuty-Tracks e p p' (same, same', same'') tracks = rw (same, same', same'') tracks

module _ (e : Option TaskId) where
  abort_task-Tracks :
      (p : Participant) (current : Option TaskId)
      → p.dispatches ≡ []
      → Tracks e p
      → Tracks e (abort_task p current) × ((abort_task p current).dispatches ≡ [])
  abort_task-Tracks p none idle tracks = (tracks, idle)
  abort_task-Tracks p (some t) idle tracks =
      elim (Bool-cases (is_lost (holder p.leases t) p.me.id)) [
        | inl lost ↦ rw (lost, abort_task) (rw (idle, stopped-append p.aborts t e) refl, idle)
        | inr kept ↦ rw (kept, abort_task) (tracks, idle)
      ]

  tick_upkeep-Tracks :
      (p p' : Participant) (now : ℤ)
      → p.dispatches ≡ []
      → tick_upkeep p now ≡ ok p'
      → Tracks e p
      → Tracks e p'
  unfolding tick_upkeep abort_lost
  tick_upkeep-Tracks p p' now idle runs tracks =
      let ((expired, leases), r1, runs1) = >>=-eq-ok (Leases.sweep p.leases now) _ runs in
      let same : abort_lost (record p {
        monitor = (Heartbeat.sweep (record_seen p.monitor p.me.id now) now).1;
        leases = leases;
      })
          ≡ p' =
        cc runs1 in
      subst (Tracks e) same (abort_task-Tracks _ p.executing idle tracks).0

  take_win-Tracks :
      (p : Participant) (won : Option TaskId) (now : ℤ)
      → Tracks e p
      → Tracks e (take_win p won now).1
  take_win-Tracks p none now tracks = tracks
  take_win-Tracks p (some t) now tracks = sym (started-append p.dispatches t _)

  Tracks-ok :
      (out : List CoordinationMessage) (q p' : Participant) (out' : List CoordinationMessage)
      → Tracks e q
      → ◌≡◌ {A = Result Outcome} (ok (out, q)) (ok (out', p'))
      → Tracks e p'
  Tracks-ok out q p' out' tracks runs =
      let same : ◌≡◌ {A = Outcome} (out, q) (out', p') = cc runs in
      subst (λ (x : Outcome). Tracks e x.1) same tracks

  tick_agent-Tracks :
      (p p' : Participant) (a : RoundAnnouncement) (agent : AuctionAgent) (now : ℤ)
      (out : List CoordinationMessage)
      → tick_agent p a agent now ≡ ok (out, p')
      → Tracks e p
      → Tracks e p'
  unfolding tick_agent
  tick_agent-Tracks p p' a agent now out runs tracks =
      let ((messages, agent'), r1, runs1) = >>=-eq-ok (agent_tick agent) _ runs in
      elim (Bool-cases (terminated agent')) [
        | inl over ↦
            Tracks-ok _ _ p' out
              (take_win-Tracks (record p { agent = none }) (real_win p agent'.assignment) now
                tracks)
              (rw over at runs1)
        | inr running ↦
            Tracks-ok _ (record p { agent = some agent' }) p' out tracks (rw running at runs1)
      ]

  tick_relay-Tracks :
      (p : Participant) (a : RoundAnnouncement) (relay : Option PriceTable)
      → Tracks e p
      → Tracks e (tick_relay p a relay).1
  unfolding tick_relay
  tick_relay-Tracks p a none tracks = tracks
  tick_relay-Tracks p a (some relay) tracks = elim (Bool-cases p.relay_dirty) [
    | inl dirty ↦ rw dirty tracks
    | inr clean ↦ rw clean tracks
  ]

  tick_round-Tracks :
      (p p' : Participant) (now : ℤ) (out : List CoordinationMessage)
      → (a : Option RoundAnnouncement) (agent : Option AuctionAgent)
      → round_of p a agent now ≡ ok (out, p')
      → Tracks e p
      → Tracks e p'
  tick_round-Tracks p p' now out none none runs tracks = Tracks-ok [] p p' out tracks runs
  tick_round-Tracks p p' now out none (some agent) runs tracks = absurd (cc runs)
  tick_round-Tracks p p' now out (some a) none runs tracks =
      Tracks-ok _ _ p' out (tick_relay-Tracks p a p.relay tracks) runs
  tick_round-Tracks p p' now out (some a) (some agent) runs tracks =
      tick_agent-Tracks p p' a agent now out runs tracks

  renew_own-Tracks :
      (p : Participant) (current : Option TaskId) (now : ℤ)
      → Tracks e p
      → Tracks e (renew_own p current now).1
  renew_own-Tracks p none now tracks = tracks
  renew_own-Tracks p (some t) now tracks = tracks

  tick_heartbeat-Tracks :
      (p : Participant) (now : ℤ) → Tracks e p → Tracks e (tick_heartbeat p now).1
  unfolding tick_heartbeat
  tick_heartbeat-Tracks p now tracks =
      elim (Bool-cases (is_early p.last_heartbeat now p.heartbeat_interval)) [
        | inl early ↦ rw early tracks
        | inr due ↦ rw due (renew_own-Tracks p p.executing now tracks)
      ]

  frame_round-Tracks :
      (p p' : Participant) (now : ℤ) (out : List CoordinationMessage)
      → frame_round p now ≡ ok (out, p')
      → Tracks e p
      → Tracks e p'
  unfolding frame_round
  frame_round-Tracks p p' now out runs tracks =
      let (found, r1, runs1) = >>=-eq-ok (available_tasks p) _ runs in
      elim (Bool-cases (is_nil (sorted found) || is_nil (sorted (idle_robots p now)))) [
        | inl nothing ↦ Tracks-ok [] p p' out tracks (rw nothing at runs1)
        | inr some_round ↦
            let runs2 = rw some_round at runs1 in
            let (q, adopted, runs3) =
              >>=-eq-ok
                (on_announcement p (framing p (sorted found) (sorted (idle_robots p now))) now) _
                runs2 in
            Tracks-ok _ q p' out
              (SameDuty-Tracks e p q (on_announcement-SameDuty p q _ now adopted) tracks) runs3
      ]

  tick_coordinator-Tracks :
      (p p' : Participant) (now : ℤ) (out : List CoordinationMessage)
      → tick_coordinator p now ≡ ok (out, p')
      → Tracks e p
      → Tracks e p'
  unfolding tick_coordinator
  tick_coordinator-Tracks p p' now out runs tracks = elim (Bool-cases (is_coordinator p now)) [
    | inr other ↦ Tracks-ok [] p p' out tracks (rw other at runs)
    | inl first ↦ elim (Bool-cases (in_open_round p p.announcement now)) [
      | inl open_round ↦ Tracks-ok [] p p' out tracks (rw (first, open_round) at runs)
      | inr closed ↦ frame_round-Tracks p p' now out (rw (first, closed) at runs) tracks
    ]
  ]

  pub tick-Tracks :
      (p p' : Participant) (now : ℤ) (out : List CoordinationMessage)
      → p.dispatches ≡ []
      → tick p now ≡ ok (out, p')
      → Tracks e p
      → Tracks e p'
  unfolding tick tick_round
  tick-Tracks p p' now out idle runs tracks =
      let (p0, r0, runs0) = >>=-eq-ok (tick_upkeep p now) _ runs in
      let ((out1, p1), r1, runs1) = >>=-eq-ok (tick_round p0 now) _ runs0 in
      let ((out3, p3), r3, runs3) =
        >>=-eq-ok (tick_coordinator (tick_heartbeat p1 now).1 now) _ runs1 in
      Tracks-ok _ p3 p' out
        (tick_coordinator-Tracks (tick_heartbeat p1 now).1 p3 now out3 r3 (
          tick_heartbeat-Tracks p1 now (
            tick_round-Tracks p0 p1 now out1 p0.announcement p0.agent r1
              (tick_upkeep-Tracks p p0 now idle r0 tracks))))
        runs3
