-- ===== src/SystemSim/InStep.antt =====
-- The simulator executes exactly what the participants that are not dead take themselves to execute.
use distributed_mobile_robot.Base.{
  ℤ, leb_ℤ, ◌==ℤ◌, ℤ-cases, true, false, not, ◌&&◌, ◌||◌, ◌≡◌, refl, sym, ◌∙◌, subst, ap, inl, inr,
  List, [], ◌∷◌, none, some, ok, >>=-eq-ok, ok_inj, contains, Bool-cases, arith,
}
use distributed_mobile_robot.Base.Dict.{
  Dict, get, set, del, or_key_error, or_key_error-inv, IsDistinct, IsDistinct-del, get-set_self,
  get-set_ne, get-del_self, get-del_ne,
}
use distributed_mobile_robot.Types.{AgentId}
use distributed_mobile_robot.Dag.Missing.{contains-append}
use distributed_mobile_robot.Messages.{CoordinationMessage}
use distributed_mobile_robot.Participant.State.{Participant}
use distributed_mobile_robot.Participant.Handle.{handle}
use distributed_mobile_robot.Participant.Duty.{SameDuty, handle-SameDuty}
use distributed_mobile_robot.SystemSim.{Execution, SystemSim, kill_due, deliver_all}
use distributed_mobile_robot.SystemSim.Touched.{task_of}

-- The simulator executes for the robot what its participant says, and nothing is left over.
abbrev pub Follows : Dict Execution → AgentId → Participant → Type 0
Follows executing r p =
    (task_of (get r executing) ≡ p.executing) × (p.dispatches ≡ []) × (p.aborts ≡ [])

pub SameDuty-Follows :
    (executing : Dict Execution) (r : AgentId) (p p' : Participant)
    → SameDuty p p'
    → Follows executing r p
    → Follows executing r p'
SameDuty-Follows executing r p p' (works, dispatches, aborts) (task, no_dispatch, no_abort) =
    (task ∙ sym works, dispatches ∙ no_dispatch, aborts ∙ no_abort)

module _ {S : Type 0} where
  pub record InStep (s : SystemSim S) : Type 0 where
    pub distinct : IsDistinct s.executing
    pub alive :
        (r : AgentId) (p : Participant)
        → get r s.participants ≡ some p
        → contains r s.dead ≡ false
        → Follows s.executing r p
    pub buried : (r : AgentId) → contains r s.dead ≡ true → get r s.executing ≡ none

  -- A change of one participant and its execution.
  pub changed-InStep :
      (s s' : SystemSim S) (r : AgentId) (p' : Participant)
      → InStep s
      → s'.participants ≡ set r p' s.participants
      → s'.dead ≡ s.dead
      → ((k : AgentId) → (r ==ℤ k) ≡ false → get k s'.executing ≡ get k s.executing)
      → IsDistinct s'.executing
      → (contains r s.dead ≡ false → Follows s'.executing r p')
      → (contains r s.dead ≡ true → get r s'.executing ≡ none)
      → InStep s'
  changed-InStep s s' r p' h people graves others distinct follows stopped_dead = record {
    distinct = distinct;
    alive = λ k q found lives. elim (ℤ-cases r k) [
      | inl same ↦
          subst (λ x. Follows s'.executing x q) same
            (subst (Follows s'.executing r)
              (same_participant (get-set_self r p' s.participants)
                (subst (λ x. get x s'.participants ≡ some q) (sym same) found))
              (follows (
                subst (λ x. contains x s.dead ≡ false) (sym same)
                  (subst (λ d. contains k d ≡ false) graves lives))))
      | inr other ↦
          let (task, rest, rest') =
            h.alive k q
              (sym (get-set_ne r k p' s.participants other)
                ∙ (subst (λ d. get k d ≡ some q) people found))
              (subst (λ d. contains k d ≡ false) graves lives) in
          (ap task_of (others k other) ∙ task, rest, rest')
    ];
    buried = λ k dead. elim (ℤ-cases r k) [
      | inl same ↦
          subst (λ x. get x s'.executing ≡ none) same
            (stopped_dead (
              subst (λ x. contains x s.dead ≡ true) (sym same)
                (subst (λ d. contains k d ≡ true) graves dead)))
      | inr other ↦ others k other ∙ h.buried k (subst (λ d. contains k d ≡ true) graves dead)
    ];
  }
    where
      same_participant :
          {q : Participant}
          → get r (set r p' s.participants) ≡ some p'
          → get r s'.participants ≡ some q
          → p' ≡ q
      same_participant {q = q} own found = cc (subst (λ d. get r d ≡ some q) people found)

  -- Only what the invariant does not read has changed.
  pub same-InStep :
      (s s' : SystemSim S)
      → s'.participants ≡ s.participants
      → s'.dead ≡ s.dead
      → s'.executing ≡ s.executing
      → InStep s
      → InStep s'
  same-InStep s s' people graves works h = record {
    distinct = subst IsDistinct (sym works) h.distinct;
    alive = λ k q found lives.
        subst (λ d. Follows d k q) (sym works)
          (h.alive k q (subst (λ d. get k d ≡ some q) people found)
            (subst (λ d. contains k d ≡ false) graves lives));
    buried = λ k dead.
        subst (λ d. get k d ≡ none) (sym works)
          (h.buried k (subst (λ d. contains k d ≡ true) graves dead));
  }

  pub kill_due-InStep :
      (now : ℤ) (rest : Dict ℤ) (s : SystemSim S) → InStep s → InStep (kill_due now rest s)
  unfolding kill_due
  kill_due-InStep now [] s h = h
  kill_due-InStep now ((robot, time) ∷ rest) s h =
      elim (Bool-cases (not (contains robot s.dead) && leb_ℤ time now)) [
        | inr other ↦ rw other (kill_due-InStep now rest s h)
        | inl due ↦ rw due (
            kill_due-InStep now rest _ (record {
              distinct = IsDistinct-del robot s.executing h.distinct;
              alive = λ k q found lives.
                  let (apart, other) =
                    still_alive k (rw (contains-append k s.dead robot) at lives) in
                  let (task, left, left') = h.alive k q found apart in
                  (ap task_of (get-del_ne robot k s.executing other) ∙ task, left, left');
              buried = λ k dead. elim (ℤ-cases robot k) [
                | inl same ↦
                    subst (λ x. get x (del robot s.executing) ≡ none) same
                      (get-del_self robot s.executing h.distinct)
                | inr other ↦
                    get-del_ne robot k s.executing other
                    ∙ h.buried k (before k (rw (contains-append k s.dead robot) at dead) other)
              ];
            }))
      ]
    where
      still_alive :
          (k : AgentId)
          → (contains k s.dead || robot ==ℤ k) ≡ false
          → (contains k s.dead ≡ false) × ((robot ==ℤ k) ≡ false)
      still_alive k h1 = ground arith

      before :
          (k : AgentId)
          → (contains k s.dead || robot ==ℤ k) ≡ true
          → (robot ==ℤ k) ≡ false
          → contains k s.dead ≡ true
      before k h1 other = ground arith

  pub deliver_all-InStep :
      (now : ℤ) (due : List (AgentId × CoordinationMessage)) (s s' : SystemSim S)
      → deliver_all now due s ≡ ok s'
      → InStep s
      → InStep s'
  unfolding deliver_all
  deliver_all-InStep now [] s s' runs h = subst InStep (ok_inj s s' runs) h
  deliver_all-InStep now ((dest, message) ∷ due) s s' runs h =
      elim (Bool-cases (contains dest s.dead)) [
        | inl dead ↦ deliver_all-InStep now due s s' (rw dead at runs) h
        | inr lives ↦
            let (p, found, runs1) =
              >>=-eq-ok (or_key_error (get dest s.participants)) _ (rw lives at runs) in
            let (p', handled, runs2) = >>=-eq-ok (handle p message now) _ runs1 in
            let follows = h.alive dest p (or_key_error-inv _ p found) lives in
            deliver_all-InStep now due _ s' runs2 (
              changed-InStep s (record s { participants = set dest p' s.participants }) dest p' h
                refl refl (λ k other. refl) h.distinct
                (λ alive.
                  SameDuty-Follows s.executing dest p p' (handle-SameDuty p p' message now handled)
                    follows)
                (h.buried dest))
      ]
