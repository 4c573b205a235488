-- ===== src/Participant/Leasing.antt =====
-- participant.py: the lease replicas agree on the lower holder, and a lost task is given up.
use distributed_mobile_robot.Base.{
  ◌<ℤ◌, ◌≢◌, ◌⊎◌, [], ◌∷◌, ◌++◌, true, ==ℤ_iff, ℤ, ltb_ℤ, eq_of_parts, ==ℤ_refl, false,
  if◌then◌else◌, ◌≡◌, refl, ◌∙◌, ap, sym, subst, inl, inr, Option, none, some, Option-cases,
  Bool-cases, ℤ-cases, ok, arith,
}
use distributed_mobile_robot.Base.Dict.{get, get-set_self}
use distributed_mobile_robot.Types.{AgentId, TaskId}
use distributed_mobile_robot.Leases.{TaskLeases, Lease, holder, grant, renew}
use distributed_mobile_robot.Leases.{is_expired}
use distributed_mobile_robot.Leases.Sweep.{IsKeyed, live, sweep_lem, holder-live}
use distributed_mobile_robot.Heartbeat
use distributed_mobile_robot.Heartbeat.{record_seen}
use distributed_mobile_robot.Messages.{LeaseRenewal}
use distributed_mobile_robot.Participant.State.{Participant}
use distributed_mobile_robot.Participant.Handle.{on_lease_renewal}
use distributed_mobile_robot.Participant.Cycle.{is_lost, abort_lost, abort_task, tick_upkeep}
use mathlib.Core.Path.{◌≡⟨◌⟩◌, ◌∎}

-- The lower of a claim and the present holder.
abbrev pub lower : AgentId → Option AgentId → AgentId
lower claim none = claim
lower claim (some current) = if ltb_ℤ claim current then claim else current

holder-grant :
    (l : TaskLeases) (task : TaskId) (agent : AgentId) (now : ℤ)
    → holder (grant l task agent now).1 task ≡ some agent
unfolding holder grant
holder-grant l task agent now = rw (get-set_self task _ l.leases, holder)

holder-renew :
    (l : TaskLeases) (task : TaskId) (agent : AgentId) (now : ℤ)
    → holder l task ≡ some agent
    → holder (renew l task agent now).1 task ≡ some agent
unfolding holder renew
holder-renew l task agent now held = elim (Option-cases (get task l.leases)) [
  | inl absent ↦ absurd (ground (arith, absent))
  | inr (lease, found) ↦
      let mine : lease.holder ≡ agent = ground (arith, found) in
      rw (found, renew, mine, ==ℤ_refl agent) (rw (get-set_self task _ l.leases, holder))
]

-- A renewal leaves the task with the lower of the claimed and the known holder.
pub on_lease_renewal-holder :
    (p : Participant) (msg : LeaseRenewal) (now : ℤ)
    → holder (on_lease_renewal p msg now).leases msg.task_id
      ≡ some (lower msg.holder (holder p.leases msg.task_id))
unfolding on_lease_renewal
on_lease_renewal-holder p msg now = elim (Option-cases (holder p.leases msg.task_id)) [
  | inl free ↦ rw (free, on_lease_renewal) (holder-grant p.leases msg.task_id msg.holder now)
  | inr (current, held) ↦ elim (ℤ-cases current msg.holder) [
    | inl same ↦
        rw (held, on_lease_renewal)
          (rw
            (
              same,
              ==ℤ_refl msg.holder,
              holder-renew p.leases msg.task_id msg.holder now (held ∙ ap some same),
            )
            (ground arith))
    | inr other ↦ elim (Bool-cases (ltb_ℤ msg.holder current)) [
      | inl less ↦
          rw (held, on_lease_renewal) (rw (other, less) (holder-grant _ msg.task_id msg.holder now))
      | inr more ↦ rw (held, on_lease_renewal) (rw (other, more) held)
    ]
  ]
]

renewal-holder :
    (p : Participant) (msg : LeaseRenewal) (now : ℤ) (task : TaskId)
    → msg.task_id ≡ task
    → holder (on_lease_renewal p msg now).leases task
      ≡ some (lower msg.holder (holder p.leases task))
renewal-holder p msg now task same =
    subst
      (λ t.
        holder (on_lease_renewal p msg now).leases t ≡ some (lower msg.holder (holder p.leases t)))
      same (on_lease_renewal-holder p msg now)

lower_comm :
    (a b : AgentId) (h : Option AgentId) → lower a (some (lower b h)) ≡ lower b (some (lower a h))
lower_comm a b none = ground (arith, eq_of_parts a b)
lower_comm a b (some c) = ground (arith, eq_of_parts a b)

-- Two lease renewals for one task, handled in either order and at any times, leave a participant
-- with the same holder of the task.
pub renewals_commute :
    (p : Participant) (m n : LeaseRenewal) (now later : ℤ)
    → m.task_id ≡ n.task_id
    → holder (on_lease_renewal (on_lease_renewal p m now) n later).leases m.task_id
      ≡ holder (on_lease_renewal (on_lease_renewal p n now) m later).leases m.task_id
renewals_commute p m n now later same =
    let p₁ = on_lease_renewal p m now in
    let p₂ = on_lease_renewal p n now in
    holder (on_lease_renewal p₁ n later).leases m.task_id
    ≡⟨ renewal-holder p₁ n later m.task_id (sym same) ⟩
      some (lower n.holder (holder p₁.leases m.task_id))
    ≡⟨ ap (λ h. some (lower n.holder h)) (renewal-holder p m now m.task_id refl) ⟩
      some (lower n.holder (some (lower m.holder (holder p.leases m.task_id))))
    ≡⟨ ap (λ h. some h) (lower_comm n.holder m.holder (holder p.leases m.task_id)) ⟩
      some (lower m.holder (some (lower n.holder (holder p.leases m.task_id))))
    ≡⟨ ap (λ h. some (lower m.holder h)) (sym (renewal-holder p n now m.task_id (sym same))) ⟩
      some (lower m.holder (holder p₂.leases m.task_id))
    ≡⟨ sym (renewal-holder p₂ m later m.task_id refl) ⟩
      holder (on_lease_renewal p₂ m later).leases m.task_id ∎

-- A lease of another robot that has not expired.
abbrev pub LostTo : AgentId → ℤ → Option Lease → Type 0
LostTo me now o =
    (lease : Lease) × (o ≡ some lease) × (now <ℤ lease.expires_at) × (lease.holder ≢ me)

-- What is known of the holder, from the lease that was there before the sweep.
known_holder : ℤ → Option Lease → Option AgentId
known_holder now none = none
known_holder now (some lease) = if is_expired now lease then none else some lease.holder

LostTo-cases :
    (me : AgentId) (now : ℤ) (o : Option Lease)
    → ((is_lost (known_holder now o) me ≡ true) × LostTo me now o)
      ⊎ ((is_lost (known_holder now o) me ≡ false) × (LostTo me now o → ⊥))
unfolding known_holder
LostTo-cases me now none = inr (refl, λ lost. let (lease, there, _, _) = lost in cc there)
LostTo-cases me now (some lease) = elim (Bool-cases (is_expired now lease)) [
  | inl over ↦ inr (
    rw over refl,
    λ lost. let (other, there, before, _) = lost in still other (one other there) before over,
  )
  | inr lasts ↦ elim (ℤ-cases lease.holder me) [
    | inl mine ↦ inr (
      rw (lasts, mine, ==ℤ_refl me) refl,
      λ lost.
          let (other, there, _, differs) = lost in
          differs (ap (λ (l : Lease). l.holder) (sym (one other there)) ∙ mine),
    )
    | inr others ↦ inl (
      rw (lasts, others) refl,
      (
        lease,
        refl,
        ground (arith, lasts),
        λ same. ground (arith, same, others, ==ℤ_iff lease.holder me),
      ),
    )
  ]
]
  where
    one : (other : Lease) → some lease ≡ some other → lease ≡ other
    one other there = cc

    still :
        (other : Lease) → lease ≡ other → now <ℤ other.expires_at → is_expired now lease ≡ true → ⊥
    still other same before over =
        let later = subst (λ (l : Lease). now <ℤ l.expires_at) (sym same) before in
        ground (arith, later, over)

-- On a table with one lease for a task and each lease under its own task, the upkeep at the head of
-- a tick raises no exception for a robot that executes a task. If another robot has a lease on the
-- task that has not expired at that time, then the robot executes nothing any more and the task is
-- the last of its aborts; otherwise it goes on executing the task and its aborts stay.
pub upkeep_lem :
    (p : Participant) (now : ℤ) (task : TaskId)
    → IsKeyed p.leases.leases
    → p.executing ≡ some task
    → (q : Participant) × (tick_upkeep p now ≡ ok q)
      × ((LostTo p.me.id now (get task p.leases.leases)
            × (q.executing ≡ none)
            × (q.aborts ≡ p.aborts ++ task ∷ []))
          ⊎ ((LostTo p.me.id now (get task p.leases.leases) → ⊥)
              × (q.executing ≡ some task)
              × (q.aborts ≡ p.aborts)))
unfolding tick_upkeep abort_lost known_holder
upkeep_lem p now task keyed busy =
    let before : Participant = record p {
      monitor = (Heartbeat.sweep (record_seen p.monitor p.me.id now) now).1;
      leases = record p.leases { leases = live now p.leases.leases };
    } in
    let held : holder before.leases task ≡ known_holder now (get task p.leases.leases) =
      holder-live p.leases now task keyed ∙ same_cases (get task p.leases.leases) in
    (
      abort_task before (some task),
      rw (sweep_lem p.leases now keyed) (rw busy refl),
      elim (LostTo-cases p.me.id now (get task p.leases.leases)) [
        | inl (lost, other) ↦ inl (other, rw (held, lost) refl, rw (held, lost) refl)
        | inr (kept, none_other) ↦ inr (none_other, rw (held, kept) busy, rw (held, kept) refl)
      ],
    )
  where
    same_cases :
        (o : Option Lease)
        → elim o [
          | none ↦ none
          | some lease ↦ if is_expired now lease then none else some lease.holder
        ]
          ≡ known_holder now o
    same_cases none = refl
    same_cases (some lease) = refl
