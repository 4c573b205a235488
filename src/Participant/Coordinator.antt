-- ===== src/Participant/Coordinator.antt =====
-- participant.py: the coordinator is the least live id, so robots that hear each other have one.
use distributed_mobile_robot.Base.{
  ℤ, ◌≤ℤ◌, ltb_ℤ, ◌==ℤ◌, eq_of_parts, true, false, if◌then◌else◌, ◌≡◌, ◌≢◌, inl, inr, List, [], ◌∷◌,
  Bool-cases, contains, arith,
}
use distributed_mobile_robot.Types.{AgentId}
use distributed_mobile_robot.Heartbeat.{alive}
use distributed_mobile_robot.Participant.State.{Participant}
use distributed_mobile_robot.Participant.Handle.{min_from}
use distributed_mobile_robot.Participant.Cycle.{is_coordinator}

min_from-le_start : (x : ℤ) (xs : List ℤ) → min_from x xs ≤ℤ x
min_from-le_start x [] = ground arith
min_from-le_start x (y ∷ ys) = ground (arith, min_from-le_start (if ltb_ℤ y x then y else x) ys)

min_from-le : (x : ℤ) (xs : List ℤ) (i : ℤ) → contains i xs ≡ true → min_from x xs ≤ℤ i
min_from-le x [] i among = cc
min_from-le x (y ∷ ys) i among = elim (Bool-cases (y ==ℤ i)) [
  | inl same ↦ ground (arith, same, min_from-le_start (if ltb_ℤ y x then y else x) ys)
  | inr other ↦ min_from-le (if ltb_ℤ y x then y else x) ys i (ground (arith, other))
]

-- A coordinator's id is at most the id of every robot that it takes for alive.
coordinator-le :
    (p : Participant) (now : ℤ) (i : AgentId)
    → is_coordinator p now ≡ true
    → contains i (alive p.monitor now) ≡ true
    → p.me.id ≤ℤ i
unfolding is_coordinator
coordinator-le p now i leads among =
    ground (arith, min_from-le p.me.id (alive p.monitor now) i among)

-- Of two participants with different ids that each take the other for alive, if one is the
-- coordinator then the other is not.
pub one_coordinator :
    (p q : Participant) (now later : ℤ)
    → p.me.id ≢ q.me.id
    → contains q.me.id (alive p.monitor now) ≡ true
    → contains p.me.id (alive q.monitor later) ≡ true
    → is_coordinator p now ≡ true
    → is_coordinator q later ≡ false
one_coordinator p q now later distinct hears heard leads =
    elim (Bool-cases (is_coordinator q later)) [
      | inl both ↦
          let le = coordinator-le p now q.me.id leads hears in
          let ge = coordinator-le q later p.me.id both heard in
          absurd (distinct (eq_of_parts p.me.id q.me.id (omega arith)))
      | inr follows ↦ follows
    ]
