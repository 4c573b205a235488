-- ===== src/Transport/Order.antt =====
-- The queue: sending keeps its order, and delivering takes exactly what is due.
use distributed_mobile_robot.Base.{
  ℕ, ◌≤◌, leb, Bool, false, not, ◌≡◌, refl, ap, inl, inr, List, [], ◌∷◌, map, select, All, All-mono,
  Bool-cases, arith,
}
use distributed_mobile_robot.Types.{AgentId}
use distributed_mobile_robot.Transport.{
  Queued, SimTransport, pops_before, heappush, pop_due, send_to, send_loop, send_payload,
  deliver_due,
}

module _ {P : Type 0} where
  -- No item is due after a later one.
  abbrev pub IsOrdered : List (Queued P) → Type 0
  IsOrdered [] = Unit
  IsOrdered (x ∷ queue) =
      All (λ (y : Queued P). x.deliver_at ≤ y.deliver_at) queue × IsOrdered queue

  heappush-All :
      (R : Queued P → Type 0) (x : Queued P) (queue : List (Queued P))
      → R x
      → All R queue
      → All R (heappush x queue)
  unfolding heappush
  heappush-All R x [] r h = (r, tt)
  heappush-All R x (y ∷ queue) r h = elim (Bool-cases (pops_before y x)) [
    | inl before ↦ rw before (h.0, heappush-All R x queue r h.1)
    | inr after ↦ rw after (r, h)
  ]

  heappush-IsOrdered :
      (x : Queued P) (queue : List (Queued P)) → IsOrdered queue → IsOrdered (heappush x queue)
  unfolding heappush
  heappush-IsOrdered x [] h = (tt, tt)
  heappush-IsOrdered x (y ∷ queue) h = elim (Bool-cases (pops_before y x)) [
    | inl before ↦
        let le : y.deliver_at ≤ x.deliver_at = ground (arith, before) in
        rw before (
          heappush-All (λ z. y.deliver_at ≤ z.deliver_at) x queue le h.0,
          heappush-IsOrdered x queue h.1,
        )
    | inr after ↦
        let le : x.deliver_at ≤ y.deliver_at = ground (arith, after) in
        rw after (
          (
            le,
            All-mono (λ z. y.deliver_at ≤ z.deliver_at) (λ z. x.deliver_at ≤ z.deliver_at)
                (λ z more. omega arith) queue h.0,
          ),
          h,
        )
  ]

  -- To whom what is delivered.
  abbrev pub deliveries : List (Queued P) → List (AgentId × P)
  deliveries = map λ x. (x.dest, x.payload)

  abbrev pub is_due : ℕ → Queued P → Bool
  is_due now x = leb x.deliver_at now

  nothing_due :
      (now time : ℕ) (queue : List (Queued P))
      → leb time now ≡ false
      → All (λ (y : Queued P). time ≤ y.deliver_at) queue
      → (select (is_due now) queue ≡ []) × (select (λ x. not (is_due now x)) queue ≡ queue)
  nothing_due now time [] early h = (refl, refl)
  nothing_due now time (y ∷ queue) early h =
      let later : leb y.deliver_at now ≡ false = ground (arith, early, h.0) in
      let (none_due, rest) = nothing_due now time queue early h.1 in
      (rw later none_due, rw later (ap (λ (q : List (Queued P)). y ∷ q) rest))

  pop_due_lem :
      (now : ℕ) (queue : List (Queued P))
      → IsOrdered queue
      → ((pop_due now queue).0 ≡ deliveries (select (is_due now) queue))
        × ((pop_due now queue).1 ≡ select (λ x. not (is_due now x)) queue)
  unfolding pop_due
  pop_due_lem now [] h = (refl, refl)
  pop_due_lem now (x ∷ queue) h = elim (Bool-cases (leb x.deliver_at now)) [
    | inl due ↦
        let (given, rest) = pop_due_lem now queue h.1 in
        (rw due (ap (λ (ds : List (AgentId × P)). (x.dest, x.payload) ∷ ds) given), rw due rest)
    | inr early ↦
        let (none_due, rest) = nothing_due now x.deliver_at queue early h.0 in
        (rw (early, none_due) refl, rw (early, rest) refl)
  ]

module _ {S P : Type 0} where
  send_to-IsOrdered :
      (payload : P) (now : ℕ) (dest : AgentId) (t : SimTransport S P)
      → IsOrdered t.queue
      → IsOrdered (send_to payload now dest t).queue
  unfolding send_to
  send_to-IsOrdered payload now dest t h = elim (Bool-cases (t.lost t.rng).0) [
    | inl is_lost ↦ rw is_lost h
    | inr sent ↦ rw sent (heappush-IsOrdered _ t.queue h)
  ]

  send_loop-IsOrdered :
      (payload : P) (now : ℕ) (neighbours : List AgentId) (t : SimTransport S P)
      → IsOrdered t.queue
      → IsOrdered (send_loop payload now neighbours t).queue
  unfolding send_loop
  send_loop-IsOrdered payload now [] t h = h
  send_loop-IsOrdered payload now (dest ∷ neighbours) t h =
      send_loop-IsOrdered payload now neighbours (send_to payload now dest t)
        (send_to-IsOrdered payload now dest t h)

  -- A broadcast keeps the order of the queue, in which no item is due after a later one, whatever
  -- is lost and whatever the delays.
  pub send_payload-IsOrdered :
      (payload : P) (sender : AgentId) (now : ℕ) (t : SimTransport S P)
      → IsOrdered t.queue
      → IsOrdered (send_payload payload sender now t).queue
  unfolding send_payload
  send_payload-IsOrdered payload sender now t h = send_loop-IsOrdered payload now _ t h

  -- If no item of the queue is due after a later one, then deliver_due hands out exactly the items
  -- that are due, in the order of the queue, and leaves exactly the others in theirs.
  pub deliver_due_lem :
      (now : ℕ) (t : SimTransport S P)
      → IsOrdered t.queue
      → ((deliver_due now t).0 ≡ deliveries (select (is_due now) t.queue))
        × ((deliver_due now t).1.queue ≡ select (λ x. not (is_due now x)) t.queue)
  unfolding deliver_due
  deliver_due_lem now t h = pop_due_lem now t.queue h
