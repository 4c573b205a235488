-- ===== src/Harness/Run.antt =====
-- The round loop as an execution of the network: what it delivers was sent, and each agent's call
-- is a step.
use distributed_mobile_robot.Base.{
  ℕ, zero, suc, ◌+◌, leb, Bool-cases, ◌≡◌, refl, subst, inl, inr, List, [], ◌∷◌, ◌++◌, Option, none,
  some, ok, ◌&&◌, >>=-eq-ok, All, All-mono,
}
use distributed_mobile_robot.Base.Dict.{Dict, get, set, keys, or_key_error, or_key_error-inv}
use distributed_mobile_robot.Types.{AgentId, PriceTableMessage}
use distributed_mobile_robot.Engine.{AuctionAgent, handle_message, tick}
use distributed_mobile_robot.Network.{Network, Among, Reach, next, receives, ticks}
use distributed_mobile_robot.Transport.{
  Queued, pops_before, heappush, send_to, send_loop, send_payload, send, pop_due, deliver_due, idle,
}
use distributed_mobile_robot.Harness.{
  Transport, deliver_all, or_value_error, send_all, tick_all, round_loop, all_terminated,
}

abbrev Message : Type 0
Message = PriceTableMessage

abbrev net : Dict AuctionAgent → List Message → Network
net agents sent = record { agents = agents; sent = sent }

-- The payloads of the queue satisfy `P`.
module _ (P : Message → Type 0) where
  abbrev pub AllQueued : List (Queued Message) → Type 0
  AllQueued = All λ x. P x.payload

  heappush-AllQueued :
      (x : Queued Message) (queue : List (Queued Message))
      → P x.payload
      → AllQueued queue
      → AllQueued (heappush x queue)
  unfolding heappush
  heappush-AllQueued x [] p h = (p, tt)
  heappush-AllQueued x (y ∷ queue) p h = elim (Bool-cases (pops_before y x)) [
    | inl first ↦ rw first (h.0, heappush-AllQueued x queue p h.1)
    | inr last ↦ rw last (p, h)
  ]

  pop_due-AllQueued :
      (now : ℕ) (queue : List (Queued Message))
      → AllQueued queue
      → All (λ (x : AgentId × Message). P x.1) (pop_due now queue).0
        × AllQueued (pop_due now queue).1
  unfolding pop_due
  pop_due-AllQueued now [] h = (tt, tt)
  pop_due-AllQueued now (x ∷ queue) h =
      let (due, rest) = pop_due-AllQueued now queue h.1 in
      elim (Bool-cases (leb x.deliver_at now)) [
        | inl is_due ↦ rw is_due ((h.0, due), rest)
        | inr later ↦ rw later (tt, h)
      ]

  module _ {S : Type 0} where
    send_to-AllQueued :
        (m : Message) (now : ℕ) (dest : AgentId) (t : Transport S)
        → P m
        → AllQueued t.queue
        → AllQueued (send_to m now dest t).queue
    unfolding send_to
    send_to-AllQueued m now dest t p h = elim (Bool-cases (t.lost t.rng).0) [
      | inl is_lost ↦ rw is_lost h
      | inr kept ↦ rw kept (heappush-AllQueued _ t.queue p h)
    ]

    send_loop-AllQueued :
        (m : Message) (now : ℕ) (ids : List AgentId) (t : Transport S)
        → P m
        → AllQueued t.queue
        → AllQueued (send_loop m now ids t).queue
    unfolding send_loop
    send_loop-AllQueued m now [] t p h = h
    send_loop-AllQueued m now (dest ∷ ids) t p h =
        send_loop-AllQueued m now ids (send_to m now dest t) p (send_to-AllQueued m now dest t p h)

    send_all-AllQueued :
        (ms : List Message) (now : ℕ) (t : Transport S)
        → All P ms
        → AllQueued t.queue
        → AllQueued (send_all ms now t).queue
    unfolding send send_payload
    send_all-AllQueued [] now t ps h = h
    send_all-AllQueued (m ∷ ms) now t ps h =
        send_all-AllQueued ms now (send m now t) ps.1 (send_loop-AllQueued m now _ t ps.0 h)

Among-front : (m : Message) (ms sent : List Message) → Among m ms → Among m (ms ++ sent)
Among-front m [] sent h = absurd h
Among-front m (x ∷ ms) sent (inl same) = inl same
Among-front m (x ∷ ms) sent (inr h) = inr (Among-front m ms sent h)

Among-back : (m : Message) (ms sent : List Message) → Among m sent → Among m (ms ++ sent)
Among-back m [] sent h = h
Among-back m (x ∷ ms) sent h = inr (Among-back m ms sent h)

All-Among :
    (P : Message → Type 0) (ms : List Message) → ((m : Message) → Among m ms → P m) → All P ms
All-Among P [] h = tt
All-Among P (m ∷ ms) h = (h m (inl refl), All-Among P ms λ x among. h x (inr among))

or_value_error-inv :
    (o : Option AuctionAgent) (a : AuctionAgent) → or_value_error o ≡ ok a → o ≡ some a
or_value_error-inv none a h = cc
or_value_error-inv (some b) a h = cc

deliver_all-Reach :
    (s0 : Network) (sent : List Message) (due : List (AgentId × Message))
    (agents agents' : Dict AuctionAgent)
    → All (λ (x : AgentId × Message). Among x.1 sent) due
    → deliver_all due agents ≡ ok agents'
    → Reach s0 (net agents sent)
    → Reach s0 (net agents' sent)
unfolding deliver_all
deliver_all-Reach s0 sent [] agents agents' among runs reach =
    let same : agents ≡ agents' = cc runs in subst (λ x. Reach s0 (net x sent)) same reach
deliver_all-Reach s0 sent ((dest, m) ∷ due) agents agents' among runs reach =
    let (a, found, runs') = >>=-eq-ok (or_value_error (get dest agents)) _ runs in
    let (b, handled, runs'') = >>=-eq-ok (handle_message a m) _ runs' in
    deliver_all-Reach s0 sent due (set dest b agents) agents' among.1 runs''
      (next reach (receives dest a b m (or_value_error-inv _ a found) among.0 handled refl))

module _ {S : Type 0} (s0 : Network) where
  -- The agents are reached from `s0`, and the transport holds only what was sent.
  pub record Covers (agents : Dict AuctionAgent) (t : Transport S) : Type 0 where
    pub sent : List Message
    pub reach : Reach s0 (net agents sent)
    pub queued : AllQueued (λ m. Among m sent) t.queue

  pub tick-Covers :
      (i : AgentId) (now : ℕ) (agents : Dict AuctionAgent) (a b : AuctionAgent) (out : List Message)
      (t : Transport S)
      → get i agents ≡ some a
      → tick a ≡ ok (out, b)
      → Covers agents t
      → Covers (set i b agents) (send_all out now t)
  tick-Covers i now agents a b out t found ticked c = record {
    sent = out ++ c.sent;
    reach = next c.reach (ticks i a b out found ticked refl);
    queued =
        send_all-AllQueued (λ m. Among m (out ++ c.sent)) out now t
          (All-Among _ out λ m. Among-front m out c.sent)
          (All-mono _ _ (λ (x : Queued Message). Among-back x.payload out c.sent) t.queue c.queued);
  }

  pub tick_all-Covers :
      (ids : List AgentId) (now : ℕ) (agents agents' : Dict AuctionAgent) (t t' : Transport S)
      → tick_all ids now (agents, t) ≡ ok (agents', t')
      → Covers agents t
      → Covers agents' t'
  unfolding tick_all
  tick_all-Covers [] now agents agents' t t' runs c =
      let same : (agents, t) ≡ (agents', t') = cc runs in
      subst (λ (x : Dict AuctionAgent × Transport S). Covers x.0 x.1) same c
  tick_all-Covers (i ∷ ids) now agents agents' t t' runs c =
      let (a, found, runs') = >>=-eq-ok (or_key_error (get i agents)) _ runs in
      let ((out, b), ticked, runs'') = >>=-eq-ok (tick a) _ runs' in
      tick_all-Covers ids now (set i b agents) agents' (send_all out now t) t' runs''
        (tick-Covers i now agents a b out t (or_key_error-inv _ a found) ticked c)

  pub due-Covers :
      (now : ℕ) (agents agents' : Dict AuctionAgent) (t : Transport S)
      → deliver_all (deliver_due now t).0 agents ≡ ok agents'
      → Covers agents t
      → Covers agents' (deliver_due now t).1
  unfolding deliver_due
  due-Covers now agents agents' t delivered c =
      let (due, rest) = pop_due-AllQueued (λ m. Among m c.sent) now t.queue c.queued in
      record {
        sent = c.sent;
        reach = deliver_all-Reach s0 c.sent _ agents agents' due delivered c.reach;
        queued = rest;
      }

  pub round_loop-Covers :
      (fuel now now' : ℕ) (agents agents' : Dict AuctionAgent) (t t' : Transport S)
      → round_loop fuel now (agents, t) ≡ ok (now', agents', t')
      → Covers agents t
      → Covers agents' t'
  unfolding round_loop
  round_loop-Covers zero now now' agents agents' t t' runs c = absurd (cc runs)
  round_loop-Covers (suc fuel) now now' agents agents' t t' runs c =
      let (agents1, delivered, runs') =
        >>=-eq-ok (deliver_all (deliver_due now t).0 agents) _ runs in
      let ((agents2, t2), ticked, runs'') =
        >>=-eq-ok (tick_all (keys agents1) now (agents1, (deliver_due now t).1)) _ runs' in
      let c2 =
        tick_all-Covers (keys agents1) now agents1 agents2 _ t2 ticked
          (due-Covers now agents agents1 t delivered c) in
      elim (Bool-cases (idle t2 && all_terminated agents2)) [
        | inl done ↦
            let same : (now, agents2, t2) ≡ (now', agents', t') = cc (rw done at runs'') in
            subst (λ (x : ℕ × Dict AuctionAgent × Transport S). Covers x.1 x.2) same c2
        | inr running ↦
            round_loop-Covers fuel (now + 1) now' agents2 agents' t2 t' (rw running at runs'') c2
      ]
