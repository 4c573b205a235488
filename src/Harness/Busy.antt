-- ===== src/Harness/Busy.antt =====
-- When the loop of `run_round` ends, every agent has a task: it has ticked in the last pass.
use distributed_mobile_robot.Base.{
  ℕ, zero, suc, ◌+◌, ◌&&◌, ◌≡◌, sym, subst, ◌⊎◌, inl, inr, List, [], ◌∷◌, some, ok, In, >>=-eq-ok,
  Bool-cases, ℤ-cases, ==ℤ_iff, arith, ◌∙◌,
}
use distributed_mobile_robot.Base.Dict.{
  keys-In, Dict, get, set, keys, or_key_error, or_key_error-inv, get-set_self, get-set_ne,
}
use distributed_mobile_robot.Types.{AgentId, TaskId, PriceTableMessage}
use distributed_mobile_robot.Engine.{AuctionAgent, tick, broadcast}
use distributed_mobile_robot.Engine.Tick.{tick_lem}
use distributed_mobile_robot.Network.{Network}
use distributed_mobile_robot.Network.Invariant.{IsValid}
use distributed_mobile_robot.Network.Steps.{Reach-IsValid}
use distributed_mobile_robot.Transport.{deliver_due, idle}
use distributed_mobile_robot.Harness.{
  Transport, deliver_all, tick_all, send_all, round_loop, all_terminated,
}
use distributed_mobile_robot.Harness.Run.{Covers, tick-Covers, tick_all-Covers, due-Covers}

abbrev pub Busy : AuctionAgent → Type 0
Busy a = (task : TaskId) × (a.assignment ≡ some task)

tick-Busy :
    (a b : AuctionAgent) (out : List PriceTableMessage) (s : Network) (v : IsValid s) (i : AgentId)
    → get i s.agents ≡ some a
    → tick a ≡ ok (out, b)
    → Busy b
tick-Busy a b out s v i held runs =
    let (c, runs', t) = tick_lem a (v.sound i a held) in
    let same : (broadcast c, c) ≡ (out, b) = cc runs' in
    let h = t.holds in
    subst (λ (x : List PriceTableMessage × AuctionAgent). Busy x.1) same (h.task, h.assigned)

module _ {S : Type 0} (s0 : Network) (v0 : IsValid s0) where
  tick_all-Busy :
      (ids : List AgentId) (now : ℕ) (agents agents' : Dict AuctionAgent) (t t' : Transport S)
      → tick_all ids now (agents, t) ≡ ok (agents', t')
      → Covers s0 agents t
      → ((i : AgentId) (a : AuctionAgent) → get i agents ≡ some a → In i ids ⊎ Busy a)
      → (i : AgentId) (a : AuctionAgent) → get i agents' ≡ some a
      → Busy a
  unfolding tick_all
  tick_all-Busy [] now agents agents' t t' runs c left i a held =
      let same : (agents, t) ≡ (agents', t') = cc runs in
      let held' =
        subst (λ (x : Dict AuctionAgent × Transport S). get i x.0 ≡ some a) (sym same) held in
      elim (left i a held') [ inl none_left ↦ absurd none_left | inr busy ↦ busy ]
  tick_all-Busy (j ∷ ids) now agents agents' t t' runs c left i a held =
      let (b, found, runs') = >>=-eq-ok (or_key_error (get j agents)) _ runs in
      let ((out, b'), ticked, runs'') = >>=-eq-ok (tick b) _ runs' in
      let known = or_key_error-inv _ b found in
      let busy = tick-Busy b b' out _ (Reach-IsValid v0 c.reach) j known ticked in
      tick_all-Busy ids now (set j b' agents) agents' (send_all out now t) t' runs''
        (tick-Covers s0 j now agents b b' out t known ticked c)
        (λ k d held'. elim (ℤ-cases j k) [
          | inl same ↦
              let now_d : b' ≡ d =
                cc (
                  subst (λ x. get x (set j b' agents) ≡ some b') same (get-set_self j b' agents)) in
              inr (subst Busy now_d busy)
          | inr other ↦ elim (left k d (sym (get-set_ne j k b' agents other) ∙ held')) [
            | inl (inl same) ↦ absurd (ground (arith, same, ==ℤ_iff j k))
            | inl (inr listed) ↦ inl listed
            | inr old ↦ inr old
          ]
        ])
        i a held

  pub round_loop-Busy :
      (fuel now now' : ℕ) (agents agents' : Dict AuctionAgent) (t t' : Transport S)
      → round_loop fuel now (agents, t) ≡ ok (now', agents', t')
      → Covers s0 agents t
      → (i : AgentId) (a : AuctionAgent) → get i agents' ≡ some a
      → Busy a
  unfolding round_loop
  round_loop-Busy zero now now' agents agents' t t' runs c i a held = absurd (cc runs)
  round_loop-Busy (suc fuel) now now' agents agents' t t' runs c i a held =
      let (agents1, delivered, runs') =
        >>=-eq-ok (deliver_all (deliver_due now t).0 agents) _ runs in
      let ((agents2, t2), ticked, runs'') =
        >>=-eq-ok (tick_all (keys agents1) now (agents1, (deliver_due now t).1)) _ runs' in
      let c1 = due-Covers s0 now agents agents1 t delivered c in
      elim (Bool-cases (idle t2 && all_terminated agents2)) [
        | inl done ↦
            let same : (now, agents2, t2) ≡ (now', agents', t') = cc (rw done at runs'') in
            tick_all-Busy (keys agents1) now agents1 agents2 _ t2 ticked c1
              (λ j b known. inl (keys-In j b agents1 known)) i a
              (subst (λ (x : ℕ × Dict AuctionAgent × Transport S). get i x.1 ≡ some a) (sym same)
                held)
        | inr running ↦
            round_loop-Busy fuel (now + 1) now' agents2 agents' t2 t' (rw running at runs'')
              (tick_all-Covers s0 (keys agents1) now agents1 agents2 _ t2 ticked c1) i a held
      ]
