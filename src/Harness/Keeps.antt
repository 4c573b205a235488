-- ===== src/Harness/Keeps.antt =====
-- What every execution keeps: the agents, each with its row and its config.
use distributed_mobile_robot.Base.{
  ℤ, ◌≡◌, refl, ◌∙◌, ap, sym, subst, inl, inr, List, [], some, ℤ-cases,
}
use distributed_mobile_robot.Base.Dict.{
  Dict, get, set, get-set_self, get-set_ne, keys, set-keys, IsDistinct, IsDistinct-set,
}
use distributed_mobile_robot.Types.{AgentId, RoundConfig, PriceTableMessage}
use distributed_mobile_robot.Engine.{AuctionAgent, broadcast}
use distributed_mobile_robot.Engine.Tick.{tick_lem}
use distributed_mobile_robot.Engine.Receive.{handle_message_lem}
use distributed_mobile_robot.Network.{Network, Step, receives, ticks, update, Reach, here, next}
use distributed_mobile_robot.Network.Invariant.{IsValid}
use distributed_mobile_robot.Network.Steps.{Reach-IsValid, in_message-Unforged}
use distributed_mobile_robot.Harness.Agents.{Has, IsKnown}

update-Has :
    (benefits : Dict (Dict ℤ)) (config : RoundConfig) (s : Network) (i : AgentId)
    (a b : AuctionAgent) (out : List PriceTableMessage)
    → get i s.agents ≡ some a
    → b.benefits ≡ a.benefits
    → b.config ≡ a.config
    → Has benefits config s
    → Has benefits config (update s i b out)
unfolding Has
update-Has benefits config s i a b out held same same' h j c held' = elim (ℤ-cases i j) [
  | inl own ↦
      let now : b ≡ c =
        cc (subst (λ k. get k (set i b s.agents) ≡ some b) own (get-set_self i b s.agents)) in
      let (listed, kept) = h i a held in
      subst (λ (x : AuctionAgent). (get j benefits ≡ some x.benefits) × (x.config ≡ config)) now
        (
          subst (λ k. get k benefits ≡ some b.benefits) own (listed ∙ ap some (sym same)),
          same' ∙ kept,
        )
  | inr other ↦ h j c (sym (get-set_ne i j b s.agents other) ∙ held')
]

Step-Has :
    (benefits : Dict (Dict ℤ)) (config : RoundConfig) {s s' : Network}
    → Step s s'
    → IsValid s
    → Has benefits config s
    → Has benefits config s'
Step-Has benefits config {s} {s'} (receives i a b m held among runs result) v h =
    let (b', runs', r) =
      handle_message_lem a m (v.sound i a held) (in_message-Unforged s v i a m held among) in
    let same : b' ≡ b = cc runs' in
    subst (Has benefits config) (sym result) (
      subst (λ x. Has benefits config (update s i x [])) same
        (update-Has benefits config s i a b' [] held r.benefits r.config h))
Step-Has benefits config {s} {s'} (ticks i a b out held runs result) v h =
    let (b', runs', t) = tick_lem a (v.sound i a held) in
    let same : (broadcast b', b') ≡ (out, b) = cc runs' in
    subst (Has benefits config) (sym result) (
      subst
        (λ (x : List PriceTableMessage × AuctionAgent). Has benefits config (update s i x.1 x.0))
        same (update-Has benefits config s i a b' (broadcast b') held t.benefits t.config h))

pub Reach-Has :
    (benefits : Dict (Dict ℤ)) (config : RoundConfig) {s s' : Network}
    → IsValid s
    → Has benefits config s
    → Reach s s'
    → Has benefits config s'
Reach-Has benefits config v h here = h
Reach-Has benefits config v h (next r st) =
    Step-Has benefits config st (Reach-IsValid v r) (Reach-Has benefits config v h r)

Step-IsDistinct : {s s' : Network} → Step s s' → IsDistinct s.agents → IsDistinct s'.agents
Step-IsDistinct {s} {s'} (receives i a b m held among runs result) h =
    subst (λ (x : Network). IsDistinct x.agents) (sym result) (IsDistinct-set i b s.agents h)
Step-IsDistinct {s} {s'} (ticks i a b out held runs result) h =
    subst (λ (x : Network). IsDistinct x.agents) (sym result) (IsDistinct-set i b s.agents h)

pub Reach-IsDistinct : {s s' : Network} → IsDistinct s.agents → Reach s s' → IsDistinct s'.agents
Reach-IsDistinct h here = h
Reach-IsDistinct h (next r st) = Step-IsDistinct st (Reach-IsDistinct h r)

set-IsKnown :
    (i j : AgentId) (b : AuctionAgent) (agents : Dict AuctionAgent)
    → IsKnown i agents
    → IsKnown i (set j b agents)
set-IsKnown i j b agents (a, known) = elim (ℤ-cases j i) [
  | inl own ↦ (b, subst (λ k. get k (set j b agents) ≡ some b) own (get-set_self j b agents))
  | inr other ↦ (a, get-set_ne j i b agents other ∙ known)
]

pub Reach-IsKnown :
    (i : AgentId) {s s' : Network} → IsKnown i s.agents → Reach s s' → IsKnown i s'.agents
Reach-IsKnown i h here = h
Reach-IsKnown i h (next r (receives j a b m held among runs result)) =
    subst (λ (x : Network). IsKnown i x.agents) (sym result)
      (set-IsKnown i j b _ (Reach-IsKnown i h r))
Reach-IsKnown i h (next r (ticks j a b out held runs result)) =
    subst (λ (x : Network). IsKnown i x.agents) (sym result)
      (set-IsKnown i j b _ (Reach-IsKnown i h r))

pub Reach-keys : {s s' : Network} → Reach s s' → keys s'.agents ≡ keys s.agents
Reach-keys here = refl
Reach-keys (next r (receives i a b m held among runs result)) =
    ap (λ (x : Network). keys x.agents) result ∙ set-keys i a b _ held ∙ Reach-keys r
Reach-keys (next r (ticks i a b out held runs result)) =
    ap (λ (x : Network). keys x.agents) result ∙ set-keys i a b _ held ∙ Reach-keys r
