-- ===== src/Harness/Agents.antt =====
-- The agents of a round: one for each row, new, and the same to the round's end.
use distributed_mobile_robot.Base.{
  ℤ, pos, ltb_ℤ, ◌<ℤ◌, ◌==ℤ◌, Bool-cases, false, ◌≡◌, refl, ◌∙◌, ap, sym, subst, inl, inr, List, [],
  ◌∷◌, some, ok, >>=-eq-ok, ℤ-cases, ==ℤ_refl, arith,
}
use distributed_mobile_robot.Base.Dict.{Dict, keys, get, AllItems, IsDistinct}
use distributed_mobile_robot.Types.{AgentId, RoundConfig, PriceTableMessage}
use distributed_mobile_robot.Engine.{AuctionAgent, auction_agent}
use distributed_mobile_robot.Engine.Start.{auction_agent_lem}
use distributed_mobile_robot.Network.{Network}
use distributed_mobile_robot.Network.Start.{AllStarted}
use distributed_mobile_robot.Harness.{make_agents}

-- Where an agent comes from: its row.
pub record Made (benefits : Dict (Dict ℤ)) (config : RoundConfig) (i : AgentId) (a : AuctionAgent)
    : Type 0 where
  pub row : Dict ℤ
  pub listed : get i benefits ≡ some row
  pub made : auction_agent i row config ≡ ok a

make_agents-Made :
    (benefits : Dict (Dict ℤ)) (config : RoundConfig) (agents : Dict AuctionAgent) (i : AgentId)
    (a : AuctionAgent)
    → make_agents benefits config ≡ ok agents
    → get i agents ≡ some a
    → Made benefits config i a
unfolding make_agents get
make_agents-Made [] config agents i a runs held =
    let same : [] ≡ agents = cc runs in absurd (cc (subst (λ d. get i d ≡ some a) (sym same) held))
make_agents-Made ((j, row) ∷ benefits) config agents i a runs held =
    let (b, made, runs') = >>=-eq-ok (auction_agent j row config) _ runs in
    let (rest, others, runs'') = >>=-eq-ok (make_agents benefits config) _ runs' in
    let same : (j, b) ∷ rest ≡ agents = cc runs'' in
    let held' = subst (λ d. get i d ≡ some a) (sym same) held in
    elim (ℤ-cases j i) [
      | inl own ↦
          let now : b ≡ a = cc (rw (own, ==ℤ_refl i) at held') in
          record {
            row = row;
            listed = rw (own, ==ℤ_refl i);
            made = subst (λ k. auction_agent k row config ≡ ok a) own (made ∙ ap ok now);
          }
      | inr other ↦
          let m = make_agents-Made benefits config rest i a others (rw other at held') in
          record { row = m.row; listed = rw other m.listed; made = m.made }
    ]

make_agents-keys :
    (Q : ℤ → Type 0) (benefits : Dict (Dict ℤ)) (config : RoundConfig) (agents : Dict AuctionAgent)
    → make_agents benefits config ≡ ok agents
    → AllItems (λ j _. Q j) benefits
    → AllItems (λ j _. Q j) agents
unfolding make_agents
make_agents-keys Q [] config agents runs h =
    let same : [] ≡ agents = cc runs in subst (AllItems (λ j _. Q j)) same tt
make_agents-keys Q ((j, row) ∷ benefits) config agents runs h =
    let (b, made, runs') = >>=-eq-ok (auction_agent j row config) _ runs in
    let (rest, others, runs'') = >>=-eq-ok (make_agents benefits config) _ runs' in
    let same : (j, b) ∷ rest ≡ agents = cc runs'' in
    subst (AllItems (λ j _. Q j)) same (h.0, make_agents-keys Q benefits config rest others h.1)

pub make_agents-IsDistinct :
    (benefits : Dict (Dict ℤ)) (config : RoundConfig) (agents : Dict AuctionAgent)
    → make_agents benefits config ≡ ok agents
    → IsDistinct benefits
    → IsDistinct agents
unfolding make_agents
make_agents-IsDistinct [] config agents runs h =
    let same : [] ≡ agents = cc runs in subst IsDistinct same tt
make_agents-IsDistinct ((j, row) ∷ benefits) config agents runs h =
    let (b, made, runs') = >>=-eq-ok (auction_agent j row config) _ runs in
    let (rest, others, runs'') = >>=-eq-ok (make_agents benefits config) _ runs' in
    let same : (j, b) ∷ rest ≡ agents = cc runs'' in
    subst IsDistinct same (
      make_agents-keys (λ k. (j ==ℤ k) ≡ false) benefits config rest others h.0,
      make_agents-IsDistinct benefits config rest others h.1,
    )

pub make_agents-AllStarted :
    (benefits : Dict (Dict ℤ)) (config : RoundConfig) (agents : Dict AuctionAgent)
    → pos 0 <ℤ config.epsilon
    → make_agents benefits config ≡ ok agents
    → AllStarted config agents
make_agents-AllStarted benefits config agents pos_eps runs i a held =
    let m = make_agents-Made benefits config agents i a runs held in
    auction_agent_lem i m.row config a pos_eps m.made

same_fields : (a b : AuctionAgent) → ok a ≡ ok b → (b.benefits ≡ a.benefits) × (b.config ≡ a.config)
same_fields a b h =
    let same : a ≡ b = cc h in
    subst (λ (x : AuctionAgent). (x.benefits ≡ a.benefits) × (x.config ≡ a.config)) same
      (refl, refl)

auction_agent-fields :
    (i : AgentId) (row : Dict ℤ) (config : RoundConfig) (a : AuctionAgent)
    → auction_agent i row config ≡ ok a
    → (a.benefits ≡ row) × (a.config ≡ config)
unfolding auction_agent
auction_agent-fields i [] config a made = absurd (ground arith)
auction_agent-fields i ((k, b) ∷ row) config a made = elim (Bool-cases (ltb_ℤ i (pos 0))) [
  | inl negative ↦ absurd (cc (rw negative at made))
  | inr accepted ↦ same_fields _ a (rw accepted at made)
]

-- The agent of a network with the given row and config.
unfoldable pub Has : Dict (Dict ℤ) → RoundConfig → Network → Type 0
Has benefits config s =
    (i : AgentId) (a : AuctionAgent)
    → get i s.agents ≡ some a
    → (get i benefits ≡ some a.benefits) × (a.config ≡ config)

pub make_agents-Has :
    (benefits : Dict (Dict ℤ)) (config : RoundConfig) (agents : Dict AuctionAgent)
    (sent : List PriceTableMessage)
    → make_agents benefits config ≡ ok agents
    → Has benefits config (record { agents = agents; sent = sent })
unfolding Has
make_agents-Has benefits config agents sent runs i a held =
    let m = make_agents-Made benefits config agents i a runs held in
    let (same, same') = auction_agent-fields i m.row config a m.made in
    (m.listed ∙ ap some (sym same), same')

abbrev pub IsKnown : AgentId → Dict AuctionAgent → Type 0
IsKnown i agents = (a : AuctionAgent) × (get i agents ≡ some a)

pub make_agents-IsKnown :
    (benefits : Dict (Dict ℤ)) (config : RoundConfig) (agents : Dict AuctionAgent) (i : AgentId)
    (row : Dict ℤ)
    → make_agents benefits config ≡ ok agents
    → get i benefits ≡ some row
    → IsKnown i agents
unfolding make_agents get
make_agents-IsKnown [] config agents i row runs held = cc
make_agents-IsKnown ((j, row') ∷ benefits) config agents i row runs held =
    let (b, made, runs') = >>=-eq-ok (auction_agent j row' config) _ runs in
    let (rest, others, runs'') = >>=-eq-ok (make_agents benefits config) _ runs' in
    let same : (j, b) ∷ rest ≡ agents = cc runs'' in
    elim (ℤ-cases j i) [
      | inl own ↦ subst (IsKnown i) same (b, rw (own, ==ℤ_refl i))
      | inr other ↦
          let (a, known) =
            make_agents-IsKnown benefits config rest i row others (rw other at held) in
          subst (IsKnown i) same (a, rw other known)
    ]

pub make_agents-same_keys :
    (benefits : Dict (Dict ℤ)) (config : RoundConfig) (agents : Dict AuctionAgent)
    → make_agents benefits config ≡ ok agents
    → keys agents ≡ keys benefits
unfolding make_agents
make_agents-same_keys [] config agents runs = let same : [] ≡ agents = cc runs in rw (← same)
make_agents-same_keys ((j, row) ∷ benefits) config agents runs =
    let (b, made, runs') = >>=-eq-ok (auction_agent j row config) _ runs in
    let (rest, others, runs'') = >>=-eq-ok (make_agents benefits config) _ runs' in
    let same : (j, b) ∷ rest ≡ agents = cc runs'' in
    rw (← same) (ap (λ (ks : List ℤ). j ∷ ks) (make_agents-same_keys benefits config rest others))
