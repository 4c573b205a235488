-- ===== src/Engine/Start.antt =====
-- `AuctionAgent.__init__`: a new agent is sound, and its table holds initial entries only.
use distributed_mobile_robot.Base.{
  ℤ, pos, ltb_ℤ, ◌≤ℤ◌, ◌<ℤ◌, ◌≡◌, refl, ◌∙◌, ap, subst, ◌⊎◌, inl, inr, List, [], ◌∷◌, none, some,
  ℤ-cases, true, false, ok, arith,
}
use distributed_mobile_robot.Base.Dict.{
  Dict, get, set, get-set_self, get-set_ne, keys, AllItems, Item, Item-get, Item-set,
}
use distributed_mobile_robot.Types.{AgentId, TaskId, PriceEntry, RoundConfig, initial, no_bidder}
use distributed_mobile_robot.Prices.{price_table, initial_entries}
use distributed_mobile_robot.Engine.{AuctionAgent, auction_agent}
use distributed_mobile_robot.Engine.Invariant.{IsSound}

abbrev HasEntry : Dict PriceEntry → TaskId → Type 0
HasEntry d k = (e : PriceEntry) × (get k d ≡ some e)

set-HasEntry : (d : Dict PriceEntry) (t k : TaskId) → HasEntry d k → HasEntry (set t initial d) k
set-HasEntry d t k (e, held) = elim (ℤ-cases t k) [
  | inl same ↦ (initial, rw (← same) (get-set_self t initial d))
  | inr other ↦ (e, rw (get-set_ne t k initial d other) held)
]

initial_entries-HasEntry :
    (ts : List TaskId) (d : Dict PriceEntry) (k : TaskId)
    → HasEntry d k
    → HasEntry (initial_entries d ts) k
unfolding initial_entries
initial_entries-HasEntry [] d k h = h
initial_entries-HasEntry (t ∷ ts) d k h =
    initial_entries-HasEntry ts (set t initial d) k (set-HasEntry d t k h)

initial_entries-Item :
    (ts : List TaskId) (d : Dict PriceEntry) (k : TaskId) (r : PriceEntry)
    → Item k r (initial_entries d ts)
    → Item k r d ⊎ (initial ≡ r)
unfolding initial_entries
initial_entries-Item [] d k r item = inl item
initial_entries-Item (t ∷ ts) d k r item =
    elim (initial_entries-Item ts (set t initial d) k r item) [
      | inl old ↦ elim (Item-set t initial k r d old) [
        | inl new ↦ inr new.1
        | inr older ↦ inl older
      ]
      | inr new ↦ inr new
    ]

all_priced :
    (benefits : Dict ℤ) (d : Dict PriceEntry)
    → AllItems (λ k b. HasEntry (initial_entries d (keys benefits)) k) benefits
unfolding initial_entries
all_priced [] d = tt
all_priced ((k, b) ∷ benefits) d = (
  initial_entries-HasEntry (keys benefits) (set k initial d) k (initial, get-set_self k initial d),
  all_priced benefits (set k initial d),
)

-- What holds of a new agent.
pub record Started (i : AgentId) (config : RoundConfig) (a : AuctionAgent) : Type 0 where
  pub id : a.id ≡ i
  pub nonneg : pos 0 ≤ℤ i
  pub sound : IsSound a
  pub entries : (k : TaskId) (r : PriceEntry) → Item k r a.prices.entries → initial ≡ r

new_agent : AgentId → Dict ℤ → RoundConfig → AuctionAgent
new_agent i benefits config = record {
  id = i;
  config = config;
  benefits = benefits;
  prices = price_table (keys benefits);
  assignment = none;
  quiescent_ticks = 0;
  dirty = true;
}

new_agent-Started :
    (i : AgentId) (k : ℤ) (b : ℤ) (benefits : Dict ℤ) (config : RoundConfig)
    → pos 0 <ℤ config.epsilon
    → pos 0 ≤ℤ i
    → Started i config (new_agent i ((k, b) ∷ benefits) config)
unfolding new_agent price_table
new_agent-Started i k b benefits config pos_eps nonneg = record {
  id = refl;
  nonneg = nonneg;
  sound = record {
    epsilon_pos = pos_eps;
    some_task = λ e. cc;
    priced = all_priced ((k, b) ∷ benefits) [];
    assigned = λ task e. absurd (ground arith);
    owns = λ task e held mine. absurd (unowned task e held mine);
    near = λ task e held mine. absurd (unowned task e held mine);
  };
  entries = fresh;
}
  where
    fresh :
        (j : TaskId) (r : PriceEntry)
        → Item j r (initial_entries [] (keys ((k, b) ∷ benefits)))
        → initial ≡ r
    fresh j r item = elim (initial_entries-Item (keys ((k, b) ∷ benefits)) [] j r item) [
      | inl none_before ↦ absurd none_before
      | inr new ↦ new
    ]

    unowned :
        (j : TaskId) (r : PriceEntry)
        → get j (initial_entries [] (keys ((k, b) ∷ benefits))) ≡ some r
        → r.bidder ≡ i
        → ⊥
    unowned j r held mine =
        let sentinel : no_bidder ≡ i =
          ap (λ (x : PriceEntry). x.bidder) (fresh j r (Item-get j r _ held)) ∙ mine in
        ground (arith, sentinel)

auction_agent-new :
    (i : AgentId) (k : ℤ) (b : ℤ) (benefits : Dict ℤ) (config : RoundConfig)
    → pos 0 ≤ℤ i
    → auction_agent i ((k, b) ∷ benefits) config ≡ ok (new_agent i ((k, b) ∷ benefits) config)
unfolding auction_agent new_agent
auction_agent-new i k b benefits config le =
    let accepted : ltb_ℤ i (pos 0) ≡ false = ground arith in rw accepted

-- If the constructor returns an agent, and epsilon is positive, then the agent has the given id,
-- which is not negative, satisfies the invariant, and its table holds initial entries only.
pub auction_agent_lem :
    (i : AgentId) (benefits : Dict ℤ) (config : RoundConfig) (a : AuctionAgent)
    → pos 0 <ℤ config.epsilon
    → auction_agent i benefits config ≡ ok a
    → Started i config a
unfolding auction_agent
auction_agent_lem i [] config a pos_eps made = absurd (ground arith)
auction_agent_lem i ((k, b) ∷ benefits) config a pos_eps made =
    let nonneg : pos 0 ≤ℤ i = ground arith in
    subst (Started i config) (made_new nonneg)
      (new_agent-Started i k b benefits config pos_eps nonneg)
  where
    made_new : pos 0 ≤ℤ i → new_agent i ((k, b) ∷ benefits) config ≡ a
    made_new le = cc (auction_agent-new i k b benefits config le)
