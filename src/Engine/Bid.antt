-- ===== src/Engine/Bid.antt =====
-- `_place_bid`: no assertion fails, the bid claims a best task, and leaves the agent within epsilon
-- of its best net value.
use distributed_mobile_robot.Base.{
  ℤ, pos, ◌≤ℤ◌, ◌<ℤ◌, ◌+ℤ◌, ◌-ℤ◌, int_laws, true, ◌≡◌, refl, ◌∙◌, sym, subst, ◌≢◌, inl, inr, [],
  Option, none, some, ok, All-mono, ℤ-cases, ==ℤ_refl, ltb_ℤ, le→leb_ℤ, lt→ltb_ℤ, ℤ-le_of_eq,
  ℤ-ge_of_eq, arith,
}
use distributed_mobile_robot.Base.Dict.{Dict, get, set, AllItems, Item, AllItems-Item}
use distributed_mobile_robot.Types.{TaskId, AgentId, PriceEntry}
use distributed_mobile_robot.Prices.{PriceTable, bid}
use distributed_mobile_robot.Engine.{AuctionAgent, scan_start, increment, place_bid}
use distributed_mobile_robot.Engine.Bidding.{ExtLe, Bounded, Chosen}
use distributed_mobile_robot.Engine.Nets.{
  price_at, price_at-get, price_at-set, IsPriced, nets, scan-eq-consider_all, Item-nets,
  AllItems-nets, nets-Chosen,
}

-- Epsilon-complementary slackness: no task of the row beats `task`'s net value by more than epsilon.
pub record NearBest (benefits : Dict ℤ) (t : PriceTable) (epsilon : ℤ) (task : TaskId)
    : Type 0 where
  pub benefit : ℤ
  pub listed : Item task benefit benefits
  pub near : AllItems (λ j c. c -ℤ price_at t j ≤ℤ benefit -ℤ price_at t task +ℤ epsilon) benefits

pub NearBest-grows :
    (benefits : Dict ℤ) (t u : PriceTable) (epsilon : ℤ) (task : TaskId)
    → ((j : TaskId) → price_at t j ≤ℤ price_at u j)
    → price_at t task ≡ price_at u task
    → NearBest benefits t epsilon task
    → NearBest benefits u epsilon task
NearBest-grows benefits t u epsilon task grows same n = record {
  benefit = n.benefit;
  listed = n.listed;
  near = rw (← same) (All-mono _ _ (λ item le. omega (int_laws, grows item.0, le)) benefits n.near);
}

-- The increment of the scan's outcome.
gamma : ℤ → ℤ → Option ℤ → ℤ
gamma epsilon v none = epsilon
gamma epsilon v (some w) = v -ℤ w +ℤ epsilon

increment-scanned :
    (epsilon v : ℤ) (w : Option ℤ) → increment epsilon (some v) w ≡ ok (gamma epsilon v w)
unfolding increment gamma
increment-scanned epsilon v none = refl
increment-scanned epsilon v (some w) = refl

le-gamma : (epsilon v : ℤ) (w : Option ℤ) → ExtLe w (some v) → epsilon ≤ℤ gamma epsilon v w
unfolding gamma
le-gamma epsilon v none le = omega arith
le-gamma epsilon v (some w) le = omega int_laws

gamma-beaten :
    (epsilon v x : ℤ) (w : Option ℤ) → ExtLe (some x) w → x +ℤ gamma epsilon v w ≤ℤ v +ℤ epsilon
unfolding gamma
gamma-beaten epsilon v x none le = absurd le
gamma-beaten epsilon v x (some w) le = omega int_laws

bid_lem :
    (t : PriceTable) (task : TaskId) (raise : ℤ) (agent : AgentId) (epsilon : ℤ) (e : PriceEntry)
    → pos 0 <ℤ epsilon
    → epsilon ≤ℤ raise
    → get task t.entries ≡ some e
    → bid t task raise agent epsilon
      ≡ ok (record {
        entries = set task (record { price = e.price +ℤ raise; bidder = agent }) t.entries;
      })
unfolding bid
bid_lem t task raise agent epsilon e pos_eps le held =
    let higher : ltb_ℤ e.price (e.price +ℤ raise) ≡ true =
      lt→ltb_ℤ e.price (e.price +ℤ raise) (omega int_laws) in
    rw (le→leb_ℤ _ _ le, held) (rw higher)

module _ (t : PriceTable) (epsilon : ℤ) (best : TaskId) (value : ℤ) (second : Option ℤ) (b : ℤ)
    (e : PriceEntry) (agent : AgentId) (pos_eps : pos 0 <ℤ epsilon)
    (ordered : ExtLe second (some value)) (held : get best t.entries ≡ some e)
    (at : b -ℤ price_at t best ≡ value) where
  abbrev claim : PriceEntry
  claim = record { price = e.price +ℤ gamma epsilon value second; bidder = agent }

  abbrev raised : PriceTable
  raised = record { entries = set best claim t.entries }

  price_at-best : price_at raised best ≡ e.price +ℤ gamma epsilon value second
  price_at-best = rw (price_at-set t best best claim, ==ℤ_refl best)

  price_at-raised : (j : TaskId) → price_at t j ≤ℤ price_at raised j
  price_at-raised j = elim (ℤ-cases best j) [
    | inl same ↦
        subst (λ k. price_at t k ≤ℤ price_at raised k) same
          (omega (
            int_laws,
            ℤ-ge_of_eq _ _ price_at-best,
            ℤ-le_of_eq _ _ (price_at-get t best e held),
            le-gamma epsilon value second ordered,
          ))
    | inr other ↦ rw (price_at-set t best j claim, other) (omega arith)
  ]

  near_step :
      (j : TaskId) (c : ℤ)
      → Bounded best value second j (c -ℤ price_at t j)
      → c -ℤ price_at raised j ≤ℤ b -ℤ price_at raised best +ℤ epsilon
  near_step j c (inl (same, at')) =
      subst (λ k. c -ℤ price_at raised k ≤ℤ b -ℤ price_at raised best +ℤ epsilon) (sym same)
        (subst
          (λ k.
            c -ℤ price_at t k ≡ value
            → c -ℤ price_at raised best ≤ℤ b -ℤ price_at raised best +ℤ epsilon)
          (sym same) (λ at''. omega (int_laws, ℤ-le_of_eq _ _ (at'' ∙ sym at))) at')
  near_step j c (inr beaten) = omega (
    int_laws,
    price_at-raised j,
    ℤ-le_of_eq _ _ price_at-best,
    ℤ-ge_of_eq _ _ at,
    ℤ-ge_of_eq _ _ (price_at-get t best e held),
    gamma-beaten epsilon value (c -ℤ price_at t j) second beaten,
  )

-- What one bid does: it raises the price of a task by at least epsilon, claims it, and leaves the
-- bidder near its best.
pub record Placed (a a' : AuctionAgent) : Type 0 where
  pub task : TaskId
  pub before : PriceEntry
  pub raise : ℤ
  pub held : get task a.prices.entries ≡ some before
  pub raises : a.config.epsilon ≤ℤ raise
  pub result : a' ≡ record a {
    prices = record {
      entries = set task (record { price = before.price +ℤ raise; bidder = a.id }) a.prices.entries;
    };
    assignment = some task;
  }
  pub near : NearBest a.benefits a'.prices a.config.epsilon task

Chosen-Placed :
    (a : AuctionAgent)
    → pos 0 <ℤ a.config.epsilon
    → AllItems (IsPriced a.prices) a.benefits
    → Chosen (nets a.prices a.benefits)
    → (a' : AuctionAgent) × (place_bid a ≡ ok a') × Placed a a'
unfolding place_bid
Chosen-Placed a pos_eps priced c =
    let (b, listed, at) = Item-nets a.prices c.task c.value a.benefits c.source in
    let (e, held) = AllItems-Item (IsPriced a.prices) c.task b a.benefits priced listed in
    let raise = gamma a.config.epsilon c.value c.second in
    let le = le-gamma a.config.epsilon c.value c.second c.ordered in
    (
      _,
      rw (
        scan-eq-consider_all a.prices a.benefits scan_start priced,
        c.result,
        increment-scanned a.config.epsilon c.value c.second,
        bid_lem a.prices c.task raise a.id a.config.epsilon e pos_eps le held,
      ),
      record {
        task = c.task;
        before = e;
        raise = raise;
        held = held;
        raises = le;
        result = refl;
        near = record {
          benefit = b;
          listed = listed;
          near =
              All-mono _ _
                (λ item bound.
                  near_step a.prices a.config.epsilon c.task c.value c.second b e a.id pos_eps
                    c.ordered held at item.0 item.1 bound)
                a.benefits
                (AllItems-nets (Bounded c.task c.value c.second) a.prices a.benefits c.bounds);
        };
      },
    )

-- With epsilon positive and a nonempty row of tasks that all have prices, _place_bid raises no
-- exception: it raises the price of one task by at least epsilon, claims it and is assigned to it,
-- and at the new prices no task of the row has a net value more than epsilon above that task's.
pub place_bid_lem :
    (a : AuctionAgent)
    → pos 0 <ℤ a.config.epsilon
    → a.benefits ≢ []
    → AllItems (IsPriced a.prices) a.benefits
    → (a' : AuctionAgent) × (place_bid a ≡ ok a') × Placed a a'
place_bid_lem a pos_eps some_task priced =
    Chosen-Placed a pos_eps priced (nets-Chosen a.prices a.benefits some_task)
