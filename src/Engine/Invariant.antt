-- ===== src/Engine/Invariant.antt =====
-- The invariant of one agent (`AuctionAgent` of engine.py), and what a bid leaves of it.
use distributed_mobile_robot.Base.{
  ℤ, pos, ◌<ℤ◌, ◌+ℤ◌, ==ℤ_iff, ==ℤ_refl, ℤ-cases, true, false, ◌≡◌, ◌≢◌, refl, ap, subst, ◌⊎◌, inl,
  inr, [], some, Option-cases, ok, All-mono, arith,
}
use distributed_mobile_robot.Base.Dict.{get, set, get-set, AllItems}
use distributed_mobile_robot.Types.{TaskId, PriceEntry}
use distributed_mobile_robot.Prices.{PriceTable, bidder}
use distributed_mobile_robot.Engine.{AuctionAgent, outbid}
use distributed_mobile_robot.Engine.Bid.{NearBest}
use distributed_mobile_robot.Engine.Nets.{IsPriced}

-- Whoever holds a slot in its own table is assigned to that task, which is near its best.
pub record IsSound (a : AuctionAgent) : Type 0 where
  pub epsilon_pos : pos 0 <ℤ a.config.epsilon
  pub some_task : a.benefits ≢ []
  pub priced : AllItems (IsPriced a.prices) a.benefits
  pub assigned : (task : TaskId) → a.assignment ≡ some task → IsPriced a.prices task (pos 0)
  pub owns :
      (task : TaskId) (e : PriceEntry)
      → get task a.prices.entries ≡ some e
      → e.bidder ≡ a.id
      → a.assignment ≡ some task
  pub near :
      (task : TaskId) (e : PriceEntry)
      → get task a.prices.entries ≡ some e
      → e.bidder ≡ a.id
      → NearBest a.benefits a.prices a.config.epsilon task

-- The agent holds the slot of its own task.
pub record Holds (a : AuctionAgent) : Type 0 where
  pub task : TaskId
  pub entry : PriceEntry
  pub assigned : a.assignment ≡ some task
  pub held : get task a.prices.entries ≡ some entry
  pub mine : entry.bidder ≡ a.id

-- `_outbid` is False exactly where the agent holds a slot.
pub outbid_lem :
    (a : AuctionAgent)
    → IsSound a
    → ((outbid a ≡ ok false) × Holds a)
      ⊎ ((outbid a ≡ ok true)
          × ((task : TaskId) (e : PriceEntry)
              → get task a.prices.entries ≡ some e
              → e.bidder ≢ a.id))
unfolding outbid bidder
outbid_lem a s = elim (Option-cases a.assignment) [
  | inl idle ↦ inr (rw (idle, outbid), λ task e held mine. ground (arith, s.owns task e held mine))
  | inr (task, busy) ↦
      let (e, held) = s.assigned task busy in
      elim (ℤ-cases e.bidder a.id) [
        | inl mine ↦ inl (
          rw (busy, outbid, held, mine, ==ℤ_refl a.id),
          record { task = task; entry = e; assigned = busy; held = held; mine = mine },
        )
        | inr lost ↦ inr (
          rw (busy, outbid, held, lost),
          λ j f held' mine.
              let mine' : e.bidder ≡ a.id = cc (s.owns j f held' mine) in
              ground (arith, mine', ==ℤ_iff e.bidder a.id),
        )
      ]
]

IsPriced-set :
    (t : PriceTable) (k task : TaskId) (e : PriceEntry) (b : ℤ)
    → IsPriced t task b
    → IsPriced (record { entries = set k e t.entries }) task b
IsPriced-set t k task e b (f, held) = elim (ℤ-cases k task) [
  | inl same ↦ (e, rw (get-set k task e t.entries, same, ==ℤ_refl task))
  | inr other ↦ (f, rw (get-set k task e t.entries, other, held))
]

abbrev pub bid_result : AuctionAgent → TaskId → PriceEntry → ℤ → AuctionAgent
bid_result a task before raise = record a {
  prices = record {
    entries = set task (record { price = before.price +ℤ raise; bidder = a.id }) a.prices.entries;
  };
  assignment = some task;
}

module _ (a : AuctionAgent) (s : IsSound a) (task : TaskId) (before : PriceEntry) (raise : ℤ)
    (held : get task a.prices.entries ≡ some before)
    (outbid : (j : TaskId) (e : PriceEntry) → get j a.prices.entries ≡ some e → e.bidder ≢ a.id)
    (near : NearBest a.benefits (bid_result a task before raise).prices a.config.epsilon task) where
  -- After the bid the agent holds only the slot that it has just claimed.
  bid_owns :
      (j : TaskId) (e : PriceEntry)
      → get j (bid_result a task before raise).prices.entries ≡ some e
      → e.bidder ≡ a.id
      → task ≡ j
  bid_owns j e held' mine = elim (ℤ-cases task j) [
    | inl same ↦ same
    | inr other ↦ absurd (outbid j e (rw (get-set task j _ a.prices.entries, other) at held') mine)
  ]

  pub bid-IsSound : IsSound (bid_result a task before raise)
  bid-IsSound = record {
    epsilon_pos = s.epsilon_pos;
    some_task = s.some_task;
    priced =
        All-mono _ _ (λ item p. IsPriced-set a.prices task item.0 _ item.1 p) a.benefits s.priced;
    assigned = λ j e. IsPriced-set a.prices task j _ (pos 0) (before, cc);
    owns = λ j e held' mine. ap some (bid_owns j e held' mine);
    near = λ j e held' mine.
        subst (NearBest a.benefits _ a.config.epsilon) (bid_owns j e held' mine) near;
  }

  pub bid-Holds : Holds (bid_result a task before raise)
  bid-Holds = record {
    task = task;
    entry = record { price = before.price +ℤ raise; bidder = a.id };
    assigned = refl;
    held = rw (get-set task task _ a.prices.entries, ==ℤ_refl task);
    mine = refl;
  }
