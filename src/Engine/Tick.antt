-- ===== src/Engine/Tick.antt =====
-- `tick`: it never raises an exception, keeps the invariant, and ends with the agent holding a slot.
use distributed_mobile_robot.Base.{
  ℕ, ◌+◌, ℤ, ◌≤ℤ◌, Bool, true, false, ◌≡◌, ◌≢◌, refl, sym, subst, ◌⊎◌, inl, inr, some, Bool-cases,
  ok,
}
use distributed_mobile_robot.Base.Dict.{get}
use distributed_mobile_robot.Types.{TaskId, PriceEntry}
use distributed_mobile_robot.Engine.{AuctionAgent, tick_bid, tick_count, tick, broadcast}
use distributed_mobile_robot.Engine.Bid.{place_bid_lem, NearBest}
use distributed_mobile_robot.Engine.Invariant.{
  IsSound, Holds, outbid_lem, bid_result, bid-IsSound, bid-Holds,
}

-- A bid of `c` on a task whose entry in the table of `a` is `before`, made by an agent that held
-- no slot.
pub record Bidding (a c : AuctionAgent) : Type 0 where
  pub task : TaskId
  pub before : PriceEntry
  pub raise : ℤ
  pub held : get task a.prices.entries ≡ some before
  pub raises : a.config.epsilon ≤ℤ raise
  pub outbid_everywhere :
      (j : TaskId) (e : PriceEntry) → get j a.prices.entries ≡ some e → e.bidder ≢ a.id
  pub prices : c.prices ≡ (bid_result a task before raise).prices
  pub assignment : c.assignment ≡ some task

-- What a tick keeps, and how it changes the table.
pub record Ticked (a c : AuctionAgent) : Type 0 where
  pub id : c.id ≡ a.id
  pub config : c.config ≡ a.config
  pub benefits : c.benefits ≡ a.benefits
  pub sound : IsSound c
  pub holds : Holds c
  pub moves : ((c.prices ≡ a.prices) × (c.assignment ≡ a.assignment)) ⊎ Bidding a c

-- None of this reads the quiescence counter or the dirty flag.
module _ (q : ℕ) (d : Bool) where
  abbrev recount : AuctionAgent → AuctionAgent
  recount b = record b { quiescent_ticks = q; dirty = d }

  pub IsSound-recount : (b : AuctionAgent) → IsSound b → IsSound (recount b)
  IsSound-recount b s = record {
    epsilon_pos = s.epsilon_pos;
    some_task = s.some_task;
    priced = s.priced;
    assigned = s.assigned;
    owns = s.owns;
    near = s.near;
  }

  Holds-recount : (b : AuctionAgent) → Holds b → Holds (recount b)
  Holds-recount b h = record {
    task = h.task;
    entry = h.entry;
    assigned = h.assigned;
    held = h.held;
    mine = h.mine;
  }

  Bidding-recount : (a b : AuctionAgent) → Bidding a b → Bidding a (recount b)
  Bidding-recount a b m = record {
    task = m.task;
    before = m.before;
    raise = m.raise;
    held = m.held;
    raises = m.raises;
    outbid_everywhere = m.outbid_everywhere;
    prices = m.prices;
    assignment = m.assignment;
  }

  Ticked-recount : (a b : AuctionAgent) → Ticked a b → Ticked a (recount b)
  Ticked-recount a b t = record {
    id = t.id;
    config = t.config;
    benefits = t.benefits;
    sound = IsSound-recount b t.sound;
    holds = Holds-recount b t.holds;
    moves = elim t.moves [ inl same ↦ inl same | inr m ↦ inr (Bidding-recount a b m) ];
  }

tick_count-Ticked : (a b : AuctionAgent) → Ticked a b → Ticked a (tick_count b)
unfolding tick_count
tick_count-Ticked a b t = elim (Bool-cases b.dirty) [
  | inl moved ↦ rw (moved, tick_count) (Ticked-recount 0 false a b t)
  | inr still ↦
      rw (still, tick_count)
        (subst (λ d. Ticked a (record b { quiescent_ticks = b.quiescent_ticks + 1; dirty = d }))
          still (Ticked-recount (b.quiescent_ticks + 1) b.dirty a b t))
]

tick_bid_lem :
    (a : AuctionAgent) → IsSound a → (b : AuctionAgent) × (tick_bid a ≡ ok b) × Ticked a b
unfolding tick_bid
tick_bid_lem a s = elim (outbid_lem a s) [
  | inl (keeps, h) ↦ (
    a,
    rw keeps,
    record {
      id = refl;
      config = refl;
      benefits = refl;
      sound = s;
      holds = h;
      moves = inl (refl, refl);
    },
  )
  | inr (must, lost) ↦
      let (a', runs, p) = place_bid_lem a s.epsilon_pos s.some_task s.priced in
      let near =
        subst (λ x. NearBest a.benefits x.prices a.config.epsilon p.task) p.result p.near in
      (
        record a' { dirty = true },
        rw (must, runs),
        subst (λ x. Ticked a (record x { dirty = true })) (sym p.result)
            (Ticked-recount a.quiescent_ticks true a (bid_result a p.task p.before p.raise)
              (record {
                id = refl;
                config = refl;
                benefits = refl;
                sound = bid-IsSound a s p.task p.before p.raise p.held lost near;
                holds = bid-Holds a s p.task p.before p.raise p.held lost near;
                moves = inr (record {
                  task = p.task;
                  before = p.before;
                  raise = p.raise;
                  held = p.held;
                  raises = p.raises;
                  outbid_everywhere = lost;
                  prices = refl;
                  assignment = refl;
                });
              })),
      )
]

-- A tick of an agent that satisfies the invariant raises no exception; it broadcasts the agent's
-- new table unless the agent has terminated; the id, the config and the benefits stay; the
-- invariant holds again and the agent holds the slot of its task; and either table and assignment
-- are unchanged, or the agent, which held no slot at all, bid at least epsilon on a task and was
-- assigned to it.
pub tick_lem :
    (a : AuctionAgent)
    → IsSound a
    → (c : AuctionAgent) × (tick a ≡ ok (broadcast c, c)) × Ticked a c
unfolding tick
tick_lem a s =
    let (b, runs, t) = tick_bid_lem a s in (tick_count b, rw runs, tick_count-Ticked a b t)
