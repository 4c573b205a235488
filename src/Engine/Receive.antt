-- ===== src/Engine/Receive.antt =====
-- `handle_message`: it never raises an exception, and keeps the invariant of an agent in whose name
-- no other agent bids.
use distributed_mobile_robot.Base.{
  ℤ, pos, ◌≤ℤ◌, ◌==ℤ◌, if◌then◌else◌, Bool, true, ◌≡◌, refl, ◌∙◌, sym, subst, ◌⊎◌, inl, inr, some,
  Option-cases, Bool-cases, ok, All-mono, arith,
}
use mathlib.Core.Option
use distributed_mobile_robot.Base.Dict.{Dict, get, Item}
use distributed_mobile_robot.Types.{TaskId, AgentId, PriceEntry, PriceTableMessage}
use distributed_mobile_robot.Prices.{PriceTable}
use distributed_mobile_robot.Prices.Order.{EntryLe, EntryLe-antisymm}
use distributed_mobile_robot.Prices.Merge.{
  absorb, absorb-ge, absorb_source, merge_lem, joins-held, joins-absent, joins-source,
}
use distributed_mobile_robot.Engine.{AuctionAgent, handle_message}
use distributed_mobile_robot.Engine.Bid.{NearBest-grows}
use distributed_mobile_robot.Engine.Nets.{IsPriced, price_at, price_at-get, price_at_absent}
use distributed_mobile_robot.Engine.Invariant.{IsSound}

-- No incoming entry in the name of `agent` stands above the agent's own entry for the task.
abbrev pub Unforged : AgentId → PriceTable → Dict PriceEntry → Type 0
Unforged agent t incoming =
    (task : TaskId) (f e : PriceEntry)
    → Item task f incoming
    → f.bidder ≡ agent
    → get task t.entries ≡ some e
    → EntryLe f e

module _ (agent : AgentId) (t t' : PriceTable) (incoming : Dict PriceEntry)
    (unforged : Unforged agent t incoming)
    (joins : (k : TaskId)
      → get k t'.entries ≡ Option.map (absorb k incoming) (get k t.entries)) where
  -- A slot that the agent holds after a merge is one that it held before, at the same price.
  pub own_entry :
      (task : TaskId) (r : PriceEntry)
      → get task t'.entries ≡ some r
      → r.bidder ≡ agent
      → get task t.entries ≡ some r
  own_entry task r held mine =
      let (e, held', from) = joins-source t t' incoming joins task r held in
      elim (absorb_source task incoming e) [
        | inl kept ↦ cc
        | inr item ↦
            let le : EntryLe r e =
              unforged task r e (subst (λ x. Item task x incoming) from item) mine held' in
            let ge : EntryLe e r = subst (EntryLe e) from (absorb-ge task incoming e) in
            cc (EntryLe-antisymm r e le ge)
      ]

  pub price_at-grows : (j : TaskId) → price_at t j ≤ℤ price_at t' j
  price_at-grows j = elim (Option-cases (get j t.entries)) [
    | inl absent ↦
        rw
          (
            price_at_absent t j absent,
            price_at_absent t' j (joins-absent t t' incoming joins j absent),
          )
          (omega arith)
    | inr (e, held) ↦
        rw (price_at-get t j e held, price_at-get t' j _ (joins-held t t' incoming joins j e held))
          (absorb-ge j incoming e).0
  ]

-- What a received message keeps, and how it changes the table.
pub record Received (a b : AuctionAgent) (incoming : Dict PriceEntry) : Type 0 where
  pub id : b.id ≡ a.id
  pub config : b.config ≡ a.config
  pub benefits : b.benefits ≡ a.benefits
  pub assignment : b.assignment ≡ a.assignment
  pub sound : IsSound b
  pub grows :
      (k : TaskId) (e : PriceEntry)
      → get k a.prices.entries ≡ some e
      → (r : PriceEntry) × (get k b.prices.entries ≡ some r) × EntryLe e r
  pub items :
      (k : TaskId) (r : PriceEntry)
      → Item k r b.prices.entries
      → Item k r a.prices.entries ⊎ Item k r incoming

merged-IsSound :
    (a : AuctionAgent) (t' : PriceTable) (dirty : Bool) (incoming : Dict PriceEntry)
    → IsSound a
    → Unforged a.id a.prices incoming
    → ((k : TaskId) → get k t'.entries ≡ Option.map (absorb k incoming) (get k a.prices.entries))
    → IsSound (record a { prices = t'; dirty = dirty })
merged-IsSound a t' dirty incoming s unforged joins = record {
  epsilon_pos = s.epsilon_pos;
  some_task = s.some_task;
  priced = All-mono _ _ (λ item p. still item.0 item.1 p) a.benefits s.priced;
  assigned = λ task e. still task (pos 0) (s.assigned task e);
  owns = λ task r held mine. s.owns task r (own task r held mine) mine;
  near = λ task r held mine.
      NearBest-grows a.benefits a.prices t' a.config.epsilon task
        (price_at-grows a.id a.prices t' incoming unforged joins)
        (price_at-get a.prices task r (own task r held mine) ∙ sym (price_at-get t' task r held))
        (s.near task r (own task r held mine) mine);
}
  where
    still : (task : TaskId) (b : ℤ) → IsPriced a.prices task b → IsPriced t' task b
    still task b (e, held) = (_, joins-held a.prices t' incoming joins task e held)

    own :
        (task : TaskId) (r : PriceEntry)
        → get task t'.entries ≡ some r
        → r.bidder ≡ a.id
        → get task a.prices.entries ≡ some r
    own = own_entry a.id a.prices t' incoming unforged joins

-- An agent that satisfies the invariant handles a message without an exception, provided that no
-- entry of the message in the agent's own name is above the agent's own entry. It keeps its id,
-- config, benefits and assignment, and the invariant; its entries only rise, and each entry of the
-- new table is an old one or one of the message.
pub handle_message_lem :
    (a : AuctionAgent) (m : PriceTableMessage)
    → IsSound a
    → Unforged a.id a.prices m.entries
    → (b : AuctionAgent) × (handle_message a m ≡ ok b) × Received a b m.entries
unfolding handle_message
handle_message_lem a m s unforged = elim (Bool-cases (m.sender ==ℤ a.id)) [
  | inl own ↦ (
    a,
    rw own,
    record {
      id = refl;
      config = refl;
      benefits = refl;
      assignment = refl;
      sound = s;
      grows = λ k e held. (e, held, omega arith);
      items = λ k r. inl;
    },
  )
  | inr other ↦
      let (changed, t', runs, merged) = merge_lem a.prices m.entries in
      (
        record a { prices = t'; dirty = if changed then true else a.dirty },
        rw (other, runs),
        record {
          id = refl;
          config = refl;
          benefits = refl;
          assignment = refl;
          sound = merged-IsSound a t' _ m.entries s unforged merged.joins;
          grows = λ k e held.
              (_, joins-held a.prices t' m.entries merged.joins k e held, absorb-ge k m.entries e);
          items = merged.items;
        },
      )
]
