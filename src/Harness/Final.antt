-- ===== src/Harness/Final.antt =====
-- The merged prices of a valid network: each agent that they name is near its best there.
use distributed_mobile_robot.Base.{
  pos, ◌≤ℤ◌, ℤ-le_of_eq, ◌⊎◌, ◌≡◌, refl, ◌∙◌, ap, sym, subst, inl, inr, [], ◌∷◌, some, Option-cases,
  arith,
}
use distributed_mobile_robot.Base.Dict.{
  Dict, get, AllItems, AllItems-get, AllItems-of_get, Item, Item-get, IsDistinct,
}
use distributed_mobile_robot.Types.{AgentId, TaskId, PriceEntry}
use distributed_mobile_robot.Prices.{PriceTable}
use distributed_mobile_robot.Prices.Order.{EntryLe, EntryLe-antisymm}
use distributed_mobile_robot.Engine.{AuctionAgent}
use distributed_mobile_robot.Engine.Bid.{NearBest, NearBest-grows}
use distributed_mobile_robot.Engine.Nets.{price_at, price_at-get, price_at_absent}
use distributed_mobile_robot.Network.{Network}
use distributed_mobile_robot.Network.Invariant.{IsValid, Known, at_agent}
use distributed_mobile_robot.Harness.{merged_prices}
use distributed_mobile_robot.Harness.Merged.{merged_prices-ge, merged_prices-all}

AllItems-of_Item :
    (P : TaskId → PriceEntry → Type 0) (d : Dict PriceEntry)
    → ((k : TaskId) (e : PriceEntry) → Item k e d → P k e)
    → AllItems P d
AllItems-of_Item P [] h = tt
AllItems-of_Item P ((k, e) ∷ d) h =
    (h k e (inl (refl, refl)), AllItems-of_Item P d λ j f i. h j f (inr i))

-- The merged prices of the agents of a valid network.
module _ (s : Network) (v : IsValid s) (distinct : IsDistinct s.agents) where
  abbrev merged : Dict PriceEntry
  merged = merged_prices s.agents

  merged-Known : AllItems (Known s) merged
  merged-Known = merged_prices-all (Known s) s.agents (
      AllItems-of_get (λ i a. AllItems (Known s) a.prices.entries) s.agents distinct
        λ i a held. AllItems-of_Item (Known s) a.prices.entries λ k e item. at_agent i a held item)

  abbrev final : PriceTable
  final = record { entries = merged }

  pub final_nonneg : (j : TaskId) → pos 0 ≤ℤ price_at final j
  final_nonneg j = elim (Option-cases (get j merged)) [
    | inl absent ↦ rw (price_at_absent final j absent) (omega arith)
    | inr (r, top) ↦
        rw (price_at-get final j r top)
          (v.nonneg j r (AllItems-get (Known s) j r merged merged-Known top))
  ]

  module _ (i : AgentId) (a : AuctionAgent) (held : get i s.agents ≡ some a) where
    -- An agent that the merged prices name holds the merged entry in its own table.
    own_top :
        (task : TaskId) (e : PriceEntry)
        → get task merged ≡ some e
        → e.bidder ≡ i
        → get task a.prices.entries ≡ some e
    own_top task e priced owner =
        let (f, own, le) =
          v.unforged task e (AllItems-get (Known s) task e merged merged-Known priced) a
            (subst (λ j. get j s.agents ≡ some a) (sym owner) held) in
        let (r, top, le') =
          merged_prices-ge s.agents i a task f (Item-get i a s.agents held)
            (Item-get task f a.prices.entries own) in
        let now : r ≡ e = cc (sym top ∙ priced) in
        let same : f ≡ e = EntryLe-antisymm f e (subst (EntryLe f) now le') le in own ∙ ap some same

    price_at-merged : (j : TaskId) → price_at a.prices j ≤ℤ price_at final j
    price_at-merged j = elim (Option-cases (get j a.prices.entries)) [
      | inl absent ↦ rw (price_at_absent a.prices j absent) (final_nonneg j)
      | inr (e, own) ↦
          let (r, top, le) =
            merged_prices-ge s.agents i a j e (Item-get i a s.agents held)
              (Item-get j e a.prices.entries own) in
          rw (price_at-get a.prices j e own, price_at-get final j r top) le.0
    ]

    pub merged-NearBest :
        (task : TaskId) (e : PriceEntry)
        → get task merged ≡ some e
        → e.bidder ≡ i
        → NearBest a.benefits final a.config.epsilon task
    merged-NearBest task e priced owner =
        let own = own_top task e priced owner in
        NearBest-grows a.benefits a.prices final a.config.epsilon task price_at-merged
          (price_at-get a.prices task e own ∙ sym (price_at-get final task e priced))
          (let sound = v.sound i a held in sound.near task e own (owner ∙ sym (v.ids i a held)))

  -- A task with a price above 0 is some agent's.
  pub final-sold :
      (task : TaskId)
      → (price_at final task ≤ℤ pos 0)
        ⊎ ((i : AgentId) × (a : AuctionAgent) × (get i s.agents ≡ some a)
            × (a.assignment ≡ some task))
  final-sold task = elim (Option-cases (get task merged)) [
    | inl absent ↦ inl (rw (price_at_absent final task absent) (omega arith))
    | inr (e, top) ↦
        elim (v.genuine task e (AllItems-get (Known s) task e merged merged-Known top)) [
          | inl (_, unsold) ↦ inl (rw (price_at-get final task e top) (ℤ-le_of_eq _ _ unsold))
          | inr (a, held) ↦
              let own = own_top e.bidder a held task e top refl in
              let sound = v.sound e.bidder a held in
              inr (e.bidder, a, held, sound.owns task e own (sym (v.ids e.bidder a held)))
        ]
  ]
