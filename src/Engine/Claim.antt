-- ===== src/Engine/Claim.antt =====
-- The effect of a bid on the bidder's price table: one entry rises, and is the bidder's.
use distributed_mobile_robot.Base.{
  pos, ◌<ℤ◌, ◌+ℤ◌, int_laws, ◌≡◌, subst, ◌⊎◌, inl, inr, some, ℤ-cases, arith,
}
use distributed_mobile_robot.Base.Dict.{get, get-set_self, get-set_ne, Item, Item-set}
use distributed_mobile_robot.Types.{TaskId, PriceEntry}
use distributed_mobile_robot.Prices.Order.{EntryLe}
use distributed_mobile_robot.Engine.{AuctionAgent}
use distributed_mobile_robot.Engine.Tick.{Bidding}

module _ (a c : AuctionAgent) (m : Bidding a c) (pos_eps : pos 0 <ℤ a.config.epsilon) where
  abbrev pub claim : PriceEntry
  claim = record { price = m.before.price +ℤ m.raise; bidder = a.id }

  pub claim_held : get m.task c.prices.entries ≡ some claim
  claim_held = rw m.prices (get-set_self m.task claim a.prices.entries)

  pub claim-ge : EntryLe m.before claim
  claim-ge = let raises = m.raises in omega int_laws

  pub bid_grows :
      (k : TaskId) (e : PriceEntry)
      → get k a.prices.entries ≡ some e
      → (r : PriceEntry) × (get k c.prices.entries ≡ some r) × EntryLe e r
  bid_grows k e held = elim (ℤ-cases m.task k) [
    | inl same ↦
        let now : m.before ≡ e = cc m.held in
        (claim, rw (← same) claim_held, subst (λ x. EntryLe x claim) now claim-ge)
    | inr other ↦
        (e, rw (m.prices, get-set_ne m.task k claim a.prices.entries other) held, omega arith)
  ]

  pub bid_items :
      (k : TaskId) (r : PriceEntry)
      → Item k r c.prices.entries
      → Item k r a.prices.entries ⊎ ((m.task ≡ k) × (claim ≡ r))
  bid_items k r item = elim (Item-set m.task claim k r a.prices.entries (rw m.prices at item)) [
    | inl new ↦ inr new
    | inr old ↦ inl old
  ]
