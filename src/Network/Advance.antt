-- ===== src/Network/Advance.antt =====
-- The replacement of one agent by a later state of it keeps the network's invariant.
use distributed_mobile_robot.Base.{
  pos, ◌≤ℤ◌, ◌==ℤ◌, ◌≡◌, ◌∙◌, sym, subst, ◌⊎◌, inl, inr, List, [], ◌∷◌, ◌++◌, some, ℤ-cases,
  ==ℤ_refl, false, arith,
}
use distributed_mobile_robot.Base.Dict.{get, set, get-set, get-set_self, Item}
use distributed_mobile_robot.Types.{AgentId, TaskId, PriceEntry, PriceTableMessage, no_bidder}
use distributed_mobile_robot.Prices.Order.{EntryLe, EntryLe-refl, EntryLe-trans}
use distributed_mobile_robot.Engine.{AuctionAgent}
use distributed_mobile_robot.Engine.Invariant.{IsSound}
use distributed_mobile_robot.Network.{Network, Among, update}
use distributed_mobile_robot.Network.Invariant.{Known, at_agent, in_message, IsValid}

-- The replacement of an agent by a later state of it, with new messages.
pub record Advance (s : Network) (i : AgentId) (a b : AuctionAgent) (out : List PriceTableMessage)
    : Type 0 where
  pub before : get i s.agents ≡ some a
  pub sound : IsSound b
  pub id : b.id ≡ i
  pub grows :
      (k : TaskId) (e : PriceEntry)
      → get k a.prices.entries ≡ some e
      → (r : PriceEntry) × (get k b.prices.entries ≡ some r) × EntryLe e r
  pub items :
      (k : TaskId) (r : PriceEntry)
      → Item k r b.prices.entries
      → Known s k r ⊎ ((r.bidder ≡ i) × (pos 0 ≤ℤ r.price) × (get k b.prices.entries ≡ some r))
  pub copies : (m : PriceTableMessage) → Among m out → m.entries ≡ b.prices.entries

module _ (s : Network) (v : IsValid s) (i : AgentId) (a b : AuctionAgent)
    (out : List PriceTableMessage) (d : Advance s i a b out) where
  abbrev after : Network
  after = update s i b out

  get-after :
      (j : AgentId) (c : AuctionAgent)
      → get j after.agents ≡ some c
      → ((i ≡ j) × (b ≡ c)) ⊎ (((i ==ℤ j) ≡ false) × (get j s.agents ≡ some c))
  get-after j c held = elim (ℤ-cases i j) [
    | inl same ↦
        inl (
          same,
          cc (subst (λ k. get k (set i b s.agents) ≡ some b) same (get-set_self i b s.agents)),
        )
    | inr other ↦ inr (other, rw (get-set i j b s.agents, other) at held)
  ]

  Among-after :
      (m : PriceTableMessage) (ms : List PriceTableMessage)
      → Among m (ms ++ s.sent)
      → Among m ms ⊎ Among m s.sent
  Among-after m [] h = inr h
  Among-after m (x ∷ ms) (inl same) = inl (inl same)
  Among-after m (x ∷ ms) (inr h) = elim (Among-after m ms h) [
    | inl new ↦ inl (inr new)
    | inr old ↦ inr old
  ]

  -- Every entry of the new network was known, or is the agent's new claim.
  Known-after :
      (k : TaskId) (r : PriceEntry)
      → Known after k r
      → Known s k r ⊎ ((r.bidder ≡ i) × (pos 0 ≤ℤ r.price) × (get k b.prices.entries ≡ some r))
  Known-after k r (at_agent j c held item) = elim (get-after j c held) [
    | inl (same, now) ↦ d.items k r (subst (λ x. Item k r x.prices.entries) (sym now) item)
    | inr (other, held') ↦ inl (at_agent j c held' item)
  ]
  Known-after k r (in_message m among item) = elim (Among-after m out among) [
    | inl new ↦ d.items k r (subst (Item k r) (d.copies m new) item)
    | inr old ↦ inl (in_message m old item)
  ]

  get_self : get i after.agents ≡ some b
  get_self = get-set_self i b s.agents

  -- An agent of the old network is one of the new, and its table has only grown.
  grown :
      (j : AgentId) (c : AuctionAgent)
      → get j s.agents ≡ some c
      → (c' : AuctionAgent) × (get j after.agents ≡ some c')
        × ((k : TaskId) (e : PriceEntry)
            → get k c.prices.entries ≡ some e
            → (r : PriceEntry) × (get k c'.prices.entries ≡ some r) × EntryLe e r)
  grown j c held = elim (ℤ-cases i j) [
    | inl same ↦
        let now : a ≡ c = cc d.before in
        (b, rw (get-set i j b s.agents, same, ==ℤ_refl j), λ k e held'. d.grows k e (rw now held'))
    | inr other ↦
        (c, rw (get-set i j b s.agents, other, held), λ k e held'. (e, held', omega arith))
  ]

  unforged-after :
      (k : TaskId) (f : PriceEntry)
      → Known after k f
      → (c : AuctionAgent) → get f.bidder after.agents ≡ some c
      → (e : PriceEntry) × (get k c.prices.entries ≡ some e) × EntryLe f e
  unforged-after k f known c held = elim (Known-after k f known) [
    | inl old ↦ elim (get-after f.bidder c held) [
      | inl (same, now) ↦
          let (e, held', le) =
            v.unforged k f old a (subst (λ j. get j s.agents ≡ some a) same d.before) in
          let (r, held'', le') = d.grows k e held' in
          (r, rw (← now) held'', EntryLe-trans f e r le le')
      | inr (other, held') ↦ v.unforged k f old c held'
    ]
    | inr (mine, _, held') ↦ elim (get-after f.bidder c held) [
      | inl (same, now) ↦ (f, rw (← now) held', EntryLe-refl f)
      | inr (other, _) ↦ absurd (ground (arith, mine))
    ]
  ]

  genuine-after :
      (k : TaskId) (f : PriceEntry)
      → Known after k f
      → ((f.bidder ≡ no_bidder) × (f.price ≡ pos 0))
        ⊎ ((c : AuctionAgent) × (get f.bidder after.agents ≡ some c))
  genuine-after k f known = elim (Known-after k f known) [
    | inl old ↦ elim (v.genuine k f old) [
      | inl unsold ↦ inl unsold
      | inr (c, held) ↦ let (c', held', _) = grown f.bidder c held in inr (c', held')
    ]
    | inr (mine, _, _) ↦ inr (b, subst (λ j. get j after.agents ≡ some b) (sym mine) get_self)
  ]

  pub Advance-IsValid : IsValid after
  Advance-IsValid = record {
    sound = λ j c held. elim (get-after j c held) [
      | inl (same, now) ↦ subst IsSound now d.sound
      | inr (other, held') ↦ v.sound j c held'
    ];
    ids = λ j c held. elim (get-after j c held) [
      | inl (same, now) ↦ rw (← now) (d.id ∙ same)
      | inr (other, held') ↦ v.ids j c held'
    ];
    unforged = unforged-after;
    nonneg = λ k f known. elim (Known-after k f known) [
      | inl old ↦ v.nonneg k f old
      | inr (_, le, _) ↦ le
    ];
    genuine = genuine-after;
  }
