-- ===== src/Network/Steps.antt =====
-- Every step of the network keeps its invariant, and so does every execution.
use distributed_mobile_robot.Base.{
  pos, ◌≤ℤ◌, ◌+ℤ◌, int_laws, ◌≡◌, ◌∙◌, ap, sym, subst, ◌⊎◌, inl, inr, List, [], some, Bool-cases,
}
use distributed_mobile_robot.Base.Dict.{get, Item-get}
use distributed_mobile_robot.Types.{AgentId, PriceTableMessage}
use distributed_mobile_robot.Prices.Order.{EntryLe, EntryLe-refl}
use distributed_mobile_robot.Engine.{AuctionAgent, broadcast, terminated}
use distributed_mobile_robot.Engine.Tick.{Ticked, Bidding, tick_lem}
use distributed_mobile_robot.Engine.Claim.{claim_held, bid_grows, bid_items}
use distributed_mobile_robot.Engine.Receive.{Unforged, Received, handle_message_lem}
use distributed_mobile_robot.Network.{
  Network, Among, update, Step, receives, ticks, Reach, here, next,
}
use distributed_mobile_robot.Network.Invariant.{at_agent, in_message, IsValid}
use distributed_mobile_robot.Network.Advance.{Advance, Advance-IsValid}

broadcast_copies :
    (c : AuctionAgent) (m : PriceTableMessage)
    → Among m (broadcast c)
    → m.entries ≡ c.prices.entries
broadcast_copies c m among = elim (Bool-cases (terminated c)) [
  | inl done ↦ absurd (rw done at among)
  | inr running ↦ copied (rw running at among)
]
  where
    copied :
        ((record { sender = c.id; entries = c.prices.entries } ≡ m) ⊎ ⊥)
        → m.entries ≡ c.prices.entries
    copied (inl same) = ap (λ (x : PriceTableMessage). x.entries) (sym same)
    copied (inr none_left) = absurd none_left

le-claim :
    (s : Network) (v : IsValid s) (i : AgentId) (a c : AuctionAgent)
    (held : get i s.agents ≡ some a) (m : Bidding a c)
    → pos 0 ≤ℤ m.before.price +ℤ m.raise
le-claim s v i a c held m =
    let pos_eps = (v.sound i a held).epsilon_pos in
    let raises = m.raises in
    let paid =
      v.nonneg m.task m.before
        (at_agent i a held (Item-get m.task m.before a.prices.entries m.held)) in
    omega int_laws

Ticked-Advance :
    (s : Network) (v : IsValid s) (i : AgentId) (a c : AuctionAgent)
    → get i s.agents ≡ some a
    → Ticked a c
    → Advance s i a c (broadcast c)
Ticked-Advance s v i a c held t = elim t.moves [
  | inl (same, _) ↦ record {
    before = held;
    sound = t.sound;
    id = t.id ∙ v.ids i a held;
    grows = λ k e held'. (e, rw same held', EntryLe-refl e);
    items = λ k r item. inl (at_agent i a held (rw same at item));
    copies = broadcast_copies c;
  }
  | inr m ↦
      let pos_eps = (v.sound i a held).epsilon_pos in
      record {
        before = held;
        sound = t.sound;
        id = t.id ∙ v.ids i a held;
        grows = bid_grows a c m pos_eps;
        items = λ k r item. elim (bid_items a c m pos_eps k r item) [
          | inl old ↦ inl (at_agent i a held old)
          | inr (same, new) ↦ inr (
              subst (λ x. (x.bidder ≡ i) × (pos 0 ≤ℤ x.price) × (get k c.prices.entries ≡ some x))
                new
                (v.ids i a held, le-claim s v i a c held m, rw (← same) (claim_held a c m pos_eps)))
        ];
        copies = broadcast_copies c;
      }
]

Received-Advance :
    (s : Network) (v : IsValid s) (i : AgentId) (a b : AuctionAgent) (m : PriceTableMessage)
    → get i s.agents ≡ some a
    → Among m s.sent
    → Received a b m.entries
    → Advance s i a b []
Received-Advance s v i a b m held among r = record {
  before = held;
  sound = r.sound;
  id = r.id ∙ v.ids i a held;
  grows = r.grows;
  items = λ k e item. elim (r.items k e item) [
    | inl old ↦ inl (at_agent i a held old)
    | inr new ↦ inl (in_message m among new)
  ];
  copies = λ m' none_sent. absurd none_sent;
}

pub in_message-Unforged :
    (s : Network) (v : IsValid s) (i : AgentId) (a : AuctionAgent) (m : PriceTableMessage)
    → get i s.agents ≡ some a
    → Among m s.sent
    → Unforged a.id a.prices m.entries
in_message-Unforged s v i a m held among task f e item mine held' =
    let owner : i ≡ f.bidder = sym (mine ∙ v.ids i a held) in
    let (e', held'', le) =
      v.unforged task f (in_message m among item) a
        (subst (λ j. get j s.agents ≡ some a) owner held) in
    let same : e' ≡ e = cc held'' in subst (EntryLe f) same le

-- One step, of any agent, keeps the invariant.
pub Step-IsValid : {s s' : Network} → Step s s' → IsValid s → IsValid s'
Step-IsValid {s} {s'} (receives i a b m held among runs result) v =
    let (b', runs', r) =
      handle_message_lem a m (v.sound i a held) (in_message-Unforged s v i a m held among) in
    let same : b' ≡ b = cc runs' in
    subst IsValid (sym result) (
      subst (λ x. IsValid (update s i x [])) same
        (Advance-IsValid s v i a b' [] (Received-Advance s v i a b' m held among r)))
Step-IsValid {s} {s'} (ticks i a b out held runs result) v =
    let (b', runs', t) = tick_lem a (v.sound i a held) in
    let both : (broadcast b', b') ≡ (out, b) = cc runs' in
    subst IsValid (sym result) (
      subst (λ (x : List PriceTableMessage × AuctionAgent). IsValid (update s i x.1 x.0)) both
        (Advance-IsValid s v i a b' (broadcast b') (Ticked-Advance s v i a b' held t)))

pub Reach-IsValid : {s s' : Network} → IsValid s → Reach s s' → IsValid s'
Reach-IsValid v here = v
Reach-IsValid v (next r st) = Step-IsValid st (Reach-IsValid v r)
