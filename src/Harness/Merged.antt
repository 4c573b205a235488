-- ===== src/Harness/Merged.antt =====
-- `_merged_prices`: the greatest entries of all tables.
use distributed_mobile_robot.Base.{
  ◌≡◌, ap, ◌⊎◌, Bool-cases, inl, inr, [], ◌∷◌, Option, none, some, ℤ-cases, refl, sym, subst, ◌∙◌,
}
use distributed_mobile_robot.Base.Dict.{
  Dict, get, set, get-set_self, get-set_ne, AllItems, AllItems-set, AllItems-get, Item,
}
use distributed_mobile_robot.Types.{AgentId, TaskId, PriceEntry, entry_lt, entry_max}
use distributed_mobile_robot.Prices.{snapshot}
use distributed_mobile_robot.Prices.Order.{
  EntryLe, EntryLe-refl, EntryLe-trans, le-entry_max_left, le-entry_max_right,
}
use distributed_mobile_robot.Engine.{AuctionAgent}
use distributed_mobile_robot.Harness.{joined, join_entries, merge_all, merged_prices}

-- The entry of `d` for `k` is at least `e`.
abbrev pub Reaches : Dict PriceEntry → TaskId → PriceEntry → Type 0
Reaches d k e = (r : PriceEntry) × (get k d ≡ some r) × EntryLe e r

joined_old : (o : Option PriceEntry) (e f : PriceEntry) → o ≡ some f → EntryLe f (joined o e)
joined_old none e f held = cc
joined_old (some g) e f held =
    let same : g ≡ f = cc held in
    subst (λ x. EntryLe x (joined (some g) e)) same (le-entry_max_left g e)

joined_new : (o : Option PriceEntry) (e : PriceEntry) → EntryLe e (joined o e)
joined_new none e = EntryLe-refl e
joined_new (some g) e = le-entry_max_right g e

set-Reaches :
    (d : Dict PriceEntry) (j k : TaskId) (e f : PriceEntry)
    → Reaches d k f
    → Reaches (set j (joined (get j d) e) d) k f
set-Reaches d j k e f (r, held, le) = elim (ℤ-cases j k) [
  | inl same ↦ (
    joined (get j d) e,
    subst (λ i. get i (set j (joined (get j d) e) d) ≡ some (joined (get j d) e)) same
        (get-set_self j _ d),
    EntryLe-trans f r _ le (joined_old (get j d) e r (ap (λ i. get i d) same ∙ held)),
  )
  | inr other ↦ (r, get-set_ne j k _ d other ∙ held, le)
]

join_entries-keeps :
    (entries merged : Dict PriceEntry) (k : TaskId) (f : PriceEntry)
    → Reaches merged k f
    → Reaches (join_entries entries merged) k f
unfolding join_entries
join_entries-keeps [] merged k f h = h
join_entries-keeps ((j, e) ∷ entries) merged k f h =
    join_entries-keeps entries (set j (joined (get j merged) e) merged) k f
      (set-Reaches merged j k e f h)

join_entries-Item :
    (entries merged : Dict PriceEntry) (k : TaskId) (f : PriceEntry)
    → Item k f entries
    → Reaches (join_entries entries merged) k f
unfolding join_entries
join_entries-Item [] merged k f i = absurd i
join_entries-Item ((j, e) ∷ entries) merged k f (inl (same, held)) =
    join_entries-keeps entries (set j (joined (get j merged) e) merged) k f (
      joined (get j merged) e,
      subst (λ i. get i (set j (joined (get j merged) e) merged) ≡ some (joined (get j merged) e))
          same (get-set_self j _ merged),
      subst (λ x. EntryLe x (joined (get j merged) e)) held (joined_new (get j merged) e),
    )
join_entries-Item ((j, e) ∷ entries) merged k f (inr i) =
    join_entries-Item entries (set j (joined (get j merged) e) merged) k f i

merge_all-keeps :
    (agents : Dict AuctionAgent) (merged : Dict PriceEntry) (k : TaskId) (f : PriceEntry)
    → Reaches merged k f
    → Reaches (merge_all agents merged) k f
unfolding merge_all
merge_all-keeps [] merged k f h = h
merge_all-keeps ((i, a) ∷ agents) merged k f h =
    merge_all-keeps agents (join_entries (snapshot a.prices) merged) k f
      (join_entries-keeps (snapshot a.prices) merged k f h)

merge_all-Item :
    (agents : Dict AuctionAgent) (merged : Dict PriceEntry) (i : AgentId) (a : AuctionAgent)
    (k : TaskId) (f : PriceEntry)
    → Item i a agents
    → Item k f a.prices.entries
    → Reaches (merge_all agents merged) k f
unfolding merge_all
merge_all-Item [] merged i a k f agent item = absurd agent
merge_all-Item ((j, b) ∷ agents) merged i a k f (inl (same, now)) item =
    merge_all-keeps agents (join_entries (snapshot b.prices) merged) k f (
      join_entries-Item (snapshot b.prices) merged k f
        (subst (λ x. Item k f x.prices.entries) (sym now) item))
merge_all-Item ((j, b) ∷ agents) merged i a k f (inr agent) item =
    merge_all-Item agents (join_entries (snapshot b.prices) merged) i a k f agent item

-- No entry of a table is above the merged one.
pub merged_prices-ge :
    (agents : Dict AuctionAgent) (i : AgentId) (a : AuctionAgent) (k : TaskId) (f : PriceEntry)
    → Item i a agents
    → Item k f a.prices.entries
    → Reaches (merged_prices agents) k f
unfolding merged_prices
merged_prices-ge agents = merge_all-Item agents []

max-cases : (e f : PriceEntry) → (entry_max e f ≡ e) ⊎ (entry_max e f ≡ f)
max-cases e f = elim (Bool-cases (entry_lt e f)) [
  | inl less ↦ inr (rw less)
  | inr not_less ↦ inl (rw not_less)
]

-- What holds of every table's entries holds of the merged ones.
module _ (P : TaskId → PriceEntry → Type 0) where
  joined-P :
      (o : Option PriceEntry) (k : TaskId) (e : PriceEntry)
      → P k e
      → ((f : PriceEntry) → o ≡ some f → P k f)
      → P k (joined o e)
  joined-P none k e p old = p
  joined-P (some f) k e p old = elim (max-cases f e) [
    | inl same ↦ subst (P k) (sym same) (old f refl)
    | inr same ↦ subst (P k) (sym same) p
  ]

  join_entries-P :
      (entries merged : Dict PriceEntry)
      → AllItems P entries
      → AllItems P merged
      → AllItems P (join_entries entries merged)
  unfolding join_entries
  join_entries-P [] merged h m = m
  join_entries-P ((k, e) ∷ entries) merged h m =
      join_entries-P entries (set k (joined (get k merged) e) merged) h.1 (
        AllItems-set P k _ merged
          (joined-P (get k merged) k e h.0 λ f held. AllItems-get P k f merged m held) m)

  merge_all-P :
      (agents : Dict AuctionAgent) (merged : Dict PriceEntry)
      → AllItems (λ i a. AllItems P a.prices.entries) agents
      → AllItems P merged
      → AllItems P (merge_all agents merged)
  unfolding merge_all
  merge_all-P [] merged h m = m
  merge_all-P ((i, a) ∷ agents) merged h m =
      merge_all-P agents (join_entries (snapshot a.prices) merged) h.1
        (join_entries-P (snapshot a.prices) merged h.0 m)

  pub merged_prices-all :
      (agents : Dict AuctionAgent)
      → AllItems (λ i a. AllItems P a.prices.entries) agents
      → AllItems P (merged_prices agents)
  unfolding merged_prices
  merged_prices-all agents h = merge_all-P agents [] h tt
