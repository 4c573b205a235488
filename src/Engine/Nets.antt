-- ===== src/Engine/Nets.antt =====
-- The net values that the scan of `_place_bid` goes through: benefits less prices.
use distributed_mobile_robot.Base.{
  ℤ, pos, ◌-ℤ◌, ◌==ℤ◌, if◌then◌else◌, ◌≡◌, refl, subst, ◌≢◌, inl, inr, [], ◌∷◌, none, some, ok,
  arith,
}
use distributed_mobile_robot.Base.Dict.{Dict, get, set, get-set, AllItems, Item}
use distributed_mobile_robot.Types.{TaskId, PriceEntry}
use distributed_mobile_robot.Prices.{PriceTable, price}
use distributed_mobile_robot.Engine.{Scan, scan}
use distributed_mobile_robot.Engine.Bidding.{consider_all, Chosen, choose}

-- The price of a task, 0 if the table has none.
pub price_at : PriceTable → TaskId → ℤ
price_at t task = elim (get task t.entries) [ none ↦ pos 0 | some e ↦ e.price ]

pub price_at-get :
    (t : PriceTable) (task : TaskId) (e : PriceEntry)
    → get task t.entries ≡ some e
    → price_at t task ≡ e.price
unfolding price_at
price_at-get t task e held = rw (held, price_at)

pub price_at-set :
    (t : PriceTable) (k task : TaskId) (e : PriceEntry)
    → price_at (record { entries = set k e t.entries }) task
      ≡ (if k ==ℤ task then e.price else price_at t task)
unfolding price_at
price_at-set t k task e = ground (arith, get-set k task e t.entries)

abbrev pub IsPriced : PriceTable → TaskId → ℤ → Type 0
IsPriced t task benefit = (e : PriceEntry) × (get task t.entries ≡ some e)

pub price-IsPriced :
    (t : PriceTable) (task : TaskId) (e : PriceEntry)
    → get task t.entries ≡ some e
    → price t task ≡ ok (price_at t task)
unfolding price
price-IsPriced t task e held = rw (held, price_at-get t task e held)

-- The net values that the scan goes through.
pub nets : PriceTable → Dict ℤ → Dict ℤ
nets t [] = []
nets t ((task, benefit) ∷ benefits) = (task, benefit -ℤ price_at t task) ∷ nets t benefits

pub scan-eq-consider_all :
    (t : PriceTable) (benefits : Dict ℤ) (s : Scan)
    → AllItems (IsPriced t) benefits
    → scan t benefits s ≡ ok (consider_all (nets t benefits) s)
unfolding scan nets consider_all
scan-eq-consider_all t [] s priced = refl
scan-eq-consider_all t ((task, benefit) ∷ benefits) s ((e, held), priced) =
    rw (price-IsPriced t task e held) (scan-eq-consider_all t benefits _ priced)

pub Item-nets :
    (t : PriceTable) (task : TaskId) (net : ℤ) (benefits : Dict ℤ)
    → Item task net (nets t benefits)
    → (b : ℤ) × Item task b benefits × (b -ℤ price_at t task ≡ net)
unfolding nets
Item-nets t task net [] i = absurd i
Item-nets t task net ((j, b) ∷ benefits) (inl (same, at)) =
    (b, inl (same, refl), subst (λ k. b -ℤ price_at t k ≡ net) same at)
Item-nets t task net ((j, b) ∷ benefits) (inr i) =
    let (b', i', at) = Item-nets t task net benefits i in (b', inr i', at)

pub AllItems-nets :
    (P : TaskId → ℤ → Type 0) (t : PriceTable) (benefits : Dict ℤ)
    → AllItems P (nets t benefits)
    → AllItems (λ task b. P task (b -ℤ price_at t task)) benefits
unfolding nets
AllItems-nets P t [] h = tt
AllItems-nets P t ((j, b) ∷ benefits) h = (h.0, AllItems-nets P t benefits h.1)

pub nets-Chosen : (t : PriceTable) (benefits : Dict ℤ) → benefits ≢ [] → Chosen (nets t benefits)
unfolding nets
nets-Chosen t [] some_task = absurd (some_task refl)
nets-Chosen t ((task, benefit) ∷ benefits) some_task = choose task _ _

pub price_at_absent :
    (t : PriceTable) (task : TaskId) → get task t.entries ≡ none → price_at t task ≡ pos 0
unfolding price_at
price_at_absent t task absent = rw (absent, price_at)
