-- ===== src/Prices/Tests.antt =====
-- Small tables, and the merge theorems at them.
use distributed_mobile_robot.Base.{ℤ, pos, Bool, true, false, ◌≡◌, refl, [], ◌∷◌, ok}
use distributed_mobile_robot.Base.Dict.{Dict, get, set}
use distributed_mobile_robot.Types.{PriceEntry, initial}
use distributed_mobile_robot.Prices.{PriceTable, merge}
use distributed_mobile_robot.Prices.Merge.{Merged, merge_lem}
use distributed_mobile_robot.Prices.Gossip.{merges_commute, merge_again}

abbrev entry_of : ℤ → ℤ → PriceEntry
entry_of p b = record { price = p; bidder = b }

abbrev fresh : PriceTable
fresh = record { entries = (pos 1, initial) ∷ (pos 2, initial) ∷ [] }

abbrev from_a : Dict PriceEntry
from_a = (pos 1, entry_of (pos 3) (pos 1)) ∷ (pos 2, entry_of (pos 1) (pos 0)) ∷ []

abbrev from_b : Dict PriceEntry
from_b = (pos 1, entry_of (pos 2) (pos 4)) ∷ (pos 2, entry_of (pos 1) (pos 3)) ∷ []

abbrev both : PriceTable
both = record {
  entries = (pos 1, entry_of (pos 3) (pos 1)) ∷ (pos 2, entry_of (pos 1) (pos 3)) ∷ [];
}

a_run : merge fresh from_a ≡ ok (true, record { entries = from_a })
unfolding merge get set
a_run = refl

a_b_run : merge (record { entries = from_a }) from_b ≡ ok (true, both)
unfolding merge get set
a_b_run = refl

b_run : merge fresh from_b ≡ ok (true, record { entries = from_b })
unfolding merge get set
b_run = refl

b_a_run : merge (record { entries = from_b }) from_a ≡ ok (true, both)
unfolding merge get set
b_a_run = refl

merge_example :
    (c : Bool) × (t : PriceTable) × (merge fresh from_a ≡ ok (c, t)) × Merged from_a false fresh c t
merge_example = merge_lem fresh from_a

merges_commute_example : get (pos 2) both.entries ≡ get (pos 2) both.entries
merges_commute_example =
    merges_commute fresh (record { entries = from_a }) both (record { entries = from_b }) both
      from_a from_b true true true true a_run a_b_run b_run b_a_run (pos 2)

merge_again_example :
    merge (record { entries = from_a }) from_a ≡ ok (false, record { entries = from_a })
merge_again_example = merge_again fresh (record { entries = from_a }) from_a true a_run
