-- ===== src/Prices.antt =====
-- auction_core/src/auction_core/auction/prices.py: the local price table, merged by entry-wise max.
pub mod Order
pub mod Merge
pub mod Gossip
pub mod Tests
use distributed_mobile_robot.Base.{
  ℤ, leb_ℤ, ◌+ℤ◌, Bool, true, false, not, if◌then◌else◌, List, [], ◌∷◌, map, Option, none, some,
  Result, ok, err, assert, ◌>>=◌, ◌>>◌,
}
use distributed_mobile_robot.Base.Dict.{Dict, get, set, or_key_error}
use distributed_mobile_robot.Types.{
  TaskId, AgentId, PriceEntry, initial, entry_lt, entry_eq, entry_max,
}

pub record PriceTable : Type 0 where
  pub entries : Dict PriceEntry

-- `{t: PriceEntry.initial() for t in task_ids}`
unfoldable pub initial_entries : Dict PriceEntry → List TaskId → Dict PriceEntry
initial_entries d [] = d
initial_entries d (t ∷ ts) = initial_entries (set t initial d) ts

unfoldable pub price_table : List TaskId → PriceTable
unfolding initial_entries
price_table task_ids = record { entries = initial_entries [] task_ids }

unfoldable pub entry : PriceTable → TaskId → Result PriceEntry
entry t task_id = or_key_error (get task_id t.entries)

unfoldable pub price : PriceTable → TaskId → Result ℤ
unfolding entry
price t task_id = do e ← entry t task_id; ok e.price

unfoldable pub bidder : PriceTable → TaskId → Result AgentId
unfolding entry
bidder t task_id = do e ← entry t task_id; ok e.bidder

abbrev pub snapshot : PriceTable → Dict PriceEntry
snapshot t = t.entries

-- The body of the loop of `merge`, on the loop's variables `changed` and `self._entries`.
unfoldable pub merge_entry : TaskId → PriceEntry → Bool × PriceTable → Result (Bool × PriceTable)
merge_entry task_id theirs (changed, t) = elim (get task_id t.entries) [
  | none ↦ ok (changed, t)
  | some ours ↦
      let merged = entry_max ours theirs in
      if not (entry_eq merged ours)
      then (do
        assert (leb_ℤ ours.price merged.price)
        ok (true, record { entries = set task_id merged t.entries }))
      else ok (changed, t)
]

unfoldable pub merge_loop : Dict PriceEntry → Bool × PriceTable → Result (Bool × PriceTable)
unfolding merge_entry
merge_loop [] s = ok s
merge_loop ((task_id, theirs) ∷ incoming) s = do
  s' ← merge_entry task_id theirs s
  merge_loop incoming s'

-- Whether an entry changed, and the new table.
unfoldable pub merge : PriceTable → Dict PriceEntry → Result (Bool × PriceTable)
unfolding merge_loop
merge t incoming = merge_loop incoming (false, t)

unfoldable pub bid : PriceTable → TaskId → ℤ → AgentId → ℤ → Result PriceTable
unfolding entry
bid t task_id increment agent epsilon = do
  assert (leb_ℤ epsilon increment)
  ours ← entry t task_id
  let updated : PriceEntry = record { price = ours.price +ℤ increment; bidder = agent }
  assert (entry_lt ours updated)
  ok (record { entries = set task_id updated t.entries })
