-- ===== src/Prices/Gossip.antt =====
-- Merging as the source promises it: duplicated and reordered tables leave the same prices.
use mathlib.Core.Option
use mathlib.Core.Path.{ap₂}
use distributed_mobile_robot.Base.{
  Bool, true, false, ◌≡◌, refl, ◌∙◌, ap, subst, inl, inr, [], ◌∷◌, some, Option-cases, Bool-cases,
  ℤ-cases, ==ℤ_refl, ok, arith,
}
use distributed_mobile_robot.Base.Dict.{Dict, get, Item}
use distributed_mobile_robot.Types.{TaskId, PriceEntry, entry_lt}
use distributed_mobile_robot.Prices.Order.{
  EntryLe, EntryLe-refl, EntryLe-trans, EntryLe-antisymm, le-entry_max_right, entry_max-le,
}
use distributed_mobile_robot.Prices.{PriceTable, merge}
use distributed_mobile_robot.Prices.Merge.{
  absorb, absorb-ge, join_at, merge_lem, Raised, joins-held, joins-source,
}

absorb-le :
    (k : TaskId) (incoming : Dict PriceEntry) (e g : PriceEntry)
    → EntryLe e g
    → ((f : PriceEntry) → Item k f incoming → EntryLe f g)
    → EntryLe (absorb k incoming e) g
absorb-le k [] e g le all = le
absorb-le k ((j, f) ∷ incoming) e g le all =
    absorb-le k incoming (join_at j k f e) g
      (elim (ℤ-cases j k) [
        | inl same ↦ rw (same, ==ℤ_refl k) (entry_max-le e f g le (all f (inl (same, refl))))
        | inr other ↦ rw other le
      ])
      (λ f' i. all f' (inr i))

le-absorb :
    (k : TaskId) (incoming : Dict PriceEntry) (e f : PriceEntry)
    → Item k f incoming
    → EntryLe f (absorb k incoming e)
le-absorb k [] e f i = absurd i
le-absorb k ((j, g) ∷ incoming) e f (inl (same, now)) =
    EntryLe-trans f (join_at j k g e) _ (rw (same, ==ℤ_refl k, now) (le-entry_max_right e f))
      (absorb-ge k incoming (join_at j k g e))
le-absorb k ((j, g) ∷ incoming) e f (inr i) = le-absorb k incoming (join_at j k g e) f i

absorb_comm-le :
    (k : TaskId) (a b : Dict PriceEntry) (e : PriceEntry)
    → EntryLe (absorb k b (absorb k a e)) (absorb k a (absorb k b e))
absorb_comm-le k a b e =
    absorb-le k b (absorb k a e) _
      (absorb-le k a e _
        (EntryLe-trans e (absorb k b e) _ (absorb-ge k b e) (absorb-ge k a (absorb k b e)))
        (λ f i. le-absorb k a (absorb k b e) f i))
      (λ f i. EntryLe-trans f (absorb k b e) _ (le-absorb k b e f i) (absorb-ge k a (absorb k b e)))

absorb_comm :
    (k : TaskId) (a b : Dict PriceEntry) (e : PriceEntry)
    → absorb k b (absorb k a e) ≡ absorb k a (absorb k b e)
absorb_comm k a b e = EntryLe-antisymm _ _ (absorb_comm-le k a b e) (absorb_comm-le k b a e)

absorb_idem :
    (k : TaskId) (a : Dict PriceEntry) (e : PriceEntry) → absorb k a (absorb k a e) ≡ absorb k a e
absorb_idem k a e =
    EntryLe-antisymm _ _
      (absorb-le k a (absorb k a e) _ (EntryLe-refl (absorb k a e)) (λ f i. le-absorb k a e f i))
      (absorb-ge k a (absorb k a e))

merge-get :
    (t : PriceTable) (a : Dict PriceEntry) (c : Bool) (t' : PriceTable) (k : TaskId)
    → merge t a ≡ ok (c, t')
    → get k t'.entries ≡ Option.map (absorb k a) (get k t.entries)
merge-get t a c t' k runs =
    let (c', u, runs', m) = merge_lem t a in
    let same : u ≡ t' = cc runs' in
    subst (λ (x : PriceTable). get k x.entries ≡ Option.map (absorb k a) (get k t.entries)) same
      (m.joins k)

-- Merging two tables one after the other gives every task the same entry in either order.
pub merges_commute :
    (t t₁ t₂ u₁ u₂ : PriceTable) (a b : Dict PriceEntry) (c₁ c₂ d₁ d₂ : Bool)
    → merge t a ≡ ok (c₁, t₁)
    → merge t₁ b ≡ ok (c₂, t₂)
    → merge t b ≡ ok (d₁, u₁)
    → merge u₁ a ≡ ok (d₂, u₂)
    → (k : TaskId) → get k t₂.entries ≡ get k u₂.entries
merges_commute t t₁ t₂ u₁ u₂ a b c₁ c₂ d₁ d₂ ra rb sb sa k = elim (Option-cases (get k t.entries)) [
  | inl absent ↦ rw (
    merge-get t₁ b c₂ t₂ k rb,
    merge-get t a c₁ t₁ k ra,
    merge-get u₁ a d₂ u₂ k sa,
    merge-get t b d₁ u₁ k sb,
    absent,
  )
  | inr (e, held) ↦
      rw
        (
          merge-get t₁ b c₂ t₂ k rb,
          merge-get t a c₁ t₁ k ra,
          merge-get u₁ a d₂ u₂ k sa,
          merge-get t b d₁ u₁ k sb,
          held,
        )
        (ap some (absorb_comm k a b e))
]

not-Raised_again :
    (t t₁ u : PriceTable) (a : Dict PriceEntry) (c c' : Bool)
    → merge t a ≡ ok (c, t₁)
    → merge t₁ a ≡ ok (c', u)
    → ¬ Raised t₁ u
not-Raised_again t t₁ u a c c' runs runs' r =
    let (e, held, from) =
      joins-source t t₁ a (λ k. merge-get t a c t₁ k runs) r.task r.before r.held in
    let stays : absorb r.task a r.before ≡ r.before =
      subst (λ x. absorb r.task a x ≡ x) from (absorb_idem r.task a e) in
    let moved : get r.task u.entries ≡ some (absorb r.task a r.before) =
      joins-held t₁ u a (λ k. merge-get t₁ a c' u k runs') r.task r.before r.held in
    let same : r.after ≡ r.before = cc r.holds in
    let higher = r.higher in
    let low : entry_lt r.before r.before ≡ true =
      subst (λ x. entry_lt r.before x ≡ true) same higher in
    irreflexive r.before low
  where
    irreflexive : (e : PriceEntry) → entry_lt e e ≡ true → ⊥
    irreflexive e h = ground arith

-- Merging a table a second time returns False and leaves the price table exactly as it was.
pub merge_again :
    (t t₁ : PriceTable) (a : Dict PriceEntry) (c : Bool)
    → merge t a ≡ ok (c, t₁)
    → merge t₁ a ≡ ok (false, t₁)
merge_again t t₁ a c runs =
    let (c', u, runs', m) = merge_lem t₁ a in
    elim (Bool-cases c') [
      | inl changed ↦ elim (m.loud changed) [
        | inl unset ↦ absurd (cc unset)
        | inr raised ↦ absurd (not-Raised_again t t₁ u a c c' runs runs' raised)
      ]
      | inr same ↦ let (_, kept) = m.quiet same in runs' ∙ ap₂ (λ x y. ok (x, y)) same kept
    ]
