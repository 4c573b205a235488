-- ===== src/Prices/Merge.antt =====
-- `PriceTable.merge`: it never fails, and takes the entry-wise maximum.
use mathlib.Core.Option
use distributed_mobile_robot.Base.{
  ◌==ℤ◌, eq_of_parts, Bool, true, false, if◌then◌else◌, ◌≡◌, refl, ◌∙◌, subst, ◌⊎◌, inl, inr, [],
  ◌∷◌, none, some, Option-cases, Bool-cases, ℤ-cases, ==ℤ_iff, ok, arith,
}
use distributed_mobile_robot.Base.Dict.{Dict, get, set, get-set, Item, Item-set}
use distributed_mobile_robot.Types.{TaskId, PriceEntry, entry_lt, entry_max}
use distributed_mobile_robot.Prices.Order.{
  EntryLe, EntryLe-refl, EntryLe-trans, le-entry_max_left, entry_lt-le_trans, le-entry_lt_trans,
}
use distributed_mobile_robot.Prices.{PriceTable, merge_entry, merge_loop, merge}

-- The join of an entry with all of the incoming entries for task `k`.
abbrev pub absorb : TaskId → Dict PriceEntry → PriceEntry → PriceEntry
absorb k [] e = e
absorb k ((j, f) ∷ incoming) e = absorb k incoming (if j ==ℤ k then entry_max e f else e)

abbrev pub join_at : TaskId → TaskId → PriceEntry → PriceEntry → PriceEntry
join_at j k f e = if j ==ℤ k then entry_max e f else e

-- Some entry stands strictly higher in `t'` than in `t`.
pub record Raised (t t' : PriceTable) : Type 0 where
  pub task : TaskId
  pub before : PriceEntry
  pub after : PriceEntry
  pub held : get task t.entries ≡ some before
  pub holds : get task t'.entries ≡ some after
  pub higher : entry_lt before after ≡ true

-- What the loop of `merge` does with the incoming entries: `joins` gives the new table, and the
-- flag says whether the table changed.
pub record Merged (incoming : Dict PriceEntry) (c : Bool) (t : PriceTable) (c' : Bool)
    (t' : PriceTable) : Type 0 where
  pub joins : (k : TaskId) → get k t'.entries ≡ Option.map (absorb k incoming) (get k t.entries)
  pub items :
      (k : TaskId) (r : PriceEntry) → Item k r t'.entries → Item k r t.entries ⊎ Item k r incoming
  pub quiet : c' ≡ false → (c ≡ false) × (t' ≡ t)
  pub loud : c' ≡ true → (c ≡ true) ⊎ Raised t t'

merge_entry_lem :
    (j : TaskId) (f : PriceEntry) (c : Bool) (t : PriceTable)
    → (c' : Bool) × (t' : PriceTable) × (merge_entry j f (c, t) ≡ ok (c', t'))
      × Merged ((j, f) ∷ []) c t c' t'
unfolding merge_entry
merge_entry_lem j f c t = elim (Option-cases (get j t.entries)) [
  | inl absent ↦ (
    c,
    t,
    rw (absent, merge_entry),
    record {
      joins = λ k. ground (arith, eq_of_parts j k);
      items = λ k r. inl;
      quiet = λ e. (e, refl);
      loud = inl;
    },
  )
  | inr (ours, held) ↦ elim (Bool-cases (entry_lt ours f)) [
    | inl higher ↦ (
      true,
      record { entries = set j f t.entries },
      rw (held, merge_entry) (ground arith),
      record {
        joins = λ k. ground (arith, eq_of_parts j k, get-set j k f t.entries);
        items = λ k r i. elim (Item-set j f k r t.entries i) [
          | inl new ↦ inr (inl new)
          | inr old ↦ inl old
        ];
        quiet = λ e. cc;
        loud = λ _. inr (record {
          task = j;
          before = ours;
          after = f;
          held = held;
          holds = ground (arith, get-set j j f t.entries);
          higher = higher;
        });
      },
    )
    | inr lower ↦ (
      c,
      t,
      rw (held, merge_entry) (ground arith),
      record {
        joins = λ k. ground (arith, eq_of_parts j k);
        items = λ k r. inl;
        quiet = λ e. (e, refl);
        loud = inl;
      },
    )
  ]
]

pub absorb-ge :
    (k : TaskId) (incoming : Dict PriceEntry) (e : PriceEntry) → EntryLe e (absorb k incoming e)
absorb-ge k [] e = EntryLe-refl e
absorb-ge k ((j, f) ∷ incoming) e =
    EntryLe-trans e (join_at j k f e) _ (ground (arith, le-entry_max_left e f))
      (absorb-ge k incoming (join_at j k f e))

Raised-grows :
    (t u v : PriceTable) (incoming : Dict PriceEntry)
    → ((k : TaskId) → get k v.entries ≡ Option.map (absorb k incoming) (get k u.entries))
    → Raised t u
    → Raised t v
Raised-grows t u v incoming joins r = record {
  task = r.task;
  before = r.before;
  after = absorb r.task incoming r.after;
  held = r.held;
  holds = rw (joins r.task, r.holds);
  higher = entry_lt-le_trans r.before r.after _ r.higher (absorb-ge r.task incoming r.after);
}

Raised-starts :
    (t u v : PriceTable) (incoming : Dict PriceEntry)
    → ((k : TaskId) → get k u.entries ≡ Option.map (absorb k incoming) (get k t.entries))
    → Raised u v
    → Raised t v
Raised-starts t u v incoming joins r = elim (Option-cases (get r.task t.entries)) [
  | inl absent ↦ absurd (ground (arith, joins r.task))
  | inr (e, held) ↦ record {
    task = r.task;
    before = e;
    after = r.after;
    held = held;
    holds = r.holds;
    higher =
        le-entry_lt_trans e r.before r.after
          (subst (EntryLe e) (ground (arith, joins r.task)) (absorb-ge r.task incoming e)) r.higher;
  }
]

Merged-trans :
    (j : TaskId) (f : PriceEntry) (incoming : Dict PriceEntry) (c c₁ c₂ : Bool)
    (t t₁ t₂ : PriceTable)
    → Merged ((j, f) ∷ []) c t c₁ t₁
    → Merged incoming c₁ t₁ c₂ t₂
    → Merged ((j, f) ∷ incoming) c t c₂ t₂
Merged-trans j f incoming c c₁ c₂ t t₁ t₂ m₁ m₂ = record {
  joins = λ k. ground (arith, m₁.joins k, m₂.joins k);
  items = λ k r i. elim (m₂.items k r i) [
    | inl old ↦ elim (m₁.items k r old) [
      | inl older ↦ inl older
      | inr (inl new) ↦ inr (inl new)
      | inr (inr no_more) ↦ absurd no_more
    ]
    | inr new ↦ inr (inr new)
  ];
  quiet = λ e.
      let (unset, same) = m₂.quiet e in
      let (unset', same') = m₁.quiet unset in (unset', same ∙ same');
  loud = λ e. elim (m₂.loud e) [
    | inl set ↦ elim (m₁.loud set) [
      | inl already ↦ inl already
      | inr raised ↦ inr (Raised-grows t t₁ t₂ incoming m₂.joins raised)
    ]
    | inr raised ↦ inr (Raised-starts t t₁ t₂ ((j, f) ∷ []) m₁.joins raised)
  ];
}

merge_loop_lem :
    (incoming : Dict PriceEntry) (c : Bool) (t : PriceTable)
    → (c' : Bool) × (t' : PriceTable) × (merge_loop incoming (c, t) ≡ ok (c', t'))
      × Merged incoming c t c' t'
unfolding merge_loop
merge_loop_lem [] c t = (
  c,
  t,
  refl,
  record { joins = λ k. ground arith; items = λ k r. inl; quiet = λ e. (e, refl); loud = inl },
)
merge_loop_lem ((j, f) ∷ incoming) c t =
    let (c₁, t₁, e₁, m₁) = merge_entry_lem j f c t in
    let (c₂, t₂, e₂, m₂) = merge_loop_lem incoming c₁ t₁ in
    (c₂, t₂, rw e₁ e₂, Merged-trans j f incoming c c₁ c₂ t t₁ t₂ m₁ m₂)

-- merge never fails its assertion: for each task it leaves the maximum of the table's entry and all
-- incoming entries for the task, adds no task, and each entry of the result is an old one or an
-- incoming one. It returns False only with the table unchanged, and True only if some entry has
-- strictly risen.
pub merge_lem :
    (t : PriceTable) (incoming : Dict PriceEntry)
    → (c' : Bool) × (t' : PriceTable) × (merge t incoming ≡ ok (c', t'))
      × Merged incoming false t c' t'
unfolding merge
merge_lem t incoming = merge_loop_lem incoming false t

-- The joined entry is the old one or an incoming one.
pub absorb_source :
    (k : TaskId) (incoming : Dict PriceEntry) (e : PriceEntry)
    → (absorb k incoming e ≡ e) ⊎ Item k (absorb k incoming e) incoming
absorb_source k [] e = inl refl
absorb_source k ((j, f) ∷ incoming) e = elim (absorb_source k incoming (join_at j k f e)) [
  | inl kept ↦ elim (ℤ-cases j k) [
    | inl same ↦ elim (Bool-cases (entry_lt e f)) [
      | inl higher ↦ inr (inl (same, ground (arith, kept, ==ℤ_iff j k)))
      | inr lower ↦ inl (ground (arith, kept))
    ]
    | inr other ↦ inl (ground (arith, kept))
  ]
  | inr new ↦ inr (inr new)
]

module _ (t t' : PriceTable) (incoming : Dict PriceEntry)
    (joins : (k : TaskId)
      → get k t'.entries ≡ Option.map (absorb k incoming) (get k t.entries)) where
  pub joins-held :
      (k : TaskId) (e : PriceEntry)
      → get k t.entries ≡ some e
      → get k t'.entries ≡ some (absorb k incoming e)
  joins-held k e held = rw (joins k, held)

  pub joins-absent : (k : TaskId) → get k t.entries ≡ none → get k t'.entries ≡ none
  joins-absent k absent = rw (joins k, absent)

  -- An entry of the new table comes from one of the old.
  pub joins-source :
      (k : TaskId) (r : PriceEntry)
      → get k t'.entries ≡ some r
      → (e : PriceEntry) × (get k t.entries ≡ some e) × (absorb k incoming e ≡ r)
  joins-source k r held = elim (Option-cases (get k t.entries)) [
    | inl absent ↦ absurd (ground (arith, joins k))
    | inr (e, held') ↦ (e, held', ground (arith, joins k))
  ]
