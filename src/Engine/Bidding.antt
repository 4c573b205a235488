-- ===== src/Engine/Bidding.antt =====
-- The scan of `_place_bid` over net values: it finds a task of the greatest net value, and the
-- greatest of the others.
use distributed_mobile_robot.Base.{
  ℤ, ◌≤ℤ◌, ltb_ℤ, Bool-cases, false, ◌≡◌, refl, ◌∙◌, sym, subst, ◌⊎◌, inl, inr, [], ◌∷◌, Option,
  none, some, arith,
}
use distributed_mobile_robot.Base.Dict.{Dict, AllItems, Item}
use distributed_mobile_robot.Types.{TaskId}
use distributed_mobile_robot.Engine.{Scan, scan_start, consider}

-- The order of the scan's `v` and `w`, where `none` is -inf.
abbrev pub ExtLe : Option ℤ → Option ℤ → Type 0
ExtLe none y = Unit
ExtLe (some x) none = ⊥
ExtLe (some x) (some y) = x ≤ℤ y

ExtLe-refl : (x : Option ℤ) → ExtLe x x
ExtLe-refl none = tt
ExtLe-refl (some x) = omega arith

ExtLe-trans : (x y z : Option ℤ) → ExtLe x y → ExtLe y z → ExtLe x z
ExtLe-trans none y z p q = tt
ExtLe-trans (some x) none z p q = absurd p
ExtLe-trans (some x) (some y) none p q = absurd q
ExtLe-trans (some x) (some y) (some z) p q = omega arith

abbrev pub scanned : TaskId → ℤ → Option ℤ → Scan
scanned best v w = record { best_task = some best; v = some v; w = w }

-- `task` is the one found, at its net value, or its net value is at most the second best.
abbrev pub Bounded : TaskId → ℤ → Option ℤ → TaskId → ℤ → Type 0
Bounded best v w task net = ((task ≡ best) × (net ≡ v)) ⊎ ExtLe (some net) w

-- The scan as a fold over the tasks and their net values.
unfoldable pub consider_all : Dict ℤ → Scan → Scan
consider_all [] s = s
consider_all ((task, net) ∷ nets) s = consider_all nets (consider task net s)

-- One round, from `best`, its value `v` and the second best `w`.
record Considered (task : TaskId) (net : ℤ) (best : TaskId) (v : ℤ) (w : Option ℤ) : Type 0 where
  best' : TaskId
  v' : ℤ
  w' : Option ℤ
  result : consider task net (scanned best v w) ≡ scanned best' v' w'
  ordered : ExtLe w' (some v')
  source : ((best' ≡ best) × (v' ≡ v)) ⊎ (ExtLe (some v) w' × (best' ≡ task) × (v' ≡ net))
  grows : ExtLe w w'
  bound : Bounded best' v' w' task net

consider_lem :
    (task : TaskId) (net : ℤ) (best : TaskId) (v : ℤ) (w : Option ℤ)
    → ExtLe w (some v)
    → Considered task net best v w
unfolding consider
consider_lem task net best v w le = elim (Bool-cases (ltb_ℤ v net)) [
  | inl higher ↦ record {
    best' = task;
    v' = net;
    w' = some v;
    result = rw higher;
    ordered = ground arith;
    source = inr (omega arith, refl, refl);
    grows = le;
    bound = inl (refl, refl);
  }
  | inr lower ↦ below w le lower
]
  where
    below : (w : Option ℤ) → ExtLe w (some v) → ltb_ℤ v net ≡ false → Considered task net best v w
    below none le lower = record {
      best' = best;
      v' = v;
      w' = some net;
      result = rw lower;
      ordered = ground arith;
      source = inl (refl, refl);
      grows = tt;
      bound = inr (omega arith);
    }
    below (some x) le lower = elim (Bool-cases (ltb_ℤ x net)) [
      | inl second ↦ record {
        best' = best;
        v' = v;
        w' = some net;
        result = rw (lower, second);
        ordered = ground arith;
        source = inl (refl, refl);
        grows = ground arith;
        bound = inr (omega arith);
      }
      | inr beaten ↦ record {
        best' = best;
        v' = v;
        w' = some x;
        result = rw (lower, beaten);
        ordered = le;
        source = inl (refl, refl);
        grows = omega arith;
        bound = inr (ground arith);
      }
    ]

-- What the scan has found at its end.
pub record Found (nets : Dict ℤ) (best : TaskId) (v : ℤ) (w : Option ℤ) : Type 0 where
  pub task : TaskId
  pub value : ℤ
  pub second : Option ℤ
  pub result : consider_all nets (scanned best v w) ≡ scanned task value second
  pub ordered : ExtLe second (some value)
  pub source : ((task ≡ best) × (value ≡ v)) ⊎ (ExtLe (some v) second × Item task value nets)
  pub grows : ExtLe w second
  pub bounds : AllItems (Bounded task value second) nets

module _ (task : TaskId) (net : ℤ) (best : TaskId) (v : ℤ) (w : Option ℤ)
    (c : Considered task net best v w) (nets : Dict ℤ) (f : Found nets c.best' c.v' c.w') where
  source_step :
      ((f.task ≡ best) × (f.value ≡ v))
      ⊎ (ExtLe (some v) f.second × Item f.task f.value ((task, net) ∷ nets))
  source_step = elim f.source [
    | inl (same, at) ↦ elim c.source [
      | inl (same', at') ↦ inl (same ∙ same', at ∙ at')
      | inr (le, same', at') ↦
          inr (ExtLe-trans (some v) c.w' _ le f.grows, inl (sym (same ∙ same'), sym (at ∙ at')))
    ]
    | inr (le, item) ↦ elim c.source [
      | inl (same', at') ↦ inr (subst (λ x. ExtLe (some x) f.second) at' le, inr item)
      | inr (le', same', at') ↦ inr (ExtLe-trans (some v) c.w' _ le' f.grows, inr item)
    ]
  ]

  bound_step : Bounded f.task f.value f.second task net
  bound_step = elim c.bound [
    | inl (same', at') ↦ elim f.source [
      | inl (same, at) ↦ inl (same' ∙ sym same, at' ∙ sym at)
      | inr (le, item) ↦ inr (subst (λ x. ExtLe (some x) f.second) (sym at') le)
    ]
    | inr le ↦ inr (ExtLe-trans (some net) c.w' _ le f.grows)
  ]

  Found-cons : Found ((task, net) ∷ nets) best v w
  unfolding consider_all
  Found-cons = record {
    task = f.task;
    value = f.value;
    second = f.second;
    result = rw c.result f.result;
    ordered = f.ordered;
    source = source_step;
    grows = ExtLe-trans w c.w' _ c.grows f.grows;
    bounds = (bound_step, f.bounds);
  }

consider_all_lem :
    (nets : Dict ℤ) (best : TaskId) (v : ℤ) (w : Option ℤ) → ExtLe w (some v) → Found nets best v w
unfolding consider_all
consider_all_lem [] best v w le = record {
  task = best;
  value = v;
  second = w;
  result = refl;
  ordered = le;
  source = inl (refl, refl);
  grows = ExtLe-refl w;
  bounds = tt;
}
consider_all_lem ((task, net) ∷ nets) best v w le =
    let c = consider_lem task net best v w le in
    Found-cons task net best v w c nets (consider_all_lem nets c.best' c.v' c.w' c.ordered)

-- The outcome of the whole scan: an item of greatest value, and a bound for all of the others.
pub record Chosen (nets : Dict ℤ) : Type 0 where
  pub task : TaskId
  pub value : ℤ
  pub second : Option ℤ
  pub result : consider_all nets scan_start ≡ scanned task value second
  pub ordered : ExtLe second (some value)
  pub source : Item task value nets
  pub bounds : AllItems (Bounded task value second) nets

pub choose : (task : TaskId) (net : ℤ) (nets : Dict ℤ) → Chosen ((task, net) ∷ nets)
unfolding consider_all consider
choose task net nets =
    let f = consider_all_lem nets task net none tt in
    record {
      task = f.task;
      value = f.value;
      second = f.second;
      result = f.result;
      ordered = f.ordered;
      source = elim f.source [
        | inl (same, at) ↦ inl (sym same, sym at)
        | inr (le, item) ↦ inr item
      ];
      bounds = (
        elim f.source [ inl (same, at) ↦ inl (sym same, sym at) | inr (le, item) ↦ inr le ],
        f.bounds,
      );
    }
