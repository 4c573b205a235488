-- ===== src/Dag/Accepted.antt =====
-- A DAG that the constructor accepts: all of its tasks stand in an order, prerequisites first.
use distributed_mobile_robot.Base.{
  ◌≤◌, ℤ, pos, ◌==ℤ◌, ◌≡◌, refl, ◌∙◌, ap, sym, subst, ◌⊎◌, inl, inr, List, [], ◌∷◌, some, All, In,
  Apart, length, ℤ-cases, ==ℤ_iff, Bool-cases, arith,
}
use distributed_mobile_robot.Base.Dict.{
  Dict, get, set, keys, values, AllItems, AllItems-set, Item, IsDistinct, IsDistinct-set,
  IsDistinct-of_keys, keys-Apart, get-Item,
}
use distributed_mobile_robot.Base.Sums.{remove, In-remove, length-remove}
use distributed_mobile_robot.Types.{TaskId, Task}
use distributed_mobile_robot.Dag.{by_id, in_degrees, initial_frontier}
use distributed_mobile_robot.Dag.Missing.{missing, missing-nil}
use distributed_mobile_robot.Dag.Visit.{ids, TaskIn, Degrees}
use distributed_mobile_robot.Dag.Kahn.{Kahn}

-- Each task stands under its id, and its prerequisites are a set.
abbrev pub Keyed : Dict Task → Type 0
Keyed = AllItems λ k t. (t.id ≡ k) × Apart t.prerequisites

pub by_id-Keyed :
    (ts : List Task) (d : Dict Task)
    → All (λ (t : Task). Apart t.prerequisites) ts
    → Keyed d
    → IsDistinct d
    → Keyed (by_id d ts) × IsDistinct (by_id d ts)
unfolding by_id
by_id-Keyed [] d sets keyed distinct = (keyed, distinct)
by_id-Keyed (t ∷ ts) d sets keyed distinct =
    by_id-Keyed ts (set t.id t d) sets.1
      (AllItems-set (λ k t. (t.id ≡ k) × Apart t.prerequisites) t.id t d (refl, sets.0) keyed)
      (IsDistinct-set t.id t d distinct)

pub Keyed-ids : (d : Dict Task) → Keyed d → ids (values d) ≡ keys d
Keyed-ids [] keyed = refl
Keyed-ids ((k, t) ∷ d) keyed =
    ap (λ (x : ℤ). x ∷ ids (values d)) keyed.0.0
    ∙ ap (λ (xs : List ℤ). k ∷ xs) (Keyed-ids d keyed.1)

pub Keyed-sets : (d : Dict Task) → Keyed d → All (λ (t : Task). Apart t.prerequisites) (values d)
Keyed-sets [] keyed = tt
Keyed-sets ((k, t) ∷ d) keyed = (keyed.0.1, Keyed-sets d keyed.1)

in_degrees-keys : (d : Dict Task) → keys (in_degrees d) ≡ keys d
unfolding in_degrees
in_degrees-keys [] = refl
in_degrees-keys ((k, t) ∷ d) = ap (λ (xs : List ℤ). k ∷ xs) (in_degrees-keys d)

in_degrees-Degrees :
    (d : Dict Task) (all : Dict ℤ)
    → Keyed d
    → IsDistinct all
    → ((k : TaskId) (n : ℤ) → Item k n (in_degrees d) → Item k n all)
    → Degrees [] all (values d)
unfolding in_degrees
in_degrees-Degrees [] all keyed distinct sub = tt
in_degrees-Degrees ((k, t) ∷ d) all keyed distinct sub = (
  subst (λ j. get j all ≡ some (pos (missing [] t.prerequisites))) (sym keyed.0.0)
      (get-Item k _ all distinct (
        subst (λ n. Item k (pos n) all) (sym (missing-nil t.prerequisites))
          (sub k _ (inl (refl, refl))))),
  in_degrees-Degrees d all keyed.1 distinct λ j n i. sub j n (inr i),
)

-- The initial frontier: the ids of degree 0.
initial_frontier-In :
    (degs : Dict ℤ) (f : List TaskId) (y : TaskId)
    → In y (initial_frontier degs f)
    → In y f ⊎ Item y (pos 0) degs
unfolding initial_frontier
initial_frontier-In [] f y i = inl i
initial_frontier-In ((k, n) ∷ degs) f y i = elim (ℤ-cases n (pos 0)) [
  | inl free ↦
      let i' = rw free at i in
      elim (initial_frontier-In degs (k ∷ f) y i') [
        | inl front ↦ elim front [ inl here ↦ inr (inl (here, free)) | inr old ↦ inl old ]
        | inr later ↦ inr (inr later)
      ]
  | inr waits ↦ elim (initial_frontier-In degs f y (rw waits at i)) [
    | inl old ↦ inl old
    | inr later ↦ inr (inr later)
  ]
]

Item-keys : (k : ℤ) (n : ℤ) (d : Dict ℤ) → Item k n d → In k (keys d)
Item-keys k n [] i = absurd i
Item-keys k n ((j, m) ∷ d) (inl (same, held)) = inl same
Item-keys k n ((j, m) ∷ d) (inr i) = inr (Item-keys k n d i)

initial_frontier-Apart :
    (degs : Dict ℤ) (f : List TaskId)
    → Apart (keys degs)
    → Apart f
    → ((y : TaskId) → In y f → In y (keys degs) → ⊥)
    → Apart (initial_frontier degs f)
unfolding initial_frontier
initial_frontier-Apart [] f apart apart_f new = apart_f
initial_frontier-Apart ((k, n) ∷ degs) f apart apart_f new = elim (Bool-cases (n ==ℤ pos 0)) [
  | inl free ↦ rw free (
      initial_frontier-Apart degs (k ∷ f) apart.1 ((λ y i same. new y i (inl same)), apart_f)
        λ y i j. elim i [ inl here ↦ apart.0 y j here | inr old ↦ new y old (inr j) ])
  | inr waits ↦ rw waits (initial_frontier-Apart degs f apart.1 apart_f λ y i j. new y i (inr j))
]

Item-Ready :
    (d : Dict Task) (y : TaskId)
    → Keyed d
    → Item y (pos 0) (in_degrees d)
    → (t : Task) × TaskIn t (values d) × (t.id ≡ y) × (length t.prerequisites ≡ 0)
unfolding in_degrees
Item-Ready [] y keyed i = absurd i
Item-Ready ((k, t) ∷ d) y keyed (inl (same, zero_deg)) =
    (t, inl refl, keyed.0.0 ∙ same, ground (arith, zero_deg))
Item-Ready ((k, t) ∷ d) y keyed (inr i) =
    let (s, listed, id, none_left) = Item-Ready d y keyed.1 i in (s, inr listed, id, none_left)

pub initial-Kahn :
    (d : Dict Task)
    → Keyed d
    → IsDistinct d
    → Kahn (values d) [] (in_degrees d) (initial_frontier (in_degrees d) [])
initial-Kahn d keyed distinct =
    let apart_keys : Apart (keys (in_degrees d)) =
      subst Apart (sym (in_degrees-keys d)) (keys-Apart d distinct) in
    record {
      degrees =
          in_degrees-Degrees d (in_degrees d) keyed (IsDistinct-of_keys (in_degrees d) apart_keys)
            λ k n i. i;
      apart_frontier =
          initial_frontier-Apart (in_degrees d) [] apart_keys tt λ y none_yet j. absurd none_yet;
      apart_order = tt;
      disjoint = λ y i none_yet. absurd none_yet;
      ready = λ y place. elim place [
        | inl i ↦ elim (initial_frontier-In (in_degrees d) [] y i) [
          | inl none_yet ↦ absurd none_yet
          | inr item ↦
              let (t, listed, id, none_left) = Item-Ready d y keyed item in
              record {
                task = t;
                listed = listed;
                id = id;
                waits = missing-nil t.prerequisites ∙ none_left;
              }
        ]
        | inr none_yet ↦ absurd none_yet
      ];
      sorted_order = tt;
    }

-- A list of different items that is as long as one that it lies in has all of its items.
pub fills :
    (xs ys : List ℤ)
    → Apart xs
    → ((k : ℤ) → In k xs → In k ys)
    → length ys ≤ length xs
    → (k : ℤ) → In k ys
    → In k xs
fills [] [] apart sub le k i = absurd i
fills [] (y ∷ ys) apart sub le k i = absurd (omega arith)
fills (x ∷ xs) ys apart sub le k i = elim (ℤ-cases x k) [
  | inl same ↦ inl same
  | inr other ↦
      let shorter = length-remove x ys (sub x (inl refl)) in
      inr (
        fills xs (remove x ys) apart.1
          (λ j there. In-remove j x ys (sub j (inr there)) (apart.0 j there))
          (omega (arith, shorter)) k
          (In-remove k x ys i λ same. ground (arith, same, ==ℤ_iff x k, other)))
]

pub Apart-fits : (xs ys : List ℤ) → Apart xs → ((k : ℤ) → In k xs → In k ys) → length xs ≤ length ys
Apart-fits [] ys apart sub = omega arith
Apart-fits (x ∷ xs) ys apart sub =
    let shorter = length-remove x ys (sub x (inl refl)) in
    let rest =
      Apart-fits xs (remove x ys) apart.1 λ j i. In-remove j x ys (sub j (inr i)) (apart.0 j i) in
    omega (arith, shorter, rest)
