-- ===== src/Allocator/Sentinels.antt =====
-- The ids of idle sentinels, and what a round gives out.
use distributed_mobile_robot.Base.{
  ap, zero, negsuc, ◌≤◌, ℤ-cases, ==ℤ_iff, ℕ, suc, pos, ltb_ℤ, true, ◌≡◌, refl, subst, inl, inr,
  List, [], ◌∷◌, Option, none, some, In, length, Bool-cases, arith,
}
use distributed_mobile_robot.Base.Dict.{Dict, AllItems}
use distributed_mobile_robot.Types.{TaskId}
use distributed_mobile_robot.Harness.Optimal.{tasks_of as assigned}
use distributed_mobile_robot.Allocator.Ready.{below_zero}
use distributed_mobile_robot.Allocator.Counted.{real_count}

-- The ids of the first sentinels.
pub sentinels : ℕ → List TaskId
sentinels zero = []
sentinels (suc n) = negsuc n ∷ sentinels n

pub sentinels-In : (k n : ℕ) → suc k ≤ n → In (negsuc k) (sentinels n)
unfolding sentinels
sentinels-In k zero le = absurd (omega arith)
sentinels-In k (suc n) le = elim (ℤ-cases (negsuc n) (negsuc k)) [
  | inl same ↦ inl same
  | inr other ↦ inr (sentinels-In k n (ground (arith, le, other, ==ℤ_iff (negsuc n) (negsuc k))))
]

pub length-sentinels : (n : ℕ) → length (sentinels n) ≡ n
unfolding sentinels
length-sentinels zero = refl
length-sentinels (suc n) = ap suc (length-sentinels n)

pub sentinels-below : (n : ℕ) (j : TaskId) → In j (sentinels n) → ltb_ℤ j (pos 0) ≡ true
unfolding sentinels
sentinels-below zero j i = absurd i
sentinels-below (suc n) j (inl same) = subst (λ k. ltb_ℤ k (pos 0) ≡ true) same (below_zero n)
sentinels-below (suc n) j (inr i) = sentinels-below n j i

pub length-served :
    (choices : Dict (Option TaskId))
    → AllItems (λ _ choice. choice ≡ none → ⊥) choices
    → length (assigned choices) ≡ length choices
length-served [] h = refl
length-served ((a, none) ∷ choices) h = absurd (h.0 refl)
length-served ((a, some t) ∷ choices) h = ap suc (length-served choices h.1)

pub none_real :
    (choices : Dict (Option TaskId)) (t : TaskId)
    → real_count choices ≡ 0
    → In t (assigned choices)
    → ltb_ℤ t (pos 0) ≡ true
none_real [] t h i = absurd i
none_real ((a, none) ∷ choices) t h i = none_real choices t h i
none_real ((a, some u) ∷ choices) t h i = elim (Bool-cases (ltb_ℤ u (pos 0))) [
  | inl sentinel ↦ elim i [
    | inl same ↦ subst (λ k. ltb_ℤ k (pos 0) ≡ true) same sentinel
    | inr there ↦ none_real choices t (rw sentinel at h) there
  ]
  | inr real ↦ absurd (let bad : suc (real_count choices) ≡ 0 = rw real at h in omega arith)
]

pub assigned-All :
    (P : TaskId → Type 0) (choices : Dict (Option TaskId)) (t : TaskId)
    → AllItems (λ _ choice. (u : TaskId) → choice ≡ some u → P u) choices
    → In t (assigned choices)
    → P t
assigned-All P [] t h i = absurd i
assigned-All P ((a, none) ∷ choices) t h i = assigned-All P choices t h.1 i
assigned-All P ((a, some u) ∷ choices) t h (inl same) = subst P same (h.0 u refl)
assigned-All P ((a, some u) ∷ choices) t h (inr i) = assigned-All P choices t h.1 i
