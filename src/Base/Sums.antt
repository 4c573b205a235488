-- ===== src/Base/Sums.antt =====
-- Sums of a function over the items of a list of ints.
use Prim.Native.Nat.{ℕ, suc}
use mathlib.Core.Path.{◌≡◌, refl, ap, sym, ◌∙◌}
use mathlib.Core.Logic.{◌≢◌, ◌⊎◌, inl, inr}
use mathlib.Core.List.{List, [], ◌∷◌}
use native.Mathlib.Omega.{arith}
use distributed_mobile_robot.Base.Tests.{if◌then◌else◌}
use distributed_mobile_robot.Base.Int.{
  ℤ, pos, ◌+ℤ◌, ◌*ℤ◌, ◌≤ℤ◌, ◌==ℤ◌, int_laws, ℤ-cases, ==ℤ_refl, ==ℤ_iff,
}
use distributed_mobile_robot.Base.Lists.{In, Apart, length}

pub pos_suc-mul : (n : ℕ) (e : ℤ) → pos (suc n) *ℤ e ≡ e +ℤ pos n *ℤ e
unfolding ◌*ℤ◌ ◌+ℤ◌
pos_suc-mul n e = grind arith

pub pos_zero-mul : (e : ℤ) → pos 0 *ℤ e ≡ pos 0
unfolding ◌*ℤ◌
pos_zero-mul e = grind arith

module _ (f : ℤ → ℤ) where
  abbrev pub sum : List ℤ → ℤ
  sum [] = pos 0
  sum (x ∷ xs) = f x +ℤ sum xs

  sum_nonneg : ((k : ℤ) → pos 0 ≤ℤ f k) → (xs : List ℤ) → pos 0 ≤ℤ sum xs
  sum_nonneg pos_f [] = omega arith
  sum_nonneg pos_f (x ∷ xs) = omega (int_laws, pos_f x, sum_nonneg pos_f xs)

-- Without the first `k`.
pub remove : ℤ → List ℤ → List ℤ
remove k [] = []
remove k (x ∷ xs) = if x ==ℤ k then xs else x ∷ remove k xs

pub In-remove : (j k : ℤ) (xs : List ℤ) → In j xs → k ≢ j → In j (remove k xs)
unfolding remove
In-remove j k [] h other = absurd h
In-remove j k (x ∷ xs) h other = elim (ℤ-cases x k) [
  | inl same ↦
      rw (same, ==ℤ_refl k)
        (elim h [ inl here ↦ absurd (other (sym same ∙ here)) | inr there ↦ there ])
  | inr differs ↦
      rw differs (elim h [ inl here ↦ inl here | inr there ↦ inr (In-remove j k xs there other) ])
]

pub length-remove : (k : ℤ) (xs : List ℤ) → In k xs → length xs ≡ suc (length (remove k xs))
unfolding remove
length-remove k [] h = absurd h
length-remove k (x ∷ xs) h = elim (ℤ-cases x k) [
  | inl same ↦ rw (same, ==ℤ_refl k) refl
  | inr differs ↦ rw differs (elim h [
    | inl here ↦ absurd (ground (arith, here, ==ℤ_iff x k))
    | inr there ↦ ap suc (length-remove k xs there)
  ])
]

sum-remove :
    (f : ℤ → ℤ) (k : ℤ) (xs : List ℤ)
    → In k xs
    → sum f xs ≤ℤ f k +ℤ sum f (remove k xs) × (f k +ℤ sum f (remove k xs) ≤ℤ sum f xs)
unfolding remove
sum-remove f k [] h = absurd h
sum-remove f k (x ∷ xs) h = elim (ℤ-cases x k) [
  | inl same ↦ rw (same, ==ℤ_refl k) (omega arith, omega arith)
  | inr differs ↦ rw differs (elim h [
    | inl here ↦ absurd (ground (arith, here, ==ℤ_iff x k))
    | inr there ↦ omega (int_laws, sum-remove f k xs there)
  ])
]

-- A sum over different items is at most one over a list that has all those of them with a value
-- that is not 0, where no value is negative.
pub sum-le-sum :
    (f : ℤ → ℤ) (xs ys : List ℤ)
    → ((k : ℤ) → pos 0 ≤ℤ f k)
    → Apart xs
    → ((k : ℤ) → In k xs → (f k ≤ℤ pos 0) ⊎ In k ys)
    → sum f xs ≤ℤ sum f ys
sum-le-sum f [] ys nonneg apart covered = sum_nonneg f nonneg ys
sum-le-sum f (x ∷ xs) ys nonneg apart covered = elim (covered x (inl refl)) [
  | inl zero_x ↦
      let rest = sum-le-sum f xs ys nonneg apart.1 (λ k i. covered k (inr i)) in
      omega (int_laws, rest)
  | inr there ↦
      let rest = sum-le-sum f xs (remove x ys) nonneg apart.1 (λ k i. elim (covered k (inr i)) [
        | inl zero_k ↦ inl zero_k
        | inr k_there ↦ inr (In-remove k x ys k_there (apart.0 k i))
      ]) in
      omega (int_laws, rest, sum-remove f x ys there)
]
