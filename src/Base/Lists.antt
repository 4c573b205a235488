-- ===== src/Base/Lists.antt =====
-- Lists and predicates on them, over the native numbers.
use Prim.Native.Nat.{ℕ, suc}
use mathlib.Core.Bool.{Bool, true, false, ◌&&◌, ◌||◌}
use mathlib.Core.Path.{◌≡◌}
use mathlib.Core.Logic.{◌≢◌, ◌⊎◌, inl, inr}
use mathlib.Core.List.{List, [], ◌∷◌, ◌++◌}
use distributed_mobile_robot.Base.Tests.{if◌then◌else◌, Bool-cases}
use distributed_mobile_robot.Base.Int.{ℤ, ◌==ℤ◌, leb_ℤ}

module _ {ℓ} {A : Type ℓ} where
  abbrev pub length : List A → ℕ
  length [] = 0
  length (x ∷ xs) = suc (length xs)

  -- `[x for x in xs if keep(x)]`
  abbrev pub select : (A → Bool) → List A → List A
  select keep [] = []
  select keep (x ∷ xs) = if keep x then x ∷ select keep xs else select keep xs

  -- `all(holds(x) for x in xs)`, as a tuple of proofs.
  abbrev pub All {κ} : (A → Type κ) → List A → Type κ
  All Holds (x ∷ xs) = Holds x × All Holds xs
  All Holds [] = Unit

  pub All-append {κ} :
      (Holds : A → Type κ) (xs ys : List A) → All Holds xs → All Holds ys → All Holds (xs ++ ys)
  All-append Holds (x ∷ xs) ys front back = (front.0, All-append Holds xs ys front.1 back)
  All-append Holds [] ys front back = back

  pub All-both {κ μ} :
      (P : A → Type κ) (Q : A → Type μ) (xs : List A)
      → All P xs
      → All Q xs
      → All (λ x. P x × Q x) xs
  All-both P Q [] h i = tt
  All-both P Q (x ∷ xs) h i = ((h.0, i.0), All-both P Q xs h.1 i.1)

  pub select-All {κ} :
      (P : A → Type κ) (keep : A → Bool) (xs : List A) → All P xs → All P (select keep xs)
  select-All P keep [] h = tt
  select-All P keep (x ∷ xs) h = elim (Bool-cases (keep x)) [
    | inl kept ↦ rw kept (h.0, select-All P keep xs h.1)
    | inr dropped ↦ rw dropped (select-All P keep xs h.1)
  ]

  pub All-mono {κ μ} :
      (P : A → Type κ) (Q : A → Type μ)
      → ((x : A) → P x → Q x)
      → (xs : List A) → All P xs
      → All Q xs
  All-mono P Q f [] h = tt
  All-mono P Q f (x ∷ xs) h = (f x h.0, All-mono P Q f xs h.1)

-- `x in xs`, for ints.
abbrev pub contains : ℤ → List ℤ → Bool
contains k [] = false
contains k (x ∷ xs) = x ==ℤ k || contains k xs

-- `k in xs`, as a proposition with its place.
abbrev pub In : ℤ → List ℤ → Type 0
In k [] = ⊥
In k (x ∷ xs) = (x ≡ k) ⊎ In k xs

pub In-append : (k : ℤ) (xs ys : List ℤ) → In k (xs ++ ys) → In k xs ⊎ In k ys
In-append k [] ys i = inr i
In-append k (x ∷ xs) ys (inl same) = inl (inl same)
In-append k (x ∷ xs) ys (inr i) = elim (In-append k xs ys i) [
  | inl front ↦ inl (inr front)
  | inr back ↦ inr back
]

pub In-append_one : (k : ℤ) (xs : List ℤ) (y : ℤ) → In k (xs ++ y ∷ []) → In k xs ⊎ (y ≡ k)
In-append_one k xs y i = elim (In-append k xs (y ∷ []) i) [
  | inl front ↦ inl front
  | inr last ↦ elim last [ inl same ↦ inr same | inr none_left ↦ absurd none_left ]
]

pub In-append_left : (k : ℤ) (xs ys : List ℤ) → In k xs → In k (xs ++ ys)
In-append_left k [] ys i = absurd i
In-append_left k (x ∷ xs) ys (inl same) = inl same
In-append_left k (x ∷ xs) ys (inr i) = inr (In-append_left k xs ys i)

pub In-append_right : (k : ℤ) (xs ys : List ℤ) → In k ys → In k (xs ++ ys)
In-append_right k [] ys i = i
In-append_right k (x ∷ xs) ys i = inr (In-append_right k xs ys i)

-- The items are different.
abbrev pub Apart : List ℤ → Type 0
Apart [] = Unit
Apart (x ∷ xs) = ((k : ℤ) → In k xs → x ≢ k) × Apart xs

unfoldable pub insert_sorted : ℤ → List ℤ → List ℤ
insert_sorted k [] = k ∷ []
insert_sorted k (x ∷ xs) = if leb_ℤ k x then k ∷ x ∷ xs else x ∷ insert_sorted k xs

-- `sorted(xs)`, for ints.
unfoldable pub sorted : List ℤ → List ℤ
unfolding insert_sorted
sorted [] = []
sorted (x ∷ xs) = insert_sorted x (sorted xs)

-- `xs <= ys`, as sets.
abbrev pub is_subset : List ℤ → List ℤ → Bool
is_subset [] ys = true
is_subset (x ∷ xs) ys = contains x ys && is_subset xs ys
