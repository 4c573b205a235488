-- ===== src/Base/Dict.antt =====
-- Python's `dict` with int keys, as its list of items in insertion order. (The values stand in
-- `Type 0`, as all of the program's do: the arithmetic tactics split cases there only.)
use mathlib.Core.Path.{◌≡◌, refl, ap, subst}
use mathlib.Core.Logic.{◌⊎◌, inl, inr}
use mathlib.Core.Bool.{Bool, true, false}
use mathlib.Core.Option.{Option, none, some}
use mathlib.Core.List.{List, [], ◌∷◌, map}
use native.Mathlib.Omega.{arith}
use distributed_mobile_robot.Base.Tests.{if◌then◌else◌, Bool-cases}
use distributed_mobile_robot.Base.Int.{ℤ, ◌==ℤ◌, eq_of_parts, ==ℤ_iff, ==ℤ_refl, ℤ-cases}
use distributed_mobile_robot.Base.Lists.{All, select, In, Apart, length}
use distributed_mobile_robot.Base.Raises.{Result, ok, err, key_error}

abbrev pub Dict : Type 0 → Type 0
Dict V = List (ℤ × V)

module _ {V : Type 0} where
  -- `d.get(k)`
  unfoldable pub get : ℤ → Dict V → Option V
  get k [] = none
  get k ((j, v) ∷ d) = if j ==ℤ k then some v else get k d

  -- `d[k]`
  abbrev pub or_key_error : Option V → Result V
  or_key_error none = err key_error
  or_key_error (some v) = ok v

  pub or_key_error-inv : (o : Option V) (v : V) → or_key_error o ≡ ok v → o ≡ some v
  or_key_error-inv none v h = cc
  or_key_error-inv (some w) v h = cc

  -- `d[k] = v`: in place, or at the end.
  unfoldable pub set : ℤ → V → Dict V → Dict V
  set k v [] = (k, v) ∷ []
  set k v ((j, w) ∷ d) = if j ==ℤ k then (j, v) ∷ d else (j, w) ∷ set k v d

  -- `del d[k]` of a key that is there
  unfoldable pub del : ℤ → Dict V → Dict V
  del k [] = []
  del k ((j, w) ∷ d) = if j ==ℤ k then d else (j, w) ∷ del k d

  -- `k in d`
  abbrev pub is_some : Option V → Bool
  is_some none = false
  is_some (some v) = true

  abbrev pub keys : Dict V → List ℤ
  keys = map λ item. item.0

  abbrev pub values : Dict V → List V
  values = map λ item. item.1

  pub get-set :
      (k j : ℤ) (v : V) (d : Dict V) → get j (set k v d) ≡ (if k ==ℤ j then some v else get j d)
  unfolding get set
  get-set k j v [] = refl
  get-set k j v ((i, w) ∷ d) =
      ground (arith, eq_of_parts k j, eq_of_parts i k, eq_of_parts i j, get-set k j v d)

  -- A predicate on every item.
  abbrev pub AllItems {κ} : (ℤ → V → Type κ) → Dict V → Type κ
  AllItems P = All λ item. P item.0 item.1

  pub AllItems-get :
      (P : ℤ → V → Type 0) (k : ℤ) (v : V) (d : Dict V) → AllItems P d → get k d ≡ some v → P k v
  unfolding get
  AllItems-get P k v [] h e = cc
  AllItems-get P k v ((j, w) ∷ d) h e = elim (ℤ-cases j k) [
    | inl same ↦
        let held : w ≡ v = ground (arith, ==ℤ_iff j k) in
        subst (λ i. P i v) same (subst (P j) held h.0)
    | inr other ↦ AllItems-get P k v d h.1 (rw other at e)
  ]

  pub AllItems-del {κ} :
      (P : ℤ → V → Type κ) (k : ℤ) (d : Dict V) → AllItems P d → AllItems P (del k d)
  unfolding del
  AllItems-del P k [] h = tt
  AllItems-del P k ((j, w) ∷ d) h = elim (Bool-cases (j ==ℤ k)) [
    | inl same ↦ rw same h.1
    | inr other ↦ rw other (h.0, AllItems-del P k d h.1)
  ]

  pub AllItems-set :
      (P : ℤ → V → Type 0) (k : ℤ) (v : V) (d : Dict V)
      → P k v
      → AllItems P d
      → AllItems P (set k v d)
  unfolding set
  AllItems-set P k v [] p h = (p, tt)
  AllItems-set P k v ((j, w) ∷ d) p h = elim (ℤ-cases j k) [
    | inl same ↦ rw (same, ==ℤ_refl k) (p, h.1)
    | inr other ↦ rw other (h.0, AllItems-set P k v d p h.1)
  ]

  -- `(k, v)` is an item.
  abbrev pub Item : ℤ → V → Dict V → Type 0
  Item k v [] = ⊥
  Item k v ((j, w) ∷ d) = ((j ≡ k) × (w ≡ v)) ⊎ Item k v d

  pub AllItems-Item {κ} :
      (P : ℤ → V → Type κ) (k : ℤ) (v : V) (d : Dict V) → AllItems P d → Item k v d → P k v
  AllItems-Item P k v [] h i = absurd i
  AllItems-Item P k v ((j, w) ∷ d) h (inl (same, held)) =
      subst (λ x. P x v) same (subst (P j) held h.0)
  AllItems-Item P k v ((j, w) ∷ d) h (inr i) = AllItems-Item P k v d h.1 i

  pub Item-get : (k : ℤ) (v : V) (d : Dict V) → get k d ≡ some v → Item k v d
  unfolding get
  Item-get k v [] e = cc
  Item-get k v ((j, w) ∷ d) e = elim (ℤ-cases j k) [
    | inl same ↦ inl (same, ground (arith, ==ℤ_iff j k))
    | inr other ↦ inr (Item-get k v d (rw other at e))
  ]

  pub Item-set :
      (j : ℤ) (w : V) (k : ℤ) (v : V) (d : Dict V)
      → Item k v (set j w d)
      → ((j ≡ k) × (w ≡ v)) ⊎ Item k v d
  unfolding set
  Item-set j w k v [] i = i
  Item-set j w k v ((i, u) ∷ d) item = elim (ℤ-cases i j) [
    | inl same ↦ in_place same (rw (same, ==ℤ_refl j) at item)
    | inr other ↦ behind (rw other at item) (Item-set j w k v d)
  ]
    where
      in_place :
          i ≡ j → ((j ≡ k) × (w ≡ v)) ⊎ Item k v d → ((j ≡ k) × (w ≡ v)) ⊎ Item k v ((i, u) ∷ d)
      in_place same (inl h) = inl h
      in_place same (inr r) = inr (inr r)

      behind :
          Item k v ((i, u) ∷ set j w d)
          → (Item k v (set j w d) → ((j ≡ k) × (w ≡ v)) ⊎ Item k v d)
          → ((j ≡ k) × (w ≡ v)) ⊎ Item k v ((i, u) ∷ d)
      behind (inl h) rest = inr (inl h)
      behind (inr r) rest = elim (rest r) [ inl h ↦ inl h | inr r' ↦ inr (inr r') ]

  pub get-set_self : (k : ℤ) (v : V) (d : Dict V) → get k (set k v d) ≡ some v
  get-set_self k v d = rw (get-set k k v d, ==ℤ_refl k)

  pub get-set_ne : (k j : ℤ) (v : V) (d : Dict V) → (k ==ℤ j) ≡ false → get j (set k v d) ≡ get j d
  get-set_ne k j v d other = rw (get-set k j v d, other)

  pub set-keys : (k : ℤ) (v w : V) (d : Dict V) → get k d ≡ some v → keys (set k w d) ≡ keys d
  unfolding get set
  set-keys k v w [] held = cc
  set-keys k v w ((j, u) ∷ d) held = elim (Bool-cases (j ==ℤ k)) [
    | inl same ↦ rw same
    | inr other ↦ rw other (ap (λ (ks : List ℤ). j ∷ ks) (set-keys k v w d (rw other at held)))
  ]

  -- Each key stands once, as in any dict.
  abbrev pub IsDistinct : Dict V → Type 0
  IsDistinct [] = Unit
  IsDistinct ((k, v) ∷ d) = AllItems (λ j _. (k ==ℤ j) ≡ false) d × IsDistinct d

  pub get_absent : (k : ℤ) (d : Dict V) → AllItems (λ j _. (k ==ℤ j) ≡ false) d → get k d ≡ none
  unfolding get
  get_absent k [] h = refl
  get_absent k ((j, v) ∷ d) h = ground (arith, h.0, get_absent k d h.1)

  apart-set :
      (i k : ℤ) (v : V) (d : Dict V)
      → (i ==ℤ k) ≡ false
      → AllItems (λ j _. (i ==ℤ j) ≡ false) d
      → AllItems (λ j _. (i ==ℤ j) ≡ false) (set k v d)
  apart-set i k v d = AllItems-set (λ j _. (i ==ℤ j) ≡ false) k v d

  pub IsDistinct-set : (k : ℤ) (v : V) (d : Dict V) → IsDistinct d → IsDistinct (set k v d)
  unfolding set
  IsDistinct-set k v [] h = (tt, tt)
  IsDistinct-set k v ((j, w) ∷ d) h = elim (Bool-cases (j ==ℤ k)) [
    | inl same ↦ rw same h
    | inr other ↦ rw other (apart-set j k v d other h.0, IsDistinct-set k v d h.1)
  ]

  pub IsDistinct-del : (k : ℤ) (d : Dict V) → IsDistinct d → IsDistinct (del k d)
  unfolding del
  IsDistinct-del k [] h = tt
  IsDistinct-del k ((j, w) ∷ d) h = elim (Bool-cases (j ==ℤ k)) [
    | inl same ↦ rw same h.1
    | inr other ↦ rw other (AllItems-del (λ i _. (j ==ℤ i) ≡ false) k d h.0, IsDistinct-del k d h.1)
  ]

  pub get-del_self : (k : ℤ) (d : Dict V) → IsDistinct d → get k (del k d) ≡ none
  unfolding get del
  get-del_self k [] h = refl
  get-del_self k ((j, w) ∷ d) h = elim (ℤ-cases j k) [
    | inl same ↦ rw (same, ==ℤ_refl k) (subst (λ i. get i d ≡ none) same (get_absent j d h.0))
    | inr other ↦ rw other (rw other (get-del_self k d h.1))
  ]

  pub get-del_ne : (k j : ℤ) (d : Dict V) → (k ==ℤ j) ≡ false → get j (del k d) ≡ get j d
  unfolding get del
  get-del_ne k j [] other = refl
  get-del_ne k j ((i, w) ∷ d) other =
      ground (arith, get-del_ne k j d other, eq_of_parts i k, eq_of_parts i j)

  -- Keeping the items whose value passes a test.
  pub get-select :
      (f : V → Bool) (k : ℤ) (d : Dict V)
      → IsDistinct d
      → get k (select (λ item. f item.1) d)
        ≡ elim (get k d) [ none ↦ none | some v ↦ if f v then some v else none ]
  unfolding get
  get-select f k [] h = refl
  get-select f k ((j, w) ∷ d) h = elim (ℤ-cases j k) [
    | inl same ↦
        let absent : get k d ≡ none = subst (λ i. get i d ≡ none) same (get_absent j d h.0) in
        let rest = get-select f k d h.1 in ground (arith, rest, absent, ==ℤ_iff j k)
    | inr other ↦ let rest = get-select f k d h.1 in ground (arith, rest)
  ]

  pub AllItems-of_get :
      (P : ℤ → V → Type 0) (d : Dict V)
      → IsDistinct d
      → ((k : ℤ) (v : V) → get k d ≡ some v → P k v)
      → AllItems P d
  unfolding get
  AllItems-of_get P [] h all = tt
  AllItems-of_get P ((k, v) ∷ d) h all = (
    all k v (rw (==ℤ_refl k)),
    AllItems-of_get P d h.1 λ j w held. all j w (elim (ℤ-cases k j) [
      | inl same ↦ absurd (clash j w same held)
      | inr other ↦ rw other held
    ]),
  )
    where
      clash : (j : ℤ) (w : V) → k ≡ j → get j d ≡ some w → ⊥
      clash j w same held = cc (subst (λ i. get i d ≡ none) same (get_absent k d h.0))

  pub get-Item : (k : ℤ) (v : V) (d : Dict V) → IsDistinct d → Item k v d → get k d ≡ some v
  unfolding get
  get-Item k v [] h i = absurd i
  get-Item k v ((j, w) ∷ d) h (inl (same, held)) = rw (same, ==ℤ_refl k, held)
  get-Item k v ((j, w) ∷ d) h (inr i) = elim (ℤ-cases j k) [
    | inl same ↦
        let absent = subst (λ x. get x d ≡ none) same (get_absent j d h.0) in
        let there = get-Item k v d h.1 i in absurd (cc)
    | inr other ↦ rw other (get-Item k v d h.1 i)
  ]

  pub keys-In : (k : ℤ) (v : V) (d : Dict V) → get k d ≡ some v → In k (keys d)
  unfolding get
  keys-In k v [] held = cc
  keys-In k v ((j, w) ∷ d) held = elim (ℤ-cases j k) [
    | inl same ↦ inl same
    | inr other ↦ inr (keys-In k v d (rw other at held))
  ]

  pub In-get : (k : ℤ) (d : Dict V) → In k (keys d) → (v : V) × (get k d ≡ some v)
  unfolding get
  In-get k [] i = absurd i
  In-get k ((j, w) ∷ d) i = elim (ℤ-cases j k) [
    | inl same ↦ (w, rw (same, ==ℤ_refl k))
    | inr other ↦ rw other (elim i [
      | inl here ↦ absurd (ground (arith, here, ==ℤ_iff j k))
      | inr there ↦ In-get k d there
    ])
  ]

  pub length-keys : (d : Dict V) → length (keys d) ≡ length d
  length-keys [] = refl
  length-keys (x ∷ d) = omega (arith, length-keys d)

  pub AllItems-of_keys :
      (Q : ℤ → Type 0) (d : Dict V) → ((k : ℤ) → In k (keys d) → Q k) → AllItems (λ k _. Q k) d
  AllItems-of_keys Q [] h = tt
  AllItems-of_keys Q ((k, v) ∷ d) h = (h k (inl refl), AllItems-of_keys Q d λ j i. h j (inr i))

  -- Whether each key stands once is a matter of the keys.
  pub IsDistinct-of_keys : (d : Dict V) → Apart (keys d) → IsDistinct d
  IsDistinct-of_keys [] h = tt
  IsDistinct-of_keys ((k, v) ∷ d) h = (
    AllItems-of_keys (λ j. (k ==ℤ j) ≡ false) d
        λ j i. elim (ℤ-cases k j) [ inl same ↦ absurd (h.0 j i same) | inr other ↦ other ],
    IsDistinct-of_keys d h.1,
  )

  AllItems-In :
      (Q : ℤ → Type 0) (d : Dict V) (j : ℤ) → AllItems (λ k _. Q k) d → In j (keys d) → Q j
  AllItems-In Q [] j h i = absurd i
  AllItems-In Q ((k, v) ∷ d) j h (inl same) = subst Q same h.0
  AllItems-In Q ((k, v) ∷ d) j h (inr i) = AllItems-In Q d j h.1 i

  pub keys-Apart : (d : Dict V) → IsDistinct d → Apart (keys d)
  keys-Apart [] h = tt
  keys-Apart ((k, v) ∷ d) h = (
    λ j i same.
        let other = AllItems-In (λ x. (k ==ℤ x) ≡ false) d j h.0 i in
        ground (arith, other, same, ==ℤ_iff k j),
    keys-Apart d h.1,
  )
