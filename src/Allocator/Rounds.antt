-- ===== src/Allocator/Rounds.antt =====
-- The rows of a round are those of the idle robots.
use distributed_mobile_robot.Base.{
  ◌+◌, ◌∙◌, sym, ap, none, ◌++◌, Apart, ℤ-cases, ℕ, suc, ◌-◌, ltb, ℤ, ◌-ℤ◌, ◌≡◌, refl, subst, inl,
  inr, List, [], ◌∷◌, ok, >>=-eq-ok, ok_inj, All, In, length, Bool-cases, arith,
}
use distributed_mobile_robot.Base.Dict.{
  get, get-set_ne, IsDistinct, IsDistinct-set, IsDistinct-of_keys, keys-Apart, length-keys, Dict,
  keys, set, AllItems, AllItems-set,
}
use distributed_mobile_robot.Types.{AgentId, Task}
use distributed_mobile_robot.Benefits.{RobotState, BenefitModel, matrix_row, matrix_rows, matrix}
use distributed_mobile_robot.Allocator.{
  RepeatedRoundsAllocator, lowest, pad, pad_rows, round_benefits,
}
use distributed_mobile_robot.Allocator.Counted.{set-absent, robot_ids}

module _ (P : AgentId → Type 0) where
  abbrev pub KeyedBy : Dict (Dict ℤ) → Type 0
  KeyedBy = AllItems (λ a _. P a)

  matrix_rows-KeyedBy :
      (model : BenefitModel) (rs : List RobotState) (ts : List Task) (rows : Dict (Dict ℤ))
      → All (λ (r : RobotState). P r.id) rs
      → KeyedBy rows
      → KeyedBy (matrix_rows model rs ts rows)
  unfolding matrix_rows
  matrix_rows-KeyedBy model [] ts rows h kept = kept
  matrix_rows-KeyedBy model (r ∷ rs) ts rows h kept =
      matrix_rows-KeyedBy model rs ts _ h.1
        (AllItems-set (λ a _. P a) r.id (matrix_row model r ts []) rows h.0 kept)

  pad_rows-KeyedBy :
      (one : ℤ) (deficit : ℕ) (rows padded : Dict (Dict ℤ))
      → KeyedBy rows
      → pad_rows one deficit rows ≡ ok padded
      → KeyedBy padded
  unfolding pad_rows
  pad_rows-KeyedBy one deficit [] padded h runs = subst KeyedBy (ok_inj [] padded runs) tt
  pad_rows-KeyedBy one deficit ((a, row) ∷ rows) padded h runs =
      let (low, _, runs1) = >>=-eq-ok (lowest row) _ runs in
      let (rest, padded_rest, runs2) = >>=-eq-ok (pad_rows one deficit rows) _ runs1 in
      subst KeyedBy (ok_inj ((a, pad 0 deficit (low -ℤ one) row) ∷ rest) padded runs2)
        (h.0, pad_rows-KeyedBy one deficit rows rest h.1 padded_rest)

  -- The agents of the rows are the idle robots.
  pub round_benefits-KeyedBy :
      (self : RepeatedRoundsAllocator) (idle : List RobotState) (ts : List Task)
      (benefits : Dict (Dict ℤ))
      → All (λ (r : RobotState). P r.id) idle
      → round_benefits self idle ts ≡ ok benefits
      → KeyedBy benefits
  unfolding round_benefits matrix
  round_benefits-KeyedBy self idle ts benefits h runs =
      let rows = matrix_rows-KeyedBy self.model idle ts [] h tt in
      elim (Bool-cases (ltb (length ts) (length idle))) [
        | inl fewer ↦
            pad_rows-KeyedBy self.one (length idle - length ts) (matrix self.model idle ts) benefits
              rows (rw fewer at runs)
        | inr enough ↦
            subst KeyedBy (ok_inj (matrix self.model idle ts) benefits (rw enough at runs)) rows
      ]

pad_rows-keys :
    (one : ℤ) (deficit : ℕ) (rows padded : Dict (Dict ℤ))
    → pad_rows one deficit rows ≡ ok padded
    → keys padded ≡ keys rows
unfolding pad_rows
pad_rows-keys one deficit [] padded runs = ap keys (sym (ok_inj [] padded runs))
pad_rows-keys one deficit ((a, row) ∷ rows) padded runs =
    let (low, _, runs1) = >>=-eq-ok (lowest row) _ runs in
    let (rest, padded_rest, runs2) = >>=-eq-ok (pad_rows one deficit rows) _ runs1 in
    ap keys (sym (ok_inj ((a, pad 0 deficit (low -ℤ one) row) ∷ rest) padded runs2))
    ∙ ap (λ (ks : List ℤ). a ∷ ks) (pad_rows-keys one deficit rows rest padded_rest)

-- Padding leaves the agents of the rows.
round_benefits-keys :
    (self : RepeatedRoundsAllocator) (idle : List RobotState) (ts : List Task)
    (benefits : Dict (Dict ℤ))
    → round_benefits self idle ts ≡ ok benefits
    → keys benefits ≡ keys (matrix self.model idle ts)
unfolding round_benefits
round_benefits-keys self idle ts benefits runs = elim (Bool-cases (ltb (length ts) (length idle))) [
  | inl fewer ↦
      pad_rows-keys self.one (length idle - length ts) (matrix self.model idle ts) benefits
        (rw fewer at runs)
  | inr enough ↦ ap keys (sym (ok_inj (matrix self.model idle ts) benefits (rw enough at runs)))
]

matrix_rows-IsDistinct :
    (model : BenefitModel) (rs : List RobotState) (ts : List Task) (rows : Dict (Dict ℤ))
    → IsDistinct rows
    → IsDistinct (matrix_rows model rs ts rows)
unfolding matrix_rows
matrix_rows-IsDistinct model [] ts rows h = h
matrix_rows-IsDistinct model (r ∷ rs) ts rows h =
    matrix_rows-IsDistinct model rs ts _ (IsDistinct-set r.id (matrix_row model r ts []) rows h)

pub round_benefits-IsDistinct :
    (self : RepeatedRoundsAllocator) (idle : List RobotState) (ts : List Task)
    (benefits : Dict (Dict ℤ))
    → round_benefits self idle ts ≡ ok benefits
    → IsDistinct benefits
unfolding matrix
round_benefits-IsDistinct self idle ts benefits runs = IsDistinct-of_keys benefits (
    subst Apart (sym (round_benefits-keys self idle ts benefits runs))
      (keys-Apart (matrix self.model idle ts) (matrix_rows-IsDistinct self.model idle ts [] tt)))

length-append_one : {V : Type 0} (d : List V) (v : V) → length (d ++ v ∷ []) ≡ suc (length d)
length-append_one [] v = refl
length-append_one (w ∷ d) v = ap suc (length-append_one d v)

matrix_rows-length :
    (model : BenefitModel) (rs : List RobotState) (ts : List Task) (rows : Dict (Dict ℤ))
    → Apart (robot_ids rs)
    → ((a : AgentId) → In a (robot_ids rs) → get a rows ≡ none)
    → length (matrix_rows model rs ts rows) ≡ length rs + length rows
unfolding matrix_rows
matrix_rows-length model [] ts rows apart new = omega arith
matrix_rows-length model (r ∷ rs) ts rows apart new =
    let row = matrix_row model r ts [] in
    let more : length (set r.id row rows) ≡ suc (length rows) =
      ap length (set-absent r.id row rows (new r.id (inl refl)))
      ∙ length-append_one rows (r.id, row) in
    let rest = matrix_rows-length model rs ts (set r.id row rows) apart.1 λ a i.
      elim (ℤ-cases r.id a) [
        | inl same ↦ absurd (apart.0 a i same)
        | inr other ↦ get-set_ne r.id a row rows other ∙ new a (inr i)
      ] in
    omega (arith, rest, more)

-- As many rows as idle robots, of different ids.
pub round_benefits-length :
    (self : RepeatedRoundsAllocator) (idle : List RobotState) (ts : List Task)
    (benefits : Dict (Dict ℤ))
    → Apart (robot_ids idle)
    → round_benefits self idle ts ≡ ok benefits
    → length (keys benefits) ≡ length idle
unfolding matrix get
round_benefits-length self idle ts benefits apart runs =
    let all = matrix_rows-length self.model idle ts [] apart (λ a i. refl) in
    let same = ap length (round_benefits-keys self idle ts benefits runs) in
    omega (arith, all, same, length-keys (matrix_rows self.model idle ts []))
