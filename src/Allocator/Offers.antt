-- ===== src/Allocator/Offers.antt =====
-- The tasks that a round offers are available ones and the idle sentinels.
use distributed_mobile_robot.Base.{
  ℕ, zero, suc, ◌+◌, ◌≤◌, arith, ◌-◌, ltb, ℤ, negsuc, ◌-ℤ◌, ◌≡◌, sym, subst, ◌⊎◌, inl, inr, List,
  [], ◌∷◌, ok, >>=-eq-ok, ok_inj, All, All-mono, Apart, In, length, Bool-cases,
}
use distributed_mobile_robot.Base.Dict.{
  Dict, get, keys, or_key_error, or_key_error-inv, AllItems, AllItems-set, AllItems-get,
}
use distributed_mobile_robot.Types.{TaskId, Task}
use distributed_mobile_robot.Dag.{TaskDag}
use distributed_mobile_robot.Dag.Accepted.{Keyed}
use distributed_mobile_robot.Benefits.{RobotState, BenefitModel, matrix_row, matrix_rows, matrix}
use distributed_mobile_robot.Allocator.{
  RepeatedRoundsAllocator, lowest, pad, pad_rows, round_benefits, tasks_of,
}

-- Some row has the task.
abbrev pub Offered : Dict (Dict ℤ) → TaskId → Type 0
Offered [] t = ⊥
Offered ((a, row) ∷ rows) t = In t (keys row) ⊎ Offered rows t

-- `Q` holds of the first sentinels.
module _ (Q : ℤ → Type 0) (bound : ℕ) (sentinel : (k : ℕ) → suc k ≤ bound → Q (negsuc k)) where
  abbrev KeysAre : Dict ℤ → Type 0
  KeysAre = AllItems (λ k _. Q k)

  abbrev RowsAre : Dict (Dict ℤ) → Type 0
  RowsAre = AllItems (λ _ row. KeysAre row)

  KeysAre-In : (t : TaskId) (row : Dict ℤ) → KeysAre row → In t (keys row) → Q t
  KeysAre-In t [] h i = absurd i
  KeysAre-In t ((k, v) ∷ row) h (inl same) = subst Q same h.0
  KeysAre-In t ((k, v) ∷ row) h (inr i) = KeysAre-In t row h.1 i

  Offered-RowsAre : (t : TaskId) (rows : Dict (Dict ℤ)) → RowsAre rows → Offered rows t → Q t
  Offered-RowsAre t [] h i = absurd i
  Offered-RowsAre t ((a, row) ∷ rows) h (inl i) = KeysAre-In t row h.0 i
  Offered-RowsAre t ((a, row) ∷ rows) h (inr i) = Offered-RowsAre t rows h.1 i

  matrix_row-KeysAre :
      (model : BenefitModel) (r : RobotState) (ts : List Task) (row : Dict ℤ)
      → All (λ (t : Task). Q t.id) ts
      → KeysAre row
      → KeysAre (matrix_row model r ts row)
  unfolding matrix_row
  matrix_row-KeysAre model r [] row h kept = kept
  matrix_row-KeysAre model r (t ∷ ts) row h kept =
      matrix_row-KeysAre model r ts _ h.1
        (AllItems-set (λ k _. Q k) t.id (model.benefit r t) row h.0 kept)

  matrix_rows-RowsAre :
      (model : BenefitModel) (rs : List RobotState) (ts : List Task) (rows : Dict (Dict ℤ))
      → All (λ (t : Task). Q t.id) ts
      → RowsAre rows
      → RowsAre (matrix_rows model rs ts rows)
  unfolding matrix_rows
  matrix_rows-RowsAre model [] ts rows h kept = kept
  matrix_rows-RowsAre model (r ∷ rs) ts rows h kept = matrix_rows-RowsAre model rs ts _ h (
      AllItems-set (λ _ row. KeysAre row) r.id (matrix_row model r ts []) rows
        (matrix_row-KeysAre model r ts [] h tt) kept)

  pad-KeysAre :
      (k deficit : ℕ) (floor : ℤ) (row : Dict ℤ)
      → k + deficit ≤ bound
      → KeysAre row
      → KeysAre (pad k deficit floor row)
  pad-KeysAre k zero floor row le h = h
  pad-KeysAre k (suc deficit) floor row le h =
      pad-KeysAre (suc k) deficit floor _ (omega arith)
        (AllItems-set (λ j _. Q j) (negsuc k) floor row (sentinel k (omega arith)) h)

  pad_rows-RowsAre :
      (one : ℤ) (deficit : ℕ) (rows padded : Dict (Dict ℤ))
      → deficit ≤ bound
      → RowsAre rows
      → pad_rows one deficit rows ≡ ok padded
      → RowsAre padded
  unfolding pad_rows
  pad_rows-RowsAre one deficit [] padded le h runs = subst RowsAre (ok_inj [] padded runs) tt
  pad_rows-RowsAre one deficit ((a, row) ∷ rows) padded le h runs =
      let (low, _, runs1) = >>=-eq-ok (lowest row) _ runs in
      let (rest, padded_rest, runs2) = >>=-eq-ok (pad_rows one deficit rows) _ runs1 in
      subst RowsAre (ok_inj ((a, pad 0 deficit (low -ℤ one) row) ∷ rest) padded runs2) (
        pad-KeysAre 0 deficit (low -ℤ one) row (omega arith) h.0,
        pad_rows-RowsAre one deficit rows rest le h.1 padded_rest,
      )

  round_benefits-RowsAre :
      (self : RepeatedRoundsAllocator) (idle : List RobotState) (ts : List Task)
      (benefits : Dict (Dict ℤ))
      → length idle - length ts ≤ bound
      → All (λ (t : Task). Q t.id) ts
      → round_benefits self idle ts ≡ ok benefits
      → RowsAre benefits
  unfolding round_benefits matrix
  round_benefits-RowsAre self idle ts benefits le h runs =
      let rows = matrix_rows-RowsAre self.model idle ts [] h tt in
      elim (Bool-cases (ltb (length ts) (length idle))) [
        | inl fewer ↦
            pad_rows-RowsAre self.one (length idle - length ts) (matrix self.model idle ts) benefits
              le rows (rw fewer at runs)
        | inr enough ↦
            subst RowsAre (ok_inj (matrix self.model idle ts) benefits (rw enough at runs)) rows
      ]

  tasks_of-All :
      (dag : TaskDag) (ks : List TaskId) (ts : List Task)
      → Keyed dag.tasks
      → All Q ks
      → tasks_of dag ks ≡ ok ts
      → All (λ (t : Task). Q t.id) ts
  unfolding tasks_of
  tasks_of-All dag [] ts keyed h runs = subst (All (λ (t : Task). Q t.id)) (ok_inj [] ts runs) tt
  tasks_of-All dag (k ∷ ks) ts keyed h runs =
      let (t, found, runs1) = >>=-eq-ok (or_key_error (get k dag.tasks)) _ runs in
      let (rest, there, runs2) = >>=-eq-ok (tasks_of dag ks) _ runs1 in
      let id =
        AllItems-get (λ j (s : Task). s.id ≡ j) k t dag.tasks
          (All-mono (λ (item : ℤ × Task). (item.1.id ≡ item.0) × Apart item.1.prerequisites)
            (λ (item : ℤ × Task). item.1.id ≡ item.0) (λ item h'. h'.0) dag.tasks keyed)
          (or_key_error-inv _ t found) in
      subst (All (λ (s : Task). Q s.id)) (ok_inj (t ∷ rest) ts runs2)
        (subst Q (sym id) h.0, tasks_of-All dag ks rest keyed h.1 there)

  -- Whatever holds of the tasks that are offered holds of each task of the rows.
  pub round_benefits-Offered :
      (self : RepeatedRoundsAllocator) (dag : TaskDag) (idle : List RobotState)
      (offered : List TaskId) (ts : List Task) (benefits : Dict (Dict ℤ)) (k : TaskId)
      → Keyed dag.tasks
      → All Q offered
      → length idle - length ts ≤ bound
      → tasks_of dag offered ≡ ok ts
      → round_benefits self idle ts ≡ ok benefits
      → Offered benefits k
      → Q k
  round_benefits-Offered self dag idle offered ts benefits k keyed h le found runs =
      Offered-RowsAre k benefits (
        round_benefits-RowsAre self idle ts benefits le (tasks_of-All dag offered ts keyed h found)
          runs)
