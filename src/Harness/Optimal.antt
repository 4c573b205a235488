-- ===== src/Harness/Optimal.antt =====
-- The total benefit of a round's assignment against that of any other.
use distributed_mobile_robot.Base.{
  ℤ, pos, ◌≤ℤ◌, ◌+ℤ◌, ◌-ℤ◌, ◌*ℤ◌, int_laws, ◌≡◌, ◌≢◌, refl, ◌∙◌, sym, subst, inl, inr, List, [],
  ◌∷◌, Option, none, some, ok, >>=-eq-ok, length, In,
}
use distributed_mobile_robot.Base.Dict.{
  Dict, get, keys, or_key_error, or_key_error-inv, AllItems, AllItems-Item, Item, Item-get,
  get-Item, IsDistinct,
}
use distributed_mobile_robot.Base.Sums.{sum, pos_suc-mul, pos_zero-mul}
use distributed_mobile_robot.Types.{AgentId, TaskId, PriceEntry, RoundConfig}
use distributed_mobile_robot.Engine.Nets.{price_at}
use distributed_mobile_robot.Hungarian.{benefit_in, total_benefit}
use distributed_mobile_robot.Harness.Outcome.{Served}

abbrev pub Assignment : Type 0
Assignment = Dict (Option TaskId)

-- The tasks that are assigned.
abbrev pub tasks_of : Assignment → List TaskId
tasks_of [] = []
tasks_of ((i, none) ∷ assignment) = tasks_of assignment
tasks_of ((i, some task) ∷ assignment) = task ∷ tasks_of assignment

pub tasks_of-In :
    (i : AgentId) (task : TaskId) (assignment : Assignment)
    → Item i (some task) assignment
    → In task (tasks_of assignment)
tasks_of-In i task [] item = absurd item
tasks_of-In i task ((j, none) ∷ rest) (inl (same, held)) = absurd (cc held)
tasks_of-In i task ((j, none) ∷ rest) (inr item) = tasks_of-In i task rest item
tasks_of-In i task ((j, some t) ∷ rest) (inl (same, held)) = inl (cc held)
tasks_of-In i task ((j, some t) ∷ rest) (inr item) = inr (tasks_of-In i task rest item)

module _ (benefits : Dict (Dict ℤ)) (config : RoundConfig) (prices : Dict PriceEntry)
    (rows : AllItems (λ i row. IsDistinct row) benefits) where
  abbrev pub price_of : TaskId → ℤ
  price_of = price_at (record { entries = prices })

  benefit_in-Item :
      (i : AgentId) (task : TaskId) (b : ℤ)
      → benefit_in benefits i task ≡ ok b
      → (row : Dict ℤ) × (get i benefits ≡ some row) × Item task b row
  unfolding benefit_in
  benefit_in-Item i task b runs =
      let (row, listed, runs') = >>=-eq-ok (or_key_error (get i benefits)) _ runs in
      (row, or_key_error-inv _ row listed, Item-get task b row (or_key_error-inv _ b runs'))

  -- An agent that is served loses at most epsilon by not having another task.
  gain_bound :
      (i : AgentId) (task other : TaskId) (c : ℤ)
      → Served benefits config prices i task
      → benefit_in benefits i other ≡ ok c
      → (b : ℤ) × (benefit_in benefits i task ≡ ok b)
        × (c -ℤ price_of other ≤ℤ b -ℤ price_of task +ℤ config.epsilon)
  unfolding benefit_in
  gain_bound i task other c s runs =
      let (row, listed, item) = benefit_in-Item i other c runs in
      let same : s.row ≡ row = cc (sym s.listed ∙ listed) in
      let n = s.near in
      let distinct =
        AllItems-Item (λ i row. IsDistinct row) i s.row benefits rows
          (Item-get i s.row benefits s.listed) in
      let here = get-Item task n.benefit s.row distinct n.listed in
      (
        n.benefit,
        rw (s.listed, here),
        AllItems-Item (λ j d. d -ℤ price_of j ≤ℤ n.benefit -ℤ price_of task +ℤ config.epsilon) other
            c s.row n.near (subst (Item other c) (sym same) item),
      )

  abbrev pub IsServed : AgentId → Option TaskId → Type 0
  IsServed i choice = (task : TaskId) × (choice ≡ some task) × Served benefits config prices i task

  -- Sums of the step, for two assignments of the same agents.
  pub total-near :
      (mine other : Assignment) (best : ℤ)
      → keys mine ≡ keys other
      → AllItems IsServed mine
      → AllItems (λ i choice. choice ≢ none) other
      → total_benefit benefits other ≡ ok best
      → (got : ℤ) × (total_benefit benefits mine ≡ ok got)
        × (best +ℤ sum price_of (tasks_of mine)
            ≤ℤ got +ℤ sum price_of (tasks_of other) +ℤ pos (length mine) *ℤ config.epsilon)
  unfolding total_benefit
  total-near [] [] best same served full total =
      let none_yet : pos 0 ≡ best = cc total in
      (pos 0, refl, rw (← none_yet) (rw (pos_zero-mul config.epsilon) (omega int_laws)))
  total-near [] ((j, o) ∷ other) best same served full total = absurd (cc same)
  total-near ((i, choice) ∷ mine) [] best same served full total = absurd (cc same)
  total-near ((i, none) ∷ mine) ((j, o) ∷ other) best same served full total =
      absurd (let (task, held, _) = served.0 in cc held)
  total-near ((i, some t) ∷ mine) ((j, none) ∷ other) best same served full total =
      absurd (full.0 refl)
  total-near ((i, some t) ∷ mine) ((j, some o) ∷ other) best same served full total =
      let agent : i ≡ j = cc same in
      let behind : keys mine ≡ keys other = cc same in
      let (task, held, s) = served.0 in
      let now : task ≡ t = cc held in
      let (c, c_runs, total') = >>=-eq-ok (benefit_in benefits j o) _ total in
      let (rest, rest_runs, total'') = >>=-eq-ok (total_benefit benefits other) _ total' in
      let sum_other : c +ℤ rest ≡ best = cc total'' in
      let (b, b_runs, near) =
        gain_bound i t o c (subst (Served benefits config prices i) now s)
          (subst (λ k. benefit_in benefits k o ≡ ok c) (sym agent) c_runs) in
      let (got, got_runs, le) = total-near mine other rest behind served.1 full.1 rest_runs in
      (
        b +ℤ got,
        rw (b_runs, got_runs),
        rw (← sum_other)
            (rw (pos_suc-mul (length mine) config.epsilon) (omega (int_laws, near, le))),
      )
