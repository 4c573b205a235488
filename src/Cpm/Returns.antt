-- ===== src/Cpm/Returns.antt =====
-- `finish` finds the longest chain, and with enough fuel it returns.
use distributed_mobile_robot.Base.{
  ℕ, zero, suc, ◌+◌, ◌≤◌, ℤ, pos, ◌+ℤ◌, ◌≤ℤ◌, max_ℤ, ℤ-cases, ◌≡◌, refl, sym, ◌∙◌, ap, subst, ◌⊎◌,
  inl, inr, List, [], ◌∷◌, ◌++◌, In-append_one, In-append_left, In-append_right, Option, some, ok,
  >>=-eq-ok, In, Option-cases, length, All, Apart, arith,
}
use distributed_mobile_robot.Base.Dict.{
  Dict, get, set, keys, values, or_key_error, or_key_error-inv, get-set_self, get-set_ne, keys-In,
  IsDistinct, Item, get-Item,
}
use distributed_mobile_robot.Types.{TaskId, Task}
use distributed_mobile_robot.Dag.{TaskDag, task_dag}
use distributed_mobile_robot.Dag.Visit.{TaskIn}
use distributed_mobile_robot.Dag.Kahn.{Topological}
use distributed_mobile_robot.Dag.Accepted.{Keyed}
use distributed_mobile_robot.Dag.Progress.{task_dag-Ordered}
use distributed_mobile_robot.Cpm.{
  Memo, Finish, max_from, max_finish, finish_new, finish, critical_path_length,
}
use distributed_mobile_robot.Cpm.Chains.{
  Chain, first, then_task, IsLongest, IsSound, Finishes, max_finish-IsMost, extend, split_pair,
}

TaskIn-Item :
    (t : Task) (tasks : Dict Task) → Keyed tasks → TaskIn t (values tasks) → Item t.id t tasks
TaskIn-Item t [] keyed i = absurd i
TaskIn-Item t ((k, s) ∷ tasks) keyed (inl same) =
    inl (sym keyed.0.0 ∙ ap (λ (x : Task). x.id) same, same)
TaskIn-Item t ((k, s) ∷ tasks) keyed (inr i) = inr (TaskIn-Item t tasks keyed.1 i)

TaskIn-get :
    (t : Task) (tasks : Dict Task)
    → Keyed tasks
    → IsDistinct tasks
    → TaskIn t (values tasks)
    → get t.id tasks ≡ some t
TaskIn-get t tasks keyed distinct i = get-Item t.id t tasks distinct (TaskIn-Item t tasks keyed i)

module _ (tasks : Dict Task) where
  set-IsSound :
      (k : TaskId) (time : ℤ) (memo : Memo)
      → IsSound tasks memo
      → IsLongest tasks k time
      → IsSound tasks (set k time memo)
  set-IsSound k time memo sound longest j t found = elim (ℤ-cases k j) [
    | inl same ↦
        let own =
          subst (λ x. get x (set k time memo) ≡ some time) same (get-set_self k time memo) in
        subst (λ x. IsLongest tasks j x) (one_time own found)
          (subst (λ x. IsLongest tasks x time) same longest)
    | inr other ↦ sound j t (sym (get-set_ne k j time memo other) ∙ found)
  ]
    where
      one_time : {o : Option ℤ} → o ≡ some time → o ≡ some t → time ≡ t
      one_time a b = cc

  finish_new-Finishes : (f : Finish) → Finishes tasks f → Finishes tasks (finish_new f tasks)
  unfolding finish_new
  finish_new-Finishes f good k memo time memo' sound runs =
      let (t, found, runs1) = >>=-eq-ok (or_key_error (get k tasks)) _ runs in
      let ((start, memo1), most, runs2) = >>=-eq-ok (max_finish f t.prerequisites memo) _ runs1 in
      let (latest, sound1) =
        max_finish-IsMost tasks f t.prerequisites memo start memo1 good sound most in
      let longest = extend tasks k t start (or_key_error-inv _ t found) latest in
      let (same, same_memo) = split_pair runs2 in
      (
        subst (IsLongest tasks k) same longest,
        subst (IsSound tasks) same_memo (set-IsSound k (start +ℤ t.duration) memo1 sound1 longest),
      )

  finish-Finishes : (fuel : ℕ) → Finishes tasks (finish fuel tasks)
  unfolding finish
  finish-Finishes zero k memo time memo' sound runs = absurd (cc)
  finish-Finishes (suc fuel) k memo time memo' sound runs = elim (Option-cases (get k memo)) [
    | inl new ↦
        finish_new-Finishes (finish fuel tasks) (finish-Finishes fuel) k memo time memo' sound
          (rw (new, finish) at runs)
    | inr (t, held) ↦
        let (same, same_memo) = split_pair (rw (held, finish) at runs) in
        (subst (IsLongest tasks k) same (sound k t held), subst (IsSound tasks) same_memo sound)
  ]

  -- The call returns, whatever has been computed before.
  abbrev Returns : Finish → TaskId → Type 0
  Returns f k = (memo : Memo) → (r : ℤ × Memo) × (f k memo ≡ ok r)

  max_from-Returns :
      (f : Finish) (best : ℤ) (ps : List TaskId) (memo : Memo)
      → ((p : TaskId) → In p ps → Returns f p)
      → (r : ℤ × Memo) × (max_from f best ps memo ≡ ok r)
  unfolding max_from
  max_from-Returns f best [] memo h = ((best, memo), refl)
  max_from-Returns f best (p ∷ ps) memo h =
      let ((time, memo1), found) = h p (inl refl) memo in
      let (r, rest) = max_from-Returns f (max_ℤ best time) ps memo1 (λ q i. h q (inr i)) in
      (r, rw found rest)

  max_finish-Returns :
      (f : Finish) (ps : List TaskId) (memo : Memo)
      → ((p : TaskId) → In p ps → Returns f p)
      → (r : ℤ × Memo) × (max_finish f ps memo ≡ ok r)
  unfolding max_finish
  max_finish-Returns f [] memo h = ((pos 0, memo), refl)
  max_finish-Returns f (p ∷ ps) memo h =
      let ((time, memo1), found) = h p (inl refl) memo in
      let (r, rest) = max_from-Returns f time ps memo1 (λ q i. h q (inr i)) in (r, rw found rest)

  finish-Returns :
      (fuel : ℕ) (k : TaskId) (t : Task)
      → get k tasks ≡ some t
      → ((p : TaskId) → In p t.prerequisites → Returns (finish fuel tasks) p)
      → Returns (finish (suc fuel) tasks) k
  unfolding finish finish_new
  finish-Returns fuel k t known h memo = elim (Option-cases (get k memo)) [
    | inl new ↦
        let ((start, memo1), found) =
          max_finish-Returns (finish fuel tasks) t.prerequisites memo h in
        (
          (start +ℤ t.duration, set k (start +ℤ t.duration) memo1),
          rw (new, finish) (rw (known, found) refl),
        )
    | inr (time, held) ↦ ((time, memo), rw (held, finish) refl)
  ]

  -- After `n` tasks in order, `n` is fuel enough for each of them.
  Topological-Returns :
      (rest before : List TaskId) (n : ℕ)
      → IsDistinct tasks
      → Keyed tasks
      → Topological (values tasks) before rest
      → ((p : TaskId) (m : ℕ) → In p before → n ≤ m → Returns (finish m tasks) p)
      → (k : TaskId) (m : ℕ) → In k before ⊎ In k rest
      → n + length rest ≤ m
      → Returns (finish m tasks) k
  Topological-Returns [] before n distinct keyed order done k m (inl i) le =
      done k m i (omega arith)
  Topological-Returns [] before n distinct keyed order done k m (inr i) le = absurd i
  Topological-Returns (x ∷ rest) before n distinct keyed ((t, listed, id, ready), order) done k m
        place le =
      Topological-Returns rest (before ++ x ∷ []) (suc n) distinct keyed order
        (λ p l i le'. elim (In-append_one p before x i) [
          | inl old ↦ done p l old (omega arith)
          | inr same ↦ subst (Returns (finish l tasks)) same (next l le')
        ])
        k m (further place) (omega arith)
    where
      further : In k before ⊎ In k (x ∷ rest) → In k (before ++ x ∷ []) ⊎ In k rest
      further (inl old) = inl (In-append_left k before (x ∷ []) old)
      further (inr (inl same)) = inl (In-append_right k before (x ∷ []) (inl same))
      further (inr (inr later)) = inr later

      next : (l : ℕ) → suc n ≤ l → Returns (finish l tasks) x
      next zero le' = absurd (omega arith)
      next (suc l) le' =
          finish-Returns l x t
            (subst (λ y. get y tasks ≡ some t) id (TaskIn-get t tasks keyed distinct listed))
            (λ p i. done p l (ready p i) (omega arith))

-- The longest of all chains; 0 where there are no tasks.
pub record IsCritical (tasks : Dict Task) (longest : ℤ) : Type 0 where
  pub above : (k : TaskId) (total : ℤ) → Chain tasks k total → total ≤ℤ longest
  pub reached : ((tasks ≡ []) × (longest ≡ pos 0)) ⊎ ((k : TaskId) × Chain tasks k longest)

pub Chain-listed :
    (tasks : Dict Task) (k : TaskId) (total : ℤ) → Chain tasks k total → In k (keys tasks)
Chain-listed tasks k total (first t known no_ps same) = keys-In k t tasks known
Chain-listed tasks k total (then_task t p before known i c same) = keys-In k t tasks known

no_keys : (tasks : Dict Task) → keys tasks ≡ [] → tasks ≡ []
no_keys [] h = refl
no_keys (x ∷ tasks) h = absurd (cc)

empty_memo : (k : TaskId) (time : ℤ) → get {V = ℤ} k [] ≡ some time → ⊥
unfolding get
empty_memo k time held = cc

-- For tasks that the graph's constructor accepts, each with different prerequisites,
-- critical_path_length returns. What it returns is the total duration of a chain of dependent
-- tasks, from a task without prerequisites on, that no other chain exceeds, or 0 if there are no
-- tasks.
pub critical_path_length_lem :
    (ts : List Task) (d : TaskDag)
    → All (λ (t : Task). Apart t.prerequisites) ts
    → task_dag ts ≡ ok d
    → (longest : ℤ) × (critical_path_length d ≡ ok longest) × IsCritical d.tasks longest
unfolding critical_path_length
critical_path_length_lem ts d sets runs =
    let o = task_dag-Ordered ts d sets runs in
    let fuel = suc (length d.tasks) in
    let size : length o.order ≡ length d.tasks = o.size in
    let ((longest, memo), found) =
      max_finish-Returns d.tasks (finish fuel d.tasks) (keys d.tasks) [] (λ k i.
        Topological-Returns d.tasks o.order [] 0 o.distinct o.keyed o.sorted_order
          (λ p m none_yet le. absurd none_yet) k fuel (inr (o.complete k i)) (omega arith)) in
    let (most, sound) =
      max_finish-IsMost d.tasks (finish fuel d.tasks) (keys d.tasks) [] longest memo
        (finish-Finishes d.tasks fuel) (λ k time held. absurd (empty_memo k time held)) found in
    (
      longest,
      rw found refl,
      elim most [
        | inl (no_tasks, zero_longest) ↦ record {
          above = λ k total c. absurd (subst (In k) no_tasks (Chain-listed d.tasks k total c));
          reached = inl (no_keys d.tasks no_tasks, zero_longest);
        }
        | inr ((k, i, c), all) ↦ record {
          above = λ j total c'. all j total (Chain-listed d.tasks j total c') c';
          reached = inr (k, c);
        }
      ],
    )
