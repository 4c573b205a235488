-- ===== src/Allocator/Runner.antt =====
-- The rounds of validation/harness.py, each over a transport of its own, are ones that the allocator can use.
use distributed_mobile_robot.Base.{
  ℕ, ℤ, pos, ◌<ℤ◌, ◌≡◌, ◌∙◌, refl, ap, sym, subst, inl, inr, [], ◌∷◌, Option, none, some, ok, ◌>>=◌,
  >>=-eq-ok, ok_inj, In, Apart,
}
use distributed_mobile_robot.Base.Dict.{
  Dict, get, keys, AllItems-of_get, IsDistinct, IsDistinct-of_keys, keys-Apart, Item, Item-get,
  get-Item, In-get, keys-In,
}
use distributed_mobile_robot.Types.{AgentId, TaskId, RoundConfig, RoundResult}
use distributed_mobile_robot.Harness.{Transport, run_round}
use distributed_mobile_robot.Harness.Check.{assign_all-keys}
use distributed_mobile_robot.Harness.Ending.{run_round-Ended}
use distributed_mobile_robot.Harness.Optimal.{tasks_of as assigned}
use distributed_mobile_robot.Harness.Outcome.{run_round_lem, run_round-serves_all, run_round-apart}
use distributed_mobile_robot.Allocator.{RoundRunner}
use distributed_mobile_robot.Allocator.Offers.{Offered}
use distributed_mobile_robot.Allocator.Shares.{Shares}

-- Each call has a transport of its own.
abbrev pub rounds_over : {S : Type 0} → (ℕ → Dict (Dict ℤ) → Transport S) → ℕ → RoundRunner
rounds_over transports max_ticks calls benefits config = do
  (result, transport) ← run_round benefits (transports calls benefits) config max_ticks
  ok result

Item-key : {V : Type 0} (k : ℤ) (v : V) (d : Dict V) → Item k v d → In k (keys d)
Item-key k v [] i = absurd i
Item-key k v ((j, w) ∷ d) (inl here) = inl here.0
Item-key k v ((j, w) ∷ d) (inr i) = inr (Item-key k v d i)

row-Offered :
    (i : AgentId) (row : Dict ℤ) (benefits : Dict (Dict ℤ)) (t : TaskId)
    → get i benefits ≡ some row
    → In t (keys row)
    → Offered benefits t
row-Offered i row benefits t listed there = offered benefits (Item-get i row benefits listed)
  where
    offered : (rows : Dict (Dict ℤ)) → Item i row rows → Offered rows t
    offered [] item = absurd item
    offered ((a, r) ∷ rows) (inl here) = inl (subst (λ d. In t (keys d)) (sym here.1) there)
    offered ((a, r) ∷ rows) (inr item) = inr (offered rows item)

assigned-Item :
    (t : TaskId) (a : Dict (Option TaskId)) → In t (assigned a) → (i : AgentId) × Item i (some t) a
assigned-Item t [] there = absurd there
assigned-Item t ((i, none) ∷ a) there = let (j, item) = assigned-Item t a there in (j, inr item)
assigned-Item t ((i, some u) ∷ a) (inl same) = (i, inl (refl, ap some same))
assigned-Item t ((i, some u) ∷ a) (inr there) =
    let (j, item) = assigned-Item t a there in (j, inr item)

assigned-Apart :
    (a : Dict (Option TaskId))
    → Apart (keys a)
    → ((i j : AgentId) (t : TaskId) → Item i (some t) a → Item j (some t) a → i ≡ j)
    → Apart (assigned a)
assigned-Apart [] distinct one = tt
assigned-Apart ((i, none) ∷ a) distinct one =
    assigned-Apart a distinct.1 λ j k t x y. one j k t (inr x) (inr y)
assigned-Apart ((i, some u) ∷ a) distinct one = (
  λ t there same.
      let (j, item) = assigned-Item t a there in
      distinct.0 j (Item-key j (some t) a item) (one i j t (inl (refl, ap some same)) (inr item)),
  assigned-Apart a distinct.1 λ j k t x y. one j k t (inr x) (inr y),
)

module _ {S : Type 0} (transports : ℕ → Dict (Dict ℤ) → Transport S) (max_ticks : ℕ)
    (config : RoundConfig) (pos_eps : pos 0 <ℤ config.epsilon)
    (empty : (n : ℕ) (rows : Dict (Dict ℤ)) → (transports n rows).queue ≡ []) where
  -- What a call has run.
  ran :
      (calls : ℕ) (benefits : Dict (Dict ℤ)) (result : RoundResult)
      → rounds_over transports max_ticks calls benefits config ≡ ok result
      → (t : Transport S) × (run_round benefits (transports calls benefits) config max_ticks
          ≡ ok (result, t))
  ran calls benefits result runs =
      let ((r, t), done, rest) =
        >>=-eq-ok (run_round benefits (transports calls benefits) config max_ticks) _ runs in
      (
        t,
        subst
            (λ (x : RoundResult).
              run_round benefits (transports calls benefits) config max_ticks ≡ ok (x, t))
            (ok_inj r result rest) done,
      )

  ran-keys :
      (calls : ℕ) (benefits : Dict (Dict ℤ)) (result : RoundResult)
      → IsDistinct benefits
      → rounds_over transports max_ticks calls benefits config ≡ ok result
      → keys result.assignment ≡ keys benefits
  ran-keys calls benefits result distinct runs =
      let (t, done) = ran calls benefits result runs in
      let e =
        run_round-Ended benefits (transports calls benefits) config max_ticks result t pos_eps
          distinct (empty calls benefits) done in
      assign_all-keys _ _ [] result.assignment e.assigned ∙ e.ids

  ran-IsDistinct :
      (calls : ℕ) (benefits : Dict (Dict ℤ)) (result : RoundResult)
      → IsDistinct benefits
      → rounds_over transports max_ticks calls benefits config ≡ ok result
      → IsDistinct result.assignment
  ran-IsDistinct calls benefits result distinct runs = IsDistinct-of_keys result.assignment (
      subst Apart (sym (ran-keys calls benefits result distinct runs))
        (keys-Apart benefits distinct))

  -- If epsilon is positive and each call's transport is empty at the start, then run_round is a
  -- round runner such as allocate expects: whenever it returns for rows of different agents, it
  -- gives every one of these agents a task of the rows, and no task to two of them.
  pub run_round-Shares : Shares (rounds_over transports max_ticks) config
  run_round-Shares = record {
    honest = λ calls benefits result distinct runs.
        let (t, done) = ran calls benefits result runs in
        AllItems-of_get _ result.assignment (ran-IsDistinct calls benefits result distinct runs)
          λ i choice held task same.
            let s =
              run_round_lem benefits (transports calls benefits) config max_ticks result t i task
                pos_eps distinct (empty calls benefits) done (held ∙ ap some same) in
            let n = s.near in
            row-Offered i s.row benefits task s.listed (Item-key task n.benefit s.row n.listed);
    agents = ran-keys;
    served = λ calls benefits result distinct runs.
        let (t, done) = ran calls benefits result runs in
        AllItems-of_get (λ _ choice. choice ≡ none → ⊥) result.assignment
          (ran-IsDistinct calls benefits result distinct runs)
          λ i choice held empty_handed.
            let (row, listed) = In-get i benefits (
              subst (In i) (ran-keys calls benefits result distinct runs)
                (keys-In i choice result.assignment held)) in
            let (task, held', _) =
              run_round-serves_all benefits (transports calls benefits) config max_ticks result t i
                row pos_eps distinct (empty calls benefits) done listed in
            absurd (clash (get i result.assignment) choice task held held' empty_handed);
    apart = λ calls benefits result distinct runs.
        let (t, done) = ran calls benefits result runs in
        let once = ran-IsDistinct calls benefits result distinct runs in
        assigned-Apart result.assignment (keys-Apart result.assignment once) λ i j task held held'.
          run_round-apart benefits (transports calls benefits) config max_ticks result t i j task
            pos_eps distinct (empty calls benefits) done
            (get-Item i (some task) result.assignment once held)
            (get-Item j (some task) result.assignment once held');
  }
    where
      clash :
          (o : Option (Option TaskId)) (choice : Option TaskId) (task : TaskId)
          → o ≡ some choice
          → o ≡ some (some task)
          → choice ≡ none
          → ⊥
      clash o choice task held held' same = absurd (cc)
