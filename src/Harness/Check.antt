-- ===== src/Harness/Check.antt =====
-- `_consistent_assignment`: the checks that each agent's task has passed.
use distributed_mobile_robot.Base.{
  ◌≡◌, ◌∙◌, sym, ap, subst, List, ℤ, inl, inr, [], ◌∷◌, Option, some, ok, >>=-eq-ok, ℤ-cases,
  ==ℤ_refl,
}
use distributed_mobile_robot.Base.Dict.{Dict, keys, get, or_key_error, or_key_error-inv}
use distributed_mobile_robot.Types.{AgentId, TaskId, PriceEntry}
use distributed_mobile_robot.Engine.{AuctionAgent}
use distributed_mobile_robot.Harness.{claim_task, claim_on, assign_all}

-- An agent's task, as the check finds it at the merged prices.
pub record Checked (prices : Dict PriceEntry) (agents : Dict AuctionAgent) (i : AgentId)
    (task : TaskId) : Type 0 where
  pub agent : AuctionAgent
  pub known : get i agents ≡ some agent
  pub assigned : agent.assignment ≡ some task
  pub entry : PriceEntry
  pub priced : get task prices ≡ some entry
  pub owner : entry.bidder ≡ i

claim_task-owner :
    (prices : Dict PriceEntry) (i : AgentId) (task : TaskId) (holders holders' : Dict AgentId)
    → claim_task prices i task holders ≡ ok holders'
    → (e : PriceEntry) × (get task prices ≡ some e) × (e.bidder ≡ i)
unfolding claim_task
claim_task-owner prices i task holders holders' runs =
    let (e, priced, runs') = >>=-eq-ok (or_key_error (get task prices)) _ runs in
    (
      e,
      or_key_error-inv _ e priced,
      elim (ℤ-cases e.bidder i) [ inl same ↦ same | inr other ↦ absurd (cc (rw other at runs')) ],
    )

pub assign_all-Checked :
    (prices : Dict PriceEntry) (agents : Dict AuctionAgent) (holders : Dict AgentId)
    (assignment : Dict (Option TaskId)) (i : AgentId) (task : TaskId)
    → assign_all prices agents holders ≡ ok assignment
    → get i assignment ≡ some (some task)
    → Checked prices agents i task
unfolding assign_all get
assign_all-Checked prices [] holders assignment i task runs held =
    let same : [] ≡ assignment = cc runs in
    absurd (cc (subst (λ d. get i d ≡ some (some task)) (sym same) held))
assign_all-Checked prices ((j, a) ∷ agents) holders assignment i task runs held =
    let (holders', claimed, runs') = >>=-eq-ok (claim_on prices j a.assignment holders) _ runs in
    let (rest, others, runs'') = >>=-eq-ok (assign_all prices agents holders') _ runs' in
    let same : (j, a.assignment) ∷ rest ≡ assignment = cc runs'' in
    let held' = subst (λ d. get i d ≡ some (some task)) (sym same) held in
    elim (ℤ-cases j i) [
      | inl own ↦
          let mine : a.assignment ≡ some task = cc (rw (own, ==ℤ_refl i) at held') in
          let (e, priced, owner) =
            claim_task-owner prices j task holders holders'
              (subst (λ o. claim_on prices j o holders ≡ ok holders') mine claimed) in
          record {
            agent = a;
            known = rw (own, ==ℤ_refl i);
            assigned = mine;
            entry = e;
            priced = priced;
            owner = owner ∙ own;
          }
      | inr other ↦
          let c =
            assign_all-Checked prices agents holders' rest i task others (rw other at held') in
          record {
            agent = c.agent;
            known = rw other c.known;
            assigned = c.assigned;
            entry = c.entry;
            priced = c.priced;
            owner = c.owner;
          }
    ]

pub assign_all-get :
    (prices : Dict PriceEntry) (agents : Dict AuctionAgent) (holders : Dict AgentId)
    (assignment : Dict (Option TaskId)) (i : AgentId) (a : AuctionAgent)
    → assign_all prices agents holders ≡ ok assignment
    → get i agents ≡ some a
    → get i assignment ≡ some a.assignment
unfolding assign_all get
assign_all-get prices [] holders assignment i a runs held = cc
assign_all-get prices ((j, b) ∷ agents) holders assignment i a runs held =
    let (holders', claimed, runs') = >>=-eq-ok (claim_on prices j b.assignment holders) _ runs in
    let (rest, others, runs'') = >>=-eq-ok (assign_all prices agents holders') _ runs' in
    let same : (j, b.assignment) ∷ rest ≡ assignment = cc runs'' in
    subst (λ d. get i d ≡ some a.assignment) same
      (elim (ℤ-cases j i) [
        | inl own ↦ let now : b ≡ a = cc (rw (own, ==ℤ_refl i) at held) in rw (own, ==ℤ_refl i, now)
        | inr other ↦
            rw other (assign_all-get prices agents holders' rest i a others (rw other at held))
      ])

pub assign_all-keys :
    (prices : Dict PriceEntry) (agents : Dict AuctionAgent) (holders : Dict AgentId)
    (assignment : Dict (Option TaskId))
    → assign_all prices agents holders ≡ ok assignment
    → keys assignment ≡ keys agents
unfolding assign_all
assign_all-keys prices [] holders assignment runs =
    let same : [] ≡ assignment = cc runs in rw (← same)
assign_all-keys prices ((j, b) ∷ agents) holders assignment runs =
    let (holders', claimed, runs') = >>=-eq-ok (claim_on prices j b.assignment holders) _ runs in
    let (rest, others, runs'') = >>=-eq-ok (assign_all prices agents holders') _ runs' in
    let same : (j, b.assignment) ∷ rest ≡ assignment = cc runs'' in
    rw (← same) (ap (λ (ks : List ℤ). j ∷ ks) (assign_all-keys prices agents holders' rest others))
