-- ===== src/Leases/Sweep.antt =====
-- `TaskLeases.sweep` removes exactly the expired leases, and every operation keeps the table keyed.
use mathlib.Core.List.{append_assoc}
use distributed_mobile_robot.Base.{
  ℤ, leb_ℤ, ◌+ℤ◌, ◌==ℤ◌, false, not, if◌then◌else◌, ◌≡◌, refl, ◌∙◌, ap, sym, subst, inl, inr, List,
  [], ◌∷◌, ◌++◌, none, some, Bool-cases, ==ℤ_refl, Result, ok, select, arith,
}
use distributed_mobile_robot.Base.Dict.{
  Dict, get, del, values, AllItems, AllItems-set, get-set_self, IsDistinct, IsDistinct-set,
  get-select,
}
use distributed_mobile_robot.Types.{AgentId, TaskId}
use distributed_mobile_robot.Leases.{Lease, TaskLeases, grant, sweep, del_all, is_expired, holder}

-- Each lease stands under its own task, and each task once.
abbrev pub IsKeyed : Dict Lease → Type 0
IsKeyed d = IsDistinct d × AllItems (λ k lease. lease.task_id ≡ k) d

-- The keys of `d` are not among those of `before`.
abbrev Beyond : Dict Lease → Dict Lease → Type 0
Beyond before d = AllItems (λ k _. get k before ≡ none) d

get_middle :
    (before : Dict Lease) (k : TaskId) (lease : Lease) (d : Dict Lease)
    → get k before ≡ none
    → get k (before ++ (k, lease) ∷ d) ≡ some lease
unfolding get
get_middle [] k lease d absent = rw (==ℤ_refl k)
get_middle ((j, l) ∷ before) k lease d absent = elim (Bool-cases (j ==ℤ k)) [
  | inl same ↦ cc
  | inr other ↦ rw other (get_middle before k lease d (rw other at absent))
]

del_middle :
    (before : Dict Lease) (k : TaskId) (lease : Lease) (d : Dict Lease)
    → get k before ≡ none
    → del k (before ++ (k, lease) ∷ d) ≡ before ++ d
unfolding get del
del_middle [] k lease d absent = rw (==ℤ_refl k)
del_middle ((j, l) ∷ before) k lease d absent = elim (Bool-cases (j ==ℤ k)) [
  | inl same ↦ cc
  | inr other ↦ rw (other, del_middle before k lease d (rw other at absent))
]

Beyond-snoc :
    (before : Dict Lease) (k : TaskId) (lease : Lease) (j : TaskId)
    → get j before ≡ none
    → (k ==ℤ j) ≡ false
    → get j (before ++ (k, lease) ∷ []) ≡ none
unfolding get
Beyond-snoc [] k lease j absent other = rw other
Beyond-snoc ((i, l) ∷ before) k lease j absent other = elim (Bool-cases (i ==ℤ j)) [
  | inl same ↦ cc
  | inr apart ↦ rw apart (Beyond-snoc before k lease j (rw apart at absent) other)
]

Beyond-cons :
    (before : Dict Lease) (k : TaskId) (lease : Lease) (d : Dict Lease)
    → AllItems (λ j _. (k ==ℤ j) ≡ false) d
    → Beyond before d
    → Beyond (before ++ (k, lease) ∷ []) d
Beyond-cons before k lease [] apart beyond = tt
Beyond-cons before k lease ((j, l) ∷ d) apart beyond =
    (Beyond-snoc before k lease j beyond.0 apart.0, Beyond-cons before k lease d apart.1 beyond.1)

abbrev pub live : ℤ → Dict Lease → Dict Lease
live now d = select (λ item. not (is_expired now item.1)) d

del_all-live :
    (now : ℤ) (d before : Dict Lease)
    → IsKeyed d
    → Beyond before d
    → del_all (select (is_expired now) (values d)) (before ++ d) ≡ ok (before ++ live now d)
unfolding del_all
del_all-live now [] before keyed beyond = refl
del_all-live now ((k, lease) ∷ d) before keyed beyond = elim (Bool-cases (is_expired now lease)) [
  | inl gone ↦
      rw
        (
          gone,
          subst (λ i. get i (before ++ (k, lease) ∷ d) ≡ some lease) (sym keyed.1.0)
              (get_middle before k lease d beyond.0),
          subst (λ i. del i (before ++ (k, lease) ∷ d) ≡ before ++ d) (sym keyed.1.0)
              (del_middle before k lease d beyond.0),
        )
        (del_all-live now d before (keyed.0.1, keyed.1.1) beyond.1)
  | inr stays ↦
      let rest =
        del_all-live now d (before ++ (k, lease) ∷ []) (keyed.0.1, keyed.1.1)
          (Beyond-cons before k lease d keyed.0.0 beyond.1) in
      rw stays (
        subst
          (λ x.
            del_all (select (is_expired now) (values d)) x ≡ ok (before ++ (k, lease) ∷ live now d))
          (append_assoc before ((k, lease) ∷ []) d)
          (rest
            ∙ ap {B = Result (Dict Lease)} ok (append_assoc before ((k, lease) ∷ []) (live now d))))
]

Beyond-nil : (d : Dict Lease) → Beyond [] d
unfolding get
Beyond-nil [] = tt
Beyond-nil (x ∷ d) = (refl, Beyond-nil d)

-- On a table with one lease for a task and each lease under its own task, sweep raises no
-- exception, returns exactly the expired leases in the table's order, and leaves exactly the others
-- in theirs.
pub sweep_lem :
    (l : TaskLeases) (now : ℤ)
    → IsKeyed l.leases
    → sweep l now
      ≡ ok (select (is_expired now) (values l.leases), record l { leases = live now l.leases })
unfolding sweep
sweep_lem l now keyed = rw (del_all-live now l.leases [] keyed (Beyond-nil l.leases))

-- Who holds a task after a sweep: the holder before, unless its lease had expired.
pub holder-live :
    (l : TaskLeases) (now : ℤ) (task : TaskId)
    → IsKeyed l.leases
    → holder (record l { leases = live now l.leases }) task ≡ elim (get task l.leases) [
      | none ↦ none
      | some lease ↦ if is_expired now lease then none else some lease.holder
    ]
unfolding holder
holder-live l now task keyed =
    ground (arith, get-select (λ lease. not (is_expired now lease)) task l.leases keyed.0)

grant-IsKeyed :
    (l : TaskLeases) (task : TaskId) (agent : AgentId) (now : ℤ)
    → IsKeyed l.leases
    → IsKeyed (grant l task agent now).1.leases
unfolding grant
grant-IsKeyed l task agent now keyed = (
  IsDistinct-set task _ l.leases keyed.0,
  AllItems-set (λ k lease. lease.task_id ≡ k) task _ l.leases refl keyed.1,
)

-- On a table with one lease for a task and each lease under its own task: after a grant, a sweep at
-- a later time leaves the task to its new holder exactly while the time is before the grant plus
-- the duration; from then on the task is free.
pub grant-lasts :
    (l : TaskLeases) (task : TaskId) (agent : AgentId) (now later : ℤ)
    → IsKeyed l.leases
    → (swept : TaskLeases) (expired : List Lease)
    → sweep (grant l task agent now).1 later ≡ ok (expired, swept)
    → holder swept task ≡ (if leb_ℤ (now +ℤ l.duration) later then none else some agent)
unfolding grant
grant-lasts l task agent now later keyed swept expired runs =
    let g = (grant l task agent now).1 in
    let keyed' = grant-IsKeyed l task agent now keyed in
    let same : record g { leases = live later g.leases } ≡ swept = cc (sweep_lem g later keyed') in
    subst (λ x. holder x task ≡ (if leb_ℤ (now +ℤ l.duration) later then none else some agent)) same
      (holder-live g later task keyed' ∙ rw (get-set_self task _ l.leases))
