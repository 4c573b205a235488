-- ===== src/Allocator/Reports.antt =====
-- Each task is scheduled or reported.
use distributed_mobile_robot.Base.{
  suc, ◌≤◌, ◌+◌, ℤ, leb_ℤ, ◌==ℤ◌, ℤ-cases, Bool, true, not, if◌then◌else◌, ◌≡◌, refl, sym, subst,
  ◌⊎◌, inl, inr, List, [], ◌∷◌, ok, >>=-eq-ok, ok_inj, In, select, sorted, insert_sorted, length,
  Bool-cases, arith,
}
use distributed_mobile_robot.Base.Dict.{
  Dict, get, set, keys, is_some, get-set, get-set_self, get-set_ne, keys-In, In-get,
}
use distributed_mobile_robot.Types.{TaskId, Task, collaborative}
use distributed_mobile_robot.Dag.{by_id, task_dag, dependents}
use distributed_mobile_robot.Dag.Visit.{TaskIn}
use distributed_mobile_robot.Allocator.{
  Reason, unsupported, blocked_by, set_default, report_unsupported, report_all, report_blocked,
}
use distributed_mobile_robot.Allocator.Loop.{split_tasks}

-- The task has a reason.
abbrev pub IsReported : TaskId → Dict Reason → Type 0
IsReported k reports = is_some (get k reports) ≡ true

set-IsReported :
    (j k : TaskId) (why : Reason) (d : Dict Reason) → IsReported j d → IsReported j (set k why d)
set-IsReported j k why d h = elim (Bool-cases (k ==ℤ j)) [
  | inl same ↦ rw (get-set k j why d, same) refl
  | inr other ↦ rw (get-set k j why d, other) h
]

set-IsReported_self : (k : TaskId) (why : Reason) (d : Dict Reason) → IsReported k (set k why d)
set-IsReported_self k why d = rw (get-set_self k why d) refl

set_default-IsReported :
    (j k : TaskId) (why : Reason) (d : Dict Reason)
    → IsReported j d
    → IsReported j (set_default k why d)
set_default-IsReported j k why d h = elim (Bool-cases (is_some (get k d))) [
  | inl there ↦ rw there h
  | inr new ↦ rw new (set-IsReported j k why d h)
]

set_default-IsReported_self :
    (k : TaskId) (why : Reason) (d : Dict Reason) → IsReported k (set_default k why d)
set_default-IsReported_self k why d = elim (Bool-cases (is_some (get k d))) [
  | inl there ↦ rw there there
  | inr new ↦ rw new (set-IsReported_self k why d)
]

pub report_all-keeps :
    (j : TaskId) (why : Reason) (ks : List TaskId) (d : Dict Reason)
    → IsReported j d
    → IsReported j (report_all why ks d)
report_all-keeps j why [] d h = h
report_all-keeps j why (k ∷ ks) d h =
    report_all-keeps j why ks (set_default k why d) (set_default-IsReported j k why d h)

pub report_all-IsReported :
    (j : TaskId) (why : Reason) (ks : List TaskId) (d : Dict Reason)
    → In j ks
    → IsReported j (report_all why ks d)
report_all-IsReported j why [] d i = absurd i
report_all-IsReported j why (k ∷ ks) d (inl same) =
    report_all-keeps j why ks (set_default k why d)
      (subst (λ x. IsReported x (set_default k why d)) same (set_default-IsReported_self k why d))
report_all-IsReported j why (k ∷ ks) d (inr i) =
    report_all-IsReported j why ks (set_default k why d) i

report_unsupported-keeps :
    (j : TaskId) (ts : List Task) (d : Dict Reason)
    → IsReported j d
    → IsReported j (report_unsupported ts d)
report_unsupported-keeps j [] d h = h
report_unsupported-keeps j (t ∷ ts) d h = elim (Bool-cases (collaborative t)) [
  | inl together ↦ rw together (
      report_unsupported-keeps j ts (set t.id unsupported d)
        (set-IsReported j t.id unsupported d h))
  | inr alone ↦ rw alone (report_unsupported-keeps j ts d h)
]

report_unsupported-IsReported :
    (t : Task) (ts : List Task) (d : Dict Reason)
    → TaskIn t ts
    → collaborative t ≡ true
    → IsReported t.id (report_unsupported ts d)
report_unsupported-IsReported t [] d i together = absurd i
report_unsupported-IsReported t (s ∷ ts) d (inl same) together =
    subst (λ (x : Task). IsReported x.id (report_unsupported (s ∷ ts) d)) same
      (rw (subst (λ (x : Task). collaborative x ≡ true) (sym same) together) (
        report_unsupported-keeps s.id ts (set s.id unsupported d)
          (set-IsReported_self s.id unsupported d)))
report_unsupported-IsReported t (s ∷ ts) d (inr i) together =
    report_unsupported-IsReported t ts (if collaborative s then set s.id unsupported d else d) i
      together

report_blocked-keeps :
    (j : TaskId) (tasks ts : List Task) (d d' : Dict Reason)
    → report_blocked tasks ts d ≡ ok d'
    → IsReported j d
    → IsReported j d'
unfolding report_blocked
report_blocked-keeps j tasks [] d d' runs h = subst (IsReported j) (ok_inj d d' runs) h
report_blocked-keeps j tasks (t ∷ ts) d d' runs h = elim (Bool-cases (collaborative t)) [
  | inl together ↦
      let (dag, graph, runs1) = >>=-eq-ok (task_dag tasks) _ (rw together at runs) in
      report_blocked-keeps j tasks ts _ d' runs1
        (report_all-keeps j (blocked_by t.id) (dependents dag t.id) d h)
  | inr alone ↦ report_blocked-keeps j tasks ts d d' (rw alone at runs) h
]

TaskIn-select :
    (keep : Task → Bool) (t : Task) (ts : List Task)
    → TaskIn t ts
    → keep t ≡ true
    → TaskIn t (select keep ts)
TaskIn-select keep t [] i kept = absurd i
TaskIn-select keep t (s ∷ ts) (inl same) kept =
    rw (subst (λ (x : Task). keep x ≡ true) (sym same) kept) (inl same)
TaskIn-select keep t (s ∷ ts) (inr i) kept = elim (Bool-cases (keep s)) [
  | inl yes_s ↦ rw yes_s (inr (TaskIn-select keep t ts i kept))
  | inr no_s ↦ rw no_s (TaskIn-select keep t ts i kept)
]

pub split_tasks-covers :
    (tasks schedulable : List Task) (reported : Dict Reason) (t : Task)
    → split_tasks tasks ≡ ok (schedulable, reported)
    → TaskIn t tasks
    → TaskIn t schedulable ⊎ IsReported t.id reported
unfolding split_tasks
split_tasks-covers tasks schedulable reported t runs i =
    let (blocked, found, runs1) =
      >>=-eq-ok (report_blocked tasks tasks (report_unsupported tasks [])) _ runs in
    subst (λ (split : List Task × Dict Reason). TaskIn t split.0 ⊎ IsReported t.id split.1)
      (ok_inj _ (schedulable, reported) runs1)
      (elim (Bool-cases (collaborative t)) [
        | inl together ↦ inr (
            report_blocked-keeps t.id tasks tasks _ blocked found
              (report_unsupported-IsReported t tasks [] i together))
        | inr alone ↦ elim (Bool-cases (is_some (get t.id blocked))) [
          | inl held_back ↦ inr held_back
          | inr free ↦ inl (
              TaskIn-select (λ t. not (is_some (get t.id blocked))) t _
                (TaskIn-select (λ t. not (collaborative t)) t tasks i (rw alone refl))
                (rw free refl))
        ]
      ])

set-keys_In : {V : Type 0} (j k : ℤ) (v : V) (d : Dict V) → In j (keys d) → In j (keys (set k v d))
set-keys_In j k v d i = elim (ℤ-cases k j) [
  | inl same ↦
      subst (λ x. In x (keys (set k v d))) same (keys-In k v (set k v d) (get-set_self k v d))
  | inr other ↦
      let (w, held) = In-get j d i in keys-In j w (set k v d) (rw (get-set_ne k j v d other) held)
]

by_id-keeps :
    (j : TaskId) (ts : List Task) (d : Dict Task) → In j (keys d) → In j (keys (by_id d ts))
unfolding by_id
by_id-keeps j [] d i = i
by_id-keeps j (t ∷ ts) d i = by_id-keeps j ts (set t.id t d) (set-keys_In j t.id t d i)

pub by_id-In :
    (t : Task) (ts : List Task) (d : Dict Task) → TaskIn t ts → In t.id (keys (by_id d ts))
unfolding by_id
by_id-In t [] d i = absurd i
by_id-In t (s ∷ ts) d (inl same) =
    subst (λ (x : Task). In x.id (keys (by_id (set s.id s d) ts))) same
      (by_id-keeps s.id ts (set s.id s d) (keys-In s.id s (set s.id s d) (get-set_self s.id s d)))
by_id-In t (s ∷ ts) d (inr i) = by_id-In t ts (set s.id s d) i

set-length : {V : Type 0} (k : ℤ) (v : V) (d : Dict V) → length (set k v d) ≤ suc (length d)
unfolding set
set-length k v [] = omega arith
set-length k v ((j, w) ∷ d) = elim (Bool-cases (j ==ℤ k)) [
  | inl same ↦ rw same (omega arith)
  | inr other ↦ rw other (omega (arith, set-length k v d))
]

pub by_id-length : (ts : List Task) (d : Dict Task) → length (by_id d ts) ≤ length ts + length d
unfolding by_id
by_id-length [] d = omega arith
by_id-length (t ∷ ts) d = omega (arith, by_id-length ts (set t.id t d), set-length t.id t d)

In-insert_sorted : (j k : ℤ) (xs : List ℤ) → (k ≡ j) ⊎ In j xs → In j (insert_sorted k xs)
unfolding insert_sorted
In-insert_sorted j k [] i = i
In-insert_sorted j k (x ∷ xs) i = elim (Bool-cases (leb_ℤ k x)) [
  | inl before ↦ rw before i
  | inr behind ↦ rw behind (elim i [
    | inl same ↦ inr (In-insert_sorted j k xs (inl same))
    | inr there ↦ elim there [
      | inl here ↦ inl here
      | inr later ↦ inr (In-insert_sorted j k xs (inr later))
    ]
  ])
]

pub In-sorted : (j : ℤ) (xs : List ℤ) → In j xs → In j (sorted xs)
unfolding sorted
In-sorted j [] i = absurd i
In-sorted j (x ∷ xs) (inl same) = In-insert_sorted j x (sorted xs) (inl same)
In-sorted j (x ∷ xs) (inr i) = In-insert_sorted j x (sorted xs) (inr (In-sorted j xs i))

pub In-select :
    (keep : ℤ → Bool) (j : ℤ) (xs : List ℤ) → In j xs → keep j ≡ true → In j (select keep xs)
In-select keep j [] i kept = absurd i
In-select keep j (x ∷ xs) (inl same) kept =
    rw (subst (λ k. keep k ≡ true) (sym same) kept) (inl same)
In-select keep j (x ∷ xs) (inr i) kept = elim (Bool-cases (keep x)) [
  | inl yes_x ↦ rw yes_x (inr (In-select keep j xs i kept))
  | inr no_x ↦ rw no_x (In-select keep j xs i kept)
]
