-- ===== src/Dag/Missing.antt =====
-- How many prerequisites are not in a list of tasks yet.
use distributed_mobile_robot.Base.{
  ℕ, suc, ◌+◌, ℤ, ◌==ℤ◌, true, false, ◌||◌, if◌then◌else◌, ◌≡◌, refl, sym, subst, inl, inr, List,
  [], ◌∷◌, ◌++◌, contains, length, In, Apart, ℤ-cases, ==ℤ_refl, ==ℤ_iff, Bool-cases, arith,
}
use distributed_mobile_robot.Types.{TaskId}

pub contains-In : (k : ℤ) (xs : List ℤ) → contains k xs ≡ true → In k xs
contains-In k [] h = cc
contains-In k (x ∷ xs) h = elim (ℤ-cases x k) [
  | inl same ↦ inl same
  | inr other ↦ inr (contains-In k xs (rw other at h))
]

pub In-contains : (k : ℤ) (xs : List ℤ) → In k xs → contains k xs ≡ true
In-contains k [] i = absurd i
In-contains k (x ∷ xs) (inl same) = rw (same, ==ℤ_refl k)
In-contains k (x ∷ xs) (inr i) = ground (arith, In-contains k xs i)

pub contains-append :
    (k : ℤ) (xs : List ℤ) (y : ℤ) → contains k (xs ++ y ∷ []) ≡ (contains k xs || y ==ℤ k)
contains-append k [] y = ground arith
contains-append k (x ∷ xs) y = ground (arith, contains-append k xs y)

-- The number of `ps` that are not in `order`.
pub missing : List TaskId → List TaskId → ℕ
missing order [] = 0
missing order (p ∷ ps) = if contains p order then missing order ps else suc (missing order ps)

pub missing-none :
    (order ps : List TaskId) → missing order ps ≡ 0 → (p : TaskId) → In p ps → In p order
unfolding missing
missing-none order [] h p i = absurd i
missing-none order (q ∷ ps) h p i = elim (Bool-cases (contains q order)) [
  | inl there ↦ elim i [
    | inl same ↦ subst (λ x. In x order) same (contains-In q order there)
    | inr later ↦ missing-none order ps (rw there at h) p later
  ]
  | inr absent ↦ absurd (let bad : suc (missing order ps) ≡ 0 = rw absent at h in omega arith)
]

pub missing-nil : (ps : List TaskId) → missing [] ps ≡ length ps
unfolding missing
missing-nil [] = refl
missing-nil (p ∷ ps) = omega (arith, missing-nil ps)

missing-append_other :
    (order ps : List TaskId) (t : TaskId)
    → contains t ps ≡ false
    → missing (order ++ t ∷ []) ps ≡ missing order ps
unfolding missing
missing-append_other order [] t h = refl
missing-append_other order (p ∷ ps) t h =
    ground
      (arith, contains-append p order t, missing-append_other order ps t, ==ℤ_iff p t, ==ℤ_iff t p)

-- A prerequisite that is done is missing no more.
pub missing-append :
    (order ps : List TaskId) (t : TaskId)
    → contains t order ≡ false
    → Apart ps
    → missing order ps ≡ missing (order ++ t ∷ []) ps + (if contains t ps then 1 else 0)
unfolding missing
missing-append order [] t new apart = refl
missing-append order (p ∷ ps) t new apart = elim (ℤ-cases p t) [
  | inl same ↦
      let later : contains t ps ≡ false = elim (Bool-cases (contains t ps)) [
        | inl there ↦ absurd (apart.0 t (contains-In t ps there) same)
        | inr absent ↦ absent
      ] in
      let absent : contains p order ≡ false =
        subst (λ x. contains x order ≡ false) (sym same) new in
      ground (
        arith,
        contains-append p order t,
        missing-append_other order ps t later,
        absent,
        same,
        ==ℤ_iff p t,
      )
  | inr other ↦
      let differs : (t ==ℤ p) ≡ false = ground arith in
      ground
        (arith, contains-append p order t, missing-append order ps t new apart.1, other, differs)
]
