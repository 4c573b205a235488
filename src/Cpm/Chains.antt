-- ===== src/Cpm/Chains.antt =====
-- Chains of tasks, and the finish times as the longest of them.
use distributed_mobile_robot.Base.{
  ℤ, pos, ◌+ℤ◌, ◌≤ℤ◌, max_ℤ, int_laws, ℤ-le_of_eq, ◌≡◌, refl, sym, ◌∙◌, ap, subst, ◌⊎◌, inl, inr,
  List, [], ◌∷◌, some, ok, >>=-eq-ok, ok_inj, In, arith,
}
use distributed_mobile_robot.Base.Dict.{Dict, get}
use distributed_mobile_robot.Types.{TaskId, Task}
use distributed_mobile_robot.Cpm.{Memo, Finish, max_from, max_finish}

-- A chain of tasks that ends with `k`: each waits for the one before it, and the first for none.
pub data Chain (tasks : Dict Task) : TaskId → ℤ → Type 0 where
  first :
      {k : TaskId} {total : ℤ} (t : Task)
      → get k tasks ≡ some t
      → t.prerequisites ≡ []
      → total ≡ t.duration
      → Chain tasks k total
  then_task :
      {k : TaskId} {total : ℤ} (t : Task) (p : TaskId) (before : ℤ)
      → get k tasks ≡ some t
      → In p t.prerequisites
      → Chain tasks p before
      → total ≡ before +ℤ t.duration
      → Chain tasks k total

max_left : (a b : ℤ) → a ≤ℤ max_ℤ a b
max_left a b = ground arith

max_right : (a b : ℤ) → b ≤ℤ max_ℤ a b
max_right a b = ground arith

max-one : (a b : ℤ) → (max_ℤ a b ≡ a) ⊎ (max_ℤ a b ≡ b)
max-one a b = ground arith

pub split_pair : {a b : ℤ × Memo} → ok a ≡ ok b → (a.0 ≡ b.0) × (a.1 ≡ b.1)
split_pair {a} {b} h =
    let same = ok_inj a b h in (ap (λ (x : ℤ × Memo). x.0) same, ap (λ (x : ℤ × Memo). x.1) same)

module _ (tasks : Dict Task) where
  -- The time is the longest chain's to the task.
  abbrev pub IsLongest : TaskId → ℤ → Type 0
  IsLongest k time = Chain tasks k time × ((total : ℤ) → Chain tasks k total → total ≤ℤ time)

  abbrev pub IsSound : Memo → Type 0
  IsSound memo = (k : TaskId) (time : ℤ) → get k memo ≡ some time → IsLongest k time

  abbrev pub Finishes : Finish → Type 0
  Finishes f =
      (k : TaskId) (memo : Memo) (time : ℤ) (memo' : Memo)
      → IsSound memo
      → f k memo ≡ ok (time, memo')
      → IsLongest k time × IsSound memo'

  -- The time is the longest chain's to any task of the list.
  abbrev pub IsMost : List TaskId → ℤ → Type 0
  IsMost ks time =
      ((k : TaskId) × In k ks × Chain tasks k time)
      × ((k : TaskId) (total : ℤ) → In k ks → Chain tasks k total → total ≤ℤ time)

  max_from-IsMost :
      (f : Finish) (best : ℤ) (seen ps : List TaskId) (memo : Memo) (time : ℤ) (memo' : Memo)
      → Finishes f
      → IsSound memo
      → IsMost seen best
      → max_from f best ps memo ≡ ok (time, memo')
      → ((k : TaskId) × (In k seen ⊎ In k ps) × Chain tasks k time)
        × ((k : TaskId) (total : ℤ) → In k seen ⊎ In k ps → Chain tasks k total → total ≤ℤ time)
        × IsSound memo'
  unfolding max_from
  max_from-IsMost f best seen [] memo time memo' good sound ((k, i, chain), above) runs =
      let (same, same_memo) = split_pair runs in
      (
        (k, inl i, subst (Chain tasks k) same chain),
        (λ j total place c. elim place [
          | inl old ↦ subst (λ x. total ≤ℤ x) same (above j total old c)
          | inr none_left ↦ absurd none_left
        ]),
        subst IsSound same_memo sound,
      )
  max_from-IsMost f best seen (p ∷ ps) memo time memo' good sound ((k, i, chain), above) runs =
      let ((t, memo1), found, runs1) = >>=-eq-ok (f p memo) _ runs in
      let ((chain_p, above_p), sound1) = good p memo t memo1 sound found in
      let ((j, place, c), all, sound2) =
        max_from-IsMost f (max_ℤ best t) (p ∷ seen) ps memo1 time memo' good sound1
          (
            elim (max-one best t) [
              | inl old ↦ (k, inr i, subst (Chain tasks k) (sym old) chain)
              | inr new ↦ (p, inl refl, subst (Chain tasks p) (sym new) chain_p)
            ],
            λ j total place c. elim place [
              | inl same ↦
                  let le = above_p total (subst (λ x. Chain tasks x total) (sym same) c) in
                  omega (arith, le, max_right best t)
              | inr old ↦ omega (arith, above j total old c, max_left best t)
            ],
          )
          runs1 in
      ((j, shift j place, c), (λ j total place c. all j total (back j place) c), sound2)
    where
      shift : (j : TaskId) → In j (p ∷ seen) ⊎ In j ps → In j seen ⊎ In j (p ∷ ps)
      shift j (inl (inl same)) = inr (inl same)
      shift j (inl (inr old)) = inl old
      shift j (inr later) = inr (inr later)

      back : (j : TaskId) → In j seen ⊎ In j (p ∷ ps) → In j (p ∷ seen) ⊎ In j ps
      back j (inl old) = inl (inr old)
      back j (inr (inl same)) = inl (inl same)
      back j (inr (inr later)) = inr later

  -- No task, or the longest chain to one of them.
  pub max_finish-IsMost :
      (f : Finish) (ps : List TaskId) (memo : Memo) (time : ℤ) (memo' : Memo)
      → Finishes f
      → IsSound memo
      → max_finish f ps memo ≡ ok (time, memo')
      → (((ps ≡ []) × (time ≡ pos 0)) ⊎ IsMost ps time) × IsSound memo'
  unfolding max_finish
  max_finish-IsMost f [] memo time memo' good sound runs =
      let (same, same_memo) = split_pair runs in
      (inl (refl, sym same), subst IsSound same_memo sound)
  max_finish-IsMost f (p ∷ ps) memo time memo' good sound runs =
      let ((t, memo1), found, runs1) = >>=-eq-ok (f p memo) _ runs in
      let ((chain_p, above_p), sound1) = good p memo t memo1 sound found in
      let ((j, place, c), all, sound2) =
        max_from-IsMost f t (p ∷ []) ps memo1 time memo' good sound1
          (
            (p, inl refl, chain_p),
            λ j total place c. elim place [
              | inl same ↦ above_p total (subst (λ x. Chain tasks x total) (sym same) c)
              | inr none_left ↦ absurd none_left
            ],
          )
          runs1 in
      (inr ((j, merge j place, c), λ j total i c. all j total (split j i) c), sound2)
    where
      merge : (j : TaskId) → In j (p ∷ []) ⊎ In j ps → In j (p ∷ ps)
      merge j (inl (inl same)) = inl same
      merge j (inl (inr none_left)) = absurd none_left
      merge j (inr later) = inr later

      split : (j : TaskId) → In j (p ∷ ps) → In j (p ∷ []) ⊎ In j ps
      split j (inl same) = inl (inl same)
      split j (inr later) = inr later

  -- The longest chain to a task extends the longest one to its prerequisites.
  pub extend :
      (k : TaskId) (t : Task) (start : ℤ)
      → get k tasks ≡ some t
      → ((t.prerequisites ≡ []) × (start ≡ pos 0)) ⊎ IsMost t.prerequisites start
      → IsLongest k (start +ℤ t.duration)
  extend k t start known (inl (no_ps, zero_start)) =
      let sum : start +ℤ t.duration ≡ t.duration = rw zero_start (plus_zero t.duration) in
      (
        first t known no_ps sum,
        λ total c. elim c [
          | first u found nothing same ↦ omega (
            arith,
            last u total (one_task u known found) same,
            ℤ-le_of_eq t.duration (start +ℤ t.duration) (sym sum),
          )
          | then_task u p before found i c' same ↦ absurd (
              subst (In p)
                (ap (λ (x : Task). x.prerequisites) (sym (one_task u known found)) ∙ no_ps) i)
        ],
      )
    where
      plus_zero : (d : ℤ) → pos 0 +ℤ d ≡ d
      plus_zero d = omega int_laws

      one_task : (u : Task) → get k tasks ≡ some t → get k tasks ≡ some u → t ≡ u
      one_task u a b = cc

      last : (u : Task) (total : ℤ) → t ≡ u → total ≡ u.duration → total ≤ℤ t.duration
      last u total same h = ground arith
  extend k t start known (inr ((p, i, chain), above)) = (
    then_task t p start known i chain refl,
    λ total c. elim c [
      | first u found nothing same ↦
          absurd
            (subst (In p) (ap (λ (x : Task). x.prerequisites) (one_task u known found) ∙ nothing) i)
      | then_task u q before found j c' same ↦
          let e = one_task u known found in
          let le = above q before (subst (λ (x : Task). In q x.prerequisites) (sym e) j) c' in
          more u total before e same le
    ],
  )
    where
      one_task : (u : Task) → get k tasks ≡ some t → get k tasks ≡ some u → t ≡ u
      one_task u a b = cc

      more :
          (u : Task) (total before : ℤ)
          → t ≡ u
          → total ≡ before +ℤ u.duration
          → before ≤ℤ start
          → total ≤ℤ start +ℤ t.duration
      more u total before same h le = rw (h, ← same) (omega (int_laws, le))
