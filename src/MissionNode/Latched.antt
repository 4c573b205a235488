-- ===== src/MissionNode/Latched.antt =====
-- What stands latched after injections.
use distributed_mobile_robot.Base.{
  ℤ, ◌==ℤ◌, Bool, true, false, ◌||◌, ◌≡◌, refl, ◌∙◌, inl, inr, List, [], ◌∷◌, ◌++◌, Bool-cases,
  ℤ-cases, ==ℤ_refl, subst, arith,
}
use distributed_mobile_robot.Msgs.{TaskSpec}
use distributed_mobile_robot.MissionNode.{MissionNode, has_id, on_inject}

-- Each id once.
abbrev pub IdsApart : List TaskSpec → Type 0
IdsApart [] = Unit
IdsApart (t ∷ ts) = (has_id t.id.value ts ≡ false) × IdsApart ts

-- The latched tasks are the mission's, each id once.
pub record IsValid (n : MissionNode) : Type 0 where
  pub current : n.latched.tasks ≡ n.tasks
  pub apart : IdsApart n.tasks

has_id-append :
    (id : ℤ) (ts : List TaskSpec) (t : TaskSpec)
    → has_id id (ts ++ t ∷ []) ≡ (has_id id ts || t.id.value ==ℤ id)
has_id-append id [] t = ground arith
has_id-append id (s ∷ ts) t = ground (arith, has_id-append id ts t)

IdsApart-append :
    (ts : List TaskSpec) (t : TaskSpec)
    → IdsApart ts
    → has_id t.id.value ts ≡ false
    → IdsApart (ts ++ t ∷ [])
IdsApart-append [] t apart new = (refl, tt)
IdsApart-append (s ∷ ts) t apart new = (
  ground (arith, apart.0, has_id-append s.id.value ts t),
  IdsApart-append ts t apart.1 (ground arith),
)

on_inject-IsValid :
    (n : MissionNode) (spec : TaskSpec) (now : ℤ) → IsValid n → IsValid (on_inject n spec now)
unfolding on_inject
on_inject-IsValid n spec now v = elim (Bool-cases (has_id spec.id.value n.tasks)) [
  | inl known ↦ rw known v
  | inr new ↦ rw new (record { current = refl; apart = IdsApart-append n.tasks spec v.apart new })
]

-- The ids after an injection.
on_inject-has_id :
    (n : MissionNode) (spec : TaskSpec) (now : ℤ) (id : ℤ)
    → has_id id (on_inject n spec now).tasks ≡ (has_id id n.tasks || spec.id.value ==ℤ id)
unfolding on_inject
on_inject-has_id n spec now id = elim (Bool-cases (has_id spec.id.value n.tasks)) [
  | inl known ↦ rw known (elim (ℤ-cases spec.id.value id) [
    | inl same ↦
        let here : has_id id n.tasks ≡ true = subst (λ k. has_id k n.tasks ≡ true) same known in
        ground (arith, here)
    | inr other ↦ ground (arith, other)
  ])
  | inr new ↦ rw new (has_id-append id n.tasks spec)
]

known_lem :
    (n : MissionNode) (spec : TaskSpec) (now : ℤ)
    → has_id spec.id.value n.tasks ≡ true
    → on_inject n spec now ≡ n
unfolding on_inject
known_lem n spec now known = rw known

on_inject_again :
    (n : MissionNode) (spec : TaskSpec) (now later : ℤ)
    → on_inject (on_inject n spec now) spec later ≡ on_inject n spec now
on_inject_again n spec now later =
    let here : has_id spec.id.value (on_inject n spec now).tasks ≡ true =
      on_inject-has_id n spec now spec.id.value ∙ last (has_id spec.id.value n.tasks) in
    known_lem (on_inject n spec now) spec later here
  where
    last : (b : Bool) → (b || spec.id.value ==ℤ spec.id.value) ≡ true
    last true = refl
    last false = ==ℤ_refl spec.id.value

-- For a mission node whose latched tasks are its tasks, each id once, an injection keeps this, adds
-- exactly the injected id to the ids, and a second injection of the same task changes nothing.
pub on_inject_lem :
    (n : MissionNode) (spec : TaskSpec) (now later : ℤ)
    → IsValid n
    → IsValid (on_inject n spec now)
      × ((id : ℤ)
          → has_id id (on_inject n spec now).tasks ≡ (has_id id n.tasks || spec.id.value ==ℤ id))
      × (on_inject (on_inject n spec now) spec later ≡ on_inject n spec now)
on_inject_lem n spec now later v =
    (on_inject-IsValid n spec now v, on_inject-has_id n spec now, on_inject_again n spec now later)
