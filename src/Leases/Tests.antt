-- ===== src/Leases/Tests.antt =====
-- Two leases, and the theorems at them.
use distributed_mobile_robot.Base.{ℤ, pos, ◌+ℤ◌, ◌≡◌, refl, [], ◌∷◌, some, ok}
use distributed_mobile_robot.Base.Dict.{set, get, del}
use distributed_mobile_robot.Leases.{Lease, TaskLeases, grant, sweep, holder}
use distributed_mobile_robot.Leases.Sweep.{IsKeyed, sweep_lem, grant-lasts, live}

abbrev lease : ℤ → ℤ → ℤ → Lease
lease t h e = record { task_id = t; holder = h; expires_at = e }

abbrev two : TaskLeases
two = record {
  duration = pos 6;
  leases = (pos 1, lease (pos 1) (pos 0) (pos 4)) ∷ (pos 2, lease (pos 2) (pos 3) (pos 9)) ∷ [];
}

two-IsKeyed : IsKeyed two.leases
two-IsKeyed = (((refl, tt), (tt, tt)), (refl, (refl, tt)))

sweep_example :
    sweep two (pos 5)
    ≡ ok (lease (pos 1) (pos 0) (pos 4) ∷ [], record two { leases = live (pos 5) two.leases })
sweep_example = sweep_lem two (pos 5) two-IsKeyed

-- Task 1 is granted to robot 7 at time 5, and swept at time 10.
abbrev swept : TaskLeases
swept = record two { leases = (pos 1, lease (pos 1) (pos 7) (pos 11)) ∷ [] }

swept_run :
    sweep (grant two (pos 1) (pos 7) (pos 5)).1 (pos 10)
    ≡ ok (lease (pos 2) (pos 3) (pos 9) ∷ [], swept)
unfolding sweep grant set get del ◌+ℤ◌
swept_run = refl

grant-lasts_example : holder swept (pos 1) ≡ some (pos 7)
unfolding ◌+ℤ◌
grant-lasts_example =
    grant-lasts two (pos 1) (pos 7) (pos 5) (pos 10) two-IsKeyed swept
      (lease (pos 2) (pos 3) (pos 9) ∷ []) swept_run
