-- ===== src/Participant/Tests.antt =====
-- Two participants that heard of each other, and the theorems at them.
use distributed_mobile_robot.Base.{
  ◌++◌, ◌⊎◌, ℤ, pos, ◌-ℤ◌, true, false, ◌≡◌, refl, [], ◌∷◌, none, some, ok, contains, arith,
}
use distributed_mobile_robot.Base.Dict.{get, set}
use distributed_mobile_robot.Heartbeat.{record_seen, alive}
use distributed_mobile_robot.Heartbeat
use distributed_mobile_robot.Leases.{holder}
use distributed_mobile_robot.Leases
use distributed_mobile_robot.Messages.{LeaseRenewal}
use distributed_mobile_robot.Participant.State.{Participant}
use distributed_mobile_robot.Participant.Handle.{on_lease_renewal}
use distributed_mobile_robot.Participant.Cycle.{is_coordinator, tick_upkeep}
use distributed_mobile_robot.Participant.Leasing.{renewals_commute, upkeep_lem, LostTo}
use distributed_mobile_robot.Participant.Coordinator.{one_coordinator}

-- Robot 2 executes task 7 under its own lease, and has heard from robot 2 (itself) and robot 5.
abbrev pub busy : Participant
busy = record {
  me = record { id = pos 2; position = []; capabilities = []; speed = pos 1; workload = pos 0 };
  model = record { benefit = λ r t. pos 1 };
  heartbeat_interval = pos 1;
  monitor = record {
    timeout = pos 3;
    last_seen = (pos 2, pos 8) ∷ (pos 5, pos 9) ∷ [];
    alive_flags = [];
  };
  leases = record {
    duration = pos 6;
    leases = (pos 7, record { task_id = pos 7; holder = pos 2; expires_at = pos 14 }) ∷ [];
  };
  epsilon = pos 1;
  quiescence_rounds = pos 8;
  round_timeout = pos 30;
  one = pos 1;
  tasks = [];
  completed = [];
  unsupported = [];
  executing = some (pos 7);
  idle_flags = [];
  announcement = none;
  round_opened_at = pos 0;
  agent = none;
  relay = none;
  relay_dirty = false;
  max_round_seen = pos 0;
  last_heartbeat = none;
  dispatches = [];
  aborts = [];
}

abbrev renewal : ℤ → LeaseRenewal
renewal h = record { task_id = pos 7; holder = h; stamp = pos 10 }

abbrev told : ℤ → ℤ → Participant
told h g = on_lease_renewal (on_lease_renewal busy (renewal h) (pos 10)) (renewal g) (pos 11)

renewals_commute_example :
    holder (told (pos 1) (pos 0)).leases (pos 7) ≡ holder (told (pos 0) (pos 1)).leases (pos 7)
renewals_commute_example =
    renewals_commute busy (renewal (pos 1)) (renewal (pos 0)) (pos 10) (pos 11) refl

abbrev kept : Participant
kept = record busy {
  monitor = record {
    timeout = pos 3;
    last_seen = (pos 2, pos 10) ∷ (pos 5, pos 9) ∷ [];
    alive_flags = (pos 2, true) ∷ (pos 5, true) ∷ [];
  };
}

kept_run : tick_upkeep busy (pos 10) ≡ ok kept
unfolding tick_upkeep record_seen Heartbeat.sweep Leases.sweep holder get set ◌-ℤ◌
kept_run = refl

-- Robot 5 has taken the task over.
abbrev taken : Participant
taken = record busy {
  leases = record {
    duration = pos 6;
    leases = (pos 7, record { task_id = pos 7; holder = pos 5; expires_at = pos 14 }) ∷ [];
  };
}

upkeep_example :
    (q : Participant) × (tick_upkeep taken (pos 10) ≡ ok q)
    × ((LostTo (pos 2) (pos 10) (get (pos 7) taken.leases.leases)
          × (q.executing ≡ none)
          × (q.aborts ≡ taken.aborts ++ pos 7 ∷ []))
        ⊎ ((LostTo (pos 2) (pos 10) (get (pos 7) taken.leases.leases) → ⊥)
            × (q.executing ≡ some (pos 7))
            × (q.aborts ≡ taken.aborts)))
upkeep_example = upkeep_lem taken (pos 10) (pos 7) ((tt, tt), (refl, tt)) refl

-- Robot 5 hears the same.
abbrev other : Participant
other = record busy {
  me = record { id = pos 5; position = []; capabilities = []; speed = pos 1; workload = pos 0 };
}

hears : contains (pos 5) (alive busy.monitor (pos 10)) ≡ true
unfolding alive ◌-ℤ◌
hears = refl

heard : contains (pos 2) (alive other.monitor (pos 11)) ≡ true
unfolding alive ◌-ℤ◌
heard = refl

leads : is_coordinator busy (pos 10) ≡ true
unfolding is_coordinator alive ◌-ℤ◌
leads = refl

one_coordinator_example : is_coordinator other (pos 11) ≡ false
one_coordinator_example =
    one_coordinator busy other (pos 10) (pos 11) (λ e. absurd (ground arith)) hears heard leads
