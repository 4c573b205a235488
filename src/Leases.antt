-- ===== src/Leases.antt =====
-- auction_core/src/auction_core/liveness/lease.py: task ownership that lasts while it is renewed.
pub mod Sweep
pub mod Tests
use distributed_mobile_robot.Base.{
  ℤ, pos, leb_ℤ, ◌==ℤ◌, ◌+ℤ◌, Bool, true, false, not, if◌then◌else◌, List, [], ◌∷◌, Option, none,
  some, Result, ok, err, raise_if, value_error, key_error, ◌>>=◌, ◌>>◌, select,
}
use distributed_mobile_robot.Base.Dict.{Dict, get, set, del, values, or_key_error}
use distributed_mobile_robot.Types.{AgentId, TaskId}

pub record Lease : Type 0 where
  pub task_id : TaskId
  pub holder : AgentId
  pub expires_at : ℤ

pub record TaskLeases : Type 0 where
  pub duration : ℤ
  pub leases : Dict Lease

unfoldable pub task_leases : ℤ → Result TaskLeases
task_leases duration = do
  raise_if (leb_ℤ duration (pos 0)) value_error
  ok (record { duration = duration; leases = [] })

-- The new lease, and the state.
unfoldable pub grant : TaskLeases → TaskId → AgentId → ℤ → Lease × TaskLeases
grant l task_id agent now =
    let lease : Lease = record {
      task_id = task_id;
      holder = agent;
      expires_at = now +ℤ l.duration;
    } in
    (lease, record l { leases = set task_id lease l.leases })

-- `current is None or current.holder != holder`
abbrev pub is_stale : Option Lease → AgentId → Bool
is_stale none agent = true
is_stale (some current) agent = not (current.holder ==ℤ agent)

unfoldable pub renew : TaskLeases → TaskId → AgentId → ℤ → Bool × TaskLeases
renew l task_id agent now = if is_stale (get task_id l.leases) agent then (false, l) else (
  true,
  record l {
    leases =
        set task_id (record { task_id = task_id; holder = agent; expires_at = now +ℤ l.duration })
          l.leases;
  },
)

unfoldable pub release : TaskLeases → TaskId → AgentId → Bool × TaskLeases
release l task_id agent =
    if is_stale (get task_id l.leases) agent
    then (false, l)
    else (true, record l { leases = del task_id l.leases })

-- `l.expires_at <= now`
abbrev pub is_expired : ℤ → Lease → Bool
is_expired now lease = leb_ℤ lease.expires_at now

-- `for lease in expired: del self._leases[lease.task_id]`
unfoldable pub del_all : List Lease → Dict Lease → Result (Dict Lease)
del_all [] d = ok d
del_all (lease ∷ expired) d = do
  _ ← or_key_error (get lease.task_id d)
  del_all expired (del lease.task_id d)

unfoldable pub sweep : TaskLeases → ℤ → Result (List Lease × TaskLeases)
unfolding del_all
sweep l now = do
  let expired = select (is_expired now) (values l.leases)
  rest ← del_all expired l.leases
  ok (expired, record l { leases = rest })

unfoldable pub holder : TaskLeases → TaskId → Option AgentId
holder l task_id = elim (get task_id l.leases) [ none ↦ none | some lease ↦ some lease.holder ]

unfoldable pub held_in : AgentId → Dict Lease → List TaskId
held_in robot [] = []
held_in robot ((t, lease) ∷ rest) =
    if lease.holder ==ℤ robot then t ∷ held_in robot rest else held_in robot rest

-- A set, as the list of its members.
unfoldable pub held_by : TaskLeases → AgentId → List TaskId
unfolding held_in
held_by l robot = held_in robot l.leases
