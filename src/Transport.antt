-- ===== src/Transport.antt =====
-- auction_core/src/auction_core/validation/transport.py: broadcast to neighbours, with delay and loss.
-- The random generator is a parameter: a type of its states, the draw that decides whether a message
-- is lost, and the draw of a delay. A heap is the list of its items in the order of their pops.
pub mod Order
pub mod Broadcast
pub mod Tests
use distributed_mobile_robot.Base.{
  ℕ, ◌+◌, ltb, leb, ◌==◌, ℤ, pos_part, ◌==ℤ◌, Bool, true, false, not, ◌&&◌, ◌||◌, if◌then◌else◌,
  List, [], ◌∷◌, Option, none, some, select, map, Result, ok, ◌>>=◌, ◌++◌, contains, sorted,
}
use distributed_mobile_robot.Base.Dict.{Dict, get, set, or_key_error}
use distributed_mobile_robot.Types.{AgentId, PriceTableMessage}

-- The neighbours of each agent: a set, as the list of its members in the order of iteration.
abbrev pub Topology : Type 0
Topology = Dict (List AgentId)

-- `{i: ids - {i} for i in ids}`
unfoldable pub complete : List AgentId → Topology
complete ids = map (λ i. (i, select (λ j. not (j ==ℤ i)) ids)) ids

-- `adj[a].add(b)`
unfoldable pub add_neighbour : AgentId → AgentId → Topology → Result Topology
add_neighbour a b adj = do
  ids ← or_key_error (get a adj)
  ok (set a (if contains b ids then ids else ids ++ b ∷ []) adj)

-- `{i: set() for i in ids}`
unfoldable pub no_neighbours : List AgentId → Topology → Topology
no_neighbours [] adj = adj
no_neighbours (i ∷ ids) adj = no_neighbours ids (set i [] adj)

-- The loop over `itertools.pairwise(ids)`.
unfoldable pub link_pairs : AgentId → List AgentId → Topology → Result Topology
link_pairs a [] adj = ok adj
link_pairs a (b ∷ ids) adj = do
  adj' ← add_neighbour a b adj
  adj'' ← add_neighbour b a adj'
  link_pairs b ids adj''

abbrev pub link_all : List AgentId → Topology → Result Topology
link_all [] adj = ok adj
link_all (a ∷ ids) adj = link_pairs a ids adj

unfoldable pub line : List AgentId → Result Topology
line agent_ids = let ids = sorted agent_ids in link_all ids (no_neighbours ids [])

pub record Queued (P : Type 0) : Type 0 where
  pub deliver_at : ℕ
  pub seq : ℕ
  pub dest : AgentId
  pub payload : P

pub record SimTransport (S P : Type 0) : Type 0 where
  pub topology_fn : ℕ → Topology
  -- `self._rng.random() < self._loss`
  pub lost : S → Bool × S
  pub delay : S → ℤ × S
  pub rng : S
  pub queue : List (Queued P)
  pub seq : ℕ
  pub messages_sent : ℕ

module _ {P : Type 0} where
  -- The order of the tuples: no two have one `seq`.
  abbrev pub pops_before : Queued P → Queued P → Bool
  pops_before x y =
      ltb x.deliver_at y.deliver_at || (x.deliver_at == y.deliver_at && ltb x.seq y.seq)

  -- `heapq.heappush`
  unfoldable pub heappush : Queued P → List (Queued P) → List (Queued P)
  heappush x [] = x ∷ []
  heappush x (y ∷ queue) = if pops_before y x then y ∷ heappush x queue else x ∷ y ∷ queue

  -- The messages due, in the order of their pops, and the rest of the queue.
  unfoldable pub pop_due : ℕ → List (Queued P) → List (AgentId × P) × List (Queued P)
  pop_due now [] = ([], [])
  pop_due now (x ∷ queue) =
      let (due, rest) = pop_due now queue in
      if leb x.deliver_at now then ((x.dest, x.payload) ∷ due, rest) else ([], x ∷ queue)

-- `.get(sender, frozenset())`
abbrev pub neighbours_of : Option (List AgentId) → List AgentId
neighbours_of none = []
neighbours_of (some ids) = ids

module _ {S P : Type 0} where
  unfoldable pub sim_transport :
      (ℕ → Topology) → (S → Bool × S) → (S → ℤ × S) → S → SimTransport S P
  sim_transport topology_fn lost delay rng = record {
    topology_fn = topology_fn;
    lost = lost;
    delay = delay;
    rng = rng;
    queue = [];
    seq = 0;
    messages_sent = 0;
  }

  -- The body of the loop of `send_payload`.
  unfoldable pub send_to : P → ℕ → AgentId → SimTransport S P → SimTransport S P
  send_to payload now dest t =
      let (is_lost, rng) = t.lost t.rng in
      if is_lost
      then record t { messages_sent = t.messages_sent + 1; rng = rng }
      else let (delay, rng') = t.delay rng in
        let item : Queued P = record {
          deliver_at = now + 1 + pos_part delay;
          seq = t.seq;
          dest = dest;
          payload = payload;
        } in
        record t {
          messages_sent = t.messages_sent + 1;
          rng = rng';
          queue = heappush item t.queue;
          seq = t.seq + 1;
        }

  unfoldable pub send_loop : P → ℕ → List AgentId → SimTransport S P → SimTransport S P
  send_loop payload now [] t = t
  send_loop payload now (dest ∷ neighbours) t =
      send_loop payload now neighbours (send_to payload now dest t)

  unfoldable pub send_payload : P → AgentId → ℕ → SimTransport S P → SimTransport S P
  send_payload payload sender now t =
      send_loop payload now (neighbours_of (get sender (t.topology_fn now))) t

  unfoldable pub deliver_due : ℕ → SimTransport S P → List (AgentId × P) × SimTransport S P
  deliver_due now t = let (due, rest) = pop_due now t.queue in (due, record t { queue = rest })

  unfoldable pub idle : SimTransport S P → Bool
  idle t = elim t.queue [ [] ↦ true | x ∷ queue ↦ false ]

unfoldable pub send :
    {S : Type 0}
    → PriceTableMessage
    → ℕ
    → SimTransport S PriceTableMessage
    → SimTransport S PriceTableMessage
send message now t = send_payload message message.sender now t
