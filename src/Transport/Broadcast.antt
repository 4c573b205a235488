-- ===== src/Transport/Broadcast.antt =====
-- What a broadcast adds to the queue.
use distributed_mobile_robot.Base.{ℕ, ◌+◌, pos_part, true, ◌≡◌, ◌⊎◌, List, [], ◌∷◌, In, length}
use distributed_mobile_robot.Types.{AgentId}
use distributed_mobile_robot.Transport.{Queued, SimTransport}

module _ {P : Type 0} where
  abbrev pub QueuedIn : Queued P → List (Queued P) → Type 0
  QueuedIn x [] = ⊥
  QueuedIn x (y ∷ queue) = (y ≡ x) ⊎ QueuedIn x queue

module _ {S P : Type 0} where
  -- An item of the broadcast: a delay drawn in some state of the generator puts it off.
  pub record IsSent (payload : P) (now : ℕ) (t : SimTransport S P) (x : Queued P) : Type 0 where
    pub same : x.payload ≡ payload
    pub drawn : S
    pub time : x.deliver_at ≡ now + 1 + pos_part (t.delay drawn).0

  abbrev pub IsReached : P → ℕ → SimTransport S P → List (Queued P) → AgentId → Type 0
  IsReached payload now t queue id =
      (x : Queued P) × QueuedIn x queue × (x.dest ≡ id) × IsSent payload now t x

  -- `t'` is what a broadcast to `ids` makes of `t`.
  pub record IsBroadcast (payload : P) (now : ℕ) (ids : List AgentId) (t t' : SimTransport S P)
      : Type 0 where
    pub kept : (x : Queued P) → QueuedIn x t.queue → QueuedIn x t'.queue
    pub added :
        (x : Queued P)
        → QueuedIn x t'.queue
        → QueuedIn x t.queue ⊎ (In x.dest ids × IsSent payload now t x)
    pub reached :
        (id : AgentId)
        → In id ids
        → ((s : S) × ((t.lost s).0 ≡ true)) ⊎ IsReached payload now t t'.queue id
    pub counted : t'.messages_sent ≡ t.messages_sent + length ids
    pub same_lost : t'.lost ≡ t.lost
    pub same_delay : t'.delay ≡ t.delay
