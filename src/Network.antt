-- ===== src/Network.antt =====
-- Many agents of engine.py over an unreliable network. An agent may tick at any time, and any
-- message that was ever broadcast may reach any agent, at any time and any number of times, or
-- never: the event loops of the source (the round harness, the nodes) run such steps.
pub mod Invariant
pub mod Advance
pub mod Steps
pub mod Start
pub mod Safety
pub mod Tests
use distributed_mobile_robot.Base.{ℤ, ◌≡◌, ◌⊎◌, List, [], ◌∷◌, ◌++◌, some, Result, ok}
use distributed_mobile_robot.Base.Dict.{Dict, get, set}
use distributed_mobile_robot.Types.{AgentId, PriceTableMessage}
use distributed_mobile_robot.Engine.{AuctionAgent, handle_message, tick}

pub record Network : Type 0 where
  pub agents : Dict AuctionAgent
  pub sent : List PriceTableMessage

-- `m` is one of `ms`.
abbrev pub Among : PriceTableMessage → List PriceTableMessage → Type 0
Among m [] = ⊥
Among m (x ∷ ms) = (x ≡ m) ⊎ Among m ms

abbrev pub update : Network → AgentId → AuctionAgent → List PriceTableMessage → Network
update s i b out = record { agents = set i b s.agents; sent = out ++ s.sent }

pub data Step (s s' : Network) : Type 0 where
  receives :
      (i : AgentId) (a b : AuctionAgent) (m : PriceTableMessage)
      → get i s.agents ≡ some a
      → Among m s.sent
      → handle_message a m ≡ ok b
      → s' ≡ update s i b []
      → Step s s'
  ticks :
      (i : AgentId) (a b : AuctionAgent) (out : List PriceTableMessage)
      → get i s.agents ≡ some a
      → tick a ≡ ok (out, b)
      → s' ≡ update s i b out
      → Step s s'

pub data Reach (s : Network) : Network → Type 0 where
  here : Reach s s
  next : {t u : Network} → Reach s t → Step t u → Reach s u
