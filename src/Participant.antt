-- ===== src/Participant.antt =====
-- auction_core/src/auction_core/coordination/participant.py: the state machine that every robot runs.
-- `State` has the state, the constructor and the mission API, `Handle` the messages, and `Cycle` the
-- tick with its coordinator role.
pub mod State
pub mod Handle
pub mod Cycle
pub mod Leasing
pub mod Duty
pub mod Duties
pub mod Coordinator
pub mod Tests
