-- ===== src/Consensus.antt =====
-- internal/consensus: the replicated key-value state machine.
pub mod StateMachine
