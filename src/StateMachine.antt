-- ===== src/StateMachine.antt =====
-- StateMachine: what a protocol object keeps for each of its connections.
pub mod Buffers
pub mod States
mod Tests
