-- ===== src/Contract.antt =====
-- packages/contracts/realtime/v1: the types and rules that the realtime service and the API share.
pub mod Runtime
pub mod Mode
pub mod Equality
