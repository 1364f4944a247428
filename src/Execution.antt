-- ===== src/Execution.antt =====
-- backend/core/execution.py: the durable-execution tables of backend/core/schema.py and the six
-- managers on them, a module each. Texts are opaque numbers, a cost is counted in a unit small
-- enough to be whole, and an operation takes the uuid and the clock's reading that it uses.
pub mod Events
pub mod Attempts
pub mod Invocations
pub mod Leases
pub mod DeadLetters
pub mod Cancellation
mod Tests
