-- ===== src/Ops.antt =====
-- The state machines around the program: the socket monitor of src/ops and the console's limiter of
-- src/backoffice.
pub mod Health
pub mod Limiter
pub mod WaVersionWatch
pub mod RouteHealth
pub mod Console
pub mod Config
pub mod Costs
pub mod RouterPanel
