-- ===== src/Workers.antt =====
-- pkg/fluxqueue/strategy/workers: what the four workers do with a job that river gives them. The
-- log lines, the timeouts and the deferred closes are not modelled, and the text of an error keeps
-- the fixed part of its format.
pub mod Nodes
pub mod Gate
pub mod Release
pub mod Job
pub mod Cleanup
pub mod Reservation
pub mod Ungate
