-- ===== src/Server.antt =====
-- services/fastenhancer-server/src/fastenhancer_server: one stream of the server, from the client's
-- messages through the input queue, the scheduler and the output queue to the server's messages.
pub mod Queue
pub mod Metrics
pub mod Session
pub mod Scheduler
pub mod Service
pub mod Start
pub mod Model
pub mod Call
pub mod Settings
mod Checks
pub mod Pipeline
pub mod Caches
pub mod Registry
pub mod System
pub mod Fixture
mod Examples
