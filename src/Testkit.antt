-- ===== src/Testkit.antt =====
-- crates/iron-testkit: the simulated clock, event queue, faults and network.
pub mod Pairs
pub mod Driver
pub mod Ordered
pub mod Pops
pub mod Network
pub mod Sends
pub mod Deliver
mod Tests
