-- ===== src/GuestTsc/Sync/Generations.antt =====
-- The generations of matching counters, while vCPUs are created and have their counters set in any order.
pub mod Step
pub mod Machine
pub mod Reachable
pub mod Clock
