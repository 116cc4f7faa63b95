-- ===== src/LoadBalance.antt =====
-- core/loadbalance.
pub mod Upstream
pub mod Pool
pub mod Choice
pub mod Random
pub mod Cycle
pub mod RoundRobin
pub mod Hash
pub mod Least
pub mod Weight
pub mod Registry
pub mod Balanced
pub mod Samples
mod Tests
