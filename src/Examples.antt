-- ===== src/Examples.antt =====
-- Tests, and the theorems at concrete inputs.
mod Fixtures
mod Tables
mod Trees
mod Versions
mod Logs
mod Members
mod Files
mod Leases
mod Votes
mod Replication
