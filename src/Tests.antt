-- ===== src/Tests.antt =====
-- The theorems at concrete objects, a module for each component.
mod Memory
mod Cache
mod Policies
mod Addresses
mod Sharing
mod Storage
mod PageTables
mod Processes
mod Traces
mod Replays
mod Unmapping
