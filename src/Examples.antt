-- ===== src/Examples.antt =====
-- Each property at a concrete input, and the data it is tried on.
mod Data
mod Claims
mod Pickups
mod Passes
mod Streams
mod Node
mod Callers
mod Shares
mod Header
mod Scans
mod Splits
