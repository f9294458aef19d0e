-- ===== src/Budget.antt =====
-- src/budget.rs: what a node holds at once beside its pools. `Defs` has the operations, `System`
-- every interleaving of them, `Laws` what holds of it, `Node` the budgets a node builds.
pub mod Defs
pub mod System
pub mod Laws
pub mod Node
