-- ===== src/Query.antt =====
-- storage/src/query.
pub mod Function
pub mod Outcome
pub mod Expr
pub mod Parser
pub mod Promql
pub mod Lengths
pub mod Leaves
pub mod Cache
mod Tests
