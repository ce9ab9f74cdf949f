-- ===== src/Expression/Safety.antt =====
-- Type safety of pkg/expression: what `Evaluate` may return on a tree that `NewExpression` and
-- `Validate` have accepted.
pub mod Values
mod Comparisons
pub mod Nodes
pub mod Typing
pub mod Inversion
pub mod Evaluate
