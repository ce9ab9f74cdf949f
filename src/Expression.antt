-- ===== src/Expression.antt =====
-- pkg/expression: the filter expressions that a subscription carries.
pub mod Types
pub mod Value
pub mod Compare
pub mod Fields
pub mod Operators
pub mod Like
pub mod Order
mod Tests
pub mod Evaluate
pub mod Validate
pub mod Typecheck
pub mod Build
pub mod Kernel
pub mod WellFormed
pub mod Safety
