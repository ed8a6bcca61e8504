-- ===== src/Foundation.antt =====
-- packages/foundation/src: errors, validation, exact decimals, money and quantities.
pub mod Errors
pub mod Validation
pub mod Decimal
pub mod Money
pub mod Quantity
mod Examples
