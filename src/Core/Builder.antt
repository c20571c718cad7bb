-- ===== src/Core/Builder.antt =====
-- The builders of core/src/builder.
pub mod Script
pub mod Address
pub mod Transaction
