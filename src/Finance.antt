-- ===== src/Finance.antt =====
-- The school's finance office: inventory, payroll, the split of fees.
pub mod Inventory
pub mod Split
pub mod Payroll
