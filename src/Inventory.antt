-- ===== src/Inventory.antt =====
-- The spot inventory port of pynecore_bybit/inventory.py: floors, rows, and windows of executions.
pub mod Floor
pub mod Rows
pub mod Paging
mod Windows
mod Fills
mod Floors
mod Examples
