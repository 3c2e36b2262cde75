-- ===== src/Helpers.antt =====
-- The pure helpers of pynecore_bybit/helpers.py.
pub mod Grid
pub mod Rounding
pub mod LinkId
pub mod WireIds
pub mod Timeframes
mod Examples
