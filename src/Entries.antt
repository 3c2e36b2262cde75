-- ===== src/Entries.antt =====
-- The durable entry rows, by which a run owns its part of a position: the netting of reducing fills
-- (pynecore_bybit/events.py) and the clamp at adoption (pynecore_bybit/positions.py).
pub mod Store
pub mod Netting
pub mod Keys
pub mod Owned
pub mod Fifo
pub mod Walked
pub mod Clamped
pub mod Sweep
pub mod Cursor
mod Examples
