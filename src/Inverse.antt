-- ===== src/Inverse.antt =====
-- Inverse contracts: the net-position mirror of pynecore_bybit/positions.py and the conversion between
-- base quantities and contracts of pynecore_bybit/execution.py.
pub mod Mirror
pub mod Convert
pub mod Flat
pub mod Capped
mod Examples
