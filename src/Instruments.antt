-- ===== src/Instruments.antt =====
-- Instruments: the records of pynecore_bybit/models.py, and how pynecore_bybit/provider.py finds the
-- instrument that a symbol means.
pub mod Info
pub mod Symbols
pub mod Resolve
pub mod PriceGrid
pub mod Metadata
mod Tradable
mod Caching
mod Notation
mod Examples
