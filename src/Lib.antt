-- ===== src/Lib.antt =====
-- The Bybit v5 plugin of PyneCore (src/pynecore_bybit/), verified in part: the position ledger that
-- decides which share of a venue position is the run's, and the pure parts of the data and spot side
-- around it.
--
-- The program. A run of the plugin trades on an account that others trade on as well. The private
-- stream gives executions (the run's own and foreign ones) and position views, both stamped with
-- the venue's sequence number. `LegLedger` (ledger.py) collects them for each leg, walks the
-- executions between two views once the evidence is complete, and books what a foreign execution
-- took of the run's share; the event stream (events.py) nets the entry rows, by which the run
-- owns its exposure, and positions.py clamps them to the venue's position at adoption. The
-- provider (provider.py) resolves the chart's symbol to an instrument (models.py) and downloads
-- its candles; live_provider.py streams them, closed bars through a queue and the forming one in
-- a slot, and fills the gaps of a reconnect; the spot port (inventory.py) reads the run's own
-- executions for the core's inventory; the helpers (helpers.py) size orders, name them and step
-- through bars; exceptions.py says what a `retCode` means, hosts.py where requests go.
--
-- The files.
--   Prelude: what all modules share. Tests are Boolean tests on numbers, Lists list idioms of the
--     source, Int signed integers, Texts texts as code points,
--     Divisor the greatest common divisor.
--   Ledger: ledger.py. State has its records; Share `_bounded`, `_capped`, `_take_journal`,
--     `_add_credit`, `_add_doubt`, `_cap_doubt`, `_note_room`, `_add_gap`; Record `add_view`,
--     `add_event`, `start`, `sync_journal`, `take_to_net`, `take_credit`; Walk `_walk`; Late `late_own`
--     and `late_foreign`; Advance `advance`, `_give_up`, `_settle_gaps`. Bounds, Frame, Verdict,
--     GivingUp, Settling, Netting, Sight, Rounds, Journal, LateShare, Kept, Reach, Charge, Doubt and
--     Limits hold the proofs, Examples the examples.
--   Errors: exceptions.py; Classes has the proofs.
--   Hosts: hosts.py; Sound has the proofs.
--   Helpers: helpers.py. Grid has the decimal grids (proofs in Rounding), LinkId `wire_link_id`
--     (proofs in WireIds), Timeframes the tables and `add_interval` (proofs in Tables and Calendar).
--   Instruments: Info and PriceGrid are models.py; Symbols and Resolve are `_resolve_market`,
--     `_fetch_instrument` and `_get_market` of provider.py, Metadata `get_list_of_symbols` and
--     `update_symbol_info`; Caching, Notation, PriceGrid/Exact and Tradable have the proofs.
--   Download: `download_ohlcv` of provider.py; Progress has the proofs.
--   Live: live_provider.py. State is its state; Dispatch `_on_ws_message`, `_enqueue_closed`,
--     `_on_ws_closed` and the watchdog; Backfill `_backfill_gap`, `_release_pending_closed` and
--     `on_reconnect`; Startup `backfill_closed_bars`; Consumer `connect`, `disconnect`, `watch_ohlcv`.
--     Kept, Order, Ends, Gap, Closing, Resume, Delivery, Handing, Reach, Recovery and Repeat hold the
--     proofs.
--   Entries: the entry rows of events.py and positions.py. Store has the rows and the interface of the
--     core's store; Netting `_net_entry_row`, `_reduce_entry_ownership`, `_close_entry_rows_when_flat`,
--     `_net_entry_rows_fifo`, `_clamp_entry_ownership_to_venue`; Keys, Owned, Fifo, Walked, Clamped,
--     Sweep and Cursor hold the proofs.
--   Inverse: the inverse contracts. Mirror is `_inverse_seed_net`, `_inverse_core_size`,
--     `_apply_inverse_fill`, `_net_inverse_mirror` of positions.py; Convert the `_inverse_...` methods of
--     execution.py; Flat and Capped have the proofs.
--   Stops: `_venue_bracket_claim_slices` of events.py in Slices (proofs in Shares and
--     Identity); Downtime `_own_venue_stop_execution` and `_venue_closeout_execution`; Unbooked
--     `_drain_deriv_exec_window` and `_unbooked_executions` (proofs in Recovered, Tiling, Complete).
--   Inventory: inventory.py. Floor has the least sellable quantity (proofs in Floors), Rows the
--     translation of a row (proofs in Fills), Paging windows and pages (proofs in Windows).
--
-- How the code corresponds. An object with mutable fields is a record that each method takes and
-- returns; a `LegGap` is held through references, so it has an identity (`ident`) that a write
-- names. The ledger's floats are integers, multiples of one quantum: sums and differences are
-- exact, and the tolerance is a natural number. A `Decimal` is a count of units that the
-- arguments of a call share; a quotient is exact. A dict is a list of its items or, keyed by a
-- side, a record of three options. An exception or a failed assertion is a value of the result.
-- Sequence numbers and times are natural numbers. What the event loop runs while a coroutine
-- awaits is a list of arrivals that the await takes, and while it closes a transport a list of
-- pushes. A row of a backfill may hold a value that `int` or `float` refuses; those of
-- `download_ohlcv` are taken to be numbers. A float quotient is an argument. Answers of the
-- venue, the store and the core's validation are arguments; the store of order rows is an
-- interface with the laws the plugin relies on.
--
-- Loops. The `while` of `advance` runs on fuel, one round more than the ledger has views: each round
-- stops or drops a view. The `while` of `download_ohlcv` runs on fuel, one round more than the window
-- has milliseconds: each round moves the cursor on. The two backfills of live_provider.py run on fuel
-- quadratic in the clock: a round that queues a bar moves the closed-bar cursor on, another one the
-- cursor of the requests. The page loop has the source's own bound of 200.
-- The search of the execution history runs on fuel too, the floor's milliseconds.
-- The month of a day is searched on fuel, one month for each day. Euclid's
-- loop runs on fuel, its second argument. The listing of symbols walks a finite chain of pages: that
-- the venue's cursors end is assumed there. All other recursion is structural.
--
-- Not modelled: the broker side that is full of I/O (events.py, positions.py and execution.py
-- apart from the entry rows, the stop executions and the inverse contracts, protection.py,
-- reconcile.py, recovery.py, state.py), the transports (rest.py, ws.py), and the assembly of the
-- plugin (plugin.py, _base.py, config.py). Of helpers.py `format_decimal` and the trading-stop
-- levels are left out, of provider.py the constant 24/7 schedule, of inventory.py the balance
-- read.
pub mod Prelude
pub mod Ledger
pub mod Errors
pub mod Hosts
pub mod Helpers
pub mod Instruments
pub mod Download
pub mod Inventory
pub mod Live
pub mod Entries
pub mod Inverse
pub mod Stops
