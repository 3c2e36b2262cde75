-- ===== src/Live/Faults.antt =====
-- Runs of the live candles in which a bar is lost or comes twice.
use pynecore_plugin_bybit.Prelude.{
  ℕ, ◌+◌, true, false, ◌≡◌, refl, Option, none, some, [], ◌∷◌, table_get, sort_by, insert_by,
}
use pynecore_plugin_bybit.Helpers.Timeframes.{
  add_interval, bar_close_ts, add_on, to_exchange_timeframe,
}
use pynecore_plugin_bybit.Prelude.Texts.{begins}
use pynecore_plugin_bybit.Live.State.{LiveProvider, is_settled, is_beyond, wake, set_ready}
use pynecore_plugin_bybit.Live.Dispatch.{
  bar_of, confirmed, drop_stale, put, enqueue_closed, note_trade, on_closed_bar, on_bar, on_entry,
  on_entries, on_push, on_ws_message, on_messages, force_close, on_ws_closed, arrive_all,
}
use pynecore_plugin_bybit.Live.Backfill.{
  answered, fill_bar, raised, crashed, rewind, kill, World, Backfilled, on_reconnect, backfill_gap,
  fill_on, fill_from, fill_gap, fill_window, fill_chunk, after_round, take_answer, after_rows,
  cursor_after, past_chunk, chunk_end, fill_rows, fill_row, or_zero, ascending_rows, closed_bar,
  gap_start, gap_fuel, settle_reconnect, settled_reconnect,
}
use pynecore_plugin_bybit.Live.Startup.{
  found, backfill_closed_bars, search_on, search_gap, search_window, search_chunk, after_search,
  take_found, take_recovery, recover_rows, recover_bar, recover_row, cursor_past, hand_over,
  newest_recovered, advance_closed_cursor, search_fuel,
}
use pynecore_plugin_bybit.Live.Consumer.{update, watch_ohlcv, watch_on, watch_queue, watch_snapshot}
use pynecore_plugin_bybit.Live.Samples.{minute, entry, bar, row, online, back, half}

-- A bar that the search hands over as closed stays in the snapshot slot, and comes out after it.
abbrev racing : LiveProvider
racing = record online { latest_snapshot = some (bar 6 false); data_ready = some true }

abbrev quiet : World
quiet = record {
  closing = [];
  now_ts = minute 7 + 500;
  meanwhile = [];
  resolved = true;
  venue = λ from to. ([], answered (row 6 ∷ []));
}

stale_snapshot :
    backfill_closed_bars quiet "1" (minute 5) racing
    ≡ some (found (bar 6 true ∷ []) (record racing { last_closed_bar_ts = some (minute 6) }))
unfolding backfill_closed_bars search_on search_gap search_window search_chunk after_search
    take_found take_recovery recover_rows recover_row recover_bar cursor_past hand_over
    newest_recovered advance_closed_cursor search_fuel arrive_all ascending_rows closed_bar
    chunk_end past_chunk is_settled is_beyond to_exchange_timeframe table_get add_interval
    bar_close_ts add_on sort_by insert_by
stale_snapshot = refl

stale_update :
    watch_ohlcv (record racing { last_closed_bar_ts = some (minute 6) })
    ≡ update
        (bar 6 false)
        (record racing { last_closed_bar_ts = some (minute 6); latest_snapshot = none })
unfolding watch_ohlcv watch_on watch_queue watch_snapshot
stale_update = refl

-- The cursor is back, and the bar of the first page still stands in the queue before the sentinel.
rewound_queue :
    on_reconnect half (some "1") back
    ≡ some (
        raised (record back {
          pending_closed = none;
          update_queue = some (some (bar 6 true) ∷ none ∷ []);
          data_ready = some true;
          public_ws = none;
        }))
unfolding on_reconnect backfill_gap fill_on fill_from fill_gap fill_window fill_chunk after_round
    take_answer after_rows cursor_after past_chunk chunk_end fill_rows fill_row fill_bar or_zero
    ascending_rows closed_bar gap_start gap_fuel settle_reconnect settled_reconnect rewind kill
    force_close on_messages on_ws_closed arrive_all enqueue_closed drop_stale put wake
    to_exchange_timeframe table_get add_interval bar_close_ts add_on sort_by insert_by
rewound_queue = refl

-- A bar that is confirmed while the transport is closed moves the rewound cursor over the gap.
abbrev closing_late : World
closing_late = record half {
  closing = record { topic = "kline.1.BTCUSDT"; entries = entry 9 true ∷ [] } ∷ [];
}

abbrev cursor_after_error : Option Backfilled → Option ℕ
cursor_after_error (some (raised p)) = p.last_closed_bar_ts
cursor_after_error (some (crashed p)) = p.last_closed_bar_ts
cursor_after_error _ = none

moved_cursor : cursor_after_error (on_reconnect closing_late (some "1") back) ≡ some (minute 9)
unfolding on_reconnect backfill_gap fill_on fill_from fill_gap fill_window fill_chunk after_round
    take_answer after_rows cursor_after past_chunk chunk_end fill_rows fill_row fill_bar or_zero
    ascending_rows closed_bar gap_start gap_fuel settle_reconnect settled_reconnect rewind kill
    force_close on_messages on_ws_message on_push on_entries on_entry on_bar on_closed_bar bar_of
    confirmed note_trade is_settled is_beyond set_ready on_ws_closed arrive_all enqueue_closed
    drop_stale put wake to_exchange_timeframe table_get begins add_interval bar_close_ts add_on
    sort_by insert_by
moved_cursor = refl

-- A row with a value that cannot be read: the cursor stays past the bar that was queued before.
abbrev unreadable_row : World
unreadable_row = record half {
  venue = λ from to. ([], answered (row 6 ∷ record { start = minute 7; prices = none } ∷ []));
}

unread_cursor : cursor_after_error (on_reconnect unreadable_row (some "1") back) ≡ some (minute 6)
unfolding on_reconnect backfill_gap fill_on fill_from fill_gap fill_window fill_chunk after_round
    take_answer after_rows cursor_after past_chunk chunk_end fill_rows fill_row fill_bar or_zero
    ascending_rows closed_bar gap_start gap_fuel settle_reconnect settled_reconnect arrive_all
    enqueue_closed drop_stale put wake to_exchange_timeframe table_get add_interval bar_close_ts
    add_on sort_by insert_by
unread_cursor = refl
