-- ===== src/Live/Examples.antt =====
-- The live candles on concrete pushes: one minute bars, a venue that answers a backfill.
use mathlib.Core.Path.{subst}
use pynecore_plugin_bybit.Prelude.{
  ◌+◌, true, false, ◌≡◌, refl, Option, none, some, List, [], ◌∷◌, table_get, sort_by, insert_by,
}
use pynecore_plugin_bybit.Helpers.Timeframes.{
  add_interval, bar_close_ts, add_on, to_exchange_timeframe,
}
use pynecore_plugin_bybit.Prelude.Texts.{begins}
use pynecore_plugin_bybit.Live.State.{Ohlcv, LiveProvider, is_settled, is_beyond, wake, set_ready}
use pynecore_plugin_bybit.Live.Dispatch.{
  bar_of, confirmed, drop_stale, put, enqueue_closed, note_trade, on_closed_bar, on_bar, on_entry,
  on_entries, on_push, on_ws_message, pushed, arrive, arrive_all,
}
use pynecore_plugin_bybit.Live.Backfill.{
  fill_bar, Backfilled, complete, on_reconnect, backfill_gap, fill_on, fill_from, fill_gap,
  fill_window, fill_chunk, after_round, take_answer, after_rows, cursor_after, past_chunk,
  chunk_end, fill_rows, fill_row, or_zero, ascending_rows, closed_bar, gap_start, gap_fuel,
  release_pending, release_on, release, settle_reconnect, settled_reconnect,
}
use pynecore_plugin_bybit.Live.Startup.{backfill_closed_bars}
use pynecore_plugin_bybit.Live.Consumer.{
  Connected, live, connect, connect_with, connect_on, connect_to, subscribed, dial, fresh,
  held_back, is_some, update, watch_ohlcv, watch_on, watch_queue, watch_item,
}
use pynecore_plugin_bybit.Live.Order.{Ordered, IsLive, Reached}
use pynecore_plugin_bybit.Live.Recovery.{IsHanded, backfill_closed_bars-IsHanded}
use pynecore_plugin_bybit.Live.Repeat.{on_bar-again}
use pynecore_plugin_bybit.Live.Delivery.{watch_times, watch_times-delivers}
use pynecore_plugin_bybit.Live.Reach.{
  new_provider, Step, connected, arrived, watched, Reach, start, next, seen-Ordered, queued-IsLive,
  cursor-Reached, connected_provider,
}
use pynecore_plugin_bybit.Live.Samples.{minute, bar, push, setup, online, world, back}

first_connect : connect setup true true [] [] (minute 5) new_provider ≡ live online
unfolding connect connect_with connect_on connect_to subscribed dial fresh held_back is_some
    to_exchange_timeframe arrive_all table_get
first_connect = refl

-- The stream closes a bar and shows the next one; the consumer gets both, the closed one first.
abbrev pushed_to : LiveProvider
pushed_to = record online {
  update_queue = some (some (bar 5 true) ∷ []);
  latest_snapshot = some (bar 6 false);
  data_ready = some true;
  last_closed_bar_ts = some (minute 5);
  stream_bar_ts = some (minute 6);
  last_price = some "2";
}

first_push : arrive (pushed push) online ≡ pushed_to
unfolding arrive on_ws_message on_push on_entries on_entry on_bar on_closed_bar enqueue_closed
    note_trade drop_stale put bar_of confirmed is_settled is_beyond set_ready wake begins
first_push = refl

watch_first :
    watch_ohlcv pushed_to ≡ update (bar 5 true) (record pushed_to { update_queue = some [] })
unfolding watch_ohlcv watch_on watch_queue watch_item
watch_first = refl

reach_first : Reach (record {
  provider = record pushed_to { update_queue = some [] };
  seen = bar 5 true ∷ [];
  aborted = false;
})
reach_first =
    next
      (next
        (next start (
          subst
            (λ (x : Connected).
              Step (record { provider = new_provider; seen = []; aborted = false })
                (record { provider = connected_provider x; seen = []; aborted = false }))
            first_connect (connected setup true true [] [] (minute 5) _ refl)))
        (subst
          (λ (x : LiveProvider).
            Step (record { provider = online; seen = []; aborted = false })
              (record { provider = x; seen = []; aborted = false }))
          first_push (arrived (pushed push) _ refl)))
      (watched (bar 5 true) _ _ refl watch_first)

seen-Ordered_example : Ordered (bar 5 true ∷ [])
seen-Ordered_example = seen-Ordered reach_first

queued-IsLive_example : IsLive (bar 5 true ∷ []) (record pushed_to { update_queue = some [] })
queued-IsLive_example = queued-IsLive reach_first refl

cursor-Reached_example : Reached (some (minute 5)) (some (minute 5))
cursor-Reached_example = cursor-Reached reach_first

backfill_closed_bars-IsHanded_example :
    IsHanded "1" (minute 5) (minute 9 + 500) (backfill_closed_bars world "1" (minute 5) online)
backfill_closed_bars-IsHanded_example =
    backfill_closed_bars-IsHanded world "1" "1" (minute 5) online
      (unfold to_exchange_timeframe table_get in refl)

on_bar-again_example : on_bar (bar 5 true) (on_bar (bar 5 true) online) ≡ on_bar (bar 5 true) online
on_bar-again_example = on_bar-again (bar 5 true) online refl

watch_times-delivers_example : watch_times 2 pushed_to ≡ bar 5 true ∷ bar 6 false ∷ []
watch_times-delivers_example = watch_times-delivers (bar 5 true ∷ []) pushed_to (refl, refl)

abbrev queue_after : Option Backfilled → Option (List (Option Ohlcv))
queue_after (some (complete p)) = p.update_queue
queue_after _ = none

-- After the reconnect the gap is queued first and the bar held back last.
reconnect_test :
    queue_after (on_reconnect world (some "1") back)
    ≡ some (some (bar 6 true) ∷ some (bar 7 true) ∷ some (bar 8 true) ∷ some (bar 9 true) ∷ [])
unfolding on_reconnect backfill_gap fill_on fill_from fill_gap fill_window fill_chunk after_round
    take_answer after_rows cursor_after past_chunk chunk_end fill_rows fill_row fill_bar or_zero
    ascending_rows closed_bar gap_start gap_fuel release_pending release_on release settle_reconnect
    settled_reconnect arrive_all arrive on_ws_message on_push on_entries on_entry on_bar
    on_closed_bar enqueue_closed note_trade drop_stale put bar_of confirmed is_settled is_beyond
    set_ready wake to_exchange_timeframe table_get begins add_interval bar_close_ts add_on sort_by
    insert_by
reconnect_test = refl
