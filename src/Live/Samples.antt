-- ===== src/Live/Samples.antt =====
-- One minute bars, pushes and a venue for the tests of the live candles.
use pynecore_plugin_bybit.Prelude.{
  ℕ, ◌+◌, ◌*◌, Bool, true, false, none, some, [], ◌∷◌, leb, if◌then◌else◌,
}
use pynecore_plugin_bybit.Live.State.{Ohlcv, LiveProvider}
use pynecore_plugin_bybit.Live.Dispatch.{KlineEntry, Push, pushed}
use pynecore_plugin_bybit.Live.Backfill.{Row, no_answer, answered, World}
use pynecore_plugin_bybit.Live.Consumer.{Setup}

abbrev pub minute : ℕ → ℕ
minute n = n * 60000

abbrev pub entry : ℕ → Bool → KlineEntry
entry n final = record {
  start = some (minute n);
  opening = some "1";
  high = some "3";
  low = some "1";
  closing = some "2";
  volume = some "10";
  confirm = some final;
}

abbrev pub bar : ℕ → Bool → Ohlcv
bar n final = record {
  timestamp = minute n;
  opening = "1";
  high = "3";
  low = "1";
  closing = "2";
  volume = "10";
  is_closed = final;
}

abbrev pub row : ℕ → Row
row n = record {
  start = minute n;
  prices = some (record { opening = "1"; high = "3"; low = "1"; closing = "2"; volume = "10" });
}

abbrev pub push : Push
push = record { topic = "kline.1.BTCUSDT"; entries = entry 5 true ∷ entry 6 false ∷ [] }

abbrev pub setup : Setup
setup = record {
  symbol = some "BTCUSDT";
  timeframe = some "1";
  ws_public = some "stream.bybit.com";
}

abbrev pub online : LiveProvider
online = record {
  update_queue = some [];
  latest_snapshot = none;
  data_ready = some false;
  pending_closed = none;
  last_closed_bar_ts = none;
  stream_bar_ts = none;
  last_price = none;
  public_ws = some (record { is_open = true; last_message_ts = minute 5 });
  watchdog_task = true;
}

-- The stream drops after bar 5; bar 9 closes on the new one while the gap is read.
abbrev pub world : World
world = record {
  closing = [];
  now_ts = minute 9 + 500;
  meanwhile = [];
  resolved = true;
  venue = λ from to. (
    pushed (record { topic = "kline.1.BTCUSDT"; entries = entry 9 true ∷ [] }) ∷ [],
    answered (row 8 ∷ row 7 ∷ row 6 ∷ row 9 ∷ []),
  );
}

abbrev pub back : LiveProvider
back = record online {
  pending_closed = some [];
  last_closed_bar_ts = some (minute 5);
  stream_bar_ts = some (minute 6);
}

-- A gap of which the first page comes and the second request fails.
abbrev pub half : World
half = record {
  closing = [];
  now_ts = minute 9 + 500;
  meanwhile = [];
  resolved = true;
  venue = λ from to. ([], if leb from (minute 6) then answered (row 6 ∷ []) else no_answer);
}
